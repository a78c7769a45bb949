-- ===== src/Bytestream/Limit.antt =====
-- What a transfer of src/bytestream/bytestream.go writes.
use mathlib.Core.List.{append_assoc, append-nil}
use bepper.Base.{
  joined, ℕ, suc, String, ◌≡◌, ◌↔◌, refl, sym, subst, ◌⊎◌, ap, ◌∙◌, Bool, true, false, ◌+◌, ◌≤◌,
  Option, none, some, List, [], ◌∷◌, ◌++◌, length, length-append, if◌then◌else◌, Bool-cases,
  Option-cases, inl, inr, arith,
}
use bepper.Base.Int.{ℤ, pos, ◌≤ℤ◌}
use bepper.Base.Result.{Result, ok, ok_inj}
use bepper.Blobstore.{Bytes, Error}
use bepper.Bytestream.{
  StreamError, Client, Connection, Incoming, exceeds, copy, ended, read_to, stream_resource, stream,
  buffered, fetch, write_buffer, too_large, outgoing_metadata, parse_uri, dial,
}
use bepper.Index.GitUrl.{UrlPackage}

-- A blob that a limit allows: a limit that is not positive allows every blob.
abbrev pub WithinLimit : ℤ → Bytes → Type 0
WithinLimit max_size bytes = (max_size ≤ℤ pos 0) ⊎ (pos (length bytes) ≤ℤ max_size)

exceeds-WithinLimit :
    (max_size : ℤ) (bytes : Bytes)
    → (exceeds max_size (length bytes) ≡ false) ↔ WithinLimit max_size bytes
unfolding exceeds
exceeds-WithinLimit max_size bytes = (
  λ h. ground (arith, h),
  λ h. elim h [ inl unlimited ↦ ground (arith, unlimited) | inr fits ↦ ground (arith, fits) ],
)

-- A limit that allows a blob allows its parts.
exceeds_more :
    (max_size : ℤ) (total more : ℕ)
    → exceeds max_size (total + more) ≡ false
    → exceeds max_size total ≡ false
unfolding exceeds
exceeds_more max_size total more h = ground (arith, h)

joined_length :
    (max_size : ℤ) (total : ℕ) (chunk rest : Bytes)
    → exceeds max_size (total + length (chunk ++ rest))
      ≡ exceeds max_size (total + length chunk + length rest)
joined_length max_size total chunk rest =
    ap (exceeds max_size) (omega (arith, length-append chunk rest))

copy-all :
    (max_size : ℤ) (total : ℕ) (chunks : List Bytes) (buf : Bytes)
    → exceeds max_size (total + length (joined chunks)) ≡ false
    → copy write_buffer max_size total chunks none buf ≡ (none, buf ++ joined chunks)
unfolding copy
copy-all max_size total [] buf h = ap (λ b. (none, b)) (sym (append-nil buf))
copy-all max_size total (chunk ∷ chunks) buf h =
    let within = sym (joined_length max_size total chunk (joined chunks)) ∙ h in
    rw (exceeds_more max_size (total + length chunk) (length (joined chunks)) within) (
      copy-all max_size (total + length chunk) chunks (buf ++ chunk) within
      ∙ ap (λ b. (none, b)) (append_assoc buf chunk (joined chunks)))

buffered-within :
    (over : Bool) (rest : Option StreamError × Bytes) (buf bytes : Bytes)
    → buffered (if over then (some too_large, buf) else rest) ≡ ok bytes
    → (over ≡ false) × (buffered rest ≡ ok bytes)
buffered-within true rest buf bytes h = cc
buffered-within false rest buf bytes h = (refl, h)

copy-ok :
    (max_size : ℤ) (total : ℕ) (chunks : List Bytes) (end_error : Option Error) (buf bytes : Bytes)
    → exceeds max_size total ≡ false
    → buffered (copy write_buffer max_size total chunks end_error buf) ≡ ok bytes
    → (end_error ≡ none) × (exceeds max_size (total + length (joined chunks)) ≡ false)
unfolding copy
copy-ok max_size total [] none buf bytes within h =
    (refl, ap (exceeds max_size) (omega arith) ∙ within)
copy-ok max_size total [] (some e) buf bytes within h = cc
copy-ok max_size total (chunk ∷ chunks) end_error buf bytes within h =
    let now = total + length chunk in
    let (below, rest) =
      buffered-within (exceeds max_size now)
        (copy write_buffer max_size now chunks end_error (buf ++ chunk)) buf bytes h in
    let (ended, fits) = copy-ok max_size now chunks end_error (buf ++ chunk) bytes below rest in
    (ended, joined_length max_size total chunk (joined chunks) ∙ fits)

nothing_fits : (max_size : ℤ) → exceeds max_size 0 ≡ false
unfolding exceeds
nothing_fits max_size = ground arith

copied : (max_size : ℤ) (incoming : Incoming) → Result StreamError Bytes
copied max_size incoming =
    buffered (copy write_buffer max_size 0 incoming.chunks incoming.end_error [])

copied-all :
    (max_size : ℤ) (incoming : Incoming) (bytes : Bytes)
    → (copied max_size incoming ≡ ok bytes) ↔ (
        (incoming.end_error ≡ none)
        × (exceeds max_size (length (joined incoming.chunks)) ≡ false)
        × (joined incoming.chunks ≡ bytes))
unfolding copied
copied-all max_size incoming bytes =
    let all = length (joined incoming.chunks) in
    (
      λ h.
          let (ended, fits) =
            copy-ok max_size 0 incoming.chunks incoming.end_error [] bytes (nothing_fits max_size)
              h in
          let received =
            ap (λ e. buffered (copy write_buffer max_size 0 incoming.chunks e [])) ended
            ∙ ap buffered (copy-all max_size 0 incoming.chunks [] fits) in
          (ended, ap (exceeds max_size) (omega arith) ∙ fits, ok_inj (sym received ∙ h)),
      λ (ended, fits, same).
          ap (λ e. buffered (copy write_buffer max_size 0 incoming.chunks e [])) ended
          ∙ ap buffered
              (copy-all max_size 0 incoming.chunks [] (ap (exceeds max_size) (omega arith) ∙ fits))
          ∙ ap ok same,
    )

module _ (urls : UrlPackage)
    (new_client : (insecure : Bool) → String → Result Error Connection) where
  read_to-copy :
      (c : Client) (resource_name : String) (conn : Connection) (incoming : Incoming)
      → conn.read (outgoing_metadata c.header) resource_name ≡ ok incoming
      → read_to write_buffer c resource_name [] conn
        ≡ copy write_buffer c.max_size_bytes 0 incoming.chunks incoming.end_error []
  unfolding read_to
  read_to-copy c resource_name conn incoming answered = rw (answered, read_to) refl

  stream_resource-read_to :
      (target resource_name : String) (c : Client) (conn : Connection)
      → (dial new_client target c).0 ≡ ok conn
      → (stream_resource write_buffer urls new_client target resource_name c []).0
        ≡ read_to write_buffer c resource_name [] conn
  unfolding stream_resource
  stream_resource-read_to target resource_name c conn dialed = rw (dialed, stream_resource) refl

  stream-stream_resource :
      (uri target resource_name : String) (c : Client)
      → parse_uri urls uri ≡ ok (target, resource_name)
      → stream write_buffer urls new_client uri c []
        ≡ stream_resource write_buffer urls new_client target resource_name c []
  unfolding stream
  stream-stream_resource uri target resource_name c parsed = rw (parsed, stream) refl

  fetch-copied :
      (uri target resource_name : String) (c : Client) (conn : Connection) (incoming : Incoming)
      → parse_uri urls uri ≡ ok (target, resource_name)
      → (dial new_client target c).0 ≡ ok conn
      → conn.read (outgoing_metadata c.header) resource_name ≡ ok incoming
      → (fetch urls new_client uri c).0 ≡ copied c.max_size_bytes incoming
  unfolding fetch copied
  fetch-copied uri target resource_name c conn incoming parsed dialed answered =
      ap (λ r. buffered r.0) (stream-stream_resource uri target resource_name c parsed)
      ∙ ap buffered (
          stream_resource-read_to target resource_name c conn dialed
          ∙ read_to-copy c resource_name conn incoming answered)

  -- A fetch that the remote cache answers gives bytes exactly if the answer ends with io.EOF, its chunks are
  -- these bytes, in order, and the client's limit is not positive or not below their number.
  pub fetch-joined :
      (uri target resource_name : String) (c : Client) (conn : Connection) (incoming : Incoming)
      (bytes : Bytes)
      → parse_uri urls uri ≡ ok (target, resource_name)
      → (dial new_client target c).0 ≡ ok conn
      → conn.read (outgoing_metadata c.header) resource_name ≡ ok incoming
      → ((fetch urls new_client uri c).0 ≡ ok bytes) ↔ (
          (incoming.end_error ≡ none)
          × WithinLimit c.max_size_bytes bytes
          × (joined incoming.chunks ≡ bytes))
  fetch-joined uri target resource_name c conn incoming bytes parsed dialed answered =
      let same = fetch-copied uri target resource_name c conn incoming parsed dialed answered in
      let all = copied-all c.max_size_bytes incoming bytes in
      (
        λ h.
            let (ended, fits, whole) = all.0 (sym same ∙ h) in
            let allowed = (exceeds-WithinLimit c.max_size_bytes (joined incoming.chunks)).0 fits in
            (ended, subst (WithinLimit c.max_size_bytes) whole allowed, whole),
        λ (ended, fits, whole).
            let allowed = subst (WithinLimit c.max_size_bytes) (sym whole) fits in
            let below = (exceeds-WithinLimit c.max_size_bytes (joined incoming.chunks)).1 allowed in
            same ∙ all.1 (ended, below, whole),
      )

-- A writer that keeps what it is given, and fails as it likes.
abbrev pub write_log : (Bytes → Option Error) → Bytes → Bytes → Option Error × Bytes
write_log fails chunk log = (fails (log ++ chunk), log ++ chunk)

pub not_exceeding :
    (max_size total : ℕ) → exceeds (pos (suc max_size)) total ≡ false → total ≤ suc max_size
unfolding exceeds
not_exceeding max_size total h = ground (arith, h)

module _ (fails : Bytes → Option Error) where
  -- A transfer with a limit never hands more bytes to its writer than the limit.
  copy-within_limit :
      (max_size total : ℕ) (chunks : List Bytes) (end_error : Option Error) (log : Bytes)
      → length log ≤ total
      → total ≤ suc max_size
      → length (copy (write_log fails) (pos (suc max_size)) total chunks end_error log).1
        ≤ suc max_size
  unfolding copy
  copy-within_limit max_size total [] end_error log h k = omega (arith, h, k)
  copy-within_limit max_size total (chunk ∷ chunks) end_error log h k =
      let longer = length-append log chunk in
      elim (Bool-cases (exceeds (pos (suc max_size)) (total + length chunk))) [
        | inl over ↦ simp over (omega (arith, h, k))
        | inr below ↦
            let fits = not_exceeding max_size (total + length chunk) below in
            elim (Option-cases (fails (log ++ chunk))) [
              | inl written ↦
                  simp (below, written)
                    (copy-within_limit max_size (total + length chunk) chunks end_error
                      (log ++ chunk) (omega (arith, h, longer)) fits)
              | inr (e, failed) ↦ simp (below, failed) (omega (arith, h, longer, fits))
            ]
      ]
