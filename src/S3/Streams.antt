-- ===== src/S3/Streams.antt =====
-- What a streaming writer of src/blobstore/s3 hands to its upload.
use mathlib.Core.List.{append_assoc, append-nil}
use bepper.Base.{joined, ℕ, String, ◌≡◌, refl, sym, ap, subst, ◌∙◌, List, [], ◌∷◌, ◌++◌}
use bepper.Base.Result.{Result, ok, err, ◌>>=◌}
use bepper.Blobstore.{Bytes, Error}
use bepper.Blobstore.Compression.{Gzip, buffered-ok, deflated_from}
use bepper.S3.{Service, Progress, reading, returned}
use bepper.S3.Laws.{ServiceLaws}
use bepper.S3.Writer.{Outcome, done, blocked, StreamWriter, pipe, write, written}

pub done_inj {ℓ} : {A : Type ℓ} {a b : A} → ◌≡◌ {A = Outcome A} (done a) (done b) → a ≡ b
done_inj same = cc

module _ (svc : Service) (gzip : Gzip) where
  abbrev pub Streamed : Type 0
  Streamed = Outcome (Result Error (StreamWriter svc gzip) × svc.State)

  abbrev pub and_then :
      Outcome (Result Error ℕ × (StreamWriter svc gzip × svc.State))
      → (StreamWriter svc gzip → svc.State → Streamed)
      → Streamed
  and_then blocked next = blocked
  and_then (done (err e, (w, s))) next = done (err e, s)
  and_then (done (ok n, (w, s))) next = next w s

  -- Several calls of Write, up to the first error.
  abbrev pub write_all : List Bytes → StreamWriter svc gzip → svc.State → Streamed
  write_all [] w s = done (ok w, s)
  write_all (p ∷ chunks) w s =
      and_then (write svc gzip p w s) (λ next s_next. write_all chunks next s_next)

  pub and_then_succeeds :
      (first : Outcome (Result Error ℕ × (StreamWriter svc gzip × svc.State)))
      (next : StreamWriter svc gzip → svc.State → Streamed) (w_end : StreamWriter svc gzip)
      (s_end : svc.State)
      → and_then first next ≡ done (ok w_end, s_end)
      → (n : ℕ) × (w : StreamWriter svc gzip) × (s : svc.State) × (first ≡ done (ok n, (w, s)))
        × (next w s ≡ done (ok w_end, s_end))
  and_then_succeeds blocked next w_end s_end h = cc
  and_then_succeeds (done (err e, (w, s))) next w_end s_end h = cc
  and_then_succeeds (done (ok n, (w, s))) next w_end s_end h = (n, w, s, refl, h)

  pub written_succeeds :
      (r : Result Error ℕ) (gz : gzip.Writer) (piped : Outcome (Progress svc.Upload × svc.State))
      (n : ℕ) (w : StreamWriter svc gzip) (s : svc.State)
      → written svc gzip r gz piped ≡ done (ok n, (w, s))
      → (r ≡ ok n) × (w.gz ≡ gz) × (piped ≡ done (w.upload, s))
  written_succeeds r gz blocked n w s h = cc
  written_succeeds r gz (done (upload, s1)) n w s h =
      let same = done_inj h in
      (ap (λ x. x.0) same, sym (ap (λ x. x.1.0.gz) same), ap (λ x. done (x.1.0.upload, x.1.1)) same)

  module _ (laws : ServiceLaws svc) (at : String × String) (s0 : svc.State) where
    -- The visible objects are as they were.
    abbrev pub Same : svc.State → Type 0
    Same s = (other : String × String) → laws.object other s ≡ laws.object other s0

    -- The upload has read these bytes of its body, unless it has returned; no object has changed.
    abbrev pub Receives : Bytes → Progress svc.Upload → svc.State → Type 0
    Receives buf (returned e) s = Same s
    Receives buf (reading u) s = (laws.target u ≡ at) × (laws.received u ≡ buf) × Same s

    pub read-Receives :
        (block buf : Bytes) (u : svc.Upload) (s : svc.State) (next : Progress svc.Upload)
        → (svc.read block u s).0 ≡ next
        → Receives buf (reading u) s
        → Receives (buf ++ block) next (svc.read block u s).1
    read-Receives block buf u s (returned e) taken (to, read, same) =
        λ other. laws.read_keeps block u s other ∙ same other
    read-Receives block buf u s (reading next) taken (to, read, same) =
        let (kept, more) = laws.taken block u next s taken in
        (
          kept ∙ to,
          more ∙ ap (λ b. b ++ block) read,
          λ other. laws.read_keeps block u s other ∙ same other,
        )

    pub pipe-Receives :
        (blocks : List Bytes) (buf : Bytes) (upload next : Progress svc.Upload) (s t : svc.State)
        → Receives buf upload s
        → pipe svc gzip blocks upload s ≡ done (next, t)
        → Receives (buf ++ joined blocks) next t
    unfolding pipe
    pipe-Receives [] buf upload next s t received h =
        subst (λ r. Receives (buf ++ []) r.0 r.1) (done_inj h) (rw (append-nil buf) received)
    pipe-Receives (block ∷ blocks) buf (returned e) next s t received h = cc
    pipe-Receives (block ∷ blocks) buf (reading u) next s t received h =
        let taken = svc.read block u s in
        rw (sym (append_assoc buf block (joined blocks))) (
          pipe-Receives blocks (buf ++ block) taken.0 next taken.1 t
            (read-Receives block buf u s taken.0 refl received) h)

    -- Writes that succeed give the upload the output of gzip for their bytes, but for the rest that
    -- Close flushes.
    pub write_all-Receives :
        (chunks : List Bytes) (buf : Bytes) (w w_end : StreamWriter svc gzip) (s s_end : svc.State)
        → Receives buf w.upload s
        → write_all chunks w s ≡ done (ok w_end, s_end)
        → (out : Bytes) × (deflated_from gzip chunks w.gz buf ≡ deflated_from gzip [] w_end.gz out)
          × Receives out w_end.upload s_end
    unfolding deflated_from write
    write_all-Receives [] buf w w_end s s_end received h = (
      buf,
      ap (λ r. elim r.0 [ ok v ↦ deflated_from gzip [] v.gz buf | err e ↦ err e ]) (done_inj h),
      subst (λ r. elim r.0 [ ok v ↦ Receives buf v.upload r.1 | err e ↦ Unit {0} ]) (done_inj h)
          received,
    )
    write_all-Receives (p ∷ chunks) buf w w_end s s_end received h =
        let (n, w1, s1, first, rest) = and_then_succeeds (write svc gzip p w s) _ w_end s_end h in
        let out = gzip.write p w.gz in
        let (wrote, writer, piped) = written_succeeds out.0 out.1.1 _ n w1 s1 first in
        let buf1 = buf ++ joined out.1.0 in
        let (end, deflates, receives) =
          write_all-Receives chunks buf1 w1 w_end s1 s_end
            (pipe-Receives out.1.0 buf w.upload w1.upload s s1 received piped) rest in
        (
          end,
          ap (λ r. r >>= λ next. deflated_from gzip chunks next.1 next.0)
                (buffered-ok gzip out buf n wrote)
              ∙ ap (λ gz. deflated_from gzip chunks gz buf1) (sym writer)
              ∙ deflates,
          receives,
        )
