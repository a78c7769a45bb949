-- ===== src/Webui/Remote.antt =====
-- `getBlob` of src/webui/webui.go with the client of src/bytestream/bytestream.go.
use bepper.Base.{
  ℕ, suc, String, ◌≡◌, refl, ap, subst, ◌+◌, ◌≤◌, Bool, true, false, Option, none, some, List, [],
  ◌∷◌, ◌++◌, ◌==◌, length, length-append, Bool-cases, inl, inr, arith, if◌then◌else◌,
}
use bepper.Base.Int.{pos}
use bepper.Base.Result.{Result, Result-cases}
use bepper.Blobstore.{Bytes, Error}
use bepper.Bytestream.{
  StreamError, Client, Connection, exceeds, copy, read_to, stream_resource, stream, parse_uri, dial,
  outgoing_metadata,
}
use bepper.Bytestream.Limit.{not_exceeding}
use bepper.Events.{BuildEvent}
use bepper.Index.GitUrl.{UrlPackage}
use bepper.Store.{ReadResult}
use bepper.Webui.{
  Transfer, Reply, content, Response, missing_uri, refuses, sent, serve, serve_events, file_for_uri,
  get_blob,
}
use bepper.Webui.Guard.{WasReported, file_for_uri-WasReported}
use bepper.Webui.Streaming.{Honest, as_sent, nothing_sent, stream_reply-Honest}

-- The writes of a transfer, which the browser accepts.
abbrev pub log : Bytes → List Bytes → Option Error × List Bytes
log chunk writes = (none, writes ++ chunk ∷ [])

module _ (urls : UrlPackage) (new_client : (insecure : Bool) → String → Result Error Connection)
    (text : StreamError → Error) where
  abbrev pub transferred : Option StreamError → List Bytes → Transfer
  transferred none writes = record { writes = writes; error = none }
  transferred (some e) writes = record { writes = writes; error = some (text e) }

  unfoldable pub stream_blob : Client → String → Transfer × Client
  stream_blob c uri = let r = stream log urls new_client uri c [] in (transferred r.0.0 r.0.1, r.1)

  abbrev pub after_dial : Option String → Client → Client
  after_dial none c = c
  after_dial (some uri) c = (stream_blob c uri).1

  -- The reply, and the client with the connections that it has from then on.
  unfoldable pub get_blob_from : Client → String → ReadResult → Response × Client
  get_blob_from c uri r =
      let response = get_blob (some (λ u. (stream_blob c u).0)) uri r in
      (response, after_dial response.dialed c)

  length_sent-append :
      (writes : List Bytes) (chunk : Bytes)
      → length (sent (writes ++ chunk ∷ [])) ≡ length (sent writes) + length chunk
  unfolding sent
  length_sent-append [] chunk = omega (arith, length-append chunk [])
  length_sent-append (p ∷ writes) chunk = omega (
    arith,
    length_sent-append writes chunk,
    length-append p (sent (writes ++ chunk ∷ [])),
    length-append p (sent writes),
  )

  copy-sent :
      (max_size total : ℕ) (chunks : List Bytes) (end_error : Option Error) (writes : List Bytes)
      → length (sent writes) ≤ total
      → total ≤ suc max_size
      → length (sent (copy log (pos (suc max_size)) total chunks end_error writes).1) ≤ suc max_size
  unfolding copy
  copy-sent max_size total [] end_error writes h k = omega (arith, h, k)
  copy-sent max_size total (chunk ∷ chunks) end_error writes h k =
      let longer = length_sent-append writes chunk in
      elim (Bool-cases (exceeds (pos (suc max_size)) (total + length chunk))) [
        | inl over ↦ simp over (omega (arith, h, k))
        | inr below ↦
            let fits = not_exceeding max_size (total + length chunk) below in
            simp below (
              copy-sent max_size (total + length chunk) chunks end_error (writes ++ chunk ∷ [])
                (omega (arith, h, longer)) fits)
      ]

  -- What a transfer has sent is within the limit of the client.
  abbrev Within : ℕ → Option StreamError × List Bytes → Type 0
  Within max_size r = length (sent r.1) ≤ suc max_size

  read_to-Within :
      (max_size : ℕ) (c : Client) (resource_name : String) (conn : Connection)
      → c.max_size_bytes ≡ pos (suc max_size)
      → Within max_size (read_to log c resource_name [] conn)
  unfolding sent read_to
  read_to-Within max_size c resource_name conn limit =
      elim (Result-cases (conn.read (outgoing_metadata c.header) resource_name)) [
        | inl (e, fails) ↦ rw (fails, read_to) (omega arith)
        | inr (incoming, answers) ↦
            rw (answers, read_to, limit)
              (copy-sent max_size 0 incoming.chunks incoming.end_error [] (omega arith)
                (omega arith))
      ]

  stream_resource-Within :
      (max_size : ℕ) (c : Client) (target resource_name : String)
      → c.max_size_bytes ≡ pos (suc max_size)
      → Within max_size (stream_resource log urls new_client target resource_name c []).0
  unfolding sent stream_resource
  stream_resource-Within max_size c target resource_name limit =
      elim (Result-cases (dial new_client target c).0) [
        | inl (e, fails) ↦ rw (fails, stream_resource) (omega arith)
        | inr (conn, dialed) ↦
            rw (dialed, stream_resource) (read_to-Within max_size c resource_name conn limit)
      ]

  stream-Within :
      (max_size : ℕ) (c : Client) (uri : String)
      → c.max_size_bytes ≡ pos (suc max_size)
      → Within max_size (stream log urls new_client uri c []).0
  unfolding sent stream
  stream-Within max_size c uri limit = elim (Result-cases (parse_uri urls uri)) [
    | inl (e, fails) ↦ rw (fails, stream) (omega arith)
    | inr ((target, resource_name), parsed) ↦
        rw (parsed, stream) (stream_resource-Within max_size c target resource_name limit)
  ]

  transferred-writes :
      (e : Option StreamError) (writes : List Bytes) → (transferred e writes).writes ≡ writes
  transferred-writes none writes = refl
  transferred-writes (some e) writes = refl

  stream_blob-Within :
      (max_size : ℕ) (c : Client) (uri : String)
      → c.max_size_bytes ≡ pos (suc max_size)
      → length (sent (stream_blob c uri).0.writes) ≤ suc max_size
  unfolding stream_blob
  stream_blob-Within max_size c uri limit =
      rw
        (transferred-writes (stream log urls new_client uri c []).0.0
          (stream log urls new_client uri c []).0.1)
        (stream-Within max_size c uri limit)

  Honest-content :
      (name file : String) (t : Transfer) (bytes : Bytes) (r : Reply)
      → Honest name t r
      → r ≡ content file bytes
      → (name ≡ file) × (sent t.writes ≡ bytes)
  Honest-content name file t bytes r as_sent h = (cc, cc)
  Honest-content name file t bytes r (nothing_sent e fails empty) h = (cc, cc)

  serve-content :
      (transfer : String → Transfer) (uri name : String) (bytes : Bytes) (found : Option String)
      → (serve transfer uri found).reply ≡ content name bytes
      → (found ≡ some name) × (sent (transfer uri).writes ≡ bytes)
  unfolding serve
  serve-content transfer uri name bytes none h = cc
  serve-content transfer uri name bytes (some file) h =
      let (same, all) =
        Honest-content file name (transfer uri) bytes _ (stream_reply-Honest file (transfer uri))
          h in
      (ap some same, all)

  serve_events-content :
      (transfer : String → Transfer) (uri name : String) (bytes : Bytes) (error : Option Error)
      (found : Bool) (events : List BuildEvent)
      → (serve_events transfer uri (record { events = events; found = found; error = error })).reply
        ≡ content name bytes
      → (file_for_uri events uri ≡ some name) × (sent (transfer uri).writes ≡ bytes)
  unfolding serve_events
  serve_events-content transfer uri name bytes (some e) found events h = cc
  serve_events-content transfer uri name bytes none false events h = cc
  serve_events-content transfer uri name bytes none true events h =
      serve-content transfer uri name bytes (file_for_uri events uri) h

  present-content :
      (empty : Bool) (served : Response) (name : String) (bytes : Bytes)
      → (if empty then refuses missing_uri else served).reply ≡ content name bytes
      → served.reply ≡ content name bytes
  present-content true served name bytes h = cc
  present-content false served name bytes h = h

  -- A reply with contents is for a URI that some event of the invocation lists with the file's name,
  -- and is never longer than the limit of the client, if that is positive.
  pub content_is_reported_and_within_limit :
      (max_size : ℕ) (c : Client) (uri name : String) (r : ReadResult) (bytes : Bytes)
      → c.max_size_bytes ≡ pos (suc max_size)
      → (get_blob_from c uri r).0.reply ≡ content name bytes
      → WasReported r.events uri name × (length bytes ≤ suc max_size)
  unfolding get_blob_from get_blob
  content_is_reported_and_within_limit max_size c uri name r bytes limit h =
      let transfer : String → Transfer = λ u. (stream_blob c u).0 in
      let served = present-content (uri == "") (serve_events transfer uri r) name bytes h in
      let (found, all) =
        serve_events-content transfer uri name bytes r.error r.found r.events served in
      (
        file_for_uri-WasReported r.events uri name found,
        subst (λ b. length b ≤ suc max_size) all (stream_blob-Within max_size c uri limit),
      )
