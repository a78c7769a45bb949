-- ===== src/S3/Commit.antt =====
-- A streamed blob of src/blobstore/s3, up to its Close.
use bepper.Base.{
  joined, String, ◌≡◌, ◌≢◌, refl, sym, ap, subst, ◌∙◌, ◌⊎◌, inl, inr, true, Option, none, some,
  List, [], ◌++◌,
}
use bepper.Base.Result.{Result, ok, err, Result-cases}
use bepper.Blobstore.{Bytes, Error}
use bepper.Blobstore.Compression.{Gzip, Inflates, deflated, deflated_from, flushed}
use bepper.S3.{
  Service, Progress, reading, returned, BlobStore, read_blob, blob_exists, found, downloaded,
}
use bepper.S3.Laws.{ServiceLaws, object_found, head_found}
use bepper.S3.Writer.{Outcome, done, blocked, StreamWriter, writer, close, closed, commit, abort}
use bepper.S3.Streams.{done_inj, write_all, write_all-Receives, Same, Receives, pipe-Receives}

module _ (svc : Service) (gzip : Gzip) (laws : ServiceLaws svc) (store : BlobStore) where
  -- What ReadBlob and BlobExists say follows from the object.
  pub read_blob-same :
      (quote : String → String) (name : String) (s t : svc.State)
      → laws.Answers s
      → laws.Answers t
      → laws.object (store.bucket, name) t ≡ laws.object (store.bucket, name) s
      → read_blob svc gzip store quote name t ≡ read_blob svc gzip store quote name s
  unfolding read_blob
  read_blob-same quote name s t up_s up_t same = ap (downloaded svc gzip store quote name) (
      laws.downloads store.bucket name t up_t
      ∙ ap (λ o. object_found o (laws.absent name)) same
      ∙ sym (laws.downloads store.bucket name s up_s))

  pub read_blob-stored :
      (quote : String → String) (name : String) (s : svc.State) (chunks : List Bytes) (out : Bytes)
      → Inflates gzip
      → laws.Answers s
      → deflated gzip chunks ≡ ok out
      → laws.object (store.bucket, name) s ≡ some out
      → (read_blob svc gzip store quote name s ≡ ok (joined chunks))
        × (blob_exists svc gzip store name s ≡ ok true)
  unfolding read_blob blob_exists
  read_blob-stored quote name s chunks out inflates up deflates stored = (
    ap (downloaded svc gzip store quote name) (
          laws.downloads store.bucket name s up
          ∙ ap (λ o. object_found o (laws.absent name)) stored)
        ∙ inflates chunks out deflates,
    ap found (laws.heads store.bucket name s up ∙ ap (λ o. head_found o (laws.absent name)) stored),
  )

  -- The end of an upload: no object has changed, or the output of gzip for these chunks has been
  -- uploaded as a whole, which a lost answer may hide.
  pub data Upload (at : String × String) (s0 : svc.State) (chunks : List Bytes)
      (end : Result Error (Unit {0}) × svc.State) : Type 0 where
    failed : (e : Error) → end.0 ≡ err e → Same svc gzip laws at s0 end.1 → Upload at s0 chunks end
    whole :
        (out : Bytes)
        → deflated gzip chunks ≡ ok out
        → (laws.object at end.1 ≡ some out)
          ⊎ ((laws.object at end.1 ≡ laws.object at s0) × ((e : Error) × (end.0 ≡ err e)))
        → ((other : String × String) → other ≢ at → laws.object other end.1 ≡ laws.object other s0)
        → Upload at s0 chunks end

  finish-object :
      (u : svc.Upload) (s s0 : svc.State) (at : String × String) (out : Bytes)
      → Receives svc gzip laws at s0 out (reading u) s
      → (laws.object at (svc.finish u s).1 ≡ some out)
        ⊎ ((laws.object at (svc.finish u s).1 ≡ laws.object at s0)
            × ((e : Error) × ((svc.finish u s).0 ≡ err e)))
  finish-object u s s0 at out (to, read, same) = elim (Result-cases (svc.finish u s).0) [
    | inr (u_done, is_ok) ↦ inl (
        ap (λ a. laws.object a (svc.finish u s).1) (sym to)
        ∙ laws.finished u s is_ok
        ∙ ap some read)
    | inl (e, is_err) ↦ elim (laws.finish_is_atomic u s) [
      | inr stored ↦
          inl (ap (λ a. laws.object a (svc.finish u s).1) (sym to) ∙ stored ∙ ap some read)
      | inl kept ↦ inr (
        ap (λ a. laws.object a (svc.finish u s).1) (sym to)
            ∙ kept
            ∙ ap (λ a. laws.object a s) to
            ∙ same at,
        (e, is_err),
      )
    ]
  ]

  pub commit-Upload :
      (at : String × String) (s0 s : svc.State) (chunks : List Bytes) (out : Bytes)
      (upload : Progress svc.Upload)
      → deflated gzip chunks ≡ ok out
      → Receives svc gzip laws at s0 out upload s
      → Upload at s0 chunks (commit svc gzip upload s)
  commit-Upload at s0 s chunks out (returned e) deflates same = failed e refl same
  commit-Upload at s0 s chunks out (reading u) deflates (to, read, same) =
      whole out deflates (finish-object u s s0 at out (to, read, same))
        (λ other ne. laws.finish_keeps u s other (λ e. ne (e ∙ to)) ∙ same other)

  abort-Upload :
      (at : String × String) (s0 s : svc.State) (chunks : List Bytes) (e : Error) (buf : Bytes)
      (upload : Progress svc.Upload)
      → Receives svc gzip laws at s0 buf upload s
      → Upload at s0 chunks (err e, abort svc gzip e upload s)
  abort-Upload at s0 s chunks e buf (returned f) same = failed e refl same
  abort-Upload at s0 s chunks e buf (reading u) (to, read, same) =
      failed e refl (λ other. laws.fail_keeps e u s other ∙ same other)

  closed-Upload :
      (at : String × String) (s0 : svc.State) (chunks : List Bytes) (flush : Option Error)
      (blocks : List Bytes) (buf : Bytes) (upload : Progress svc.Upload) (s : svc.State)
      (end : Result Error (Unit {0}) × svc.State)
      → deflated gzip chunks ≡ flushed gzip (flush, blocks) buf
      → Receives svc gzip laws at s0 (buf ++ joined blocks) upload s
      → closed svc gzip flush (done (upload, s)) ≡ done end
      → Upload at s0 chunks end
  closed-Upload at s0 chunks (some e) blocks buf upload s end deflates received h =
      subst (Upload at s0 chunks) (done_inj h)
        (abort-Upload at s0 s chunks e (buf ++ joined blocks) upload received)
  closed-Upload at s0 chunks none blocks buf upload s end deflates received h =
      subst (Upload at s0 chunks) (done_inj h)
        (commit-Upload at s0 s chunks (buf ++ joined blocks) upload deflates received)

  pub closed_succeeds :
      (flush : Option Error) (piped : Outcome (Progress svc.Upload × svc.State))
      (end : Result Error (Unit {0}) × svc.State)
      → closed svc gzip flush piped ≡ done end
      → (upload : Progress svc.Upload) × (s : svc.State) × (piped ≡ done (upload, s))
  closed_succeeds flush blocked end h = cc
  closed_succeeds flush (done (upload, s)) end h = (upload, s, refl)

  pub start-Receives :
      (name : String) (s : svc.State) (start : Progress svc.Upload)
      → svc.start store.bucket name s ≡ start
      → Receives svc gzip laws (store.bucket, name) s [] start s
  start-Receives name s (returned e) h = λ other. refl
  start-Receives name s (reading u) h =
      let (to, empty) = laws.started store.bucket name s u h in (to, empty, λ other. refl)

  Receives-Same :
      (at : String × String) (s0 s : svc.State) (buf : Bytes) (upload : Progress svc.Upload)
      → Receives svc gzip laws at s0 buf upload s
      → Same svc gzip laws at s0 s
  Receives-Same at s0 s buf (returned e) same = same
  Receives-Same at s0 s buf (reading u) (to, read, same) = same

  pub close-Upload :
      (name : String) (chunks : List Bytes) (w : StreamWriter svc gzip) (s s1 : svc.State)
      (end : Result Error (Unit {0}) × svc.State)
      → write_all svc gzip chunks (writer svc gzip store name s) s ≡ done (ok w, s1)
      → close svc gzip w s1 ≡ done end
      → Same svc gzip laws (store.bucket, name) s s1 × Upload (store.bucket, name) s chunks end
  unfolding writer close deflated_from
  close-Upload name chunks w s s1 end wrote closes =
      let at : String × String = (store.bucket, name) in
      let (buf, deflates, receives) =
        write_all-Receives svc gzip laws at s chunks [] (writer svc gzip store name s) w s s1
          (start-Receives name s _ refl) wrote in
      let out = gzip.close w.gz in
      let (upload, s2, piped) = closed_succeeds out.0 _ end closes in
      let flushes =
        pipe-Receives svc gzip laws at s out.1 buf w.upload upload s1 s2 receives piped in
      (
        Receives-Same at s s1 buf w.upload receives,
        closed-Upload at s chunks out.0 out.1 buf upload s2 end deflates flushes
            (ap (closed svc gzip out.0) (sym piped) ∙ closes),
      )
