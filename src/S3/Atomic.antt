-- ===== src/S3/Atomic.antt =====
-- Blobs of src/blobstore/s3 that are uploaded, as ReadBlob and BlobExists show them.
use mathlib.Core.List.{append-nil}
use bepper.Base.{
  joined, ℕ, String, ◌≡◌, ◌≢◌, refl, sym, ap, subst, ◌∙◌, ◌⊎◌, inl, inr, true, List, [], ◌∷◌,
  length,
}
use bepper.Base.Result.{Result, ok, err}
use bepper.Blobstore.{Bytes, Error}
use bepper.Blobstore.Compression.{Gzip, Inflates, compress, compress-deflated, deflated}
use bepper.S3.{
  Service, Progress, reading, returned, BlobStore, write_blob, upload_compressed, upload,
  upload_body, finish_body, uploaded, read_blob, blob_exists,
}
use bepper.S3.Laws.{ServiceLaws}
use bepper.S3.Writer.{done, StreamWriter, writer, close, commit}
use bepper.S3.Streams.{write_all, Receives, read-Receives}
use bepper.S3.Commit.{
  Upload, failed, whole, read_blob-same, read_blob-stored, close-Upload, commit-Upload,
  start-Receives,
}

module _ (svc : Service) (gzip : Gzip) (laws : ServiceLaws svc) (store : BlobStore) where
  -- What the store shows after an upload of these chunks under the name, with this result.
  abbrev pub AllOrNothing {ℓ} :
      {A : Type ℓ} (quote : String → String) (name other : String) (s : svc.State) (content : Bytes)
      → Result Error A × svc.State
      → Type ℓ
  AllOrNothing quote name other s content end =
      (read_blob svc gzip store quote other end.1 ≡ read_blob svc gzip store quote other s)
      × (((read_blob svc gzip store quote name end.1 ≡ ok content)
            × (blob_exists svc gzip store name end.1 ≡ ok true))
          ⊎ ((read_blob svc gzip store quote name end.1 ≡ read_blob svc gzip store quote name s)
              × ((e : Error) × (end.0 ≡ err e))))

  pub Upload-AllOrNothing :
      (quote : String → String) (name other : String) (s : svc.State) (chunks : List Bytes)
      (end : Result Error (Unit {0}) × svc.State)
      → other ≢ name
      → Inflates gzip
      → laws.Answers s
      → laws.Answers end.1
      → Upload svc gzip laws store (store.bucket, name) s chunks end
      → AllOrNothing quote name other s (joined chunks) end
  Upload-AllOrNothing quote name other s chunks end ne inflates up up_end (failed e is_err same) = (
    read_blob-same svc gzip laws store quote other s end.1 up up_end (same (store.bucket, other)),
    inr (
      read_blob-same svc gzip laws store quote name s end.1 up up_end (same (store.bucket, name)),
      (e, is_err),
    ),
  )
  Upload-AllOrNothing quote name other s chunks end ne inflates up up_end
        (whole out deflates stored same) =
      (
        read_blob-same svc gzip laws store quote other s end.1 up up_end
            (same (store.bucket, other) (λ e. ne (ap (λ a. a.1) e))),
        elim stored [
          | inl there ↦ inl (
              read_blob-stored svc gzip laws store quote name end.1 chunks out inflates up_end
                deflates there)
          | inr (kept, is_err) ↦
              inr (read_blob-same svc gzip laws store quote name s end.1 up up_end kept, is_err)
        ],
      )

  -- A streamed blob is all or nothing. Before Close no blob reads otherwise than before the Writer
  -- was opened. Close that returns leaves the other blobs as they were, and either the blob exists
  -- and reads as all the bytes that were written, in order, or it reads as before and Close has
  -- returned an error. The service answers in these states, and gzip inflates what it has deflated.
  pub close_is_atomic :
      (quote : String → String) (name other : String) (chunks : List Bytes)
      (w : StreamWriter svc gzip) (s s1 : svc.State) (end : Result Error (Unit {0}) × svc.State)
      → other ≢ name
      → Inflates gzip
      → laws.Answers s
      → laws.Answers s1
      → laws.Answers end.1
      → write_all svc gzip chunks (writer svc gzip store name s) s ≡ done (ok w, s1)
      → close svc gzip w s1 ≡ done end
      → ((any : String)
          → read_blob svc gzip store quote any s1 ≡ read_blob svc gzip store quote any s)
        × AllOrNothing quote name other s (joined chunks) end
  close_is_atomic quote name other chunks w s s1 end ne inflates up up1 up_end wrote closes =
      let (same, uploads) = close-Upload svc gzip laws store name chunks w s s1 end wrote closes in
      (
        λ any. read_blob-same svc gzip laws store quote any s s1 up up1 (same (store.bucket, any)),
        Upload-AllOrNothing quote name other s chunks end ne inflates up up_end uploads,
      )

  finish_body-commit :
      (end : Progress svc.Upload × svc.State) → finish_body svc end ≡ commit svc gzip end.0 end.1
  finish_body-commit (returned e, s) = refl
  finish_body-commit (reading u, s) = refl

  upload-Upload :
      (at : String × String) (s : svc.State) (body : Bytes) (chunks : List Bytes)
      (start : Progress svc.Upload)
      → deflated gzip chunks ≡ ok body
      → Receives svc gzip laws at s [] start s
      → Upload svc gzip laws store at s chunks (upload_body svc body start s)
  upload-Upload at s body chunks (returned e) deflates same = failed e refl same
  upload-Upload at s body chunks (reading u) deflates received =
      let taken = svc.read body u s in
      subst (Upload svc gzip laws store at s chunks) (sym (finish_body-commit taken)) (
        commit-Upload svc gzip laws store at s taken.1 chunks body taken.0 deflates
          (read-Receives svc gzip laws at s body [] u s taken.0 refl received))

  uploaded-AllOrNothing :
      (quote : String → String) (name other : String) (s : svc.State) (content : Bytes) (n : ℕ)
      (end : Result Error (Unit {0}) × svc.State)
      → AllOrNothing quote name other s content end
      → AllOrNothing quote name other s content (uploaded svc gzip store n end)
  uploaded-AllOrNothing quote name other s content n (err e, t) (others, inl read) =
      (others, inl read)
  uploaded-AllOrNothing quote name other s content n (err e, t) (others, inr (kept, is_err)) =
      (others, inr (kept, (e, refl)))
  uploaded-AllOrNothing quote name other s content n (ok u, t) (others, inl read) =
      (others, inl read)
  uploaded-AllOrNothing quote name other s content n (ok u, t) (others, inr (kept, (e, is_err))) =
      cc

  uploaded-state :
      (n : ℕ) (end : Result Error (Unit {0}) × svc.State)
      → (uploaded svc gzip store n end).1 ≡ end.1
  uploaded-state n (err e, t) = refl
  uploaded-state n (ok u, t) = refl

  compressed-AllOrNothing :
      (quote : String → String) (name other : String) (bytes : Bytes) (s : svc.State)
      (r : Result Error Bytes)
      → other ≢ name
      → Inflates gzip
      → laws.Answers s
      → laws.Answers (upload_compressed svc gzip store name r s).1
      → compress gzip bytes ≡ r
      → AllOrNothing quote name other s bytes (upload_compressed svc gzip store name r s)
  compressed-AllOrNothing quote name other bytes s (err e) ne inflates up up_end h =
      (refl, inr (refl, (e, refl)))
  compressed-AllOrNothing quote name other bytes s (ok body) ne inflates up up_end h =
      let end = upload svc store.bucket name body s in
      uploaded-AllOrNothing quote name other s bytes (length body) end (
        subst (λ content. AllOrNothing quote name other s content end) (append-nil bytes)
          (Upload-AllOrNothing quote name other s (bytes ∷ []) end ne inflates up
            (subst laws.Answers (uploaded-state (length body) end) up_end)
            (upload-Upload (store.bucket, name) s body (bytes ∷ []) (svc.start store.bucket name s)
              (sym (compress-deflated gzip bytes) ∙ h)
              (start-Receives svc gzip laws store name s _ refl))))

  -- A blob that is written at once is all or nothing: the others are left as they were, and either it
  -- exists and reads as these bytes, or it reads as before and WriteBlob has returned an error. The
  -- service answers before and after, and gzip inflates what it has deflated.
  pub write_blob_is_atomic :
      (quote : String → String) (name other : String) (bytes : Bytes) (s : svc.State)
      → other ≢ name
      → Inflates gzip
      → laws.Answers s
      → laws.Answers (write_blob svc gzip store name bytes s).1
      → AllOrNothing quote name other s bytes (write_blob svc gzip store name bytes s)
  unfolding write_blob
  write_blob_is_atomic quote name other bytes s ne inflates up up_end =
      compressed-AllOrNothing quote name other bytes s (compress gzip bytes) ne inflates up up_end
        refl
