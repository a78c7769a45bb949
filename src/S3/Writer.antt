-- ===== src/S3/Writer.antt =====
-- src/blobstore/s3/writer.go, and Writer of src/blobstore/s3/s3.go: a blob that is uploaded by a
-- goroutine while it is written, through a pipe.
use bepper.Base.{ℕ, String, Option, none, some, List, [], ◌∷◌}
use bepper.Base.Result.{Result, err}
use bepper.Blobstore.{Bytes, Error}
use bepper.Blobstore.Compression.{Gzip}
use bepper.S3.{Service, Progress, reading, returned, BlobStore}

-- A call that returns, or one that waits forever.
pub data Outcome {ℓ} (A : Type ℓ) : Type ℓ where
  done : A → Outcome A
  blocked : Outcome A

module _ (svc : Service) (gzip : Gzip) where
  -- `upload` is the reader's side of the pipe `pw`; once Upload has returned, its error is in `errCh`.
  pub record StreamWriter : Type 0 where
    pub gz : gzip.Writer
    pub upload : Progress svc.Upload

  unfoldable pub writer : BlobStore → String → svc.State → StreamWriter
  writer store blob_name s = record {
    gz = gzip.new_writer;
    upload = svc.start store.bucket blob_name s;
  }

  -- Blocks of output that are written to the pipe. A write on an io.Pipe waits until readers have
  -- taken it or the reader's end is closed: Upload is the only reader, and nobody closes that end.
  unfoldable pub pipe :
      List Bytes → Progress svc.Upload → svc.State → Outcome (Progress svc.Upload × svc.State)
  pipe [] upload s = done (upload, s)
  pipe (block ∷ blocks) (returned e) s = blocked
  pipe (block ∷ blocks) (reading u) s =
      let taken = svc.read block u s in pipe blocks taken.0 taken.1

  abbrev pub written :
      Result Error ℕ
      → gzip.Writer
      → Outcome (Progress svc.Upload × svc.State)
      → Outcome (Result Error ℕ × (StreamWriter × svc.State))
  written r gz blocked = blocked
  written r gz (done (upload, s)) = done (r, (record { gz = gz; upload = upload }, s))

  unfoldable pub write :
      Bytes → StreamWriter → svc.State → Outcome (Result Error ℕ × (StreamWriter × svc.State))
  write p w s = let out = gzip.write p w.gz in written out.0 out.1.1 (pipe out.1.0 w.upload s)

  -- CloseWithError, and the error of Upload that is not looked at.
  abbrev pub abort : Error → Progress svc.Upload → svc.State → svc.State
  abort e (returned of_upload) s = s
  abort e (reading u) s = svc.fail e u s

  -- The pipe is closed, which gives no error, and the upload is waited for.
  abbrev pub commit : Progress svc.Upload → svc.State → Result Error (Unit {0}) × svc.State
  commit (returned e) s = (err e, s)
  commit (reading u) s = svc.finish u s

  abbrev pub closed :
      Option Error
      → Outcome (Progress svc.Upload × svc.State)
      → Outcome (Result Error (Unit {0}) × svc.State)
  closed r blocked = blocked
  closed (some e) (done (upload, s)) = done (err e, abort e upload s)
  closed none (done (upload, s)) = done (commit upload s)

  unfoldable pub close : StreamWriter → svc.State → Outcome (Result Error (Unit {0}) × svc.State)
  close w s = let out = gzip.close w.gz in closed out.0 (pipe out.1 w.upload s)
