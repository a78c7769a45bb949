-- ===== src/S3.antt =====
-- src/blobstore/s3/s3.go: blobs as compressed objects of a bucket. The client of the AWS SDK, with
-- its waiters, its downloader and its uploader, is a parameter.
pub mod Laws
pub mod Streams
pub mod Commit
pub mod Atomic
pub mod Bucket
pub mod Writer
use bepper.Base.{ℕ, String, ◌≡◌, Bool, true, false, not, Option, none, some, length, ◌==◌}
use bepper.Base.Result.{Result, ok, err, check, with_context, ◌>>=◌}
use bepper.Base.Text.{◌⧺◌}
use bepper.Blobstore.{Bytes, Error}
use bepper.Blobstore.Compression.{Gzip, compress, decompress}

pub record Config : Type 0 where
  pub bucket : String
  pub region : String
  pub endpoint : String

-- The errors that errors.As tells apart, with their texts.
pub data ServiceError : Type 0 where
  not_found : Error → ServiceError
  no_such_key : Error → ServiceError
  other : Error → ServiceError

abbrev pub error_text : ServiceError → Error
error_text (not_found e) = e
error_text (no_such_key e) = e
error_text (other e) = e

-- s3manager.Uploader reads its body by blocks: it goes on reading, or has returned an error.
pub data Progress (Upload : Type 0) : Type 0 where
  reading : Upload → Progress Upload
  returned : Error → Progress Upload

-- The state of the service, and an upload that has begun. `read` is a block of the body that the
-- upload has taken, `finish` the end of its body, and `fail` an error of it, which Upload returns.
pub record Service : Type 1 where
  pub State : Type 0
  pub Upload : Type 0
  pub head_bucket : (bucket : String) → State → Result ServiceError (Unit {0})
  pub create_bucket : (bucket : String) → State → Result Error (Unit {0}) × State
  pub wait_bucket_exists : (bucket : String) → State → Result Error (Unit {0}) × State
  pub start : (bucket key : String) → State → Progress Upload
  pub read : Bytes → Upload → State → Progress Upload × State
  pub finish : Upload → State → Result Error (Unit {0}) × State
  pub fail : Error → Upload → State → State
  pub download_object : (bucket key : String) → State → Result ServiceError Bytes
  pub delete_object : (bucket key : String) → State → Result Error (Unit {0}) × State
  pub wait_object_not_exists : (bucket key : String) → State → Result Error (Unit {0}) × State
  pub head_object : (bucket key : String) → State → Result ServiceError (Unit {0})

-- The options of s3.NewFromConfig.
pub record ClientOptions : Type 0 where
  pub region : String
  pub base_endpoint : Option String
  pub use_path_style : Bool

pub record BlobStore : Type 0 where
  pub client : ClientOptions
  pub bucket : String

-- A HEAD request, whose NotFound is an answer.
abbrev pub found : Result ServiceError (Unit {0}) → Result Error Bool
found (ok u) = ok true
found (err (not_found e)) = ok false
found (err (no_such_key e)) = err e
found (err (other e)) = err e

abbrev pub given_endpoint : String → Option String
given_endpoint endpoint = elim (endpoint == "") [ true ↦ none | false ↦ some endpoint ]

abbrev pub client_options : Config → ClientOptions
client_options cfg = record {
  region = cfg.region;
  base_endpoint = given_endpoint cfg.endpoint;
  use_path_style = not (cfg.endpoint == "");
}

-- `load_config` is config.LoadDefaultConfig for a region.
abbrev pub check_config :
    (load_config : String → Result Error (Unit {0})) → Config → Result Error (Unit {0})
check_config load_config cfg = do
  named ← check (not (cfg.bucket == "")) "s3: bucket is required"
  with_context "load AWS config: " (load_config cfg.region)

module _ (svc : Service) where
  abbrev pub wait_created :
      (quote : String → String) (bucket : String)
      → Result Error (Unit {0}) × svc.State
      → Result Error (Unit {0}) × svc.State
  wait_created quote bucket (err e, s) = (err ("create bucket " ⧺ quote bucket ⧺ ": " ⧺ e), s)
  wait_created quote bucket (ok u, s) = svc.wait_bucket_exists bucket s

  unfoldable pub bucket_exists : (bucket : String) → svc.State → Result Error Bool
  bucket_exists bucket s = found (svc.head_bucket bucket s)

  abbrev pub create_if_missing :
      (quote : String → String) (bucket : String)
      → Result Error Bool
      → svc.State
      → Result Error (Unit {0}) × svc.State
  create_if_missing quote bucket (err e) s = (err e, s)
  create_if_missing quote bucket (ok true) s = (ok tt, s)
  create_if_missing quote bucket (ok false) s =
      wait_created quote bucket (svc.create_bucket bucket s)

  unfoldable pub create_bucket_if_not_exists :
      (quote : String → String) (bucket : String) → svc.State → Result Error (Unit {0}) × svc.State
  create_bucket_if_not_exists quote bucket s =
      create_if_missing quote bucket (bucket_exists bucket s) s

  abbrev pub opened_store :
      BlobStore → Result Error (Unit {0}) × svc.State → Result Error BlobStore × svc.State
  opened_store store (err e, s) = (err e, s)
  opened_store store (ok u, s) = (ok store, s)

  abbrev pub open_store :
      (quote : String → String)
      → Config
      → Result Error (Unit {0})
      → svc.State
      → Result Error BlobStore × svc.State
  open_store quote cfg (err e) s = (err e, s)
  open_store quote cfg (ok u) s =
      opened_store (record { client = client_options cfg; bucket = cfg.bucket })
        (create_bucket_if_not_exists quote cfg.bucket s)

  unfoldable pub new :
      (quote : String → String) (load_config : String → Result Error (Unit {0}))
      → Config
      → svc.State
      → Result Error BlobStore × svc.State
  new quote load_config cfg s = open_store quote cfg (check_config load_config cfg) s

  -- Upload with a body that is at hand.
  abbrev pub finish_body : Progress svc.Upload × svc.State → Result Error (Unit {0}) × svc.State
  finish_body (returned e, s) = (err e, s)
  finish_body (reading u, s) = svc.finish u s

  abbrev pub upload_body :
      Bytes → Progress svc.Upload → svc.State → Result Error (Unit {0}) × svc.State
  upload_body body (returned e) s = (err e, s)
  upload_body body (reading u) s = finish_body (svc.read body u s)

  abbrev pub upload :
      (bucket key : String) → Bytes → svc.State → Result Error (Unit {0}) × svc.State
  upload bucket key body s = upload_body body (svc.start bucket key s) s

  module _ (gzip : Gzip) (store : BlobStore) where
    abbrev pub uploaded : ℕ → Result Error (Unit {0}) × svc.State → Result Error ℕ × svc.State
    uploaded n (err e, s) = (err e, s)
    uploaded n (ok u, s) = (ok n, s)

    abbrev pub upload_compressed :
        String → Result Error Bytes → svc.State → Result Error ℕ × svc.State
    upload_compressed blob_name (err e) s = (err e, s)
    upload_compressed blob_name (ok compressed) s =
        uploaded (length compressed) (upload store.bucket blob_name compressed s)

    unfoldable pub write_blob : String → Bytes → svc.State → Result Error ℕ × svc.State
    write_blob blob_name bytes s = upload_compressed blob_name (compress gzip bytes) s

    abbrev pub downloaded :
        (quote : String → String) → String → Result ServiceError Bytes → Result Error Bytes
    downloaded quote blob_name (ok body) = decompress gzip (ok body)
    downloaded quote blob_name (err (no_such_key e)) =
        err ("blob " ⧺ quote blob_name ⧺ " not found: " ⧺ e)
    downloaded quote blob_name (err (not_found e)) = err e
    downloaded quote blob_name (err (other e)) = err e

    unfoldable pub read_blob : (quote : String → String) → String → svc.State → Result Error Bytes
    read_blob quote blob_name s =
        downloaded quote blob_name (svc.download_object store.bucket blob_name s)

    abbrev pub wait_deleted :
        String → Result Error (Unit {0}) × svc.State → Result Error (Unit {0}) × svc.State
    wait_deleted blob_name (err e, s) = (err e, s)
    wait_deleted blob_name (ok u, s) = svc.wait_object_not_exists store.bucket blob_name s

    unfoldable pub delete_blob : String → svc.State → Result Error (Unit {0}) × svc.State
    delete_blob blob_name s = wait_deleted blob_name (svc.delete_object store.bucket blob_name s)

    unfoldable pub blob_exists : String → svc.State → Result Error Bool
    blob_exists blob_name s = found (svc.head_object store.bucket blob_name s)
