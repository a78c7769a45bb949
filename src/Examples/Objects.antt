-- ===== src/Examples/Objects.antt =====
-- Blobs that are uploaded at once and by a writer, and a bucket that is created.
use bepper.Base.{
  String, ◌≡◌, ◌≢◌, refl, true, false, none, some, [], ◌∷◌, ◌==◌, ◌&&◌, if◌then◌else◌, eq_iff,
}
use bepper.Base.Result.{Result, ok}
use bepper.Blobstore.{Bytes, Error}
use bepper.S3.{
  BlobStore, Config, read_blob, write_blob, new, reading, client_options,
  create_bucket_if_not_exists, bucket_exists,
}
use bepper.S3.Writer.{writer, close, StreamWriter, write, pipe}
use bepper.S3.Atomic.{AllOrNothing, close_is_atomic, write_blob_is_atomic}
use bepper.S3.Bucket.{Ready, new-Ready}
use bepper.Samples.Storage.{
  Objects, plain_gzip, plain-Inflates, storage, storage_laws, storage-WaitsForBucket,
}

abbrev empty_bucket : Objects
empty_bucket = record { buckets = λ name. true; contents = λ at. none }

abbrev store : BlobStore
store = record {
  client = record { region = "eu"; base_endpoint = none; use_path_style = false };
  bucket = "b";
}

abbrev quote : String → String
quote name = name

abbrev streaming_writer : Bytes → StreamWriter storage plain_gzip
streaming_writer given = record { gz = given; upload = reading (("b", "a"), []) }

abbrev uploaded_objects : Objects
uploaded_objects = record {
  buckets = λ name. true;
  contents = λ at. if at.0 == "b" && at.1 == "a" then some (31 ∷ 1 ∷ 2 ∷ []) else none;
}

abbrev another : String
another = "b"

b_is_not_a : another ≢ "a"
b_is_not_a e = absurd (not_equal ((eq_iff "b" "a").1 e))
  where
    not_equal : false ≡ true → ⊥
    not_equal h = cc

close_is_atomic_example :
    ((any : String)
      → read_blob storage plain_gzip store quote any empty_bucket
        ≡ read_blob storage plain_gzip store quote any empty_bucket)
    × AllOrNothing {0} storage plain_gzip storage_laws store quote "a" "b" empty_bucket
        (1 ∷ 2 ∷ [])
        (ok tt, uploaded_objects)
unfolding write writer pipe close
close_is_atomic_example =
    close_is_atomic storage plain_gzip storage_laws store quote "a" "b" ((1 ∷ []) ∷ (2 ∷ []) ∷ [])
      (streaming_writer (1 ∷ 2 ∷ [])) empty_bucket empty_bucket (ok tt, uploaded_objects) b_is_not_a
      plain-Inflates tt tt tt refl refl

write_blob_is_atomic_example :
    AllOrNothing storage plain_gzip storage_laws store quote "a" "b" empty_bucket
      (1 ∷ 2 ∷ [])
      (write_blob storage plain_gzip store "a" (1 ∷ 2 ∷ []) empty_bucket)
write_blob_is_atomic_example =
    write_blob_is_atomic storage plain_gzip storage_laws store quote "a" "b" (1 ∷ 2 ∷ [])
      empty_bucket b_is_not_a plain-Inflates tt tt

abbrev no_bucket : Objects
no_bucket = record { buckets = λ name. false; contents = λ at. none }

abbrev config : Config
config = record { bucket = "b"; region = "eu"; endpoint = "" }

abbrev region_loads : String → Result Error (Unit {0})
region_loads region = ok tt

new-Ready_example :
    (config.bucket ≢ "")
    × (store ≡ record { client = client_options config; bucket = "b" })
    × Ready storage quote "b" no_bucket (new storage quote region_loads config no_bucket).1
unfolding new create_bucket_if_not_exists bucket_exists
new-Ready_example =
    new-Ready storage quote region_loads config no_bucket store storage-WaitsForBucket refl
