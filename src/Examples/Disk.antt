-- ===== src/Examples/Disk.antt =====
-- A blob that a writer replaces.
use bepper.Base.{◌≡◌, ◌≢◌, refl, true, [], ◌∷◌, eq_iff, false}
use bepper.Base.Dict.{insert, lookup}
use bepper.Base.Result.{ok, ok_inj}
use bepper.Base.Text.{contains, cut_prefix}
use bepper.Blobstore.Compression.{compress, decompress}
use bepper.Disk.{
  Files, FileWriter, blob_path, open_path, compressed_blob, writer, write, write_blob, read_blob,
  blob_exists, close,
}
use bepper.Disk.Writing.{close-write_blob, writer-blob_exists}
use bepper.Samples.Storage.{plain, plain_gzip, plain-Inflates}

abbrev files : Files
files = ("data/a", 31 ∷ 7 ∷ []) ∷ ("data/b", 31 ∷ 8 ∷ []) ∷ []

abbrev file_writer : FileWriter plain "data"
file_writer = record { path = "data/a"; content = []; gz = [] }

abbrev written_writer : FileWriter plain "data"
written_writer = record { path = "data/a"; content = []; gz = 1 ∷ 2 ∷ [] }

abbrev truncated : Files
truncated = ("data/a", []) ∷ ("data/b", 31 ∷ 8 ∷ []) ∷ []

abbrev replaced : Files
replaced = ("data/a", 31 ∷ 1 ∷ 2 ∷ []) ∷ ("data/b", 31 ∷ 8 ∷ []) ∷ []

path_of_a : open_path plain "data" "a" ≢ ok "data/b"
unfolding open_path blob_path contains cut_prefix
path_of_a e = absurd (not_equal ((eq_iff "data/a" "data/b").1 (ok_inj e)))
  where
    not_equal : false ≡ true → ⊥
    not_equal h = cc

close-write_blob_example :
    (read_blob plain "data" "a" replaced ≡ ok (1 ∷ 2 ∷ []))
    × (read_blob plain "data" "a" (write_blob plain "data" "a" (1 ∷ 2 ∷ []) files).1
        ≡ ok (1 ∷ 2 ∷ []))
    × (lookup "data/b" replaced ≡ lookup "data/b" files)
unfolding writer open_path blob_path contains cut_prefix insert write close write_blob
    compressed_blob compress
close-write_blob_example =
    close-write_blob plain "data" "a" "data/b" ((1 ∷ []) ∷ (2 ∷ []) ∷ []) file_writer written_writer
      3 files truncated truncated replaced plain-Inflates refl refl refl refl path_of_a

writer-blob_exists_example :
    (blob_exists plain "data" "a" truncated ≡ ok true)
    × (read_blob plain "data" "a" truncated ≡ decompress plain_gzip (ok []))
unfolding writer open_path blob_path contains cut_prefix insert
writer-blob_exists_example = writer-blob_exists plain "data" "a" file_writer files truncated refl
