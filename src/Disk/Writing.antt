-- ===== src/Disk/Writing.antt =====
-- Blobs that are written to the directory of src/blobstore/disk at once and by a writer.
use mathlib.Core.List.{append-nil}
use bepper.Base.{
  joined, ℕ, String, ◌≡◌, ◌≢◌, refl, sym, ap, ◌∙◌, true, none, List, [], ◌∷◌, eq_iff, arith,
}
use bepper.Base.Dict.{lookup, lookup-insert}
use bepper.Base.Result.{ok}
use bepper.Blobstore.{Bytes}
use bepper.Blobstore.Compression.{Inflates, compress-deflated, decompress}
use bepper.Disk.{
  Files, Environment, FileWriter, open_path, write_blob, read_blob, blob_exists, writer, close,
}
use bepper.Disk.Session.{
  write_all, lookup-inserted, opened, read_blob-inserted, close-files, write_blob-files,
}

module _ (env : Environment) (root : String) where
  -- A writer that is opened, written to and closed without an error leaves a blob that reads as all
  -- the bytes that were written, in order, as it reads after WriteBlob of them at once if that gives
  -- no error. Every other file is as it was. gzip inflates what it has deflated.
  pub close-write_blob :
      (blob_name other : String) (chunks : List Bytes) (w v : FileWriter env root) (n : ℕ)
      (files files_open files_written end : Files)
      → Inflates env.gzip
      → writer env root blob_name files ≡ (ok w, files_open)
      → write_all env root chunks (w, files_open) ≡ ok (v, files_written)
      → close env root v files_written ≡ (none, end)
      → (write_blob env root blob_name (joined chunks) files).0 ≡ ok n
      → open_path env root blob_name ≢ ok other
      → (read_blob env root blob_name end ≡ ok (joined chunks))
        × (read_blob env root blob_name (write_blob env root blob_name (joined chunks) files).1
            ≡ ok (joined chunks))
        × (lookup other end ≡ lookup other files)
  close-write_blob blob_name other chunks w v n files files_open files_written end inflates opens
        writes closes at_once ne =
      let (out, path, deflates, left) =
        close-files env root blob_name chunks w v files files_open files_written end opens writes
          closes in
      let apart : w.path ≢ other = λ e. ne (path ∙ ap ok e) in
      let (content, shrunk, stored) =
        write_blob-files env root blob_name w.path (joined chunks) files n path at_once in
      (
        ap (read_blob env root blob_name) left
            ∙ read_blob-inserted env root blob_name w.path out files path
            ∙ inflates chunks out deflates,
        ap (read_blob env root blob_name) stored
            ∙ read_blob-inserted env root blob_name w.path content files path
            ∙ inflates (joined chunks ∷ []) content
                (sym (compress-deflated env.gzip (joined chunks)) ∙ shrunk)
            ∙ ap ok (append-nil (joined chunks)),
        ap (lookup other) left
            ∙ ground (arith, lookup-insert w.path other out files, eq_iff w.path other, apart),
      )

  -- A writer that has only been opened has already replaced the blob: before any write, and before
  -- Close, the blob exists and reads as an empty file is decompressed, whatever it was before.
  pub writer-blob_exists :
      (blob_name : String) (w : FileWriter env root) (files files_open : Files)
      → writer env root blob_name files ≡ (ok w, files_open)
      → (blob_exists env root blob_name files_open ≡ ok true)
        × (read_blob env root blob_name files_open ≡ decompress env.gzip (ok []))
  unfolding writer blob_exists
  writer-blob_exists blob_name w files files_open h =
      let (path, fresh, created) =
        opened env root (open_path env root blob_name) files files_open w h in
      let found = lookup-inserted w.path [] files in
      (
        rw (created, path, found) refl,
        rw created (read_blob-inserted env root blob_name w.path [] files path),
      )
