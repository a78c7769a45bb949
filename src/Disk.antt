-- ===== src/Disk.antt =====
-- src/blobstore/disk: blobs as compressed files of a directory. Package gzip and the errors of the
-- file system are parameters; a file system is the contents of its files by their paths.
pub mod Session
pub mod Writing
pub mod Contract
pub mod Laws
pub mod Reliable
use bepper.Base.{
  joined, ℕ, String, Bool, true, false, not, Option, none, some, List, [], ◌∷◌, ◌++◌, length,
}
use bepper.Base.Dict.{Dict, lookup, insert, delete}
use bepper.Base.Result.{Result, ok, err, check, with_context, ◌>>=◌}
use bepper.Base.Text.{◌⧺◌, contains}
use bepper.Blobstore.{Bytes, Error}
use bepper.Blobstore.Compression.{Gzip, compress, decompress}

abbrev pub Files : Type 0
Files = Dict Bytes

-- gzip and filepath.Join; `denied` is the error of a call of package os on a path, and `close_error`
-- that of closing a file.
pub record Environment : Type 1 where
  pub gzip : Gzip
  pub join : String → String → String
  pub denied : String → Option Error
  pub close_error : String → Option Error

-- New: `mkdir_all` is os.MkdirAll, and the store is its directory.
unfoldable pub new : (mkdir_all : String → Result Error (Unit {0})) → String → Result Error String
new mkdir_all root = do made ← with_context "create root dir: " (mkdir_all root); ok root

module _ (env : Environment) (root : String) where
  unfoldable pub blob_path : String → Result Error String
  blob_path blob_name = do
    inside ←
        check (not (contains blob_name "..")) ("blobName (" ⧺ blob_name ⧺ ") must not contain ../")
    ok (env.join root blob_name)

  abbrev pub allowed : String → Result Error (Unit {0})
  allowed path = elim (env.denied path) [ none ↦ ok tt | some e ↦ err e ]

  -- The path of a blob that the operating system lets the program use.
  unfoldable pub open_path : String → Result Error String
  open_path blob_name = do path ← blob_path blob_name; permitted ← allowed path; ok path

  abbrev pub write_file : Result Error (String × Bytes) → Files → Result Error ℕ × Files
  write_file (err e) files = (err e, files)
  write_file (ok (path, compressed)) files = (ok (length compressed), insert path compressed files)

  unfoldable pub compressed_blob : String → Bytes → Result Error (String × Bytes)
  compressed_blob blob_name bytes = do
    path ← blob_path blob_name
    compressed ← compress env.gzip bytes
    permitted ← allowed path
    ok (path, compressed)

  unfoldable pub write_blob : String → Bytes → Files → Result Error ℕ × Files
  write_blob blob_name bytes files = write_file (compressed_blob blob_name bytes) files

  abbrev pub read_file : Option Bytes → Result Error Bytes
  read_file none = decompress env.gzip (err "file does not exist")
  read_file (some content) = decompress env.gzip (ok content)

  unfoldable pub read_blob : String → Files → Result Error Bytes
  read_blob blob_name files = do path ← open_path blob_name; read_file (lookup path files)

  abbrev pub remove_file : Result Error String → Files → Result Error (Unit {0}) × Files
  remove_file (err e) files = (err e, files)
  remove_file (ok path) files = (ok tt, delete path files)

  -- A file that does not exist is no error.
  unfoldable pub delete_blob : String → Files → Result Error (Unit {0}) × Files
  delete_blob blob_name files = remove_file (open_path blob_name) files

  abbrev pub is_present : Option Bytes → Bool
  is_present none = false
  is_present (some content) = true

  unfoldable pub blob_exists : String → Files → Result Error Bool
  blob_exists blob_name files = do path ← open_path blob_name; ok (is_present (lookup path files))

  -- An open writer: its file, with what it has written to it so far, and its gzip.Writer.
  pub record FileWriter : Type 0 where
    pub path : String
    pub content : Bytes
    pub gz : env.gzip.Writer

  abbrev pub open_file : Result Error String → Files → Result Error FileWriter × Files
  open_file (err e) files = (err e, files)
  open_file (ok path) files =
      (ok (record { path = path; content = []; gz = env.gzip.new_writer }), insert path [] files)

  -- The file is created, or truncated, at once.
  unfoldable pub writer : String → Files → Result Error FileWriter × Files
  writer blob_name files = open_file (open_path blob_name) files

  -- What the gzip.Writer hands over goes behind what the writer has written before: the offset of its
  -- descriptor, as the file was truncated when it was opened and has one writer at a time.
  unfoldable pub write : Bytes → FileWriter → Files → Result Error ℕ × (FileWriter × Files)
  write p w files =
      let out = env.gzip.write p w.gz in
      let content = w.content ++ joined out.1.0 in
      (
        out.0,
        (record { path = w.path; content = content; gz = out.1.1 }, insert w.path content files),
      )

  abbrev pub close_file : Option Error → Option Error → Option Error
  close_file (some e) of_file = some e
  close_file none of_file = of_file

  unfoldable pub close : FileWriter → Files → Option Error × Files
  close w files =
      let out = env.gzip.close w.gz in
      (close_file out.0 (env.close_error w.path), insert w.path (w.content ++ joined out.1) files)
