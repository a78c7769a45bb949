-- ===== src/Disk/Reliable.antt =====
-- Writers of src/blobstore/disk that do not fail, since gzip and the operating system do not.
use bepper.Base.{ℕ, String, ◌≡◌, refl, none, some}
use bepper.Base.Result.{ok}
use bepper.Blobstore.{Reliable, Bytes}
use bepper.Blobstore.Compression.{Gzip}
use bepper.Disk.{Environment, open_path, writer, write, close}
use bepper.Disk.Contract.{OpenFile, Directory, disk_store, set-same, opening, writing, closing}

-- gzip gives no error of its own.
abbrev pub NeverFails : Gzip → Type 0
NeverFails gzip =
    ((p : Bytes) (gz : gzip.Writer) → (n : ℕ) × ((gzip.write p gz).0 ≡ ok n))
    × ((gz : gzip.Writer) → (gzip.close gz).0 ≡ none)

module _ (env : Environment) (root : String) where
  HasFile : Directory env root → ℕ → Type 0
  HasFile s h = (o : OpenFile env root) × (s.writers h ≡ some o)

  open-HasFile :
      (name path : String) (s : Directory env root)
      → open_path env root name ≡ ok path
      → (h : ℕ) × ((opening env root name (writer env root name s.files) s).0 ≡ ok h)
        × HasFile (opening env root name (writer env root name s.files) s).1 h
  unfolding writer HasFile
  open-HasFile name path s at = rw at (s.next, refl, (_, set-same env root s.next _ s))

  write-HasFile :
      (h : ℕ) (p : Bytes) (s : Directory env root)
      → NeverFails env.gzip
      → HasFile s h
      → (n : ℕ) × ((writing env root h p (s.writers h) s).0 ≡ ok n)
        × HasFile (writing env root h p (s.writers h) s).1 h
  unfolding write HasFile
  write-HasFile h p s (writes, closes) (o, at) =
      let (n, wrote) = writes p o.writer.gz in rw at (n, wrote, (_, set-same env root h _ s))

  close-HasFile :
      (h : ℕ) (s : Directory env root)
      → NeverFails env.gzip
      → ((path : String) → env.close_error path ≡ none)
      → HasFile s h
      → (closing env root h (s.writers h) s).0 ≡ ok tt
  unfolding close HasFile
  close-HasFile h s (writes, closes) closes_files (o, at) =
      rw (at, closes o.writer.gz, closes_files o.writer.path) refl

  -- The writers of a blob whose path the operating system lets the program use never fail, where
  -- gzip and the closing of files do not.
  pub disk_reliable :
      (name path : String)
      → NeverFails env.gzip
      → ((path : String) → env.close_error path ≡ none)
      → open_path env root name ≡ ok path
      → Reliable (disk_store env root) name
  disk_reliable name path works closes_files at = record {
    Usable = HasFile;
    opens = λ s. open-HasFile name path s at;
    writes = λ s h p usable. write-HasFile h p s works usable;
    closes = λ s h usable. close-HasFile h s works closes_files usable;
  }
