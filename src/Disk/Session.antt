-- ===== src/Disk/Session.antt =====
-- The files of src/blobstore/disk after a writer, and after WriteBlob.
use bepper.Base.{
  joined, ℕ, String, ◌≡◌, refl, sym, ap, ◌∙◌, Option, none, some, List, [], ◌∷◌, ◌++◌, eq_iff,
  eq_refl, if◌then◌else◌, arith,
}
use bepper.Base.Dict.{lookup, insert, lookup-insert}
use bepper.Base.Result.{Result, ok, err, ◌>>=◌, bind_succeeds, ok_inj}
use bepper.Blobstore.{Bytes, Error}
use bepper.Blobstore.Compression.{
  buffered-ok, compress, decompress, deflated, deflated_from, flushed,
}
use bepper.Disk.{
  Files, Environment, FileWriter, blob_path, allowed, open_path, compressed_blob, write_blob,
  write_file, read_blob, writer, open_file, write, close, close_file,
}

insert-insert :
    (path : String) (new old : Bytes) (files : Files)
    → insert path new (insert path old files) ≡ insert path new files
unfolding insert
insert-insert path new old [] = rw (eq_refl path) refl
insert-insert path new old (file ∷ files) =
    ground (arith, insert-insert path new old files, eq_refl path, eq_iff file.0 path)

pub lookup-inserted :
    (path : String) (content : Bytes) (files : Files)
    → lookup path (insert path content files) ≡ some content
lookup-inserted path content files =
    lookup-insert path path content files
    ∙ ap (λ b. if b then some content else lookup path files) (eq_refl path)

module _ (env : Environment) (root : String) where
  abbrev pub stepped :
      Result Error ℕ × (FileWriter env root × Files) → Result Error (FileWriter env root × Files)
  stepped (err e, s) = err e
  stepped (ok n, s) = ok s

  -- Several calls of Write, up to the first error.
  abbrev pub write_all :
      List Bytes → FileWriter env root × Files → Result Error (FileWriter env root × Files)
  write_all [] s = ok s
  write_all (p ∷ chunks) s = stepped (write env root p s.0 s.1) >>= λ next. write_all chunks next

  stepped_succeeds :
      (r : Result Error ℕ × (FileWriter env root × Files)) (s : FileWriter env root × Files)
      → stepped r ≡ ok s
      → (n : ℕ) × (r.0 ≡ ok n) × (r.1 ≡ s)
  stepped_succeeds (err e, s1) s h = cc
  stepped_succeeds (ok n, s1) s h = (n, refl, ok_inj h)

  -- The writer has put into its file the output of gzip so far.
  Follows : List Bytes → FileWriter env root × Files → FileWriter env root × Files → Type 0
  Follows chunks s end =
      (deflated_from env.gzip chunks s.0.gz s.0.content
        ≡ deflated_from env.gzip [] end.0.gz end.0.content)
      × (end.0.path ≡ s.0.path)
      × ((content : Bytes) → insert s.0.path content end.1 ≡ insert s.0.path content s.1)

  write_all-Follows :
      (chunks : List Bytes) (s end : FileWriter env root × Files)
      → write_all chunks s ≡ ok end
      → Follows chunks s end
  unfolding Follows write deflated_from
  write_all-Follows [] s end h =
      let same = ok_inj h in
      (
        ap (λ v. deflated_from env.gzip [] v.0.gz v.0.content) same,
        sym (ap (λ v. v.0.path) same),
        λ content. ap (λ v. insert s.0.path content v.1) (sym same),
      )
  write_all-Follows (p ∷ chunks) s end h =
      let w = s.0 in
      let out = env.gzip.write p w.gz in
      let (next, first, rest) = bind_succeeds (stepped (write env root p w s.1)) _ h in
      let (n, wrote, same) = stepped_succeeds _ next first in
      let written = (write env root p w s.1).1 in
      let (deflates, path, kept) =
        write_all-Follows chunks written end (ap (write_all chunks) same ∙ rest) in
      let content = w.content ++ joined out.1.0 in
      (
        ap (λ r. r >>= λ more. deflated_from env.gzip chunks more.1 more.0)
              (buffered-ok env.gzip out w.content n wrote)
            ∙ deflates,
        path,
        λ last. kept last ∙ insert-insert w.path last content s.1,
      )

  pub opened :
      (path : Result Error String) (files files_open : Files) (w : FileWriter env root)
      → open_file env root path files ≡ (ok w, files_open)
      → (path ≡ ok w.path)
        × (w ≡ record { path = w.path; content = []; gz = env.gzip.new_writer })
        × (files_open ≡ insert w.path [] files)
  opened (err e) files files_open w h = cc
  opened (ok path) files files_open w h =
      let same = ok_inj (ap (λ r. r.0) h) in
      (
        ap (λ v. ok v.path) same,
        sym same ∙ ap (λ v. record { path = v.path; content = []; gz = env.gzip.new_writer }) same,
        sym (ap (λ r. r.1) h) ∙ ap (λ v. insert v.path [] files) same,
      )

  pub read_blob-inserted :
      (blob_name path : String) (content : Bytes) (files : Files)
      → open_path env root blob_name ≡ ok path
      → read_blob env root blob_name (insert path content files) ≡ decompress env.gzip (ok content)
  unfolding read_blob
  read_blob-inserted blob_name path content files at =
      rw (at, lookup-inserted path content files) refl

  pub close_file-none :
      (flush of_file : Option Error) → close_file env root flush of_file ≡ none → flush ≡ none
  close_file-none (some e) of_file h = cc
  close_file-none none of_file h = refl

  -- What a writer leaves that was opened, written to and closed.
  pub close-files :
      (blob_name : String) (chunks : List Bytes) (w v : FileWriter env root)
      (files files_open files_written end : Files)
      → writer env root blob_name files ≡ (ok w, files_open)
      → write_all chunks (w, files_open) ≡ ok (v, files_written)
      → close env root v files_written ≡ (none, end)
      → (out : Bytes) × (open_path env root blob_name ≡ ok w.path)
        × (deflated env.gzip chunks ≡ ok out)
        × (end ≡ insert w.path out files)
  unfolding writer close deflated_from Follows
  close-files blob_name chunks w v files files_open files_written end opens writes closes =
      let (path, fresh, created) = opened (open_path env root blob_name) files files_open w opens in
      let (deflates, kept, others) =
        write_all-Follows chunks (w, files_open) (v, files_written) writes in
      let closing = env.gzip.close v.gz in
      let out = v.content ++ joined closing.1 in
      let flushes = close_file-none closing.0 _ (ap (λ r. r.0) closes) in
      (
        out,
        path,
        ap (λ u. deflated_from env.gzip chunks u.gz u.content) (sym fresh)
            ∙ deflates
            ∙ ap (λ f. flushed env.gzip (f, closing.1) v.content) flushes,
        sym (ap (λ r. r.1) closes)
            ∙ ap (λ p. insert p out files_written) kept
            ∙ others out
            ∙ ap (insert w.path out) created
            ∙ insert-insert w.path out [] files,
      )

  open_path-blob_path :
      (blob_name path : String)
      → open_path env root blob_name ≡ ok path
      → blob_path env root blob_name ≡ ok path
  unfolding open_path
  open_path-blob_path blob_name path h =
      let (named, at, h1) = bind_succeeds (blob_path env root blob_name) _ h in
      let (u, permitted, h2) = bind_succeeds (allowed env root named) _ h1 in at ∙ h2

  write_file_succeeds :
      (r : Result Error (String × Bytes)) (files : Files) (n : ℕ)
      → (write_file env root r files).0 ≡ ok n
      → (file : String × Bytes) × (r ≡ ok file)
        × ((write_file env root r files).1 ≡ insert file.0 file.1 files)
  write_file_succeeds (err e) files n h = cc
  write_file_succeeds (ok file) files n h = (file, refl, refl)

  pub write_blob-files :
      (blob_name path : String) (bytes : Bytes) (files : Files) (n : ℕ)
      → open_path env root blob_name ≡ ok path
      → (write_blob env root blob_name bytes files).0 ≡ ok n
      → (content : Bytes) × (compress env.gzip bytes ≡ ok content)
        × ((write_blob env root blob_name bytes files).1 ≡ insert path content files)
  unfolding write_blob compressed_blob
  write_blob-files blob_name path bytes files n at h =
      let (file, compressed, left) =
        write_file_succeeds (compressed_blob env root blob_name bytes) files n h in
      let (named, at1, h1) = bind_succeeds (blob_path env root blob_name) _ compressed in
      let (content, shrunk, h2) = bind_succeeds (compress env.gzip bytes) _ h1 in
      let (u, permitted, h3) = bind_succeeds (allowed env root named) _ h2 in
      let same = ok_inj h3 in
      let is_path = ok_inj (sym at1 ∙ open_path-blob_path blob_name path at) in
      (
        content,
        shrunk,
        left ∙ ap (λ f. insert f.0 f.1 files) (sym same) ∙ ap (λ q. insert q content files) is_path,
      )
