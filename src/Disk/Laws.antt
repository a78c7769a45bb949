-- ===== src/Disk/Laws.antt =====
-- The store of src/blobstore/disk keeps what the users of a `Blobstore` rely on.
use mathlib.Core.List.{append_assoc, append-nil}
use bepper.Base.{
  joined, ℕ, suc, String, ◌≡◌, ◌≢◌, refl, sym, ap, subst, ◌∙◌, true, Option, none, some, List, [],
  ◌∷◌, ◌++◌, arith,
}
use bepper.Base.Result.{Result, ok, err, ◌>>=◌, ok_inj}
use bepper.Blobstore.{WriterLaws, Bytes, Error}
use bepper.Blobstore.Compression.{Inflates, buffered-ok, deflated, deflated_from, flushed}
use bepper.Disk.{
  Files, Environment, FileWriter, open_path, writer, write, close, read_blob, blob_exists,
}
use bepper.Disk.Session.{lookup-inserted, opened, read_blob-inserted, close_file-none}
use bepper.Disk.Contract.{
  OpenFile, Directory, set_writer, opening, writing, closing, closed_result, disk_store, OpenFor,
  Takes, HandedOver, joined-append, set-same, kept, apart,
}

some_inj {ℓ} : {A : Type ℓ} {a b : A} → ◌≡◌ {A = Option A} (some a) (some b) → a ≡ b
some_inj same = cc

module _ (env : Environment) (root : String) where
  opening-opens :
      (name : String) (s : Directory env root) (h : ℕ)
      (r : Result Error (FileWriter env root) × Files)
      → writer env root name s.files ≡ r
      → (opening env root name r s).0 ≡ ok h
      → OpenFor env root (opening env root name r s).1 h name
        × HandedOver env root (opening env root name r s).1 h []
  unfolding writer deflated_from
  opening-opens name s h (err e, files) opens is_h = cc
  opening-opens name s h (ok w, files) opens is_h =
      let (path, fresh, created) =
        opened env root (open_path env root name) s.files files w opens in
      let handle = ok_inj is_h in
      let o : Option (OpenFile env root) = some (record { name = name; writer = w }) in
      let t : Directory env root = record s { files = files; next = suc s.next } in
      let there =
        ap (set_writer env root s.next o t).writers (sym handle) ∙ set-same env root s.next o t in
      (
        (_, there, refl, path, omega (arith, handle)),
        (
          _,
          [],
          there,
          refl,
          λ rest. ap (λ v. deflated_from env.gzip rest v.gz v.content) (sym fresh),
        ),
      )

  opening-kept :
      (name other : String) (g : ℕ) (s : Directory env root)
      (r : Result Error (FileWriter env root) × Files)
      → OpenFor env root s g other
      → OpenFor env root (opening env root name r s).1 g other
        × ((bytes : Bytes)
            → HandedOver env root s g bytes
            → HandedOver env root (opening env root name r s).1 g bytes)
  opening-kept name other g s (err e, files) is_open = (is_open, λ bytes handed. handed)
  opening-kept name other g s (ok w, files) is_open =
      let (o, at, named, path, below) = is_open in
      kept env root s.next g _ s (record s { files = files; next = suc s.next }) other
        (λ same. omega (arith, below, same)) (omega arith) refl is_open

  -- A Write without an error leaves the gzip.Writer with its chunk taken.
  write-Takes :
      (chunks : List Bytes) (p : Bytes) (w : FileWriter env root) (files : Files) (n : ℕ)
      → (write env root p w files).0 ≡ ok n
      → Takes env root chunks w
      → Takes env root (chunks ++ p ∷ []) (write env root p w files).1.0
  unfolding write deflated_from
  write-Takes chunks p w files n wrote takes rest =
      ap (deflated env.gzip) (append_assoc chunks (p ∷ []) rest)
      ∙ takes (p ∷ rest)
      ∙ ap (λ r. r >>= λ more. deflated_from env.gzip rest more.1 more.0)
          (buffered-ok env.gzip (env.gzip.write p w.gz) w.content n wrote)

  write-path :
      (p : Bytes) (w : FileWriter env root) (files : Files)
      → (write env root p w files).1.0.path ≡ w.path
  unfolding write
  write-path p w files = refl

  writing-appends :
      (h : ℕ) (bytes p : Bytes) (s : Directory env root) (n : ℕ) (o : Option (OpenFile env root))
      → s.writers h ≡ o
      → (writing env root h p o s).0 ≡ ok n
      → HandedOver env root s h bytes
      → HandedOver env root (writing env root h p o s).1 h (bytes ++ p)
  writing-appends h bytes p s n none at wrote handed = cc
  writing-appends h bytes p s n (some o) at wrote (v, chunks, v_at, all, takes) =
      let same : v ≡ o = some_inj (sym v_at ∙ at) in
      let r = write env root p o.writer s.files in
      (
        record { name = o.name; writer = r.1.0 },
        chunks ++ p ∷ [],
        set-same env root h _ (record s { files = r.1.1 }),
        joined-append env root chunks p ∙ ap (λ b. b ++ p) all,
        write-Takes chunks p o.writer s.files n wrote
            (subst (λ f. Takes env root chunks f.writer) same takes),
      )

  writing-keeps_open :
      (h : ℕ) (name : String) (p : Bytes) (s : Directory env root) (o : Option (OpenFile env root))
      → s.writers h ≡ o
      → OpenFor env root s h name
      → OpenFor env root (writing env root h p o s).1 h name
  writing-keeps_open h name p s none at is_open = is_open
  writing-keeps_open h name p s (some o) at (v, v_at, named, path, below) =
      let same : v ≡ o = some_inj (sym v_at ∙ at) in
      let r = write env root p o.writer s.files in
      (
        record { name = o.name; writer = r.1.0 },
        set-same env root h _ (record s { files = r.1.1 }),
        ap (λ f. f.name) (sym same) ∙ named,
        path ∙ ap (λ f. ok f.writer.path) same ∙ ap ok (sym (write-path p o.writer s.files)),
        below,
      )

  writing-kept :
      (h : ℕ) (name other : String) (p : Bytes) (g : ℕ) (s : Directory env root)
      (o : Option (OpenFile env root))
      → other ≢ name
      → OpenFor env root s h name
      → OpenFor env root s g other
      → OpenFor env root (writing env root h p o s).1 g other
        × ((bytes : Bytes)
            → HandedOver env root s g bytes
            → HandedOver env root (writing env root h p o s).1 g bytes)
  writing-kept h name other p g s none ne is_open other_open = (other_open, λ bytes handed. handed)
  writing-kept h name other p g s (some o) ne is_open other_open =
      kept env root h g _ s (record s { files = (write env root p o.writer s.files).1.1 }) other
        (apart env root s h g name other ne is_open other_open) (omega arith) refl other_open

  closing-kept :
      (h : ℕ) (name other : String) (g : ℕ) (s : Directory env root)
      (o : Option (OpenFile env root))
      → other ≢ name
      → OpenFor env root s h name
      → OpenFor env root s g other
      → OpenFor env root (closing env root h o s).1 g other
        × ((bytes : Bytes)
            → HandedOver env root s g bytes
            → HandedOver env root (closing env root h o s).1 g bytes)
  closing-kept h name other g s none ne is_open other_open = (other_open, λ bytes handed. handed)
  closing-kept h name other g s (some o) ne is_open other_open =
      kept env root h g _ s (record s { files = (close env root o.writer s.files).1 }) other
        (apart env root s h g name other ne is_open other_open) (omega arith) refl other_open

  closed_result-ok : (r : Option Error) → closed_result env root r ≡ ok tt → r ≡ none
  closed_result-ok none h = refl
  closed_result-ok (some e) h = cc

  close-reads :
      (name : String) (chunks : List Bytes) (w : FileWriter env root) (files : Files)
      → Inflates env.gzip
      → open_path env root name ≡ ok w.path
      → Takes env root chunks w
      → (close env root w files).0 ≡ none
      → (blob_exists env root name (close env root w files).1 ≡ ok true)
        × (read_blob env root name (close env root w files).1 ≡ ok (joined chunks))
  unfolding close deflated_from blob_exists
  close-reads name chunks w files inflates path takes closes =
      let out = env.gzip.close w.gz in
      let content = w.content ++ joined out.1 in
      let deflates : deflated env.gzip chunks ≡ ok content =
        ap (deflated env.gzip) (sym (append-nil chunks))
        ∙ takes []
        ∙ ap (λ f. flushed env.gzip (f, out.1) w.content)
            (close_file-none env root out.0 _ closes) in
      (
        rw (path, lookup-inserted w.path content files) refl,
        read_blob-inserted env root name w.path content files path
            ∙ inflates chunks content deflates,
      )

  closing-commits :
      (h : ℕ) (name : String) (bytes : Bytes) (s : Directory env root)
      (o : Option (OpenFile env root))
      → Inflates env.gzip
      → s.writers h ≡ o
      → (closing env root h o s).0 ≡ ok tt
      → OpenFor env root s h name
      → HandedOver env root s h bytes
      → (blob_exists env root name (closing env root h o s).1.files ≡ ok true)
        × (read_blob env root name (closing env root h o s).1.files ≡ ok bytes)
  closing-commits h name bytes s none inflates at closes is_open handed = cc
  closing-commits h name bytes s (some o) inflates at closes (v, v_at, named, path, below)
        (u, chunks, u_at, all, takes) =
      let (exists, reads) =
        close-reads name chunks o.writer s.files inflates
          (path ∙ ap (λ f. ok f.writer.path) (some_inj (sym v_at ∙ at)))
          (subst (λ f. Takes env root chunks f.writer) (some_inj (sym u_at ∙ at)) takes)
          (closed_result-ok _ closes) in
      (exists, reads ∙ ap ok all)

  -- The store on the disk keeps the contract of its streaming writers, if gzip inflates what it has
  -- deflated.
  pub disk_laws : Inflates env.gzip → WriterLaws (disk_store env root)
  disk_laws inflates = record {
    Open = OpenFor env root;
    Written = HandedOver env root;
    writer_opens = λ name s h e. opening-opens name s h _ refl e;
    write_appends = λ h name bytes p s n e is_open handed.
        writing-appends h bytes p s n (s.writers h) refl e handed;
    write_keeps_open =
        λ h name p s is_open. writing-keeps_open h name p s (s.writers h) refl is_open;
    close_commits = λ h name bytes s e is_open handed.
        closing-commits h name bytes s (s.writers h) inflates refl e is_open handed;
    writer_keeps = λ name other g s ne is_open. opening-kept name other g s _ is_open;
    write_keeps = λ h name other p g s ne is_open open_other.
        writing-kept h name other p g s (s.writers h) ne is_open open_other;
    close_keeps = λ h name other g s ne is_open open_other.
        closing-kept h name other g s (s.writers h) ne is_open open_other;
  }
