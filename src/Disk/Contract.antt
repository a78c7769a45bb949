-- ===== src/Disk/Contract.antt =====
-- The store of src/blobstore/disk as a `Blobstore`, and that it keeps the contract of its writers.
use mathlib.Core.List.{append_assoc, append-nil}
use bepper.Base.{
  joined, ℕ, suc, ◌<◌, ◌≤◌, String, ◌≡◌, ◌≢◌, sym, ap, ◌∙◌, Option, none, some, List, [], ◌∷◌, ◌++◌,
  eqb, if◌then◌else◌, arith,
}
use bepper.Base.Result.{Result, ok, err}
use bepper.Blobstore.{Blobstore, Bytes, Error}
use bepper.Blobstore.Compression.{deflated, deflated_from}
use bepper.Disk.{
  Files, Environment, FileWriter, open_path, writer, write, close, write_blob, read_blob,
  delete_blob, blob_exists,
}

module _ (env : Environment) (root : String) where
  -- A writer with the name that it was opened for. The writers are found by their number.
  pub record OpenFile : Type 0 where
    pub name : String
    pub writer : FileWriter env root

  pub record Directory : Type 0 where
    pub files : Files
    pub next : ℕ
    pub writers : ℕ → Option OpenFile

  abbrev pub set_writer : ℕ → Option OpenFile → Directory → Directory
  set_writer h o s = record s { writers = λ i. if eqb i h then o else s.writers i }

  abbrev pub opening :
      String → Result Error (FileWriter env root) × Files → Directory → Result Error ℕ × Directory
  opening name (err e, files) s = (err e, record s { files = files })
  opening name (ok w, files) s = (
    ok s.next,
    set_writer s.next (some (record { name = name; writer = w }))
        (record s { files = files; next = suc s.next }),
  )

  abbrev pub writing : ℕ → Bytes → Option OpenFile → Directory → Result Error ℕ × Directory
  writing h p none s = (err "file already closed", s)
  writing h p (some o) s =
      let r = write env root p o.writer s.files in
      (
        r.0,
        set_writer h (some (record { name = o.name; writer = r.1.0 })) (record s { files = r.1.1 }),
      )

  abbrev pub closed_result : Option Error → Result Error (Unit {0})
  closed_result none = ok tt
  closed_result (some e) = err e

  abbrev pub closing : ℕ → Option OpenFile → Directory → Result Error (Unit {0}) × Directory
  closing h none s = (err "file already closed", s)
  closing h (some o) s =
      let r = close env root o.writer s.files in
      (closed_result r.0, set_writer h none (record s { files = r.1 }))

  abbrev pub disk_store : Blobstore
  disk_store = record {
    State = Directory;
    Handle = ℕ;
    blob_exists = λ name s. (blob_exists env root name s.files, s);
    read_blob = λ name s. (read_blob env root name s.files, s);
    write_blob = λ name bytes s.
        let r = write_blob env root name bytes s.files in (r.0, record s { files = r.1 });
    delete_blob =
        λ name s. let r = delete_blob env root name s.files in (r.0, record s { files = r.1 });
    writer = λ name s. opening name (writer env root name s.files) s;
    write = λ h p s. writing h p (s.writers h) s;
    close = λ h s. closing h (s.writers h) s;
  }

  abbrev pub OpenFor : Directory → ℕ → String → Type 0
  OpenFor s h name =
      (o : OpenFile) × (s.writers h ≡ some o)
      × (o.name ≡ name)
      × (open_path env root name ≡ ok o.writer.path)
      × (h < s.next)

  -- The gzip.Writer and the file have taken these chunks.
  abbrev pub Takes : List Bytes → FileWriter env root → Type 0
  Takes chunks w =
      (rest : List Bytes)
      → deflated env.gzip (chunks ++ rest) ≡ deflated_from env.gzip rest w.gz w.content

  abbrev pub HandedOver : Directory → ℕ → Bytes → Type 0
  HandedOver s h bytes =
      (o : OpenFile) × (chunks : List Bytes) × (s.writers h ≡ some o)
      × (joined chunks ≡ bytes)
      × Takes chunks o.writer

  pub joined-append :
      (chunks : List Bytes) (p : Bytes) → joined (chunks ++ p ∷ []) ≡ joined chunks ++ p
  joined-append [] p = append-nil p
  joined-append (chunk ∷ chunks) p =
      ap (λ b. chunk ++ b) (joined-append chunks p) ∙ sym (append_assoc chunk (joined chunks) p)

  pub set-same : (h : ℕ) (o : Option OpenFile) (s : Directory) → (set_writer h o s).writers h ≡ o
  set-same h o s = ground arith

  pub set-other :
      (h g : ℕ) (o : Option OpenFile) (s : Directory)
      → g ≢ h
      → (set_writer h o s).writers g ≡ s.writers g
  set-other h g o s ne = ground (arith, ne)

  -- The writers of other names are kept by a change of one writer and of the files.
  pub kept :
      (h g : ℕ) (o : Option OpenFile) (s t : Directory) (other : String)
      → g ≢ h
      → s.next ≤ t.next
      → t.writers g ≡ s.writers g
      → OpenFor s g other
      → OpenFor (set_writer h o t) g other
        × ((bytes : Bytes) → HandedOver s g bytes → HandedOver (set_writer h o t) g bytes)
  kept h g o s t other ne grows same (w, at, named, path, below) =
      let there = set-other h g o t ne ∙ same in
      (
        (w, there ∙ at, named, path, omega (arith, below, grows)),
        λ bytes (v, chunks, v_at, all, takes). (v, chunks, there ∙ v_at, all, takes),
      )

  pub apart :
      (s : Directory) (h g : ℕ) (name other : String)
      → other ≢ name
      → OpenFor s h name
      → OpenFor s g other
      → g ≢ h
  apart s h g name other ne (o, at, named, path, below) (v, v_at, v_named, v_path, v_below) same =
      ne (
        sym v_named
        ∙ ap (λ f. elim f [ some x ↦ x.name | none ↦ other ]) (sym v_at ∙ ap s.writers same ∙ at)
        ∙ named)
