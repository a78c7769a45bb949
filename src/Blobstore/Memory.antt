-- ===== src/Blobstore/Memory.antt =====
-- A blobstore in memory, for the concrete runs: no code of the repository, but a state in which
-- the contract of `Blobstore` can be seen to hold. A handle is the name of its blob.
use bepper.Base.{
  ℕ, String, ◌≡◌, ◌≢◌, refl, sym, ◌∙◌, Option, none, some, [], ◌++◌, length, eq_iff, eq_refl, arith,
}
use bepper.Base.Dict.{Dict, lookup, insert, delete, lookup-insert, lookup-delete}
use bepper.Base.Result.{Result, ok, err}
use bepper.Base.Text.{is_some}
use bepper.Blobstore.{Blobstore, WriterLaws, Bytes, Error}

pub record Memory : Type 0 where
  pub blobs : Dict Bytes
  pub writers : Dict Bytes

abbrev found_bytes : Option Bytes → Result Error Bytes
found_bytes none = err "not found"
found_bytes (some b) = ok b

abbrev write_found : String → Bytes → Option Bytes → Memory → Result Error ℕ × Memory
write_found h p none s = (err "closed", s)
write_found h p (some b) s = (ok (length p), record s { writers = insert h (b ++ p) s.writers })

abbrev close_found : String → Option Bytes → Memory → Result Error (Unit {0}) × Memory
close_found h none s = (err "closed", s)
close_found h (some b) s =
    (ok tt, record { blobs = insert h b s.blobs; writers = delete h s.writers })

abbrev pub memory : Blobstore
memory = record {
  State = Memory;
  Handle = String;
  blob_exists = λ name s. (ok (is_some (lookup name s.blobs)), s);
  read_blob = λ name s. (found_bytes (lookup name s.blobs), s);
  write_blob = λ name p s. (ok (length p), record s { blobs = insert name p s.blobs });
  delete_blob = λ name s. (ok tt, record s { blobs = delete name s.blobs });
  writer = λ name s. (ok name, record s { writers = insert name [] s.writers });
  write = λ h p s. write_found h p (lookup h s.writers) s;
  close = λ h s. close_found h (lookup h s.writers) s;
}

abbrev pub empty : Memory
empty = record { blobs = []; writers = [] }

-- A handle that is not the name: what is done for the name leaves its writer alone.
write_found-other :
    (h g : String) (p : Bytes) (o : Option Bytes) (s : Memory)
    → g ≢ h
    → lookup g (write_found h p o s).1.writers ≡ lookup g s.writers
write_found-other h g p none s ne = refl
write_found-other h g p (some b) s ne =
    ground (arith, lookup-insert h g (b ++ p) s.writers, eq_iff h g, ne)

close_found-other :
    (h g : String) (o : Option Bytes) (s : Memory)
    → g ≢ h
    → lookup g (close_found h o s).1.writers ≡ lookup g s.writers
close_found-other h g none s ne = refl
close_found-other h g (some b) s ne = ground (arith, lookup-delete h g s.writers, eq_iff h g, ne)

insert_same {ℓ} : {V : Type ℓ} (h : String) (v : V) (m : Dict V) → lookup h (insert h v m) ≡ some v
insert_same h v m = ground (arith, lookup-insert h h v m, eq_refl h)

inserted-other {ℓ} :
    {V : Type ℓ} (h g : String) (v : V) (m : Dict V) → g ≢ h → lookup g (insert h v m) ≡ lookup g m
inserted-other h g v m ne = ground (arith, lookup-insert h g v m, eq_iff h g)

pub memory_laws : WriterLaws memory
memory_laws = record {
  Open = λ s h name. h ≡ name;
  Written = λ s h bytes. lookup h s.writers ≡ some bytes;
  writer_opens = λ name s h e. let p : h ≡ name = cc e in (p, rw p (insert_same name [] s.writers));
  write_appends =
      λ h name bytes p s n e is_open written. rw written (insert_same h (bytes ++ p) s.writers);
  write_keeps_open = λ h name p s is_open. is_open;
  close_commits = λ h name bytes s e is_open written.
      rw (written, is_open) (rw (insert_same name bytes s.blobs) (refl, refl));
  writer_keeps = λ name other g s ne is_open. (
    is_open,
    λ bytes written. inserted-other name g [] s.writers (λ e. ne (sym is_open ∙ e)) ∙ written,
  );
  write_keeps = λ h name other p g s ne is_open open_other. (
    open_other,
    λ bytes written.
        write_found-other h g p (lookup h s.writers) s (λ e. ne (sym open_other ∙ e ∙ is_open))
        ∙ written,
  );
  close_keeps = λ h name other g s ne is_open open_other. (
    open_other,
    λ bytes written.
        close_found-other h g (lookup h s.writers) s (λ e. ne (sym open_other ∙ e ∙ is_open))
        ∙ written,
  );
}
