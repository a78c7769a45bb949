-- ===== src/Store/Appends.antt =====
-- `AppendEvent` and `Finalize` as steps on the writers.
use bepper.Base.{
  String, ◌≡◌, refl, ap, subst, Option, none, some, [], ◌∷◌, ◌++◌, eq_iff, eq_refl, arith,
  Option-cases, inl, inr,
}
use bepper.Base.Dict.{lookup, delete, lookup-delete}
use bepper.Base.Result.{Result, ok, err, Result-cases}
use bepper.Blobstore.{Blobstore, WriterLaws, Bytes, Error}
use bepper.Events.{BuildEvent}
use bepper.Store.Defs.{
  ProtoJson, blob_name, newline, Store, writer_for, append_event, append_line, write_line, wrap,
  close_result, finalize,
}
use bepper.Store.Invariant.{
  Succeeds, AllOpen, Holds, opened, Step, Step-AllOpen, Step-refl, Step-trans, Step-writer_for,
  registered-writer_for, Written-writer_for, blob_name_injective,
}

same_entry-value {ℓ} : {A : Type ℓ} {o : Option A} {a b : A} → o ≡ some a → o ≡ some b → a ≡ b
same_entry-value p q = cc

module _ (B : Blobstore) (laws : WriterLaws B) where
  open laws use {
    Open, Written, write_appends, write_keeps_open, close_commits, write_keeps, close_keeps,
  }

  Step-write_line :
      (j : String) (s : Store B) (line : Bytes) (r : Result Error B.Handle)
      → AllOpen B laws s
      → ((w : B.Handle) → r ≡ ok w → lookup j s.writers ≡ some w)
      → Step B laws j s (write_line B line r s).1
  unfolding write_line
  Step-write_line j s line (err e) all reg = Step-refl B laws j s all
  Step-write_line j s line (ok w) all reg =
      let present = reg w refl in
      record {
        kept = λ i g ne _ op.
            write_keeps w (blob_name j) (blob_name i) line g s.blobs
              (λ p. ne (blob_name_injective i j p)) (all j w present) op;
        same_entry = λ i ne. refl;
        own = λ g e.
            subst (λ x. Open (B.write w line s.blobs).1 x (blob_name j))
              (same_entry-value present e)
              (write_keeps_open w (blob_name j) line s.blobs (all j w present));
      }

  Written-write_line :
      (j : String) (s : Store B) (line bytes : Bytes) (w : B.Handle)
      → AllOpen B laws s
      → lookup j s.writers ≡ some w
      → Written s.blobs w bytes
      → Succeeds (write_line B line (ok w) s)
      → Holds B laws j (write_line B line (ok w) s).1 (bytes ++ line)
  unfolding write_line
  Written-write_line j s line bytes w all present written success =
      elim (Result-cases (B.write w line s.blobs).0) [
        | inl (e, fails) ↦ cc (ap (wrap B "write event: ") fails)
        | inr (n, done) ↦
            opened w (bytes ++ line) present
              (write_appends w (blob_name j) bytes line s.blobs n done (all j w present) written)
      ]

  Holds-write_line :
      (j : String) (t : Store B) (line bytes : Bytes) (r : Result Error B.Handle)
      → AllOpen B laws t
      → ((w : B.Handle) → r ≡ ok w → (lookup j t.writers ≡ some w) × Written t.blobs w bytes)
      → Succeeds (write_line B line r t)
      → Holds B laws j (write_line B line r t).1 (bytes ++ line)
  unfolding write_line
  Holds-write_line j t line bytes (err e) all ready success = cc
  Holds-write_line j t line bytes (ok w) all ready success =
      let (present, written) = ready w refl in
      Written-write_line j t line bytes w all present written success

  module _ (json : ProtoJson) where
    Step-append_line :
        (j : String) (r : Result Error Bytes) (s : Store B)
        → AllOpen B laws s
        → Step B laws j s (append_line B json j r s).1
    unfolding append_line
    Step-append_line j (err e) s all = Step-refl B laws j s all
    Step-append_line j (ok line) s all =
        let opening = Step-writer_for B laws j s all in
        let t = (writer_for B j s).1 in
        Step-trans B laws j s t _ opening (
          Step-write_line j t (line ++ newline ∷ []) (writer_for B j s).0
            (Step-AllOpen B laws j s t opening all) (λ w e. registered-writer_for B laws j s w e))

    -- An event is added to what its invocation's writer holds.
    Holds-append_line :
        (j : String) (r : Result Error Bytes) (s : Store B) (bytes : Bytes)
        → AllOpen B laws s
        → Holds B laws j s bytes
        → Succeeds (append_line B json j r s)
        → (line : Bytes) × (r ≡ ok line)
          × Holds B laws j (append_line B json j r s).1 (bytes ++ (line ++ newline ∷ []))
    unfolding append_line
    Holds-append_line j (err e) s bytes all holds success = cc
    Holds-append_line j (ok line) s bytes all holds success =
        let opening = Step-writer_for B laws j s all in
        (
          line,
          refl,
          Holds-write_line j (writer_for B j s).1 (line ++ newline ∷ []) bytes (writer_for B j s).0
              (Step-AllOpen B laws j s _ opening all)
              (λ w e. (
                registered-writer_for B laws j s w e,
                Written-writer_for B laws j s w bytes holds e,
              ))
              success,
        )

    pub Step-append_event :
        (j : String) (event : BuildEvent) (s : Store B)
        → AllOpen B laws s
        → Step B laws j s (append_event B json j event s).1
    unfolding append_event
    Step-append_event j event s all = Step-append_line j (json.marshal event) s all

    pub Holds-append_event :
        (j : String) (event : BuildEvent) (s : Store B) (bytes : Bytes)
        → AllOpen B laws s
        → Holds B laws j s bytes
        → Succeeds (append_event B json j event s)
        → (line : Bytes) × (json.marshal event ≡ ok line)
          × Holds B laws j (append_event B json j event s).1 (bytes ++ (line ++ newline ∷ []))
    unfolding append_event
    Holds-append_event j event s bytes = Holds-append_line j (json.marshal event) s bytes

  finalize-none :
      (j : String) (s : Store B) → lookup j s.writers ≡ none → finalize B j s ≡ (none, s)
  unfolding finalize
  finalize-none j s e = rw (e, finalize)

  pub finalize-some :
      (j : String) (s : Store B) (w : B.Handle)
      → lookup j s.writers ≡ some w
      → finalize B j s ≡ (
        close_result B (B.close w s.blobs).0,
        record { blobs = (B.close w s.blobs).1; writers = delete j s.writers },
      )
  unfolding finalize
  finalize-some j s w e = rw (e, finalize)

  pub Step-finalize :
      (j : String) (s : Store B) → AllOpen B laws s → Step B laws j s (finalize B j s).1
  Step-finalize j s all = elim (Option-cases (lookup j s.writers)) [
    | inl absent ↦ rw (finalize-none j s absent) (Step-refl B laws j s all)
    | inr (w, present) ↦ rw (finalize-some j s w present) (record {
      kept = λ i g ne _ op.
          close_keeps w (blob_name j) (blob_name i) g s.blobs (λ p. ne (blob_name_injective i j p))
            (all j w present) op;
      same_entry = λ i ne. ground (arith, lookup-delete j i s.writers, eq_iff j i, ne);
      own = λ g e. ground (arith, lookup-delete j j s.writers, eq_refl j);
    })
  ]
