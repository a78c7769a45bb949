-- ===== src/Store/Invariant.antt =====
-- What the store holds for an invocation, and that its operations keep it, whatever happens to the
-- other invocations in between.
use text.Mathlib.TextLemmas.{append_cancel_right}
use bepper.Base.{
  String, ◌≡◌, ◌≢◌, refl, sym, ap, ◌∙◌, subst, Option, none, some, [], ◌==◌, eq_iff, eq_refl, arith,
  Option-cases, Bool-cases, inl, inr,
}
use bepper.Base.Dict.{lookup, lookup-insert, lookup-insert-cases}
use bepper.Base.Result.{Result, ok, err}
use bepper.Blobstore.{Blobstore, WriterLaws, Bytes, Error}
use bepper.Store.Defs.{blob_name, Store, writer_for, register}

pub blob_name_injective : (i j : String) → blob_name i ≡ blob_name j → i ≡ j
unfolding blob_name
blob_name_injective i j h = append_cancel_right i j ".jsonl" h

-- Results of Go calls: the error is nil.
abbrev pub Succeeds {ℓ} : {S : Type ℓ} → Option Error × S → Type 0
Succeeds r = r.0 ≡ none

ok_injective {ℓ κ} :
    {E : Type ℓ} {A : Type κ} {a b : A} → ◌≡◌ {A = Result E A} (ok a) (ok b) → a ≡ b
ok_injective p = cc

module _ (B : Blobstore) (laws : WriterLaws B) where
  open laws use {
    Open, Written, writer_opens, write_appends, write_keeps_open, close_commits, writer_keeps,
    write_keeps, close_keeps,
  }

  -- Every registered writer is open and writes the blob of its invocation.
  abbrev pub AllOpen : Store B → Type 0
  AllOpen s =
      (j : String) (w : B.Handle) → lookup j s.writers ≡ some w → Open s.blobs w (blob_name j)

  -- The invocation's writer holds these bytes; before the first event there is no writer.
  pub data Holds (id : String) (s : Store B) : Bytes → Type 0 where
    unopened : lookup id s.writers ≡ none → Holds id s []
    opened :
        (w : B.Handle) (bytes : Bytes)
        → lookup id s.writers ≡ some w
        → Written s.blobs w bytes
        → Holds id s bytes

  -- What a step for the invocation `j` does to the writers of the others, and to the map.
  pub record Step (j : String) (s t : Store B) : Type 0 where
    pub kept :
        (i : String) (w : B.Handle)
        → i ≢ j
        → lookup i s.writers ≡ some w
        → Open s.blobs w (blob_name i)
        → Open t.blobs w (blob_name i)
          × ((bytes : Bytes) → Written s.blobs w bytes → Written t.blobs w bytes)
    pub same_entry : (i : String) → i ≢ j → lookup i t.writers ≡ lookup i s.writers
    pub own : (w : B.Handle) → lookup j t.writers ≡ some w → Open t.blobs w (blob_name j)

  module _ (j : String) (s t : Store B) (step : Step j s t) (all : AllOpen s) where
    pub Step-AllOpen : AllOpen t
    Step-AllOpen i w e = elim (Bool-cases (i == j)) [
      | inl same ↦
          let p = (eq_iff i j).0 same in
          subst (λ k. Open t.blobs w (blob_name k)) (sym p)
            (step.own w (ap (λ k. lookup k t.writers) (sym p) ∙ e))
      | inr other ↦
          let ne : i ≢ j = λ p. cc (other, (eq_iff i j).1 p) in
          let before = sym (step.same_entry i ne) ∙ e in
          (step.kept i w ne before (all i w before)).0
    ]

    pub Step-Holds : (i : String) (bytes : Bytes) → i ≢ j → Holds i s bytes → Holds i t bytes
    Step-Holds i _ ne (unopened e) = unopened (step.same_entry i ne ∙ e)
    Step-Holds i _ ne (opened w bytes e written) =
        opened w bytes (step.same_entry i ne ∙ e) ((step.kept i w ne e (all i w e)).1 bytes written)

  abbrev at_name : (i j : String) → i ≢ j → blob_name i ≢ blob_name j
  at_name i j ne p = ne (blob_name_injective i j p)

  Step-register :
      (j : String) (s : Store B) (r : Result Error B.Handle)
      → lookup j s.writers ≡ none
      → (B.writer (blob_name j) s.blobs).0 ≡ r
      → Step j s (register B j r (record s { blobs = (B.writer (blob_name j) s.blobs).1 })).1
  unfolding register
  Step-register j s (err e) absent fails = record {
    kept = λ i w ne _ op. writer_keeps (blob_name j) (blob_name i) w s.blobs (at_name i j ne) op;
    same_entry = λ i ne. refl;
    own = λ w e. cc;
  }
  Step-register j s (ok h) absent opens = record {
    kept = λ i w ne _ op. writer_keeps (blob_name j) (blob_name i) w s.blobs (at_name i j ne) op;
    same_entry = λ i ne. ground (arith, lookup-insert j i h s.writers, eq_iff j i, ne);
    own = λ w e. elim (lookup-insert-cases j j h w s.writers e) [
      | inl (_, same) ↦
          subst (λ x. Open (B.writer (blob_name j) s.blobs).1 x (blob_name j)) same
            (writer_opens (blob_name j) s.blobs h opens).0
      | inr before ↦ cc
    ];
  }

  pub Step-refl : (j : String) (s : Store B) → AllOpen s → Step j s s
  Step-refl j s all = record {
    kept = λ i w ne e op. (op, λ bytes written. written);
    same_entry = λ i ne. refl;
    own = λ w e. all j w e;
  }

  pub Step-trans : (j : String) (s t u : Store B) → Step j s t → Step j t u → Step j s u
  Step-trans j s t u p q = record {
    kept = λ i w ne e op.
        let (open_t, written_t) = p.kept i w ne e op in
        let (open_u, written_u) = q.kept i w ne (p.same_entry i ne ∙ e) open_t in
        (open_u, λ bytes h. written_u bytes (written_t bytes h));
    same_entry = λ i ne. q.same_entry i ne ∙ p.same_entry i ne;
    own = q.own;
  }

  writer_for-some :
      (j : String) (s : Store B) (w : B.Handle)
      → lookup j s.writers ≡ some w
      → writer_for B j s ≡ (ok w, s)
  unfolding writer_for
  writer_for-some j s w e = rw (e, writer_for)

  writer_for-none :
      (j : String) (s : Store B)
      → lookup j s.writers ≡ none
      → writer_for B j s
        ≡ register B j
            (B.writer (blob_name j) s.blobs).0
            (record s { blobs = (B.writer (blob_name j) s.blobs).1 })
  unfolding writer_for
  writer_for-none j s e = rw (e, writer_for)

  pub Step-writer_for : (j : String) (s : Store B) → AllOpen s → Step j s (writer_for B j s).1
  Step-writer_for j s all = elim (Option-cases (lookup j s.writers)) [
    | inl absent ↦ rw (writer_for-none j s absent) (Step-register j s _ absent refl)
    | inr (w, e) ↦ rw (writer_for-some j s w e) (Step-refl j s all)
  ]

  registered-register :
      (j : String) (s : Store B) (r : Result Error B.Handle) (w : B.Handle)
      → (register B j r s).0 ≡ ok w
      → lookup j (register B j r s).1.writers ≡ some w
  unfolding register
  registered-register j s (err e) w p = cc
  registered-register j s (ok h) w p = ground (arith, lookup-insert j j h s.writers, eq_refl j)

  -- A writer that is returned is registered.
  pub registered-writer_for :
      (j : String) (s : Store B) (w : B.Handle)
      → (writer_for B j s).0 ≡ ok w
      → lookup j (writer_for B j s).1.writers ≡ some w
  registered-writer_for j s w e = elim (Option-cases (lookup j s.writers)) [
    | inl absent ↦
        let eq = writer_for-none j s absent in
        rw eq (registered-register j _ _ w (ap (λ x. x.0) (sym eq) ∙ e))
    | inr (v, present) ↦
        let eq = writer_for-some j s v present in rw eq (present ∙ cc (ap (λ x. x.0) (sym eq) ∙ e))
  ]

  Written-register :
      (j : String) (s : Store B) (r : Result Error B.Handle) (w : B.Handle)
      → (B.writer (blob_name j) s.blobs).0 ≡ r
      → (register B j r (record s { blobs = (B.writer (blob_name j) s.blobs).1 })).0 ≡ ok w
      → Written (B.writer (blob_name j) s.blobs).1 w []
  unfolding register
  Written-register j s (err e) w opens p = cc
  Written-register j s (ok h) w opens p = (writer_opens (blob_name j) s.blobs w (opens ∙ p)).1

  blobs-register :
      (j : String) (s : Store B) (r : Result Error B.Handle) → (register B j r s).1.blobs ≡ s.blobs
  unfolding register
  blobs-register j s (err e) = refl
  blobs-register j s (ok h) = refl

  -- The writer that is returned holds what the invocation's writer held.
  pub Written-writer_for :
      (j : String) (s : Store B) (w : B.Handle) (bytes : Bytes)
      → Holds j s bytes
      → (writer_for B j s).0 ≡ ok w
      → Written (writer_for B j s).1.blobs w bytes
  Written-writer_for j s w _ (unopened absent) e =
      let eq = writer_for-none j s absent in
      rw eq (
        rw (blobs-register j _ (B.writer (blob_name j) s.blobs).0)
          (Written-register j s _ w refl (ap (λ x. x.0) (sym eq) ∙ e)))
  Written-writer_for j s w _ (opened v bytes present written) e =
      let eq = writer_for-some j s v present in
      let same : v ≡ w = ok_injective (ap (λ x. x.0) (sym eq) ∙ e) in
      rw eq (subst (λ x. Written s.blobs x bytes) same written)
