-- ===== src/Store/Reliable.antt =====
-- Appends to src/store/store.go that do not fail, since the writers of the blobstore do not.
use bepper.Base.{
  All, String, ◌≡◌, refl, ◌⊎◌, inl, inr, none, some, List, [], ◌∷◌, ◌++◌, eq_refl, arith, map,
}
use bepper.Base.Dict.{lookup, insert, lookup-insert}
use bepper.Base.Result.{ok}
use bepper.Blobstore.{Blobstore, Reliable, Bytes}
use bepper.Events.{BuildEvent}
use bepper.Store.Defs.{
  ProtoJson, blob_name, newline, Store, new, writer_for, register, write_line, wrap, append_line,
  append_event, close_result, finalize,
}
use bepper.Store.Invariant.{Succeeds}
use bepper.Store.RoundTrip.{append, run, Undisturbed, own, done}

abbrev pub Marshals : ProtoJson → BuildEvent → Type 0
Marshals json event = (line : Bytes) × (json.marshal event ≡ ok line)

module _ (B : Blobstore) (json : ProtoJson) (id : String)
    (reliable : Reliable B (blob_name id)) where
  open reliable use {Usable, opens, writes, closes}

  -- The invocation has a writer that can be used.
  HasWriter : Store B → Type 0
  HasWriter s = (h : B.Handle) × (lookup id s.writers ≡ some h) × Usable s.blobs h

  Ready : Store B → Type 0
  Ready s = (lookup id s.writers ≡ none) ⊎ HasWriter s

  write_line-HasWriter :
      (line : Bytes) (h : B.Handle) (s : Store B)
      → lookup id s.writers ≡ some h
      → Usable s.blobs h
      → Succeeds (write_line B line (ok h) s) × HasWriter (write_line B line (ok h) s).1
  unfolding write_line wrap HasWriter
  write_line-HasWriter line h s at usable =
      let (n, wrote, usable_after) = writes s.blobs h line usable in
      (rw wrote refl, (h, at, usable_after))

  -- The writer of the invocation, which is opened if there is none.
  writer_for-HasWriter :
      (s : Store B)
      → Ready s
      → (h : B.Handle) × ((writer_for B id s).0 ≡ ok h)
        × (lookup id (writer_for B id s).1.writers ≡ some h)
        × Usable (writer_for B id s).1.blobs h
  unfolding writer_for Ready HasWriter register
  writer_for-HasWriter s (inr (h, at, usable)) =
      let same : writer_for B id s ≡ (ok h, s) = rw (at, writer_for) refl in
      rw same (h, refl, at, usable)
  writer_for-HasWriter s (inl absent) =
      let (h, opened, usable) = opens s.blobs in
      let blobs = (B.writer (blob_name id) s.blobs).1 in
      let same : writer_for B id s
          ≡ (ok h, record { blobs = blobs; writers = insert id h s.writers }) =
        rw (absent, writer_for, opened) refl in
      rw same (h, refl, ground (arith, lookup-insert id id h s.writers, eq_refl id), usable)

  append-HasWriter :
      (event : BuildEvent) (s : Store B)
      → Marshals json event
      → Ready s
      → Succeeds (append_event B json id event s) × HasWriter (append_event B json id event s).1
  unfolding append_event append_line
  append-HasWriter event s marshals ready =
      let (line, marshaled) = marshals in
      let (h, is_ok, at, usable) = writer_for-HasWriter s ready in
      let (success, writer) =
        write_line-HasWriter (line ++ newline ∷ []) h (writer_for B id s).1 at usable in
      (rw (marshaled, is_ok) success, rw (marshaled, is_ok) writer)

  Ready-Undisturbed :
      (events : List BuildEvent) (s : Store B)
      → All (Marshals json) events
      → Ready s
      → Undisturbed B json id (map (append id) events) s
        × Ready (run B json (map (append id) events) s)
  unfolding run Ready
  Ready-Undisturbed [] s marshals ready = (done, ready)
  Ready-Undisturbed (event ∷ events) s (first, rest) ready =
      let (success, writer) = append-HasWriter event s first ready in
      let (u, after) =
        Ready-Undisturbed events (append_event B json id event s).1 rest (inr writer) in
      (own event success u, after)

  finalize-Succeeds : (s : Store B) → Ready s → Succeeds (finalize B id s)
  unfolding finalize close_result Ready HasWriter
  finalize-Succeeds s (inl absent) = rw (absent, finalize) refl
  finalize-Succeeds s (inr (h, at, usable)) = rw (at, finalize, closes s.blobs h usable) refl

  -- The events of an invocation can be appended and the invocation finalized.
  pub appends_succeed :
      (events : List BuildEvent) (blobs : B.State)
      → All (Marshals json) events
      → Undisturbed B json id (map (append id) events) (new B blobs)
        × Succeeds (finalize B id (run B json (map (append id) events) (new B blobs)))
  unfolding new lookup Ready
  appends_succeed events blobs marshals =
      let (u, ready) = Ready-Undisturbed events (new B blobs) marshals (inl refl) in
      (u, finalize-Succeeds _ ready)
