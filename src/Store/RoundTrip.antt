-- ===== src/Store/RoundTrip.antt =====
-- Operations on several invocations, in any order, and what is read afterwards.
use bepper.Base.{
  String, ◌≡◌, ◌≢◌, refl, sym, ap, subst, true, Option, none, some, List, [], ◌∷◌, ◌++◌, ◌==◌,
  eq_iff, eq_refl, arith, if◌then◌else◌, inl, inr,
}
use mathlib.Core.List.{append-nil, append_assoc}
use bepper.Base.Dict.{lookup}
use bepper.Base.Result.{ok, Result-cases}
use bepper.Blobstore.{Blobstore, WriterLaws, Bytes, Error}
use bepper.Events.{BuildEvent}
use bepper.Store.Defs.{
  ProtoJson, blob_name, newline, Store, new, append_event, close_result, finalize, read_events,
  read_existing, decode,
}
use bepper.Store.Invariant.{
  Succeeds, AllOpen, Holds, unopened, opened, Step, Step-AllOpen, Step-Holds,
}
use bepper.Store.Appends.{Step-append_event, Holds-append_event, finalize-some, Step-finalize}
use bepper.Store.Json.{JsonLaws, Encoded, Encoded-append, unmarshal_lines-Encoded}

-- What requests do to the store, as a sequence of operations.
pub data Op : Type 0 where
  append : String → BuildEvent → Op
  finalize_op : String → Op

abbrev pub op_id : Op → String
op_id (append j event) = j
op_id (finalize_op j) = j

-- The events that are appended for an invocation.
abbrev pub appended : String → List Op → List BuildEvent
appended id [] = []
appended id (append j event ∷ ops) = if j == id then event ∷ appended id ops else appended id ops
appended id (finalize_op j ∷ ops) = appended id ops

module _ (B : Blobstore) (json : ProtoJson) where
  abbrev pub run_op : Op → Store B → Option Error × Store B
  run_op (append j event) s = append_event B json j event s
  run_op (finalize_op j) s = finalize B j s

  unfoldable pub run : List Op → Store B → Store B
  run [] s = s
  run (op ∷ ops) s = run ops (run_op op s).1

  -- Every append for the invocation succeeds, and it is not finalized. Operations for the others
  -- may succeed or fail.
  pub data Undisturbed (id : String) : List Op → Store B → Type 0 where
    done : {s : Store B} → Undisturbed id [] s
    own :
        {ops : List Op} {s : Store B} (event : BuildEvent)
        → Succeeds (append_event B json id event s)
        → Undisturbed id ops (append_event B json id event s).1
        → Undisturbed id (append id event ∷ ops) s
    foreign :
        {ops : List Op} {s : Store B} (op : Op)
        → op_id op ≢ id
        → Undisturbed id ops (run_op op s).1
        → Undisturbed id (op ∷ ops) s

module _ (B : Blobstore) (laws : WriterLaws B) (json : ProtoJson) where
  -- The writers are open, and the invocation's one holds the lines of these events.
  pub record Buffered (id : String) (events : List BuildEvent) (s : Store B) : Type 0 where
    pub all : AllOpen B laws s
    pub bytes : Bytes
    pub holds : Holds B laws id s bytes
    pub encoded : Encoded json events bytes

  pub Buffered-append :
      (id : String) (events : List BuildEvent) (event : BuildEvent) (s : Store B)
      → Buffered id events s
      → Succeeds (append_event B json id event s)
      → Buffered id (events ++ event ∷ []) (append_event B json id event s).1
  Buffered-append id events event s b success =
      let (line, m, holds) =
        Holds-append_event B laws json id event s b.bytes b.all b.holds success in
      record {
        all = Step-AllOpen B laws id s _ (Step-append_event B laws json id event s b.all) b.all;
        bytes = b.bytes ++ (line ++ newline ∷ []);
        holds = holds;
        encoded = Encoded-append json events event b.bytes line b.encoded m;
      }

  Step-run_op :
      (op : Op) (s : Store B) → AllOpen B laws s → Step B laws (op_id op) s (run_op B json op s).1
  Step-run_op (append j event) s all = Step-append_event B laws json j event s all
  Step-run_op (finalize_op j) s all = Step-finalize B laws j s all

  pub Buffered-foreign :
      (id : String) (events : List BuildEvent) (op : Op) (s : Store B)
      → op_id op ≢ id
      → Buffered id events s
      → Buffered id events (run_op B json op s).1
  Buffered-foreign id events op s ne b =
      let step = Step-run_op op s b.all in
      record {
        all = Step-AllOpen B laws (op_id op) s _ step b.all;
        bytes = b.bytes;
        holds = Step-Holds B laws (op_id op) s _ step b.all id b.bytes (λ p. ne (sym p)) b.holds;
        encoded = b.encoded;
      }

  appended-own :
      (id : String) (event : BuildEvent) (ops : List Op)
      → appended id (append id event ∷ ops) ≡ event ∷ appended id ops
  appended-own id event ops = rw (eq_refl id)

  appended-foreign :
      (id : String) (op : Op) (ops : List Op)
      → op_id op ≢ id
      → appended id (op ∷ ops) ≡ appended id ops
  appended-foreign id (append j event) ops ne = ground (arith, eq_iff j id, ne)
  appended-foreign id (finalize_op j) ops ne = refl

  Buffered-run :
      (id : String) {ops : List Op} {s : Store B} (events : List BuildEvent)
      → Undisturbed B json id ops s
      → Buffered id events s
      → Buffered id (events ++ appended id ops) (run B json ops s)
  unfolding run
  Buffered-run id {s} events done b = rw append-nil b
  Buffered-run id {s} events (own {ops} event success u) b = rw (appended-own id event ops) (
      rw (← append_assoc events (event ∷ []) (appended id ops))
        (Buffered-run id (events ++ event ∷ []) u (Buffered-append id events event s b success)))
  Buffered-run id {s} events (foreign {ops} op ne u) b =
      rw (appended-foreign id op ops ne)
        (Buffered-run id events u (Buffered-foreign id events op s ne b))

  Buffered-new : (id : String) (blobs : B.State) → Buffered id [] (new B blobs)
  unfolding new lookup
  Buffered-new id blobs = record {
    all = λ j w e. cc;
    bytes = [];
    holds = unopened refl;
    encoded = refl;
  }

  module _ (json_laws : JsonLaws json) where
    -- What is read of the bytes that a blob holds.
    read_events-committed :
        (id : String) (events : List BuildEvent) (bytes : Bytes) (s : Store B)
        → Encoded json events bytes
        → (B.blob_exists (blob_name id) s.blobs).0 ≡ ok true
        → (B.read_blob (blob_name id) (B.blob_exists (blob_name id) s.blobs).1).0 ≡ ok bytes
        → (read_events B json id s).0 ≡ record { events = events; found = true; error = none }
    unfolding read_events decode
    read_events-committed id events bytes s enc exists content =
        rw (exists, read_existing)
          (rw (content, decode) (rw (unmarshal_lines-Encoded json json_laws events bytes enc)))

    read_after_close :
        (id : String) (events : List BuildEvent) (bytes : Bytes) (w : B.Handle) (s : Store B)
        → AllOpen B laws s
        → lookup id s.writers ≡ some w
        → laws.Written s.blobs w bytes
        → Encoded json events bytes
        → Succeeds (finalize B id s)
        → (read_events B json id (finalize B id s).1).0
          ≡ record { events = events; found = true; error = none }
    unfolding finalize close_result
    read_after_close id events bytes w s all present written enc success =
        let success' = subst Succeeds (finalize-some B laws id s w present) success in
        rw (finalize-some B laws id s w present) (elim (Result-cases (B.close w s.blobs).0) [
          | inl (e, fails) ↦ cc (ap (close_result B) fails, success')
          | inr (tt, closed) ↦
              let (exists, content) =
                laws.close_commits w (blob_name id) bytes s.blobs closed (all id w present)
                  written in
              read_events-committed id events bytes _ enc exists content
        ])

    not_empty-Encoded :
        (event : BuildEvent) (events : List BuildEvent) → ¬ Encoded json (event ∷ events) []
    not_empty-Encoded event events ([], rest, m, eq, h) = cc
    not_empty-Encoded event events (b ∷ line, rest, m, eq, h) = cc

    read_after_finalize :
        (id : String) (event : BuildEvent) (events : List BuildEvent) (bytes : Bytes) (s : Store B)
        → AllOpen B laws s
        → Holds B laws id s bytes
        → Encoded json (event ∷ events) bytes
        → Succeeds (finalize B id s)
        → (read_events B json id (finalize B id s).1).0
          ≡ record { events = event ∷ events; found = true; error = none }
    read_after_finalize id event events _ s all (unopened absent) enc success =
        absurd (not_empty-Encoded event events enc)
    read_after_finalize id event events _ s all (opened w bytes present written) enc success =
        read_after_close id (event ∷ events) bytes w s all present written enc success

    pub read-Buffered :
        (id : String) (events : List BuildEvent) (s : Store B)
        → events ≢ []
        → Buffered id events s
        → Succeeds (finalize B id s)
        → (read_events B json id (finalize B id s).1).0
          ≡ record { events = events; found = true; error = none }
    read-Buffered id [] s some_event b success = absurd (some_event refl)
    read-Buffered id (event ∷ events) s some_event b success =
        read_after_finalize id event events b.bytes s b.all b.holds b.encoded success

    -- What was appended for an invocation in a new store is what is read after its blob has been
    -- finalized, in the order of the appends, whatever was done for other invocations in between:
    -- if every append for the invocation succeeded, there was at least one, it was not finalized
    -- before, and `Finalize` succeeds.
    pub read_events-finalize :
        (id : String) (ops : List Op) (blobs : B.State)
        → Undisturbed B json id ops (new B blobs)
        → appended id ops ≢ []
        → Succeeds (finalize B id (run B json ops (new B blobs)))
        → (read_events B json id (finalize B id (run B json ops (new B blobs))).1).0
          ≡ record { events = appended id ops; found = true; error = none }
    read_events-finalize id ops blobs u some_event success =
        read-Buffered id (appended id ops) (run B json ops (new B blobs)) some_event
          (Buffered-run id [] u (Buffered-new id blobs)) success
