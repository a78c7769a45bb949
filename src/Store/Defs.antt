-- ===== src/Store/Defs.antt =====
-- src/store/store.go. Package protojson is a parameter. The mutex makes each access to the map of
-- writers one step, so an operation is a function on the state; the operations of concurrent
-- requests follow one another in some order.
use bepper.Base.{
  ℕ, String, Bool, true, false, Option, none, some, List, [], ◌∷◌, ◌++◌, eqb, if◌then◌else◌,
}
use bepper.Base.Text.{◌⧺◌}
use bepper.Base.Dict.{Dict, lookup, insert, delete}
use bepper.Base.Result.{Result, ok, err, ◌>>=◌}
use bepper.Blobstore.{Blobstore, Error, Bytes}
use bepper.Events.{BuildEvent}

pub record ProtoJson : Type 0 where
  pub marshal : BuildEvent → Result Error Bytes
  pub unmarshal : Bytes → Result Error BuildEvent

unfoldable pub blob_name : String → String
blob_name invocation_id = invocation_id ⧺ ".jsonl"

abbrev pub newline : ℕ
newline = 10

abbrev pub cons_byte : ℕ → List Bytes → List Bytes
cons_byte b [] = (b ∷ []) ∷ []
cons_byte b (line ∷ lines) = (b ∷ line) ∷ lines

-- bytes.Split(data, "\n")
unfoldable pub split_lines : Bytes → List Bytes
split_lines [] = [] ∷ []
split_lines (b ∷ bytes) =
    let lines = split_lines bytes in if eqb b newline then [] ∷ lines else cons_byte b lines

-- The results of `ReadEvents`.
pub record ReadResult : Type 0 where
  pub events : List BuildEvent
  pub found : Bool
  pub error : Option Error

unfoldable pub read_result : Result Error (List BuildEvent) → ReadResult
read_result (err e) = record { events = []; found = true; error = some ("unmarshal event: " ⧺ e) }
read_result (ok events) = record { events = events; found = true; error = none }

module _ (json : ProtoJson) where
  unfoldable pub unmarshal_lines : List Bytes → Result Error (List BuildEvent)
  unmarshal_lines [] = ok []
  unmarshal_lines ([] ∷ lines) = unmarshal_lines lines
  unmarshal_lines ((b ∷ line) ∷ lines) = do
    event ← json.unmarshal (b ∷ line)
    events ← unmarshal_lines lines
    ok (event ∷ events)

  unfoldable pub decode : Result Error Bytes → ReadResult
  unfolding read_result
  decode (err e) = record { events = []; found = true; error = some ("read blob: " ⧺ e) }
  decode (ok bytes) = read_result (unmarshal_lines (split_lines bytes))

module _ (B : Blobstore) where
  pub record Store : Type 0 where
    pub blobs : B.State
    pub writers : Dict B.Handle

  unfoldable pub new : B.State → Store
  new blobs = record { blobs = blobs; writers = [] }

  unfoldable pub register : String → Result Error B.Handle → Store → Result Error B.Handle × Store
  register id (err e) s = (err ("open blob writer: " ⧺ e), s)
  register id (ok w) s = (ok w, record s { writers = insert id w s.writers })

  unfoldable pub writer_for : String → Store → Result Error B.Handle × Store
  unfolding register
  writer_for id s = elim (lookup id s.writers) [
    | some w ↦ (ok w, s)
    | none ↦
        let (r, blobs) = B.writer (blob_name id) s.blobs in
        register id r (record s { blobs = blobs })
  ]

  unfoldable pub wrap : Error → Result Error ℕ → Option Error
  wrap context (ok n) = none
  wrap context (err e) = some (context ⧺ e)

  unfoldable pub write_line : Bytes → Result Error B.Handle → Store → Option Error × Store
  unfolding wrap
  write_line line (err e) s = (some e, s)
  write_line line (ok w) s =
      let (r, blobs) = B.write w line s.blobs in
      (wrap "write event: " r, record s { blobs = blobs })

  unfoldable pub close_result : Result Error (Unit {0}) → Option Error
  close_result (ok _) = none
  close_result (err e) = some e

  unfoldable pub finalize : String → Store → Option Error × Store
  unfolding close_result
  finalize id s = elim (lookup id s.writers) [
    | none ↦ (none, s)
    | some w ↦
        let (r, blobs) = B.close w s.blobs in
        (close_result r, record { blobs = blobs; writers = delete id s.writers })
  ]

  module _ (json : ProtoJson) where
    unfoldable pub append_line : String → Result Error Bytes → Store → Option Error × Store
    unfolding write_line
    append_line id (err e) s = (some ("marshal event: " ⧺ e), s)
    append_line id (ok line) s =
        let (w, s') = writer_for id s in write_line (line ++ newline ∷ []) w s'

    unfoldable pub append_event : String → BuildEvent → Store → Option Error × Store
    unfolding append_line
    append_event id event s = append_line id (json.marshal event) s

    unfoldable pub read_existing : String → Result Error Bool → Store → ReadResult × Store
    unfolding decode
    read_existing name (err e) s = (record { events = []; found = false; error = some e }, s)
    read_existing name (ok false) s = (record { events = []; found = false; error = none }, s)
    read_existing name (ok true) s =
        let (r, blobs) = B.read_blob name s.blobs in (decode json r, record s { blobs = blobs })

    unfoldable pub read_events : String → Store → ReadResult × Store
    unfolding read_existing
    read_events id s =
        let (r, blobs) = B.blob_exists (blob_name id) s.blobs in
        read_existing (blob_name id) r (record s { blobs = blobs })
