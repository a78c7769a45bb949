-- ===== src/Webui/Stored.antt =====
-- What the handlers of src/webui/webui.go show of a stream that src/server/server.go has stored.
use text.Mathlib.TextLemmas.{nil-append}
use bepper.Base.{
  String, ◌≡◌, ◌≢◌, ◌⊎◌, refl, sym, ap, subst, ◌∙◌, inl, inr, Bool, true, false, Option, none, some,
  List, [], ◌∷◌,
}
use bepper.Base.Result.{Result, ok, err, bind_succeeds, ok_inj}
use bepper.Blobstore.{Blobstore, Bytes, Error, WriterLaws}
use bepper.Base.Text.{◌⧺◌}
use bepper.Events.{BuildEvent, Payload}
use bepper.Events.Payload.{
  other, progress, aborted, started, structured_command_line, workspace_status, fetch,
  configuration, configured, named_set_of_files, completed, test_result, test_summary, finished,
  build_metrics, build_metadata,
}
use bepper.Index.Indexer.{Indexer}
use bepper.Store.{ProtoJson, ReadResult, unmarshal_lines, read_events}
use bepper.Store.{finalize, new}
use bepper.Store.Invariant.{Succeeds}
use bepper.Store.RoundTrip.{run, Undisturbed}
use bepper.Server.{StreamId, Request, Environment, eof, publish}
use bepper.Server.Loop.{IsContiguous, events_of, appends}
use bepper.Server.Persistence.{new_server, complete_stream_is_stored}
use bepper.Store.Json.{JsonLaws, unmarshal_lines-cons}
use bepper.Webui.Api.{ApiReply, body}
use bepper.Webui.Details.{
  guard_events, with_events, output_of, console_log, get_log, marshal_all, reply_raw, get_raw,
}

guard_events-body :
    {A : Type 0} (error : Option Error) (found : Bool) (reply : ApiReply A) (shown : A)
    → guard_events error found reply ≡ body shown
    → (found ≡ true) × (reply ≡ body shown)
unfolding guard_events
guard_events-body (some e) found reply shown h = cc
guard_events-body none false reply shown h = cc
guard_events-body none true reply shown h = (refl, h)

reply_raw-body :
    (marshalled : Result Error (List Bytes)) (lines : List Bytes)
    → reply_raw marshalled ≡ body lines
    → marshalled ≡ ok lines
unfolding reply_raw
reply_raw-body (err e) lines h = cc
reply_raw-body (ok marshalled) lines h = cc

module _ (json : ProtoJson) (laws : JsonLaws json) where
  unmarshal_lines-marshal_all :
      (events : List BuildEvent) (lines : List Bytes)
      → marshal_all json events ≡ ok lines
      → unmarshal_lines json lines ≡ ok events
  unfolding marshal_all unmarshal_lines
  unmarshal_lines-marshal_all [] lines h =
      subst (λ l. unmarshal_lines json l ≡ ok []) (ok_inj h) refl
  unmarshal_lines-marshal_all (e ∷ events) lines h =
      let (line, marshalled, h1) = bind_succeeds (json.marshal e) _ h in
      let (rest, others, h2) = bind_succeeds (marshal_all json events) _ h1 in
      subst (λ l. unmarshal_lines json l ≡ ok (e ∷ events)) (ok_inj h2)
        (unmarshal_lines-cons json line rest e events (laws.not_empty e line marshalled)
          (laws.unmarshal-marshal e line marshalled)
          (unmarshal_lines-marshal_all events rest others))

  -- The lines that the raw view replies with are the events that were read, one each in their order.
  get_raw-unmarshal_lines :
      (r : ReadResult) (lines : List Bytes)
      → get_raw json r ≡ body lines
      → (r.found ≡ true) × (unmarshal_lines json lines ≡ ok r.events)
  unfolding get_raw with_events
  get_raw-unmarshal_lines r lines h =
      let (found, raw) =
        guard_events-body r.error r.found (reply_raw (marshal_all json r.events)) lines h in
      (
        found,
        unmarshal_lines-marshal_all r.events lines
            (reply_raw-body (marshal_all json r.events) lines raw),
      )

-- A text that is, for every event in its order, what a progress event has written to stdout and then
-- to stderr; the other events write nothing.
pub data LogOf : List BuildEvent → String → Type 0 where
  nothing : LogOf [] ""
  written :
      (stdout stderr log : String) (e : BuildEvent) (events : List BuildEvent)
      → e.payload ≡ progress stdout stderr
      → LogOf events log
      → LogOf (e ∷ events) (stdout ⧺ stderr ⧺ log)
  silent :
      (log : String) (e : BuildEvent) (events : List BuildEvent)
      → ((stdout stderr : String) → e.payload ≢ progress stdout stderr)
      → LogOf events log
      → LogOf (e ∷ events) log

-- The console output of a payload: that of a progress event, or none.
output_of-cases :
    (p : Payload)
    → ((stdout : String) × (stderr : String) × (p ≡ progress stdout stderr)
        × (output_of p ≡ stdout ⧺ stderr))
      ⊎ (((stdout stderr : String) → p ≢ progress stdout stderr) × (output_of p ≡ ""))
unfolding output_of
output_of-cases (progress stdout stderr) = inl (stdout, stderr, refl, refl)
output_of-cases other = inr (λ stdout stderr e. cc, refl)
output_of-cases (aborted description) = inr (λ stdout stderr e. cc, refl)
output_of-cases (started s) = inr (λ stdout stderr e. cc, refl)
output_of-cases (structured_command_line c) = inr (λ stdout stderr e. cc, refl)
output_of-cases (workspace_status items) = inr (λ stdout stderr e. cc, refl)
output_of-cases fetch = inr (λ stdout stderr e. cc, refl)
output_of-cases (configuration cpu) = inr (λ stdout stderr e. cc, refl)
output_of-cases (configured t) = inr (λ stdout stderr e. cc, refl)
output_of-cases (named_set_of_files n) = inr (λ stdout stderr e. cc, refl)
output_of-cases (completed t) = inr (λ stdout stderr e. cc, refl)
output_of-cases (test_result t) = inr (λ stdout stderr e. cc, refl)
output_of-cases (test_summary t) = inr (λ stdout stderr e. cc, refl)
output_of-cases (finished f) = inr (λ stdout stderr e. cc, refl)
output_of-cases (build_metrics a b) = inr (λ stdout stderr e. cc, refl)
output_of-cases (build_metadata m) = inr (λ stdout stderr e. cc, refl)

console_log-LogOf : (events : List BuildEvent) → LogOf events (console_log events)
unfolding console_log
console_log-LogOf [] = nothing
console_log-LogOf (e ∷ events) =
    let later = console_log-LogOf events in
    elim (output_of-cases e.payload) [
      | inl (stdout, stderr, progressed, both) ↦
          subst (LogOf (e ∷ events)) (ap (λ t. t ⧺ console_log events) (sym both))
            (written stdout stderr (console_log events) e events progressed later)
      | inr (differs, no_output) ↦
          subst (LogOf (e ∷ events))
            (sym (ap (λ t. t ⧺ console_log events) no_output ∙ nil-append (console_log events)))
            (silent (console_log events) e events differs later)
    ]

module _ (B : Blobstore) (laws : WriterLaws B) (I : Indexer) (env : Environment)
    (json_laws : JsonLaws env.json) where
  -- After a complete stream the log view shows one text, which is for every event of the stream, in
  -- its order, what a progress event has written to stdout and then to stderr, and nothing for the
  -- others: if there is an event and the appends and `Finalize` succeed.
  pub complete_stream_is_shown :
      (id : StreamId) (r : Request) (requests : List Request) (blobs : B.State) (index : I.State)
      → r.stream_id ≡ some id
      → id.invocation_id ≢ ""
      → IsContiguous (r ∷ requests)
      → events_of env (r ∷ requests) ≢ []
      → Undisturbed B env.json id.invocation_id
          (appends id.invocation_id (events_of env (r ∷ requests)))
          (new B blobs)
      → Succeeds (
          finalize B id.invocation_id (
            run B env.json (appends id.invocation_id (events_of env (r ∷ requests))) (new B blobs)))
      → (log : String) × (get_log
            (read_events B env.json id.invocation_id
              (publish B I env (r ∷ requests) eof (new_server B I env blobs index)).1.store).0
          ≡ body log)
        × LogOf (events_of env (r ∷ requests)) log
  unfolding get_log with_events guard_events
  complete_stream_is_shown id r requests blobs index named not_empty complete some_event u success =
      let events = events_of env (r ∷ requests) in
      let stored =
        complete_stream_is_stored B laws I env json_laws id r requests blobs index named not_empty
          complete some_event u success in
      (console_log events, ap get_log stored, console_log-LogOf events)
