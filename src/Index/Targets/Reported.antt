-- ===== src/Index/Targets/Reported.antt =====
-- Every file of a target was reported by an event of the stream.
mod Files
use mathlib.Core.List.{Memᴰ}
use bepper.Base.{
  subst, ℕ, zero, suc, String, Bool, true, false, ◌≡◌, ◌≢◌, refl, Option, none, some, List, [], ◌∷◌,
  ◌++◌, ◌==◌, eq_iff, if◌then◌else◌, length, Bool-cases, Option-cases, inl, inr, All, All-append,
}
use bepper.Base.Text.{or_else}
use bepper.Base.Dict.{Dict, lookup, lookup-insert-cases}
use bepper.Events.{
  File, EventId, target_configured, target_completed, NamedSetOfFiles, Payload, configured,
  completed, BuildEvent,
}
use bepper.Index.Tags.{contains_text}
use bepper.Index.Targets.FileSets.{
  LogFile, Resolved, log_files, and_files, files_of_result, resolve_ids, resolve, resolve_file_sets,
  add_named_set, add_named_sets, parse_named_sets,
}
use bepper.Index.Targets.Summary.{
  Target, Targets, no_targets, fresh_target, update, configure, complete, summarize, add_result,
  output_files_of, target_event, apply_event, add_event, add_events, in_order, parse_targets,
}
use bepper.Index.Targets.Reported.Files.{
  files_of, SetsGood, EventGood, output_files_of-good, add_named_sets-good,
}

-- Some event of the stream lists the file, under this name and this URI, which is not empty.
pub record Reported (events : List BuildEvent) (l : LogFile) : Type 0 where
  pub event : BuildEvent
  pub streamed : Memᴰ event events
  pub file : File
  pub listed : Memᴰ file (files_of event.payload)
  pub name : file.name ≡ l.name
  pub uri : file.uri ≡ l.uri
  pub present : l.uri ≢ ""

-- What holds of the files of all events holds of the files of all targets.
module _ (P : LogFile → Type 0) where
  -- Both lists of files of a target.
  pub record FilesGood (t : Target) : Type 0 where
    pub logs : All P t.log_files
    pub outputs : All P t.output_files

  abbrev IsGood : Option Target → Type 0
  IsGood none = Unit
  IsGood (some t) = FilesGood t

  abbrev AllGood : Dict Target → Type 0
  AllGood ts = (label : String) (t : Target) → lookup label ts ≡ some t → FilesGood t

  abbrev KeepsGood : Option (String × (Target → Target)) → Type 0
  KeepsGood none = Unit
  KeepsGood (some (label, f)) = (t : Target) → FilesGood t → FilesGood (f t)

  KeepsGood-if :
      (b : Bool) (label : String) (f : Target → Target)
      → ((t : Target) → FilesGood t → FilesGood (f t))
      → KeepsGood (if b then some (label, f) else none)
  KeepsGood-if true label f h = h
  KeepsGood-if false label f h = tt

  target_event-KeepsGood :
      (sets : Dict NamedSetOfFiles) (payload : Payload) (id : EventId)
      → (SetsGood P) sets
      → All P (log_files (files_of payload))
      → KeepsGood (target_event sets payload id)
  unfolding target_event configure complete summarize add_result
  target_event-KeepsGood sets (configured c) (target_configured label aspect) good h =
      KeepsGood-if (aspect == "") label (configure c)
        (λ t g. record { logs = g.logs; outputs = g.outputs })
  target_event-KeepsGood sets (completed c) (target_completed label aspect) good h =
      KeepsGood-if (aspect == "") label (complete sets c) (λ t g. record {
        logs = g.logs;
        outputs =
            All-append P t.output_files (output_files_of sets c.output_groups) g.outputs
              (output_files_of-good P sets good c.output_groups);
      })
  target_event-KeepsGood sets (Payload.test_summary s) (EventId.test_summary label) good h =
      λ t g. record { logs = g.logs; outputs = g.outputs }
  target_event-KeepsGood sets (Payload.test_result r) (EventId.test_result label) good h = λ t g.
      record {
        logs = All-append P t.log_files (log_files r.action_output) g.logs h;
        outputs = g.outputs;
      }
  target_event-KeepsGood sets _ _ good h = tt

  fresh_target-good : (label : String) → FilesGood (fresh_target label)
  fresh_target-good label = record { logs = tt; outputs = tt }

  before-good :
      (label : String) (found : Option Target)
      → IsGood found
      → FilesGood (or_else (fresh_target label) found)
  before-good label none h = fresh_target-good label
  before-good label (some t) h = h

  found-IsGood : (ts : Dict Target) (label : String) → AllGood ts → IsGood (lookup label ts)
  found-IsGood ts label good = elim (Option-cases (lookup label ts)) [
    | inl absent ↦ rw absent tt
    | inr (t, present) ↦ rw present (good label t present)
  ]

  apply_event-good :
      (change : Option (String × (Target → Target))) (ts : Targets)
      → KeepsGood change
      → AllGood ts.by_label
      → AllGood (apply_event change ts).by_label
  unfolding apply_event update
  apply_event-good none ts keeps good = good
  apply_event-good (some (label, f)) ts keeps good = λ l t e.
      elim (lookup-insert-cases label l _ t ts.by_label e) [
        | inl (_, new) ↦ subst FilesGood new (
            keeps _
              (before-good label (lookup label ts.by_label) (found-IsGood ts.by_label label good)))
        | inr old ↦ good l t old
      ]

  add_events-good :
      (sets : Dict NamedSetOfFiles) (events : List BuildEvent) (ts : Targets)
      → (SetsGood P) sets
      → All (EventGood P) events
      → AllGood ts.by_label
      → AllGood (add_events sets events ts).by_label
  unfolding add_events add_event
  add_events-good sets [] ts sg h good = good
  add_events-good sets (e ∷ events) ts sg (g, h) good =
      add_events-good sets events (apply_event (target_event sets e.payload e.id) ts) sg h (
        apply_event-good (target_event sets e.payload e.id) ts
          (target_event-KeepsGood sets e.payload e.id sg g) good)

  in_order-good :
      (ts : Dict Target) (order : List String) → AllGood ts → All FilesGood (in_order ts order)
  unfolding in_order
  in_order-good ts [] good = tt
  in_order-good ts (label ∷ order) good = elim (Option-cases (lookup label ts)) [
    | inl absent ↦ rw (absent, in_order) (in_order-good ts order good)
    | inr (t, present) ↦ rw (present, in_order) (good label t present, in_order-good ts order good)
  ]

  parse_named_sets-good :
      (events : List BuildEvent) → All (EventGood P) events → (SetsGood P) (parse_named_sets events)
  unfolding parse_named_sets lookup
  parse_named_sets-good events h = add_named_sets-good P events [] h (λ key set e. cc)

  pub parse_targets-good :
      (events : List BuildEvent) → All (EventGood P) events → All FilesGood (parse_targets events)
  unfolding parse_targets lookup
  parse_targets-good events h =
      let sets = parse_named_sets events in
      let ts = add_events sets events no_targets in
      in_order-good ts.by_label ts.order
        (add_events-good sets events no_targets (parse_named_sets-good events h) h (λ l t e. cc))

log_files-Reported :
    (events : List BuildEvent) (e : BuildEvent) (files : List File)
    → Memᴰ e events
    → ((f : File) → Memᴰ f files → Memᴰ f (files_of e.payload))
    → All (Reported events) (log_files files)
unfolding log_files
log_files-Reported events e [] m sub = tt
log_files-Reported events e (f ∷ files) m sub =
    let rest = log_files-Reported events e files m (λ g n. sub g (Memᴰ.tail n)) in
    elim (Bool-cases (f.uri == "")) [
      | inl unset ↦ rw unset rest
      | inr set ↦ rw set (
        record {
          event = e;
          streamed = m;
          file = f;
          listed = sub f (Memᴰ.head refl);
          name = refl;
          uri = refl;
          present = λ empty. cc (set, (eq_iff f.uri "").1 empty);
        },
        rest,
      )
    ]

streamed-EventGood :
    (events all : List BuildEvent)
    → ((e : BuildEvent) → Memᴰ e events → Memᴰ e all)
    → All (EventGood (Reported all)) events
streamed-EventGood [] all sub = tt
streamed-EventGood (e ∷ events) all sub = (
  log_files-Reported all e (files_of e.payload) (sub e (Memᴰ.head refl)) (λ f m. m),
  streamed-EventGood events all (λ x m. sub x (Memᴰ.tail m)),
)

-- Every log file and every output file of every target was listed by some event of the stream
-- under this name and this URI, and its URI is not empty.
pub parse_targets-Reported :
    (events : List BuildEvent) → All (FilesGood (Reported events)) (parse_targets events)
parse_targets-Reported events =
    parse_targets-good (Reported events) events (streamed-EventGood events events (λ e m. m))
