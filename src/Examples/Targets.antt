-- ===== src/Examples/Targets.antt =====
-- A stream with one target whose named sets of files refer to each other.
use bepper.Base.{◌≡◌, arith, some, none, List, [], ◌∷◌, map, String, All, true}
use bepper.Base.Text.{◌⧺◌}
use bepper.Base.Dict.{insert}
use bepper.Events.{BuildEvent, EventId, Payload, File}
use bepper.Index.Targets.{
  LogFile, parse_named_sets, add_named_sets, add_named_set, resolve, parse_targets,
}
use bepper.Index.Targets.Labels.{labels-parse_targets, first_seen, label_of}
use bepper.Index.Tags.{contains_text}
use bepper.Index.Targets.Reported.{FilesGood, Reported, parse_targets-Reported}
use bepper.Index.Targets.Termination.{resolve_terminates}

abbrev file : String → File
file name = record { name = name; uri = "bytestream://cache/" ⧺ name }

abbrev set_event : String → String → String → BuildEvent
set_event id name next = record {
  id = EventId.named_set id;
  children = [];
  payload = Payload.named_set_of_files (record { files = file name ∷ []; file_sets = next ∷ [] });
}

abbrev completed_event : String → BuildEvent
completed_event label = record {
  id = EventId.target_completed label "";
  children = [];
  payload =
      Payload.completed
        (record { success = true; failure_detail = none; output_groups = ("0" ∷ []) ∷ [] });
}

abbrev cyclic_events : List BuildEvent
cyclic_events = set_event "0" "a.txt" "1" ∷ set_event "1" "b.txt" "0" ∷ completed_event "//:x" ∷ []

labels-parse_targets_example : map (λ t. t.label) (parse_targets cyclic_events) ≡ "//:x" ∷ []
unfolding first_seen label_of contains_text
labels-parse_targets_example = labels-parse_targets cyclic_events

parse_targets-Reported_example :
    All (FilesGood (Reported cyclic_events)) (parse_targets cyclic_events)
parse_targets-Reported_example = parse_targets-Reported cyclic_events

resolve_terminates_example :
    (found : List LogFile × List String) × (resolve 3 (parse_named_sets cyclic_events) ("0" ∷ []) []
      ≡ some found)
resolve_terminates_example =
    resolve_terminates (parse_named_sets cyclic_events) ("0" ∷ []) [] 3
      (unfold parse_named_sets add_named_sets add_named_set insert in omega arith)
