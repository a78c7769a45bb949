-- ===== src/Index/Targets/Summary.antt =====
-- `Target` and `ParseTargets` of src/index/targets.go.
use bepper.Base.{
  String, Bool, true, false, not, Option, none, some, List, [], ◌∷◌, ◌++◌, ◌==◌, if◌then◌else◌,
}
use bepper.Base.Int.{ℤ, pos, quot_ℤ}
use bepper.Base.Text.{or_else, is_some}
use bepper.Base.Dict.{Dict, lookup, insert}
use bepper.Events.{
  Time, TestStatus, no_status, passed, flaky, timeout, failed, incomplete, remote_failure,
  failed_to_build, tool_halted_before_testing, unrecognized, TestSize, unknown, EventId,
  target_configured, target_completed, NamedSetOfFiles, TargetConfigured, TargetComplete,
  TestSummary, TestResult, Payload, configured, completed, BuildEvent,
}
use bepper.Index.Targets.FileSets.{LogFile, log_files, parse_named_sets, resolve_file_sets}

pub record TestAttempt : Type 0 where
  pub status : String
  pub start_time : Time
  pub duration_usec : ℤ
  pub cached_locally : Bool

pub record Target : Type 0 where
  pub label : String
  pub kind : String
  pub is_test : Bool
  pub success : Bool
  pub test_status : String
  pub duration_usec : ℤ
  pub failure_message : String
  pub log_files : List LogFile
  pub attempts : List TestAttempt
  pub output_files : List LogFile

abbrev pub fresh_target : String → Target
fresh_target l = record {
  label = l;
  kind = "";
  is_test = false;
  success = false;
  test_status = "";
  duration_usec = pos 0;
  failure_message = "";
  log_files = [];
  attempts = [];
  output_files = [];
}

unfoldable pub status_name : TestStatus → String
status_name no_status = "NO_STATUS"
status_name passed = "PASSED"
status_name flaky = "FLAKY"
status_name timeout = "TIMEOUT"
status_name failed = "FAILED"
status_name incomplete = "INCOMPLETE"
status_name remote_failure = "REMOTE_FAILURE"
status_name failed_to_build = "FAILED_TO_BUILD"
status_name tool_halted_before_testing = "TOOL_HALTED_BEFORE_TESTING"
status_name (unrecognized number) = number

is_passed : TestStatus → Bool
is_passed passed = true
is_passed _ = false

is_unknown : TestSize → Bool
is_unknown unknown = true
is_unknown _ = false

-- The variables of `ParseTargets`.
pub record Targets : Type 0 where
  pub by_label : Dict Target
  pub order : List String

abbrev add_order : Bool → String → List String → List String
add_order true label order = order
add_order false label order = order ++ label ∷ []

-- `t := get(label)` and then assignments to the fields of `t`.
unfoldable pub update : String → (Target → Target) → Targets → Targets
update label f ts = record {
  by_label = insert label (f (or_else (fresh_target label) (lookup label ts.by_label))) ts.by_label;
  order = add_order (is_some (lookup label ts.by_label)) label ts.order;
}

unfoldable pub configure : TargetConfigured → Target → Target
unfolding is_unknown
configure c t = record t { kind = c.target_kind; is_test = not (is_unknown c.test_size) }

unfoldable pub output_files_of : Dict NamedSetOfFiles → List (List String) → List LogFile
output_files_of sets [] = []
output_files_of sets (ids ∷ groups) = resolve_file_sets sets ids ++ output_files_of sets groups

unfoldable pub complete : Dict NamedSetOfFiles → TargetComplete → Target → Target
complete sets c t = record t {
  success = c.success;
  failure_message = or_else t.failure_message c.failure_detail;
  output_files = t.output_files ++ output_files_of sets c.output_groups;
}

unfoldable pub microseconds : ℤ → ℤ
unfolding quot_ℤ
microseconds d = quot_ℤ d 1000

unfoldable pub summarize : TestSummary → Target → Target
unfolding is_passed
summarize s t = record t {
  is_test = true;
  test_status = status_name s.overall_status;
  success = is_passed s.overall_status;
  duration_usec = microseconds s.total_run_duration;
}

unfoldable pub add_result : TestResult → Target → Target
add_result r t = record t {
  is_test = true;
  log_files = t.log_files ++ log_files r.action_output;
  attempts =
      t.attempts
      ++ record {
        status = status_name r.status;
        start_time = r.attempt_start;
        duration_usec = microseconds r.attempt_duration;
        cached_locally = r.cached_locally;
      }
        ∷ [];
}

-- The `switch` of the loop: the label of the target that an event is about, and what it assigns.
unfoldable pub target_event :
    Dict NamedSetOfFiles → Payload → EventId → Option (String × (Target → Target))
target_event sets (configured c) (target_configured label aspect) =
    if aspect == "" then some (label, configure c) else none
target_event sets (completed c) (target_completed label aspect) =
    if aspect == "" then some (label, complete sets c) else none
target_event sets (Payload.test_summary s) (EventId.test_summary label) = some (label, summarize s)
target_event sets (Payload.test_result r) (EventId.test_result label) = some (label, add_result r)
target_event sets _ _ = none

unfoldable pub apply_event : Option (String × (Target → Target)) → Targets → Targets
apply_event none ts = ts
apply_event (some (label, f)) ts = update label f ts

-- The body of the loop.
unfoldable pub add_event : Dict NamedSetOfFiles → BuildEvent → Targets → Targets
add_event sets e ts = apply_event (target_event sets e.payload e.id) ts

unfoldable pub add_events : Dict NamedSetOfFiles → List BuildEvent → Targets → Targets
add_events sets [] ts = ts
add_events sets (e ∷ events) ts = add_events sets events (add_event sets e ts)

-- `byLabel[label]` for each label of `order`; every one is there (module Labels).
unfoldable pub in_order : Dict Target → List String → List Target
in_order by_label [] = []
in_order by_label (label ∷ order) = elim (lookup label by_label) [
  | none ↦ in_order by_label order
  | some t ↦ t ∷ in_order by_label order
]

abbrev pub no_targets : Targets
no_targets = record { by_label = []; order = [] }

unfoldable pub parse_targets : List BuildEvent → List Target
parse_targets events =
    let ts = add_events (parse_named_sets events) events no_targets in in_order ts.by_label ts.order
