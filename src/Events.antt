-- ===== src/Events.antt =====
-- The Bazel build events of proto/gen, as far as the program reads them. A field holds what the
-- generated getter returns, so an absent message is an absent option, or the zero value where the
-- program does not tell the two apart. Times and durations are numbers of nanoseconds.
use bepper.Base.{String, Bool, Option, List}
use bepper.Base.Int.{ℤ}
use bepper.Base.Dict.{Dict}

-- Nanoseconds since the Unix epoch.
abbrev pub Time : Type 0
Time = ℤ

pub data TestStatus : Type 0 where
  no_status passed flaky timeout failed incomplete remote_failure : TestStatus
  failed_to_build tool_halted_before_testing : TestStatus
  -- A number that the enum does not name; its text is the decimal number.
  unrecognized : String → TestStatus

pub data TestSize : Type 0 where
  unknown small medium large enormous : TestSize

pub data EventId : Type 0 where
  -- No id, or one of a kind that the program does not look into.
  other : EventId
  pattern : List String → EventId
  named_set : String → EventId
  target_configured : (label aspect : String) → EventId
  target_completed : (label aspect : String) → EventId
  test_result : (label : String) → EventId
  test_summary : (label : String) → EventId

-- File: a `uri` that is not set reads as the empty text.
pub record File : Type 0 where
  pub name : String
  pub uri : String

pub record CommandOption : Type 0 where
  pub combined_form : String
  pub option_name : String
  pub option_value : String
  pub source : String

pub data Section : Type 0 where
  option_list : List CommandOption → Section
  other : Section

pub record CommandLine : Type 0 where
  pub label : String
  pub sections : List Section

pub record BuildStarted : Type 0 where
  pub start_time : Option Time
  pub start_time_millis : ℤ
  pub command : String

pub record BuildFinished : Type 0 where
  pub exit_code : ℤ
  pub exit_code_name : String
  pub finish_time : Option Time
  pub finish_time_millis : ℤ
  pub failure_message : String

pub record Item : Type 0 where
  pub key : String
  pub value : String

pub record NamedSetOfFiles : Type 0 where
  pub files : List File
  pub file_sets : List String

pub record TargetConfigured : Type 0 where
  pub target_kind : String
  pub test_size : TestSize

pub record TargetComplete : Type 0 where
  pub success : Bool
  pub failure_detail : Option String
  -- The file sets of each output group.
  pub output_groups : List (List String)

pub record TestSummary : Type 0 where
  pub overall_status : TestStatus
  pub total_run_duration : ℤ

pub record TestResult : Type 0 where
  pub status : TestStatus
  pub attempt_start : Time
  pub attempt_duration : ℤ
  pub cached_locally : Bool
  pub action_output : List File

pub data Payload : Type 0 where
  other : Payload
  progress : (stdout stderr : String) → Payload
  aborted : (description : String) → Payload
  started : BuildStarted → Payload
  structured_command_line : CommandLine → Payload
  workspace_status : List Item → Payload
  fetch : Payload
  configuration : (cpu : String) → Payload
  configured : TargetConfigured → Payload
  named_set_of_files : NamedSetOfFiles → Payload
  completed : TargetComplete → Payload
  test_result : TestResult → Payload
  test_summary : TestSummary → Payload
  finished : BuildFinished → Payload
  build_metrics : (actions_executed packages_loaded : ℤ) → Payload
  -- The order of the entries is the one in which a `range` over the map visits them.
  build_metadata : Dict String → Payload

pub record BuildEvent : Type 0 where
  pub id : EventId
  pub children : List EventId
  pub payload : Payload
