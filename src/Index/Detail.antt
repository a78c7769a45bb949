-- ===== src/Index/Detail.antt =====
-- src/index/detail.go: the flags, the error and the facts of a build that the detail page shows.
pub mod Summaries
use bepper.Base.{
  ℕ, suc, String, Bool, true, false, not, ◌||◌, List, [], ◌∷◌, ◌++◌, ◌==◌, if◌then◌else◌, Option,
  none, some, first_some,
}
use bepper.Base.Int.{ℤ, pos}
use bepper.Base.Text.{or_else}
use bepper.Events.{
  CommandOption, Section, option_list, CommandLine, Payload, BuildEvent, aborted, finished,
  configuration, build_metrics, fetch, structured_command_line,
}

pub record Flag : Type 0 where
  pub combined_form : String
  pub source : String

-- The flags of an option list, without the environment variables.
unfoldable pub flags_of_options : List CommandOption → List Flag
flags_of_options [] = []
flags_of_options (o ∷ options) =
    let rest = flags_of_options options in
    if o.option_name == "client_env"
    then rest
    else record { combined_form = o.combined_form; source = o.source } ∷ rest

unfoldable pub flags_of_sections : List Section → List Flag
unfolding flags_of_options
flags_of_sections [] = []
flags_of_sections (option_list options ∷ sections) =
    flags_of_options options ++ flags_of_sections sections
flags_of_sections (Section.other ∷ sections) = flags_of_sections sections

unfoldable pub flags_of_payload : Payload → List Flag
unfolding flags_of_sections
flags_of_payload (structured_command_line cl) =
    if cl.label == "canonical" then flags_of_sections cl.sections else []
flags_of_payload _ = []

unfoldable pub parse_flags : List BuildEvent → List Flag
unfolding flags_of_payload
parse_flags [] = []
parse_flags (e ∷ events) = flags_of_payload e.payload ++ parse_flags events

-- What one event does in the loop of `ParseBuildError`: the loop goes on with the description of the
-- last Aborted event, or returns.
pub data ErrorStep : Type 0 where
  go_on : String → ErrorStep
  return : String → ErrorStep

unfoldable pub error_step : String → Payload → ErrorStep
error_step last (aborted description) = go_on (if description == "" then last else description)
error_step last (finished f) =
    if f.failure_message == "" then go_on last else return f.failure_message
error_step last _ = go_on last

unfoldable pub build_error_from : String → List BuildEvent → String
unfolding error_step
build_error_from last [] = last
build_error_from last (e ∷ events) = elim (error_step last e.payload) [
  | go_on last' ↦ build_error_from last' events
  | return message ↦ message
]

unfoldable pub parse_build_error : List BuildEvent → String
unfolding build_error_from
parse_build_error events = build_error_from "" events

pub record BuildInfo : Type 0 where
  pub cpu : String
  pub remote_execution_enabled : Bool
  pub caching_enabled : Bool
  pub packages_loaded : ℤ
  pub fetch_count : ℕ

-- The value of the first option of this name, if there is one.
unfoldable pub named_value : String → CommandOption → Option String
named_value name o = if o.option_name == name then some o.option_value else none

unfoldable pub value_in_section : String → Section → Option String
unfolding named_value
value_in_section name (option_list options) = first_some (named_value name) options
value_in_section name Section.other = none

unfoldable pub option_value : CommandLine → String → String
unfolding value_in_section
option_value cl name = or_else "" (first_some (value_in_section name) cl.sections)

unfoldable pub info_step : Payload → BuildInfo → BuildInfo
unfolding option_value
info_step (configuration cpu) info = if cpu == "" then info else record info { cpu = cpu }
info_step (build_metrics actions packages) info = record info { packages_loaded = packages }
info_step fetch info = record info { fetch_count = suc info.fetch_count }
info_step (structured_command_line cl) info =
    if cl.label == "canonical"
    then record info {
      remote_execution_enabled =
          if option_value cl "remote_executor" == "" then info.remote_execution_enabled else true;
      caching_enabled = if option_value cl "remote_cache" == "" then info.caching_enabled else true;
    }
    else info
info_step _ info = info

unfoldable pub build_info_from : BuildInfo → List BuildEvent → BuildInfo
unfolding info_step
build_info_from info [] = info
build_info_from info (e ∷ events) = build_info_from (info_step e.payload info) events

abbrev pub no_info : BuildInfo
no_info = record {
  cpu = "";
  remote_execution_enabled = false;
  caching_enabled = false;
  packages_loaded = pos 0;
  fetch_count = 0;
}

unfoldable pub parse_build_info : List BuildEvent → BuildInfo
unfolding build_info_from
parse_build_info events = build_info_from no_info events
