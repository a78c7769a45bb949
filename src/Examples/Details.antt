-- ===== src/Examples/Details.antt =====
-- The details of a build that fetched twice and was aborted.
use bepper.Base.{◌≡◌, refl, List, [], ◌∷◌}
use bepper.Events.{BuildEvent, EventId, Payload, CommandLine, Section}
use bepper.Index.Detail.{parse_build_error, build_error_from, error_step}

abbrev detail : Payload → BuildEvent
detail payload = record { id = EventId.other; children = []; payload = payload }

abbrev remote_line : CommandLine
remote_line = record {
  label = "canonical";
  sections =
      Section.option_list (
        record {
          combined_form = "--remote_cache=grpc://cache";
          option_name = "remote_cache";
          option_value = "grpc://cache";
          source = "";
        }
        ∷ [])
      ∷ [];
}

abbrev aborted_build : List BuildEvent
aborted_build =
    detail Payload.fetch
    ∷ detail (Payload.configuration "k8")
    ∷ detail (Payload.structured_command_line remote_line)
    ∷ detail (Payload.aborted "interrupted")
    ∷ detail Payload.fetch
    ∷ []

aborted_build_is_interrupted : parse_build_error aborted_build ≡ "interrupted"
unfolding parse_build_error build_error_from error_step
aborted_build_is_interrupted = refl
