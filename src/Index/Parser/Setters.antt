-- ===== src/Index/Parser/Setters.antt =====
-- The state of src/index/parser.go and its `setX` methods.
use bepper.Base.{ℕ, String, Option, none, some, List, ◌++◌, leb, if◌then◌else◌}
use bepper.Events.{Time}
use bepper.Index.GitUrl.{UrlPackage, normalize_repo_url}
use bepper.Index.Record.{Record}
use bepper.Index.Tags.{split_and_trim_and_dedupe_tags}

abbrev pub started_priority : ℕ
started_priority = 1

abbrev pub env_priority : ℕ
env_priority = 2

abbrev pub workspace_status_priority : ℕ
workspace_status_priority = 3

abbrev pub build_metadata_priority : ℕ
build_metadata_priority = 4

pub record FieldPriorities : Type 0 where
  pub host : ℕ
  pub user : ℕ
  pub role : ℕ
  pub repo_url : ℕ
  pub branch_name : ℕ
  pub commit_sha : ℕ
  pub command : ℕ
  pub pattern : ℕ
  pub tags : ℕ
  pub parent_run_id : ℕ
  pub run_id : ℕ

pub record EventParser : Type 0 where
  pub rec : Record
  pub start_time : Option Time
  pub priority : FieldPriorities

abbrev pub no_priorities : FieldPriorities
no_priorities = record {
  host = 0;
  user = 0;
  role = 0;
  repo_url = 0;
  branch_name = 0;
  commit_sha = 0;
  command = 0;
  pattern = 0;
  tags = 0;
  parent_run_id = 0;
  run_id = 0;
}

unfoldable pub new_event_parser : Record → EventParser
new_event_parser r = record { rec = r; start_time = none; priority = no_priorities }

unfoldable pub set_host : String → ℕ → EventParser → EventParser
set_host value n p =
    if leb p.priority.host n
    then record p { priority = record p.priority { host = n }; rec = record p.rec { host = value } }
    else p

unfoldable pub set_user : String → ℕ → EventParser → EventParser
set_user value n p =
    if leb p.priority.user n
    then record p { priority = record p.priority { user = n }; rec = record p.rec { user = value } }
    else p

unfoldable pub set_role : String → ℕ → EventParser → EventParser
set_role value n p =
    if leb p.priority.role n
    then record p { priority = record p.priority { role = n }; rec = record p.rec { role = value } }
    else p

-- `norm.String()` where the value has a normal form.
unfoldable pub canonical_repo_url : UrlPackage → String → String
canonical_repo_url urls value = elim (normalize_repo_url urls value) [
  | none ↦ value
  | some u ↦ urls.to_string u
]

unfoldable pub set_repo_url : UrlPackage → String → ℕ → EventParser → EventParser
set_repo_url urls value n p =
    if leb p.priority.repo_url n
    then record p {
      priority = record p.priority { repo_url = n };
      rec = record p.rec { repo_url = canonical_repo_url urls value };
    }
    else p

unfoldable pub set_branch_name : String → ℕ → EventParser → EventParser
set_branch_name value n p =
    if leb p.priority.branch_name n
    then record p {
      priority = record p.priority { branch_name = n };
      rec = record p.rec { branch_name = value };
    }
    else p

unfoldable pub set_commit_sha : String → ℕ → EventParser → EventParser
set_commit_sha value n p =
    if leb p.priority.commit_sha n
    then record p {
      priority = record p.priority { commit_sha = n };
      rec = record p.rec { commit_sha = value };
    }
    else p

unfoldable pub set_command : String → ℕ → EventParser → EventParser
set_command value n p =
    if leb p.priority.command n
    then record p {
      priority = record p.priority { command = n };
      rec = record p.rec { command = value };
    }
    else p

unfoldable pub set_pattern : List String → ℕ → EventParser → EventParser
set_pattern value n p =
    if leb p.priority.pattern n
    then record p {
      priority = record p.priority { pattern = n };
      rec = record p.rec { pattern = value };
    }
    else p

-- The new tags go behind the old ones, or in front of them; the priority is always overwritten.
unfoldable pub set_tags : String → ℕ → EventParser → EventParser
set_tags value n p =
    let tags = split_and_trim_and_dedupe_tags value in
    record p {
      priority = record p.priority { tags = n };
      rec = record p.rec {
        tags = if leb p.priority.tags n then p.rec.tags ++ tags else tags ++ p.rec.tags;
      };
    }

unfoldable pub set_parent_run_id : String → ℕ → EventParser → EventParser
set_parent_run_id value n p =
    if leb p.priority.parent_run_id n
    then record p {
      priority = record p.priority { parent_run_id = n };
      rec = record p.rec { parent_run_id = value };
    }
    else p

unfoldable pub set_run_id : String → ℕ → EventParser → EventParser
set_run_id value n p =
    if leb p.priority.run_id n
    then record p {
      priority = record p.priority { run_id = n };
      rec = record p.rec { run_id = value };
    }
    else p
