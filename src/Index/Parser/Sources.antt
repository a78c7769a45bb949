-- ===== src/Index/Parser/Sources.antt =====
-- `ParseEvent` of src/index/parser.go, and what it reads from each kind of event.
use bepper.Base.{ℕ, String, ◌^◌, ◌-◌, Option, none, some, List, [], ◌∷◌, ◌++◌, ◌==◌, if◌then◌else◌}
use bepper.Base.Int.{ℤ, pos, negsuc, ◌-ℤ◌, ltb_ℤ, eqb_ℤ, quot_ℤ, scale_ℤ}
use bepper.Base.Text.{◌⧺◌, cut, split, join, cut_prefix, has_prefix, trim_prefix, or_else}
use bepper.Base.Dict.{Dict, lookup, insert}
use bepper.Events.{
  Time, EventId, CommandOption, Section, option_list, CommandLine, BuildFinished, Item, Payload,
  started, structured_command_line, workspace_status, finished, build_metrics, build_metadata,
  BuildEvent,
}
use bepper.Index.GitUrl.{UrlPackage}
use bepper.Index.Parser.Setters.{
  EventParser, started_priority, env_priority, workspace_status_priority, build_metadata_priority,
  set_host, set_user, set_role, set_repo_url, set_branch_name, set_commit_sha, set_command,
  set_pattern, set_tags, set_parent_run_id, set_run_id,
}

-- time.UnixMilli
abbrev unix_milli : ℤ → Time
unix_milli ms = scale_ℤ 1000000 ms

unfoldable pub time_with_fallback : Option Time → ℤ → Time
time_with_fallback none ms = unix_milli ms
time_with_fallback (some t) ms = t

abbrev max_duration : ℤ
max_duration = pos (2 ^ 63 - 1)

abbrev min_duration : ℤ
min_duration = negsuc (2 ^ 63 - 1)

-- `end.Sub(start).Microseconds()`: the difference is cut off at the ends of an int64.
unfoldable pub sub_microseconds : Time → Time → ℤ
unfolding ◌-ℤ◌ quot_ℤ
sub_microseconds end start =
    let d = end -ℤ start in
    quot_ℤ
      (if ltb_ℤ max_duration d
        then max_duration
        else if ltb_ℤ d min_duration
        then min_duration
        else d)
      1000

-- `m[k]` of a Go map of strings.
abbrev pub get : String → Dict String → String
get k m = or_else "" (lookup k m)

add_env : Dict String → List CommandOption → Dict String
add_env env [] = env
add_env env (o ∷ options) =
    add_env
      (if o.option_name == "client_env"
        then elim (cut b'=' o.option_value) [ none ↦ env | some (k, v) ↦ insert k v env ]
        else env)
      options

add_sections : Dict String → List Section → Dict String
unfolding add_env
add_sections env [] = env
add_sections env (option_list options ∷ sections) = add_sections (add_env env options) sections
add_sections env (Section.other ∷ sections) = add_sections env sections

unfoldable pub parse_command_line : CommandLine → Dict String
unfolding add_sections
parse_command_line cl = add_sections [] cl.sections

abbrev pub user_keys : List String
user_keys =
    "USER" ∷ "GITHUB_ACTOR" ∷ "BUILDKITE_BUILD_CREATOR" ∷ "GITLAB_USER_NAME" ∷ "CIRCLE_USERNAME"
    ∷ []

abbrev pub repo_url_keys : List String
repo_url_keys =
    "TRAVIS_REPO_SLUG" ∷ "GIT_REPOSITORY_URL" ∷ "GIT_URL" ∷ "BUILDKITE_REPO" ∷ "REPO_URL"
    ∷ "CIRCLE_REPOSITORY_URL" ∷ "GITHUB_REPOSITORY" ∷ "CI_REPOSITORY_URL" ∷ []

abbrev pub branch_name_keys : List String
branch_name_keys =
    "TRAVIS_BRANCH" ∷ "BITRISE_GIT_BRANCH" ∷ "GIT_BRANCH" ∷ "BUILDKITE_BRANCH" ∷ "CIRCLE_BRANCH"
    ∷ "GITHUB_HEAD_REF" ∷ "CI_COMMIT_BRANCH" ∷ "CI_MERGE_REQUEST_SOURCE_BRANCH_NAME" ∷ []

abbrev pub commit_sha_keys : List String
commit_sha_keys =
    "TRAVIS_COMMIT" ∷ "BITRISE_GIT_COMMIT" ∷ "GIT_COMMIT" ∷ "BUILDKITE_COMMIT" ∷ "CIRCLE_SHA1"
    ∷ "GITHUB_SHA" ∷ "COMMIT_SHA" ∷ "VOLATILE_GIT_COMMIT" ∷ "CI_COMMIT_SHA" ∷ []

-- `if v := m[k]; v != "" { set(v) }`
unfoldable pub set_from : (String → EventParser → EventParser) → String → EventParser → EventParser
set_from set v p = if v == "" then p else set v p

-- The loop that does so for each of some keys.
unfoldable pub set_from_keys :
    (String → EventParser → EventParser) → Dict String → List String → EventParser → EventParser
unfolding set_from
set_from_keys set env [] p = p
set_from_keys set env (k ∷ keys) p = set_from_keys set env keys (set_from set (get k env) p)

unfoldable pub set_github_ref : String → EventParser → EventParser
set_github_ref v p =
    if has_prefix v "refs/heads/"
    then set_branch_name (trim_prefix v "refs/heads/") env_priority p
    else p

-- Whatever the value is, if there is one.
abbrev pub constantly :
    (String → ℕ → EventParser → EventParser) → String → String → EventParser → EventParser
constantly set role v = set role env_priority

abbrev pub at : ℕ → (String → ℕ → EventParser → EventParser) → String → EventParser → EventParser
at n set v = set v n

-- The tags of the entries `TAG_…`.
unfoldable pub tag_values : Dict String → List String
tag_values [] = []
tag_values ((key, value) ∷ metadata) = elim (cut_prefix key "TAG_") [
  | none ↦ tag_values metadata
  | some tag ↦ (if value == "" then tag else tag ⧺ "=" ⧺ value) ∷ tag_values metadata
]

unfoldable pub metadata_tags : Dict String → List String
metadata_tags metadata =
    let tags = get "TAGS" metadata in (if tags == "" then [] else tags ∷ []) ++ tag_values metadata

unfoldable pub set_metadata_tags : List String → EventParser → EventParser
set_metadata_tags [] p = p
set_metadata_tags (t ∷ tags) p = set_tags (join "," (t ∷ tags)) build_metadata_priority p

unfoldable pub set_patterns : List EventId → EventParser → EventParser
set_patterns [] p = p
set_patterns (EventId.pattern pat ∷ children) p =
    set_patterns children (set_pattern pat started_priority p)
set_patterns (_ ∷ children) p = set_patterns children p

unfoldable pub fill_from_finished : BuildFinished → EventParser → EventParser
unfolding time_with_fallback sub_microseconds
fill_from_finished f p =
    let end = time_with_fallback f.finish_time f.finish_time_millis in
    record p {
      rec = record p.rec {
        duration_usec = elim p.start_time [
          | none ↦ p.rec.duration_usec
          | some start ↦ sub_microseconds end start
        ];
        success = eqb_ℤ f.exit_code (pos 0);
        bazel_exit_code = f.exit_code_name;
      };
    }

module _ (urls : UrlPackage) where
  unfoldable pub fill_from_env : Dict String → EventParser → EventParser
  fill_from_env env p =
      let p1 = set_from_keys (at env_priority set_user) env user_keys p in
      let p2 = set_from_keys (at env_priority (set_repo_url urls)) env repo_url_keys p1 in
      let p3 = set_from_keys (at env_priority set_branch_name) env branch_name_keys p2 in
      let p4 = set_github_ref (get "GITHUB_REF" env) p3 in
      let p5 = set_from_keys (at env_priority set_commit_sha) env commit_sha_keys p4 in
      let p6 = set_from (constantly set_role "CI") (get "CI" env) p5 in
      set_from (constantly set_role "CI_RUNNER") (get "CI_RUNNER" env) p6

  unfoldable pub fill_from_structured_command_line : CommandLine → EventParser → EventParser
  fill_from_structured_command_line cl p =
      if cl.label == "canonical" then fill_from_env (parse_command_line cl) p else p

  -- The `switch` on the key of an item.
  unfoldable pub set_from_item : String → String → EventParser → EventParser
  set_from_item key v p =
      let n = workspace_status_priority in
      if key == "BUILD_USER"
      then set_user v n p
      else if key == "USER"
      then set_user v n p
      else if key == "BUILD_HOST"
      then set_host v n p
      else if key == "HOST"
      then set_host v n p
      else if key == "PATTERN"
      then set_pattern (split b' ' v) n p
      else if key == "ROLE"
      then set_role v n p
      else if key == "REPO_URL"
      then set_repo_url urls v n p
      else if key == "GIT_BRANCH"
      then set_branch_name v n p
      else if key == "COMMIT_SHA"
      then set_commit_sha v n p
      else if key == "TAGS"
      then set_tags v n p
      else p

  unfoldable pub fill_from_workspace_status : List Item → EventParser → EventParser
  fill_from_workspace_status [] p = p
  fill_from_workspace_status (i ∷ items) p =
      fill_from_workspace_status items (set_from (set_from_item i.key) i.value p)

  unfoldable pub fill_from_build_metadata : Dict String → EventParser → EventParser
  fill_from_build_metadata metadata p =
      let n = build_metadata_priority in
      let p1 = set_from (at n set_commit_sha) (get "COMMIT_SHA" metadata) p in
      let p2 = set_from (at n set_branch_name) (get "BRANCH_NAME" metadata) p1 in
      let p3 = set_from (at n (set_repo_url urls)) (get "REPO_URL" metadata) p2 in
      let p4 = set_from (at n set_user) (get "USER" metadata) p3 in
      let p5 = set_from (at n set_host) (get "HOST" metadata) p4 in
      let p6 = set_from (λ v. set_pattern (split b' ' v) n) (get "PATTERN" metadata) p5 in
      let p7 = set_from (at n set_role) (get "ROLE" metadata) p6 in
      let p8 = set_from (at n set_parent_run_id) (get "PARENT_RUN_ID" metadata) p7 in
      let p9 = set_from (at n set_run_id) (get "RUN_ID" metadata) p8 in
      set_metadata_tags (metadata_tags metadata) p9

  unfoldable pub parse_payload : Payload → List EventId → EventParser → EventParser
  unfolding time_with_fallback
  parse_payload (started s) children p = set_patterns children (
      set_command s.command started_priority
        (record p { start_time = some (time_with_fallback s.start_time s.start_time_millis) }))
  parse_payload (structured_command_line cl) children p = fill_from_structured_command_line cl p
  parse_payload (workspace_status items) children p = fill_from_workspace_status items p
  parse_payload (finished f) children p = fill_from_finished f p
  parse_payload (build_metrics actions packages) children p = record p {
    rec = record p.rec { action_count = actions };
  }
  parse_payload (build_metadata metadata) children p = fill_from_build_metadata metadata p
  parse_payload _ children p = p

  unfoldable pub parse_event : EventParser → BuildEvent → EventParser
  parse_event p event = parse_payload event.payload event.children p

  -- The calls of `ParseEvent` for the events of a stream.
  unfoldable pub parse_events : EventParser → List BuildEvent → EventParser
  parse_events p [] = p
  parse_events p (e ∷ events) = parse_events (parse_event p e) events
