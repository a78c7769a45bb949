-- ===== src/Index/Parser/Precedence/Writes.antt =====
-- The abstract view of `EventParser`: for each prioritised field a priority and a value, and the
-- writes that each kind of event makes. (`Tags`, which accumulates, is not such a field.)
use mathlib.Core.List.{foldl}
use bepper.Base.{ℕ, String, Bool, true, false, ◌&&◌, List, [], ◌∷◌, ◌++◌, ◌==◌, leb, if◌then◌else◌}
use bepper.Base.Text.{split, has_prefix, trim_prefix}
use bepper.Base.Dict.{Dict}
use bepper.Events.{
  EventId, Item, Payload, started, structured_command_line, workspace_status, build_metadata,
  BuildEvent,
}
use bepper.Index.GitUrl.{UrlPackage}
use bepper.Index.Parser.Setters.{EventParser, canonical_repo_url}
use bepper.Index.Parser.Sources.{
  get, parse_command_line, user_keys, repo_url_keys, branch_name_keys, commit_sha_keys,
}

pub data Field : Type 0 where
  host user role repo_url branch_name commit_sha command pattern parent_run_id run_id : Field

abbrev pub same : Field → Field → Bool
same host host = true
same user user = true
same role role = true
same repo_url repo_url = true
same branch_name branch_name = true
same commit_sha commit_sha = true
same command command = true
same pattern pattern = true
same parent_run_id parent_run_id = true
same run_id run_id = true
same _ _ = false

pub record View : Type 0 where
  pub priority : ℕ
  pub value : List String

-- What the parser holds for a field. The pattern is the only field of several texts.
abbrev pub view : Field → EventParser → View
view host p = record { priority = p.priority.host; value = p.rec.host ∷ [] }
view user p = record { priority = p.priority.user; value = p.rec.user ∷ [] }
view role p = record { priority = p.priority.role; value = p.rec.role ∷ [] }
view repo_url p = record { priority = p.priority.repo_url; value = p.rec.repo_url ∷ [] }
view branch_name p = record { priority = p.priority.branch_name; value = p.rec.branch_name ∷ [] }
view commit_sha p = record { priority = p.priority.commit_sha; value = p.rec.commit_sha ∷ [] }
view command p = record { priority = p.priority.command; value = p.rec.command ∷ [] }
view pattern p = record { priority = p.priority.pattern; value = p.rec.pattern }
view parent_run_id p = record {
  priority = p.priority.parent_run_id;
  value = p.rec.parent_run_id ∷ [];
}
view run_id p = record { priority = p.priority.run_id; value = p.rec.run_id ∷ [] }

pub record Write : Type 0 where
  pub field : Field
  pub value : List String
  pub priority : ℕ

-- A write of no lower priority replaces what the field holds.
abbrev pub apply : Field → View → Write → View
apply f v w =
    if same f w.field && leb v.priority w.priority
    then record { priority = w.priority; value = w.value }
    else v

abbrev pub apply_all : Field → View → List Write → View
apply_all f = foldl (apply f)

abbrev pub write : Field → ℕ → String → List Write
write f n v = if v == "" then [] else record { field = f; value = v ∷ []; priority = n } ∷ []

abbrev pub writes_of_keys : Field → (String → String) → ℕ → Dict String → List String → List Write
writes_of_keys f form n env [] = []
writes_of_keys f form n env (k ∷ keys) =
    (if get k env == ""
      then []
      else record { field = f; value = form (get k env) ∷ []; priority = n } ∷ [])
    ++ writes_of_keys f form n env keys

abbrev pub write_words : ℕ → String → List Write
write_words n v =
    if v == "" then [] else record { field = pattern; value = split b' ' v; priority = n } ∷ []

abbrev pub write_ref : String → List Write
write_ref v =
    if has_prefix v "refs/heads/"
    then record { field = branch_name; value = trim_prefix v "refs/heads/" ∷ []; priority = 2 } ∷ []
    else []

abbrev pub write_role : String → String → List Write
write_role r v = if v == "" then [] else record { field = role; value = r ∷ []; priority = 2 } ∷ []

abbrev pub writes_of_children : List EventId → List Write
writes_of_children [] = []
writes_of_children (EventId.pattern pat ∷ children) =
    record { field = pattern; value = pat; priority = 1 } ∷ writes_of_children children
writes_of_children (_ ∷ children) = writes_of_children children

module _ (urls : UrlPackage) where
  abbrev pub write_url : ℕ → String → List Write
  write_url n v =
      if v == ""
      then []
      else record { field = repo_url; value = canonical_repo_url urls v ∷ []; priority = n } ∷ []

  -- The environment variables of the CI providers.
  abbrev pub writes_of_env : Dict String → List Write
  writes_of_env env =
      writes_of_keys user (λ v. v) 2 env user_keys
      ++ (writes_of_keys repo_url (canonical_repo_url urls) 2 env repo_url_keys
          ++ (writes_of_keys branch_name (λ v. v) 2 env branch_name_keys
              ++ (write_ref (get "GITHUB_REF" env)
                  ++ (writes_of_keys commit_sha (λ v. v) 2 env commit_sha_keys
                      ++ (write_role "CI" (get "CI" env)
                          ++ write_role "CI_RUNNER" (get "CI_RUNNER" env))))))

  -- An item of the workspace status whose value is not empty.
  abbrev pub writes_of_item : String → String → List Write
  writes_of_item key v =
      if key == "BUILD_USER"
      then record { field = user; value = v ∷ []; priority = 3 } ∷ []
      else if key == "USER"
      then record { field = user; value = v ∷ []; priority = 3 } ∷ []
      else if key == "BUILD_HOST"
      then record { field = host; value = v ∷ []; priority = 3 } ∷ []
      else if key == "HOST"
      then record { field = host; value = v ∷ []; priority = 3 } ∷ []
      else if key == "PATTERN"
      then record { field = pattern; value = split b' ' v; priority = 3 } ∷ []
      else if key == "ROLE"
      then record { field = role; value = v ∷ []; priority = 3 } ∷ []
      else if key == "REPO_URL"
      then record { field = repo_url; value = canonical_repo_url urls v ∷ []; priority = 3 } ∷ []
      else if key == "GIT_BRANCH"
      then record { field = branch_name; value = v ∷ []; priority = 3 } ∷ []
      else if key == "COMMIT_SHA"
      then record { field = commit_sha; value = v ∷ []; priority = 3 } ∷ []
      else if key == "TAGS"
      then []
      else []

  abbrev pub writes_of_items : List Item → List Write
  writes_of_items [] = []
  writes_of_items (i ∷ items) =
      (if i.value == "" then [] else writes_of_item i.key i.value) ++ writes_of_items items

  abbrev pub writes_of_metadata : Dict String → List Write
  writes_of_metadata m =
      write commit_sha 4 (get "COMMIT_SHA" m)
      ++ (write branch_name 4 (get "BRANCH_NAME" m)
          ++ (write_url 4 (get "REPO_URL" m)
              ++ (write user 4 (get "USER" m)
                  ++ (write host 4 (get "HOST" m)
                      ++ (write_words 4 (get "PATTERN" m)
                          ++ (write role 4 (get "ROLE" m)
                              ++ (write parent_run_id 4 (get "PARENT_RUN_ID" m)
                                  ++ write run_id 4 (get "RUN_ID" m))))))))

  abbrev pub writes_of_payload : Payload → List EventId → List Write
  writes_of_payload (started s) children =
      record { field = command; value = s.command ∷ []; priority = 1 } ∷ writes_of_children children
  writes_of_payload (structured_command_line cl) children =
      if cl.label == "canonical" then writes_of_env (parse_command_line cl) else []
  writes_of_payload (workspace_status items) children = writes_of_items items
  writes_of_payload (build_metadata m) children = writes_of_metadata m
  writes_of_payload _ children = []

  abbrev pub writes_of_events : List BuildEvent → List Write
  writes_of_events [] = []
  writes_of_events (e ∷ events) = writes_of_payload e.payload e.children ++ writes_of_events events
