-- ===== src/Index/Parser/Precedence/Rank.antt =====
-- Which events can touch a field that has been set.
use bepper.Base.{
  ℕ, String, Bool, true, false, ◌≡◌, ◌∙◌, ◌≤◌, ◌<◌, List, [], ◌∷◌, ◌++◌, ◌==◌, if◌then◌else◌, arith,
  All, All-append, All-map,
}
use bepper.Base.Text.{has_prefix, trim_prefix, split}
use bepper.Base.Dict.{Dict}
use bepper.Events.{
  EventId, Item, Payload, started, structured_command_line, workspace_status, build_metadata,
  BuildEvent,
}
use bepper.Index.GitUrl.{UrlPackage}
use bepper.Index.Parser.Setters.{EventParser, canonical_repo_url}
use bepper.Index.Parser.Sources.{
  get, parse_events, parse_command_line, user_keys, repo_url_keys, branch_name_keys,
  commit_sha_keys,
}
use bepper.Index.Parser.Precedence.Writes.{
  Field, host, user, role, repo_url, branch_name, commit_sha, command, pattern, parent_run_id,
  run_id, view, Write, writes_of_keys, writes_of_env, writes_of_metadata, writes_of_item,
  writes_of_items, writes_of_children, writes_of_payload, writes_of_events,
}
use bepper.Index.Parser.Precedence.Winner.{Below, apply_all-Below}
use bepper.Index.Parser.Precedence.Refinement.{view-parse_events}

-- The priority with which the events of a kind write.
unfoldable pub rank : Payload → ℕ
rank (started _) = 1
rank (structured_command_line _) = 2
rank (workspace_status _) = 3
rank (build_metadata _) = 4
rank _ = 0

record Ranked (n : ℕ) (ws : List Write) : Type 0 where
  each : All (λ w. w.priority ≤ n) ws

Ranked-nil : (n : ℕ) → Ranked n []
Ranked-nil n = record { each = tt }

Ranked-one :
    (f : Field) (v : List String) (n : ℕ)
    → Ranked n (record { field = f; value = v; priority = n } ∷ [])
Ranked-one f v n = record { each = (omega arith, tt) }

Ranked-append : {n : ℕ} {ws us : List Write} → Ranked n ws → Ranked n us → Ranked n (ws ++ us)
Ranked-append {n} h k = record { each = All-append (λ w. w.priority ≤ n) _ _ h.each k.each }

Ranked-if :
    {n : ℕ} (b : Bool) {ws us : List Write}
    → Ranked n ws
    → Ranked n us
    → Ranked n (if b then ws else us)
Ranked-if true h k = h
Ranked-if false h k = k

-- A write that is made unless the text is empty.
Ranked-unless :
    (v : String) (f : Field) (value : List String) (n : ℕ)
    → Ranked n (if v == "" then [] else record { field = f; value = value; priority = n } ∷ [])
Ranked-unless v f value n = Ranked-if (v == "") (Ranked-nil n) (Ranked-one f value n)

Ranked-keys :
    (f : Field) (form : String → String) (n : ℕ) (env : Dict String) (keys : List String)
    → Ranked n (writes_of_keys f form n env keys)
Ranked-keys f form n env [] = Ranked-nil n
Ranked-keys f form n env (k ∷ keys) =
    Ranked-append (Ranked-unless (get k env) f (form (get k env) ∷ []) n)
      (Ranked-keys f form n env keys)

Ranked-children : (children : List EventId) → Ranked 1 (writes_of_children children)
Ranked-children [] = Ranked-nil 1
Ranked-children (EventId.pattern pat ∷ children) =
    Ranked-append (Ranked-one pattern pat 1) (Ranked-children children)
Ranked-children (_ ∷ children) = Ranked-children children

module _ (urls : UrlPackage) where
  Ranked-env : (env : Dict String) → Ranked 2 (writes_of_env urls env)
  Ranked-env env = Ranked-append (Ranked-keys user (λ v. v) 2 env user_keys) (
      Ranked-append (Ranked-keys repo_url (canonical_repo_url urls) 2 env repo_url_keys) (
        Ranked-append (Ranked-keys branch_name (λ v. v) 2 env branch_name_keys) (
          Ranked-append
            (Ranked-if (has_prefix (get "GITHUB_REF" env) "refs/heads/")
              (Ranked-one branch_name (trim_prefix (get "GITHUB_REF" env) "refs/heads/" ∷ []) 2)
              (Ranked-nil 2))
            (Ranked-append (Ranked-keys commit_sha (λ v. v) 2 env commit_sha_keys) (
              Ranked-append (Ranked-unless (get "CI" env) role ("CI" ∷ []) 2)
                (Ranked-unless (get "CI_RUNNER" env) role ("CI_RUNNER" ∷ []) 2))))))

  Ranked-item : (key v : String) → Ranked 3 (writes_of_item urls key v)
  Ranked-item key v = Ranked-if (key == "BUILD_USER") (Ranked-one user (v ∷ []) 3) (
      Ranked-if (key == "USER") (Ranked-one user (v ∷ []) 3) (
        Ranked-if (key == "BUILD_HOST") (Ranked-one host (v ∷ []) 3) (
          Ranked-if (key == "HOST") (Ranked-one host (v ∷ []) 3) (
            Ranked-if (key == "PATTERN") (Ranked-one pattern (split b' ' v) 3) (
              Ranked-if (key == "ROLE") (Ranked-one role (v ∷ []) 3) (
                Ranked-if (key == "REPO_URL")
                  (Ranked-one repo_url (canonical_repo_url urls v ∷ []) 3)
                  (Ranked-if (key == "GIT_BRANCH") (Ranked-one branch_name (v ∷ []) 3) (
                    Ranked-if (key == "COMMIT_SHA") (Ranked-one commit_sha (v ∷ []) 3)
                      (Ranked-if (key == "TAGS") (Ranked-nil 3) (Ranked-nil 3))))))))))

  Ranked-items : (items : List Item) → Ranked 3 (writes_of_items urls items)
  Ranked-items [] = Ranked-nil 3
  Ranked-items (i ∷ items) =
      Ranked-append (Ranked-if (i.value == "") (Ranked-nil 3) (Ranked-item i.key i.value))
        (Ranked-items items)

  Ranked-metadata : (m : Dict String) → Ranked 4 (writes_of_metadata urls m)
  Ranked-metadata m =
      let on = λ (key : String) (f : Field). Ranked-unless (get key m) f (get key m ∷ []) 4 in
      Ranked-append (on "COMMIT_SHA" commit_sha) (
        Ranked-append (on "BRANCH_NAME" branch_name) (
          Ranked-append
            (Ranked-unless (get "REPO_URL" m) repo_url
              (canonical_repo_url urls (get "REPO_URL" m) ∷ []) 4)
            (Ranked-append (on "USER" user) (
              Ranked-append (on "HOST" host) (
                Ranked-append
                  (Ranked-unless (get "PATTERN" m) pattern (split b' ' (get "PATTERN" m)) 4)
                  (Ranked-append (on "ROLE" role)
                    (Ranked-append (on "PARENT_RUN_ID" parent_run_id) (on "RUN_ID" run_id))))))))

  Ranked-payload :
      (payload : Payload) (children : List EventId)
      → Ranked (rank payload) (writes_of_payload urls payload children)
  unfolding rank
  Ranked-payload (started s) children =
      Ranked-append (Ranked-one command (s.command ∷ []) 1) (Ranked-children children)
  Ranked-payload (structured_command_line cl) children =
      Ranked-if (cl.label == "canonical") (Ranked-env (parse_command_line cl)) (Ranked-nil 2)
  Ranked-payload (workspace_status items) children = Ranked-items items
  Ranked-payload (build_metadata m) children = Ranked-metadata m
  Ranked-payload _ children = Ranked-nil 0

  Below-events :
      (f : Field) (n : ℕ) (events : List BuildEvent)
      → All (λ e. rank e.payload < n) events
      → All (Below f n) (writes_of_events urls events)
  Below-events f n [] h = tt
  Below-events f n (e ∷ events) (low, h) =
      All-append (Below f n) (writes_of_payload urls e.payload e.children) _
        (All-map (λ w. w.priority ≤ rank e.payload) (Below f n) (λ w k same. omega arith) _
          (Ranked-payload e.payload e.children).each)
        (Below-events f n events h)

  -- A field that was set with some priority keeps its value and its priority through any events
  -- whose kind has a lower priority: what BuildMetadata (4) set stays through WorkspaceStatus (3),
  -- StructuredCommandLine (2), BuildStarted (1) and all other events (0), in any order.
  pub outranked_events_change_nothing :
      (f : Field) (p : EventParser) (events : List BuildEvent)
      → All (λ e. rank e.payload < (view f p).priority) events
      → view f (parse_events urls p events) ≡ view f p
  outranked_events_change_nothing f p events h =
      view-parse_events f urls events p
      ∙ apply_all-Below f (view f p) _ (Below-events f (view f p).priority events h)
