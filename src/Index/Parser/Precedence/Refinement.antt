-- ===== src/Index/Parser/Precedence/Refinement.antt =====
-- The parser does to the view of every field what the writes of its events say.
use mathlib.Core.List.{append-nil}
use bepper.Base.{String, ◌≡◌, List, [], ◌∷◌, ◌++◌, ◌==◌, arith, some}
use bepper.Base.Text.{split}
use bepper.Base.Dict.{Dict}
use bepper.Events.{
  EventId, BuildStarted, Item, Payload, started, structured_command_line, workspace_status,
  finished, build_metrics, build_metadata, BuildEvent,
}
use bepper.Index.GitUrl.{UrlPackage}
use bepper.Index.Parser.Setters.{EventParser, canonical_repo_url, set_command}
use bepper.Index.Parser.Sources.{
  fill_from_env, metadata_tags, set_metadata_tags, fill_from_build_metadata, set_from_item,
  fill_from_workspace_status, set_patterns, parse_command_line, fill_from_structured_command_line,
  fill_from_finished, parse_payload, parse_event, parse_events, time_with_fallback,
}
use bepper.Index.Parser.Precedence.Writes.{
  Field, user, repo_url, branch_name, commit_sha, command, view, apply_all, writes_of_env,
  writes_of_metadata, writes_of_item, writes_of_items, writes_of_children, writes_of_payload,
  writes_of_events,
}
use bepper.Index.Parser.Precedence.Adds.{
  Adds, Adds-refl, Adds-append, set_host-Adds, set_user-Adds, set_role-Adds, set_branch_name-Adds,
  set_commit_sha-Adds, set_parent_run_id-Adds, set_run_id-Adds, set_repo_url-Adds, set_tags-Adds,
  set_pattern-Adds, set_from-Adds, set_from_keys-Adds, set_github_ref-Adds, Adds-choose,
}

module _ (f : Field) (urls : UrlPackage) where
  fill_from_env-Adds :
      (env : Dict String) (p : EventParser)
      → Adds f (writes_of_env urls env) p (fill_from_env urls env p)
  unfolding fill_from_env
  fill_from_env-Adds env p =
      Adds-append (set_from_keys-Adds f _ user (λ v. v) 2 env _ p (set_user-Adds f 2)) (
        Adds-append
          (set_from_keys-Adds f _ repo_url (canonical_repo_url urls) 2 env _ _
            (λ v q. set_repo_url-Adds f 2 v q urls))
          (Adds-append
            (set_from_keys-Adds f _ branch_name (λ v. v) 2 env _ _ (set_branch_name-Adds f 2))
            (Adds-append (set_github_ref-Adds f _ _) (
              Adds-append
                (set_from_keys-Adds f _ commit_sha (λ v. v) 2 env _ _ (set_commit_sha-Adds f 2))
                (Adds-append (set_from-Adds f _ _ _ _ (set_role-Adds f 2 "CI" _))
                  (set_from-Adds f _ _ _ _ (set_role-Adds f 2 "CI_RUNNER" _)))))))

  set_metadata_tags-Adds :
      (tags : List String) (p : EventParser) → Adds f [] p (set_metadata_tags tags p)
  unfolding set_metadata_tags
  set_metadata_tags-Adds [] p = Adds-refl f p
  set_metadata_tags-Adds (t ∷ tags) p = set_tags-Adds f 4 _ p

  fill_from_build_metadata-Adds :
      (m : Dict String) (p : EventParser)
      → Adds f (writes_of_metadata urls m ++ []) p (fill_from_build_metadata urls m p)
  unfolding fill_from_build_metadata
  fill_from_build_metadata-Adds m p =
      Adds-append
        (Adds-append (set_from-Adds f _ _ _ p (set_commit_sha-Adds f 4 _ p)) (
          Adds-append (set_from-Adds f _ _ _ _ (set_branch_name-Adds f 4 _ _)) (
            Adds-append (set_from-Adds f _ _ _ _ (set_repo_url-Adds f 4 _ _ urls)) (
              Adds-append (set_from-Adds f _ _ _ _ (set_user-Adds f 4 _ _)) (
                Adds-append (set_from-Adds f _ _ _ _ (set_host-Adds f 4 _ _)) (
                  Adds-append (set_from-Adds f _ _ _ _ (set_pattern-Adds f 4 _ _)) (
                    Adds-append (set_from-Adds f _ _ _ _ (set_role-Adds f 4 _ _)) (
                      Adds-append (set_from-Adds f _ _ _ _ (set_parent_run_id-Adds f 4 _ _))
                        (set_from-Adds f _ _ _ _ (set_run_id-Adds f 4 _ _))))))))))
        (set_metadata_tags-Adds (metadata_tags m) _)

  set_from_item-Adds :
      (key v : String) (p : EventParser)
      → Adds f (writes_of_item urls key v) p (set_from_item urls key v p)
  unfolding set_from_item
  set_from_item-Adds key v p = Adds-choose f (key == "BUILD_USER") (set_user-Adds f 3 v p) (
      Adds-choose f (key == "USER") (set_user-Adds f 3 v p) (
        Adds-choose f (key == "BUILD_HOST") (set_host-Adds f 3 v p) (
          Adds-choose f (key == "HOST") (set_host-Adds f 3 v p) (
            Adds-choose f (key == "PATTERN") (set_pattern-Adds f 3 (split b' ' v) p) (
              Adds-choose f (key == "ROLE") (set_role-Adds f 3 v p) (
                Adds-choose f (key == "REPO_URL") (set_repo_url-Adds f 3 v p urls) (
                  Adds-choose f (key == "GIT_BRANCH") (set_branch_name-Adds f 3 v p) (
                    Adds-choose f (key == "COMMIT_SHA") (set_commit_sha-Adds f 3 v p) (
                      Adds-choose f (key == "TAGS") (set_tags-Adds f 3 v p) (Adds-refl f p))))))))))

  fill_from_workspace_status-Adds :
      (items : List Item) (p : EventParser)
      → Adds f (writes_of_items urls items) p (fill_from_workspace_status urls items p)
  unfolding fill_from_workspace_status
  fill_from_workspace_status-Adds [] p = Adds-refl f p
  fill_from_workspace_status-Adds (i ∷ items) p =
      Adds-append (set_from-Adds f _ _ i.value p (set_from_item-Adds i.key i.value p))
        (fill_from_workspace_status-Adds items _)

set_patterns-Adds :
    (f : Field) (children : List EventId) (p : EventParser)
    → Adds f (writes_of_children children) p (set_patterns children p)
unfolding set_patterns
set_patterns-Adds f [] p = Adds-refl f p
set_patterns-Adds f (EventId.pattern pat ∷ children) p =
    Adds-append (set_pattern-Adds f 1 pat p) (set_patterns-Adds f children _)
set_patterns-Adds f (_ ∷ children) p = set_patterns-Adds f children p

started-Adds :
    (f : Field) (s : BuildStarted) (p : EventParser)
    → Adds f (record { field = command; value = s.command ∷ []; priority = 1 } ∷ []) p (
        set_command s.command 1
          (record p { start_time = some (time_with_fallback s.start_time s.start_time_millis) }))
unfolding set_command
started-Adds f s p = record { made = ground arith }

module _ (f : Field) (urls : UrlPackage) where
  parse_payload-Adds :
      (payload : Payload) (children : List EventId) (p : EventParser)
      → Adds f (writes_of_payload urls payload children) p (parse_payload urls payload children p)
  unfolding parse_payload fill_from_structured_command_line fill_from_finished
  parse_payload-Adds (started s) children p =
      Adds-append (started-Adds f s p) (set_patterns-Adds f children _)
  parse_payload-Adds (structured_command_line cl) children p =
      Adds-choose f (cl.label == "canonical") (fill_from_env-Adds f urls (parse_command_line cl) p)
        (Adds-refl f p)
  parse_payload-Adds (workspace_status items) children p =
      fill_from_workspace_status-Adds f urls items p
  parse_payload-Adds (finished e) children p = record { made = ground arith }
  parse_payload-Adds (build_metrics actions packages) children p = record { made = ground arith }
  parse_payload-Adds (build_metadata m) children p =
      rw (← append-nil (writes_of_metadata urls m)) (fill_from_build_metadata-Adds f urls m p)
  parse_payload-Adds _ children p = Adds-refl f p

  parse_events-Adds :
      (events : List BuildEvent) (p : EventParser)
      → Adds f (writes_of_events urls events) p (parse_events urls p events)
  unfolding parse_events parse_event
  parse_events-Adds [] p = Adds-refl f p
  parse_events-Adds (e ∷ events) p =
      Adds-append (parse_payload-Adds e.payload e.children p) (parse_events-Adds events _)

  -- Parsing a stream of events does to each prioritised field exactly what the writes of its events
  -- say, applied in the order of the stream: a write replaces the value if its priority is at least
  -- the one that the field has.
  pub view-parse_events :
      (events : List BuildEvent) (p : EventParser)
      → view f (parse_events urls p events) ≡ apply_all f (view f p) (writes_of_events urls events)
  view-parse_events events p = (parse_events-Adds events p).made
