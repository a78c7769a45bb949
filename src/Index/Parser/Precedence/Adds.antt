-- ===== src/Index/Parser/Precedence/Adds.antt =====
-- What the `setX` methods of src/index/parser.go do to the view of every field.
use mathlib.Core.List.{foldl-append}
use bepper.Base.{
  ℕ, String, Bool, true, false, ◌≡◌, refl, sym, ◌∙◌, ap, List, [], ◌∷◌, ◌++◌, ◌==◌, if◌then◌else◌,
  arith, Bool-cases, inl, inr,
}
use bepper.Base.Text.{has_prefix, trim_prefix}
use bepper.Base.Dict.{Dict}
use bepper.Index.GitUrl.{UrlPackage}
use bepper.Index.Parser.Setters.{
  EventParser, canonical_repo_url, set_host, set_user, set_role, set_repo_url, set_branch_name,
  set_commit_sha, set_command, set_pattern, set_tags, set_parent_run_id, set_run_id,
}
use bepper.Index.Parser.Sources.{get, set_from, set_from_keys, set_github_ref}
use bepper.Index.Parser.Precedence.Writes.{
  Field, host, user, role, repo_url, branch_name, commit_sha, command, pattern, parent_run_id,
  run_id, view, Write, apply, apply_all, writes_of_keys, write_ref,
}

-- Between the two states the writes were made, as far as `f` shows.
pub record Adds (f : Field) (ws : List Write) (p q : EventParser) : Type 0 where
  pub made : view f q ≡ apply_all f (view f p) ws

pub Adds-refl : (f : Field) (p : EventParser) → Adds f [] p p
Adds-refl f p = record { made = refl }

pub Adds-append :
    {f : Field} {ws us : List Write} {p q r : EventParser}
    → Adds f ws p q
    → Adds f us q r
    → Adds f (ws ++ us) p r
Adds-append {f} {ws} {us} {p} h k = record {
  made = k.made ∙ ap (λ v. apply_all f v us) h.made ∙ sym (foldl-append (apply f) (view f p) ws us);
}

module _ (f : Field) (n : ℕ) (v : String) (p : EventParser) where
  pub set_host-Adds :
      Adds f (record { field = host; value = v ∷ []; priority = n } ∷ []) p (set_host v n p)
  unfolding set_host
  set_host-Adds = record { made = ground arith }

  pub set_user-Adds :
      Adds f (record { field = user; value = v ∷ []; priority = n } ∷ []) p (set_user v n p)
  unfolding set_user
  set_user-Adds = record { made = ground arith }

  pub set_role-Adds :
      Adds f (record { field = role; value = v ∷ []; priority = n } ∷ []) p (set_role v n p)
  unfolding set_role
  set_role-Adds = record { made = ground arith }

  pub set_branch_name-Adds :
      Adds f
        (record { field = branch_name; value = v ∷ []; priority = n } ∷ [])
        p
        (set_branch_name v n p)
  unfolding set_branch_name
  set_branch_name-Adds = record { made = ground arith }

  pub set_commit_sha-Adds :
      Adds f
        (record { field = commit_sha; value = v ∷ []; priority = n } ∷ [])
        p
        (set_commit_sha v n p)
  unfolding set_commit_sha
  set_commit_sha-Adds = record { made = ground arith }

  pub set_command-Adds :
      Adds f (record { field = command; value = v ∷ []; priority = n } ∷ []) p (set_command v n p)
  unfolding set_command
  set_command-Adds = record { made = ground arith }

  pub set_parent_run_id-Adds :
      Adds f
        (record { field = parent_run_id; value = v ∷ []; priority = n } ∷ [])
        p
        (set_parent_run_id v n p)
  unfolding set_parent_run_id
  set_parent_run_id-Adds = record { made = ground arith }

  pub set_run_id-Adds :
      Adds f (record { field = run_id; value = v ∷ []; priority = n } ∷ []) p (set_run_id v n p)
  unfolding set_run_id
  set_run_id-Adds = record { made = ground arith }

  pub set_repo_url-Adds :
      (urls : UrlPackage)
      → Adds f
          (record { field = repo_url; value = canonical_repo_url urls v ∷ []; priority = n } ∷ [])
          p
          (set_repo_url urls v n p)
  unfolding set_repo_url
  set_repo_url-Adds urls = record { made = ground arith }

  pub set_tags-Adds : Adds f [] p (set_tags v n p)
  unfolding set_tags
  set_tags-Adds = record { made = ground arith }

pub set_pattern-Adds :
    (f : Field) (n : ℕ) (v : List String) (p : EventParser)
    → Adds f (record { field = pattern; value = v; priority = n } ∷ []) p (set_pattern v n p)
unfolding set_pattern
set_pattern-Adds f n v p = record { made = ground arith }

-- A write that is made unless the text is empty.
pub set_from-Adds :
    (f : Field) (set : String → EventParser → EventParser) (ws : List Write) (v : String)
    (p : EventParser)
    → Adds f ws p (set v p)
    → Adds f (if v == "" then [] else ws) p (set_from set v p)
unfolding set_from
set_from-Adds f set ws v p h = record {
  made = elim (Bool-cases (v == "")) [ inl e ↦ rw e | inr e ↦ rw e h.made ];
}

pub set_from_keys-Adds :
    (f : Field) (set : String → EventParser → EventParser) (g : Field) (form : String → String)
    (n : ℕ) (env : Dict String) (keys : List String) (p : EventParser)
    → ((v : String) (q : EventParser)
        → Adds f (record { field = g; value = form v ∷ []; priority = n } ∷ []) q (set v q))
    → Adds f (writes_of_keys g form n env keys) p (set_from_keys set env keys p)
unfolding set_from_keys
set_from_keys-Adds f set g form n env [] p h = Adds-refl f p
set_from_keys-Adds f set g form n env (k ∷ keys) p h =
    Adds-append (set_from-Adds f set _ (get k env) p (h (get k env) p))
      (set_from_keys-Adds f set g form n env keys (set_from set (get k env) p) h)

pub set_github_ref-Adds :
    (f : Field) (v : String) (p : EventParser) → Adds f (write_ref v) p (set_github_ref v p)
unfolding set_github_ref
set_github_ref-Adds f v p = record {
  made = elim (Bool-cases (has_prefix v "refs/heads/")) [
    | inl e ↦ rw e ((set_branch_name-Adds f 2 (trim_prefix v "refs/heads/") p).made)
    | inr e ↦ rw e
  ];
}

-- One branch or the other.
pub Adds-choose :
    (f : Field) (b : Bool) {ws us : List Write} {p q r : EventParser}
    → Adds f ws p q
    → Adds f us p r
    → Adds f (if b then ws else us) p (if b then q else r)
Adds-choose f true h k = h
Adds-choose f false h k = k
