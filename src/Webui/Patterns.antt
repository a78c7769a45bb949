-- ===== src/Webui/Patterns.antt =====
-- The paths that a pattern of New of src/webui/webui.go stands for.
use bepper.Base.{
  true, false, String, ◌≡◌, ◌≢◌, refl, subst, Option, none, some, List, [], ◌∷◌, if-cases, inl, inr,
  eq_iff, ◌==◌,
}
use bepper.Webui.Routes.{Segment, literal, wildcard, subtree, match_path, captured}

-- A path that a pattern stands for, with the texts for its wildcards.
pub data Matches : List Segment → List String → List String → Type 0 where
  ends : Matches [] [] []
  named :
      (name : String) (pattern : List Segment) (path ids : List String)
      → Matches pattern path ids
      → Matches (literal name ∷ pattern) (name ∷ path) ids
  any :
      (id : String) (pattern : List Segment) (path ids : List String)
      → id ≢ ""
      → Matches pattern path ids
      → Matches (wildcard ∷ pattern) (id ∷ path) (id ∷ ids)
  below :
      (name : String) (pattern : List Segment) (path : List String)
      → Matches (subtree ∷ pattern) (name ∷ path) []

some_ids : {a b : List String} → some a ≡ some b → a ≡ b
some_ids h = cc

captured-ids :
    (id : String) (rest : Option (List String)) (ids : List String)
    → captured id rest ≡ some ids
    → (more : List String) × (rest ≡ some more) × (id ∷ more ≡ ids)
captured-ids id none ids h = cc
captured-ids id (some more) ids h = (more, refl, some_ids h)

not_empty_text : (s : String) → (s == "") ≡ false → s ≢ ""
not_empty_text s h e = let empty : (s == "") ≡ true = (eq_iff s "").1 e in cc

pub match_path-Matches :
    (pattern : List Segment) (path ids : List String)
    → match_path pattern path ≡ some ids
    → Matches pattern path ids
unfolding match_path
match_path-Matches [] [] ids h = subst (Matches [] []) (some_ids h) ends
match_path-Matches [] (text ∷ path) ids h = cc
match_path-Matches (segment ∷ pattern) [] ids h = cc
match_path-Matches (literal name ∷ pattern) (text ∷ path) ids h = elim (if-cases (name == text) h) [
  | inl (same, rest) ↦
      subst (λ t. Matches (literal name ∷ pattern) (t ∷ path) ids) ((eq_iff name text).0 same)
        (named name pattern path ids (match_path-Matches pattern path ids rest))
  | inr (differs, absent) ↦ cc
]
match_path-Matches (wildcard ∷ pattern) (text ∷ path) ids h = elim (if-cases (text == "") h) [
  | inl (empty, absent) ↦ cc
  | inr (given, found) ↦
      let (more, rest, same) = captured-ids text (match_path pattern path) ids found in
      subst (Matches (wildcard ∷ pattern) (text ∷ path)) same (
        any text pattern path more (not_empty_text text given)
          (match_path-Matches pattern path more rest))
]
match_path-Matches (subtree ∷ pattern) (text ∷ path) ids h =
    subst (Matches (subtree ∷ pattern) (text ∷ path)) (some_ids h) (below text pattern path)
