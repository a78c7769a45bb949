-- ===== src/Webui/Routes.antt =====
-- The routes that New of src/webui/webui.go registers with net/http's ServeMux. A path is the texts
-- between its slashes: "/" has one, which is empty, and "/assets/" has two.
use bepper.Base.{
  String, ◌≡◌, refl, sym, ◌∙◌, Bool, true, false, ◌&&◌, ◌||◌, ◌==◌, Option, none, some, List, [],
  ◌∷◌, ◌++◌, if◌then◌else◌, if-cases, inl, inr, eq_iff,
}
use bepper.Base.Result.{Result, ok, err}
use bepper.Blobstore.{Bytes, Error}

-- A literal, `{id}`, or what is under a path that ends with a slash.
pub data Segment : Type 0 where
  literal : String → Segment
  wildcard : Segment
  subtree : Segment

pub data Handler : Type 0 where
  list_invocations get_invocation get_log get_details get_blob get_raw spa_shell file_server :
      Handler

pub record Route : Type 0 where
  pub pattern : List Segment
  pub handler : Handler

abbrev pub captured : String → Option (List String) → Option (List String)
captured id none = none
captured id (some ids) = some (id ∷ ids)

-- The texts that the wildcards of a pattern stand for, if a path matches it.
unfoldable pub match_path : List Segment → List String → Option (List String)
match_path [] [] = some []
match_path [] (text ∷ path) = none
match_path (segment ∷ pattern) [] = none
match_path (literal name ∷ pattern) (text ∷ path) =
    let rest = match_path pattern path in if name == text then rest else none
match_path (wildcard ∷ pattern) (text ∷ path) =
    let rest = match_path pattern path in if text == "" then none else captured text rest
match_path (subtree ∷ pattern) (text ∷ path) = some []

abbrev pub invocation_route : List Segment → Handler → Route
invocation_route suffix handler = record {
  pattern = literal "api" ∷ literal "invocations" ∷ wildcard ∷ suffix;
  handler = handler;
}

abbrev pub page : List Segment → Handler → Route
page pattern handler = record { pattern = pattern; handler = handler }

-- Their method is GET.
abbrev pub routes : List Route
routes =
    page (literal "api" ∷ literal "invocations" ∷ []) list_invocations
    ∷ invocation_route [] get_invocation
    ∷ invocation_route (literal "log" ∷ []) get_log
    ∷ invocation_route (literal "details" ∷ []) get_details
    ∷ invocation_route (literal "blob" ∷ []) get_blob
    ∷ invocation_route (literal "raw" ∷ []) get_raw
    ∷ page (literal "" ∷ []) spa_shell
    ∷ page (literal "invocation" ∷ []) spa_shell
    ∷ page (literal "invocation" ∷ wildcard ∷ []) spa_shell
    ∷ page (literal "assets" ∷ subtree ∷ []) file_server
    ∷ page (literal "image" ∷ subtree ∷ []) file_server
    ∷ []

pub data Answer : Type 0 where
  handled : Handler → List String → Answer
  method_not_allowed redirected not_found : Answer

abbrev pub matched_or :
    Route → Option (List String) → Option (Handler × List String) → Option (Handler × List String)
matched_or route (some ids) later = some (route.handler, ids)
matched_or route none later = later

-- The first route that a path matches.
unfoldable pub find_route : List Route → List String → Option (Handler × List String)
find_route [] path = none
find_route (route ∷ rest) path =
    matched_or route (match_path route.pattern path) (find_route rest path)

abbrev pub method_allowed : String → Handler × List String → Answer
method_allowed method found =
    if method == "GET" || method == "HEAD" then handled found.0 found.1 else method_not_allowed

-- A path that only lacks the slash of a subtree is redirected to it.
abbrev pub without_slash : Option (Handler × List String) → Answer
without_slash none = not_found
without_slash (some found) = redirected

abbrev pub answer_from :
    String → Option (Handler × List String) → Option (Handler × List String) → Answer
answer_from method (some found) slashed = method_allowed method found
answer_from method none slashed = without_slash slashed

unfoldable pub answer : List Route → String → List String → Answer
answer rs method path = answer_from method (find_route rs path) (find_route rs (path ++ "" ∷ []))

-- The page that the file index.html holds, or the error of reading it.
pub data Shell : Type 0 where
  html : Bytes → Shell
  internal_error : Error → Shell

unfoldable pub serve_shell : Result Error Bytes → Shell
serve_shell (ok bytes) = html bytes
serve_shell (err e) = internal_error e

-- Whether some path may match both patterns.
abbrev pub overlaps : List Segment → List Segment → Bool
overlaps [] [] = true
overlaps [] (s ∷ ps) = false
overlaps (s ∷ ps) [] = false
overlaps (subtree ∷ ps) (s ∷ qs) = true
overlaps (literal a ∷ ps) (subtree ∷ qs) = true
overlaps (literal a ∷ ps) (literal b ∷ qs) = a == b && overlaps ps qs
overlaps (literal a ∷ ps) (wildcard ∷ qs) = overlaps ps qs
overlaps (wildcard ∷ ps) (subtree ∷ qs) = true
overlaps (wildcard ∷ ps) (literal b ∷ qs) = overlaps ps qs
overlaps (wildcard ∷ ps) (wildcard ∷ qs) = overlaps ps qs

captured-some :
    (id : String) (rest : Option (List String)) (ids : List String)
    → captured id rest ≡ some ids
    → (more : List String) × (rest ≡ some more)
captured-some id none ids h = cc
captured-some id (some more) ids h = (more, refl)

matches_literal :
    (a text : String) (ps : List Segment) (path ids : List String)
    → match_path (literal a ∷ ps) (text ∷ path) ≡ some ids
    → (a ≡ text) × (match_path ps path ≡ some ids)
unfolding match_path
matches_literal a text ps path ids h = elim (if-cases (a == text) h) [
  | inl (same, rest) ↦ ((eq_iff a text).0 same, rest)
  | inr (differs, absent) ↦ cc
]

matches_wildcard :
    (text : String) (ps : List Segment) (path ids : List String)
    → match_path (wildcard ∷ ps) (text ∷ path) ≡ some ids
    → (more : List String) × (match_path ps path ≡ some more)
unfolding match_path
matches_wildcard text ps path ids h = elim (if-cases (text == "") h) [
  | inl (empty, absent) ↦ cc
  | inr (given, rest) ↦ captured-some text (match_path ps path) ids rest
]

pub both-overlaps :
    (ps qs : List Segment) (path ids others : List String)
    → match_path ps path ≡ some ids
    → match_path qs path ≡ some others
    → overlaps ps qs ≡ true
unfolding match_path
both-overlaps [] [] path ids others h k = refl
both-overlaps [] (s ∷ qs) [] ids others h k = cc
both-overlaps [] (s ∷ qs) (text ∷ path) ids others h k = cc
both-overlaps (s ∷ ps) [] [] ids others h k = cc
both-overlaps (s ∷ ps) [] (text ∷ path) ids others h k = cc
both-overlaps (s ∷ ps) (t ∷ qs) [] ids others h k = cc
both-overlaps (subtree ∷ ps) (s ∷ qs) (text ∷ path) ids others h k = refl
both-overlaps (literal a ∷ ps) (subtree ∷ qs) (text ∷ path) ids others h k = refl
both-overlaps (literal a ∷ ps) (literal b ∷ qs) (text ∷ path) ids others h k =
    let (same_a, rest_a) = matches_literal a text ps path ids h in
    let (same_b, rest_b) = matches_literal b text qs path others k in
    rw ((eq_iff a b).1 (same_a ∙ sym same_b)) (both-overlaps ps qs path ids others rest_a rest_b)
both-overlaps (literal a ∷ ps) (wildcard ∷ qs) (text ∷ path) ids others h k =
    let (same_a, rest_a) = matches_literal a text ps path ids h in
    let (more, rest_b) = matches_wildcard text qs path others k in
    both-overlaps ps qs path ids more rest_a rest_b
both-overlaps (wildcard ∷ ps) (subtree ∷ qs) (text ∷ path) ids others h k = refl
both-overlaps (wildcard ∷ ps) (literal b ∷ qs) (text ∷ path) ids others h k =
    let (more, rest_a) = matches_wildcard text ps path ids h in
    let (same_b, rest_b) = matches_literal b text qs path others k in
    both-overlaps ps qs path more others rest_a rest_b
both-overlaps (wildcard ∷ ps) (wildcard ∷ qs) (text ∷ path) ids others h k =
    let (more_a, rest_a) = matches_wildcard text ps path ids h in
    let (more_b, rest_b) = matches_wildcard text qs path others k in
    both-overlaps ps qs path more_a more_b rest_a rest_b
