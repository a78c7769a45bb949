-- ===== src/Webui/Dispatch.antt =====
-- Which handler a request of the web UI reaches, by the routes of New of src/webui/webui.go.
use bepper.Base.{
  String, ◌≡◌, ◌↔◌, ◌⊎◌, refl, ap, ◌∙◌, Bool, true, false, not, ◌&&◌, Option, none, some, List, [],
  ◌∷◌, &&-true, inl, inr, Option-cases,
}
use bepper.Webui.Routes.{
  Route, Handler, handled, routes, match_path, matched_or, find_route, answer, answer_from,
  overlaps, both-overlaps,
}

abbrev pub Among : Route → List Route → Type 0
Among route [] = ⊥
Among route (r ∷ rest) = (r ≡ route) ⊎ Among route rest

abbrev apart_from : Route → List Route → Bool
apart_from route [] = true
apart_from route (r ∷ rest) = not (overlaps route.pattern r.pattern) && apart_from route rest

-- No path matches two routes.
abbrev separate : List Route → Bool
separate [] = true
separate (r ∷ rest) = apart_from r rest && separate rest

apart_from-Among :
    (first route : Route) (rs : List Route) (path ids others : List String)
    → apart_from first rs ≡ true
    → Among route rs
    → match_path first.pattern path ≡ some ids
    → match_path route.pattern path ≡ some others
    → ⊥
apart_from-Among first route [] path ids others h among m n = among
apart_from-Among first route (r ∷ rest) path ids others h among m n =
    let (apart, later) =
      &&-true (not (overlaps first.pattern r.pattern)) (apart_from first rest) h in
    elim among [
      | inr in_rest ↦ apart_from-Among first route rest path ids others later in_rest m n
      | inl same ↦ not_both (overlaps first.pattern r.pattern) apart (
          both-overlaps first.pattern r.pattern path ids others m
            (ap (λ q. match_path q.pattern path) same ∙ n))
    ]
  where
    not_both : (b : Bool) → not b ≡ true → b ≡ true → ⊥
    not_both true h k = cc
    not_both false h k = cc

find_route-Among :
    (route : Route) (rs : List Route) (path ids : List String)
    → separate rs ≡ true
    → Among route rs
    → match_path route.pattern path ≡ some ids
    → find_route rs path ≡ some (route.handler, ids)
unfolding find_route
find_route-Among route [] path ids h among m = absurd among
find_route-Among route (r ∷ rest) path ids h among m =
    let (apart, later) = &&-true (apart_from r rest) (separate rest) h in
    elim among [
      | inl same ↦
          rw (ap (λ q. match_path q.pattern path) same ∙ m) (ap (λ q. some (q.handler, ids)) same)
      | inr in_rest ↦ elim (Option-cases (match_path r.pattern path)) [
        | inl absent ↦
            ap (λ o. matched_or r o (find_route rest path)) absent
            ∙ find_route-Among route rest path ids later in_rest m
        | inr (others, also) ↦
            absurd (apart_from-Among r route rest path others ids apart in_rest also m)
      ]
    ]

-- The handler is that of a route which the path matches, with these texts for its wildcards.
abbrev pub Reaches : List Route → List String → Handler → List String → Type 0
Reaches rs path handler ids =
    (route : Route) × Among route rs
    × (route.handler ≡ handler)
    × (match_path route.pattern path ≡ some ids)

matched_or-Reaches :
    (r : Route) (rest : List Route) (path ids : List String) (handler : Handler)
    (m : Option (List String)) (later : Option (Handler × List String))
    → match_path r.pattern path ≡ m
    → (later ≡ some (handler, ids) → Reaches rest path handler ids)
    → matched_or r m later ≡ some (handler, ids)
    → Reaches (r ∷ rest) path handler ids
matched_or-Reaches r rest path ids handler none later matched reaches h =
    let (route, among, same, found) = reaches h in (route, inr among, same, found)
matched_or-Reaches r rest path ids handler (some others) later matched reaches h =
    let pair : (r.handler, others) ≡ (handler, ids) = some_inj h in
    (r, inl refl, ap (λ f. f.0) pair, matched ∙ ap (λ f. some f.1) pair)
  where
    some_inj : {a b : Handler × List String} → some a ≡ some b → a ≡ b
    some_inj same = cc

found-Reaches :
    (rs : List Route) (path ids : List String) (handler : Handler)
    → find_route rs path ≡ some (handler, ids)
    → Reaches rs path handler ids
unfolding find_route
found-Reaches [] path ids handler h = cc
found-Reaches (r ∷ rest) path ids handler h =
    matched_or-Reaches r rest path ids handler (match_path r.pattern path) (find_route rest path)
      refl (found-Reaches rest path ids handler) h

answer_from-handled :
    (found slashed : Option (Handler × List String)) (handler : Handler) (ids : List String)
    → answer_from "GET" found slashed ≡ handled handler ids
    → found ≡ some (handler, ids)
answer_from-handled none none handler ids h = cc
answer_from-handled none (some found) handler ids h = cc
answer_from-handled (some found) slashed handler ids h = cc

-- A GET request is handled by a handler exactly if its path matches a route of that handler, with
-- the texts of the path for the route's wildcards: no route hides another.
pub answer-Reaches :
    (path ids : List String) (handler : Handler)
    → (answer routes "GET" path ≡ handled handler ids) ↔ Reaches routes path handler ids
unfolding answer
answer-Reaches path ids handler = (
  λ h.
      found-Reaches routes path ids handler
        (answer_from-handled (find_route routes path) _ handler ids h),
  λ (route, among, same, matched).
      rw (find_route-Among route routes path ids refl among matched) (ap (λ f. handled f ids) same),
)
