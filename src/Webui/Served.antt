-- ===== src/Webui/Served.antt =====
-- The paths that New of src/webui/webui.go serves, and their handlers.
use bepper.Base.{String, ◌≡◌, ◌≢◌, ◌↔◌, refl, subst, List, [], ◌∷◌, inl, inr}
use bepper.Base.Text.{not_empty}
use bepper.Webui.Routes.{
  literal, wildcard, subtree, Route, Handler, list_invocations, get_invocation, get_log,
  get_details, get_blob, get_raw, spa_shell, file_server, handled, routes, match_path, find_route,
  answer,
}
use bepper.Webui.Patterns.{Matches, ends, named, any, below, match_path-Matches}
use bepper.Webui.Dispatch.{Among, answer-Reaches}

-- What the web UI serves: its pages and the paths of its API, each with its handler and the ids that
-- the handler takes from the path.
pub data Serves : List String → Handler → List String → Type 0 where
  list_path : Serves ("api" ∷ "invocations" ∷ []) list_invocations []
  invocation_path :
      (id : String) → id ≢ "" → Serves ("api" ∷ "invocations" ∷ id ∷ []) get_invocation (id ∷ [])
  log_path :
      (id : String) → id ≢ "" → Serves ("api" ∷ "invocations" ∷ id ∷ "log" ∷ []) get_log (id ∷ [])
  details_path :
      (id : String)
      → id ≢ ""
      → Serves ("api" ∷ "invocations" ∷ id ∷ "details" ∷ []) get_details (id ∷ [])
  blob_path :
      (id : String) → id ≢ "" → Serves ("api" ∷ "invocations" ∷ id ∷ "blob" ∷ []) get_blob (id ∷ [])
  raw_path :
      (id : String) → id ≢ "" → Serves ("api" ∷ "invocations" ∷ id ∷ "raw" ∷ []) get_raw (id ∷ [])
  home_page : Serves ("" ∷ []) spa_shell []
  search_page : Serves ("invocation" ∷ []) spa_shell []
  invocation_page : (id : String) → id ≢ "" → Serves ("invocation" ∷ id ∷ []) spa_shell (id ∷ [])
  asset : (name : String) (rest : List String) → Serves ("assets" ∷ name ∷ rest) file_server []
  image : (name : String) (rest : List String) → Serves ("image" ∷ name ∷ rest) file_server []

served_path-handled :
    (path ids : List String) (handler : Handler)
    → Serves path handler ids
    → answer routes "GET" path ≡ handled handler ids
unfolding answer find_route match_path
served_path-handled _ _ _ list_path = refl
served_path-handled _ _ _ (invocation_path id given) = rw (not_empty id given) refl
served_path-handled _ _ _ (log_path id given) = rw (not_empty id given) refl
served_path-handled _ _ _ (details_path id given) = rw (not_empty id given) refl
served_path-handled _ _ _ (blob_path id given) = rw (not_empty id given) refl
served_path-handled _ _ _ (raw_path id given) = rw (not_empty id given) refl
served_path-handled _ _ _ home_page = refl
served_path-handled _ _ _ search_page = refl
served_path-handled _ _ _ (invocation_page id given) = rw (not_empty id given) refl
served_path-handled _ _ _ (asset name rest) = refl
served_path-handled _ _ _ (image name rest) = refl

list-Serves :
    (path ids : List String)
    → Matches (literal "api" ∷ literal "invocations" ∷ []) path ids
    → Serves path list_invocations ids
list-Serves _ _ (named _ _ _ _ (named _ _ _ _ ends)) = list_path

invocation-Serves :
    (path ids : List String)
    → Matches (literal "api" ∷ literal "invocations" ∷ wildcard ∷ []) path ids
    → Serves path get_invocation ids
invocation-Serves _ _ (named _ _ _ _ (named _ _ _ _ (any id _ _ _ given ends))) =
    invocation_path id given

log-Serves :
    (path ids : List String)
    → Matches (literal "api" ∷ literal "invocations" ∷ wildcard ∷ literal "log" ∷ []) path ids
    → Serves path get_log ids
log-Serves _ _ (named _ _ _ _ (named _ _ _ _ (any id _ _ _ given (named _ _ _ _ ends)))) =
    log_path id given

details-Serves :
    (path ids : List String)
    → Matches (literal "api" ∷ literal "invocations" ∷ wildcard ∷ literal "details" ∷ []) path ids
    → Serves path get_details ids
details-Serves _ _ (named _ _ _ _ (named _ _ _ _ (any id _ _ _ given (named _ _ _ _ ends)))) =
    details_path id given

blob-Serves :
    (path ids : List String)
    → Matches (literal "api" ∷ literal "invocations" ∷ wildcard ∷ literal "blob" ∷ []) path ids
    → Serves path get_blob ids
blob-Serves _ _ (named _ _ _ _ (named _ _ _ _ (any id _ _ _ given (named _ _ _ _ ends)))) =
    blob_path id given

raw-Serves :
    (path ids : List String)
    → Matches (literal "api" ∷ literal "invocations" ∷ wildcard ∷ literal "raw" ∷ []) path ids
    → Serves path get_raw ids
raw-Serves _ _ (named _ _ _ _ (named _ _ _ _ (any id _ _ _ given (named _ _ _ _ ends)))) =
    raw_path id given

home-Serves :
    (path ids : List String) → Matches (literal "" ∷ []) path ids → Serves path spa_shell ids
home-Serves _ _ (named _ _ _ _ ends) = home_page

search-Serves :
    (path ids : List String)
    → Matches (literal "invocation" ∷ []) path ids
    → Serves path spa_shell ids
search-Serves _ _ (named _ _ _ _ ends) = search_page

page-Serves :
    (path ids : List String)
    → Matches (literal "invocation" ∷ wildcard ∷ []) path ids
    → Serves path spa_shell ids
page-Serves _ _ (named _ _ _ _ (any id _ _ _ given ends)) = invocation_page id given

asset-Serves :
    (path ids : List String)
    → Matches (literal "assets" ∷ subtree ∷ []) path ids
    → Serves path file_server ids
asset-Serves _ _ (named _ _ _ _ (below name _ rest)) = asset name rest

image-Serves :
    (path ids : List String)
    → Matches (literal "image" ∷ subtree ∷ []) path ids
    → Serves path file_server ids
image-Serves _ _ (named _ _ _ _ (below name _ rest)) = image name rest

-- Every route serves the paths that it matches.
route-Serves :
    (route : Route) (path ids : List String)
    → Among route routes
    → Matches route.pattern path ids
    → Serves path route.handler ids
route-Serves route path ids (inl same) matches =
    subst (λ q. Matches q.pattern path ids → Serves path q.handler ids) same (list-Serves path ids)
      matches
route-Serves route path ids (inr (inl same)) matches =
    subst (λ q. Matches q.pattern path ids → Serves path q.handler ids) same
      (invocation-Serves path ids) matches
route-Serves route path ids (inr (inr (inl same))) matches =
    subst (λ q. Matches q.pattern path ids → Serves path q.handler ids) same (log-Serves path ids)
      matches
route-Serves route path ids (inr (inr (inr (inl same)))) matches =
    subst (λ q. Matches q.pattern path ids → Serves path q.handler ids) same
      (details-Serves path ids) matches
route-Serves route path ids (inr (inr (inr (inr (inl same))))) matches =
    subst (λ q. Matches q.pattern path ids → Serves path q.handler ids) same (blob-Serves path ids)
      matches
route-Serves route path ids (inr (inr (inr (inr (inr (inl same)))))) matches =
    subst (λ q. Matches q.pattern path ids → Serves path q.handler ids) same (raw-Serves path ids)
      matches
route-Serves route path ids (inr (inr (inr (inr (inr (inr (inl same))))))) matches =
    subst (λ q. Matches q.pattern path ids → Serves path q.handler ids) same (home-Serves path ids)
      matches
route-Serves route path ids (inr (inr (inr (inr (inr (inr (inr (inl same)))))))) matches =
    subst (λ q. Matches q.pattern path ids → Serves path q.handler ids) same
      (search-Serves path ids) matches
route-Serves route path ids (inr (inr (inr (inr (inr (inr (inr (inr (inl same))))))))) matches =
    subst (λ q. Matches q.pattern path ids → Serves path q.handler ids) same (page-Serves path ids)
      matches
route-Serves route path ids (inr (inr (inr (inr (inr (inr (inr (inr (inr (inl same))))))))))
      matches =
    subst (λ q. Matches q.pattern path ids → Serves path q.handler ids) same (asset-Serves path ids)
      matches
route-Serves route path ids (inr (inr (inr (inr (inr (inr (inr (inr (inr (inr (inl same)))))))))))
      matches =
    subst (λ q. Matches q.pattern path ids → Serves path q.handler ids) same (image-Serves path ids)
      matches
route-Serves route path ids
      (inr (inr (inr (inr (inr (inr (inr (inr (inr (inr (inr none_left))))))))))) matches =
    absurd none_left

-- A GET request is handled by a handler exactly if the web UI serves its path with that handler: the
-- pages, the files of the frontend and the paths of the API, with the id in the path.
pub answer-Serves :
    (path ids : List String) (handler : Handler)
    → (answer routes "GET" path ≡ handled handler ids) ↔ Serves path handler ids
answer-Serves path ids handler = (
  λ h.
      let (route, among, same, matched) = (answer-Reaches path ids handler).0 h in
      subst (λ f. Serves path f ids) same
        (route-Serves route path ids among (match_path-Matches route.pattern path ids matched)),
  served_path-handled path ids handler,
)
