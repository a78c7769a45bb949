-- ===== src/Index/Targets/FileSets.antt =====
-- `parseNamedSets` and `resolveFileSets` of src/index/targets.go.
use bepper.Base.{
  ℕ, zero, suc, String, true, false, Option, none, some, List, [], ◌∷◌, ◌++◌, ◌==◌, if◌then◌else◌,
  length,
}
use bepper.Base.Dict.{Dict, lookup, insert}
use bepper.Events.{File, EventId, NamedSetOfFiles, Payload, BuildEvent}
use bepper.Index.Tags.{contains_text}

pub record LogFile : Type 0 where
  pub name : String
  pub uri : String

unfoldable pub add_named_set : Payload → EventId → Dict NamedSetOfFiles → Dict NamedSetOfFiles
add_named_set (Payload.named_set_of_files nsf) (EventId.named_set id) sets = insert id nsf sets
add_named_set _ _ sets = sets

unfoldable pub add_named_sets : List BuildEvent → Dict NamedSetOfFiles → Dict NamedSetOfFiles
add_named_sets [] sets = sets
add_named_sets (e ∷ events) sets = add_named_sets events (add_named_set e.payload e.id sets)

unfoldable pub parse_named_sets : List BuildEvent → Dict NamedSetOfFiles
parse_named_sets events = add_named_sets events []

-- The files that have a URI.
unfoldable pub log_files : List File → List LogFile
log_files [] = []
log_files (f ∷ files) =
    let rest = log_files files in
    if f.uri == "" then rest else record { name = f.name; uri = f.uri } ∷ rest

-- `seen` is the map that the calls share, as the list of its keys.
abbrev pub Resolved : Type 0
Resolved = Option (List LogFile × List String)

abbrev pub and_files : List LogFile → Resolved → Resolved
and_files files none = none
and_files files (some (rest, seen)) = some (files ++ rest, seen)

-- The loop over `ids`; `nested` is the recursive call for the sets that a set refers to.
unfoldable pub resolve_ids :
    (List String → List String → Resolved)
    → Dict NamedSetOfFiles
    → List String
    → List String
    → Resolved
resolve_ids nested sets [] seen = some ([], seen)
resolve_ids nested sets (key ∷ ids) seen = elim (contains_text key seen) [
  | true ↦ resolve_ids nested sets ids seen
  | false ↦ elim (lookup key sets) [
    | none ↦ resolve_ids nested sets ids (key ∷ seen)
    | some set ↦ elim (nested set.file_sets (key ∷ seen)) [
      | none ↦ none
      | some (below, seen') ↦
          and_files (log_files set.files ++ below) (resolve_ids nested sets ids seen')
    ]
  ]
]

-- `none` means that the fuel, a bound for the depth of the calls, ran out.
unfoldable pub resolve : ℕ → Dict NamedSetOfFiles → List String → List String → Resolved
resolve zero sets ids seen = none
resolve (suc fuel) sets ids seen = resolve_ids (resolve fuel sets) sets ids seen

abbrev pub files_of_result : Resolved → List LogFile
files_of_result none = []
files_of_result (some (files, seen)) = files

-- `resolveFileSets(sets, ids, map[string]bool{})`
unfoldable pub resolve_file_sets : Dict NamedSetOfFiles → List String → List LogFile
unfolding resolve
resolve_file_sets sets ids = files_of_result (resolve (suc (length sets)) sets ids [])
