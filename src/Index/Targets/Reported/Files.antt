-- ===== src/Index/Targets/Reported/Files.antt =====
-- What holds of the files of all events holds of the files of the named sets, and so of the files
-- that `resolveFileSets` of src/index/targets.go finds.
use bepper.Base.{
  subst, ℕ, zero, suc, String, ◌≡◌, none, some, List, [], ◌∷◌, ◌++◌, length, Bool-cases,
  Option-cases, inl, inr, All, All-append,
}
use bepper.Base.Dict.{Dict, lookup, lookup-insert-cases}
use bepper.Events.{File, EventId, NamedSetOfFiles, Payload, BuildEvent}
use bepper.Index.Tags.{contains_text}
use bepper.Index.Targets.FileSets.{
  LogFile, Resolved, log_files, and_files, files_of_result, resolve_ids, resolve, resolve_file_sets,
  add_named_set, add_named_sets,
}
use bepper.Index.Targets.Summary.{output_files_of}

-- The files that an event lists.
abbrev pub files_of : Payload → List File
files_of (Payload.named_set_of_files set) = set.files
files_of (Payload.test_result r) = r.action_output
files_of _ = []

-- What holds of the files of all events holds of the files of all targets.
module _ (P : LogFile → Type 0) where
  abbrev pub SetsGood : Dict NamedSetOfFiles → Type 0
  SetsGood sets =
      (key : String) (set : NamedSetOfFiles)
      → lookup key sets ≡ some set
      → All P (log_files set.files)

  abbrev pub EventGood : BuildEvent → Type 0
  EventGood e = All P (log_files (files_of e.payload))

  abbrev ResultGood : Resolved → Type 0
  ResultGood none = Unit
  ResultGood (some (files, seen)) = All P files

  ResultGood-and_files :
      (files : List LogFile) (r : Resolved)
      → All P files
      → ResultGood r
      → ResultGood (and_files files r)
  ResultGood-and_files files none h k = tt
  ResultGood-and_files files (some (rest, seen)) h k = All-append P files rest h k

  module _ (sets : Dict NamedSetOfFiles) (good : SetsGood sets) where
    nested-good :
        (set : NamedSetOfFiles) (r : Resolved) (k : List String → Resolved)
        → All P (log_files set.files)
        → ResultGood r
        → ((seen : List String) → ResultGood (k seen))
        → ResultGood (elim r [
          | none ↦ none
          | some (below, seen') ↦ and_files (log_files set.files ++ below) (k seen')
        ])
    nested-good set none k files h ks = tt
    nested-good set (some (below, seen)) k files h ks =
        ResultGood-and_files (log_files set.files ++ below) (k seen)
          (All-append P (log_files set.files) below files h) (ks seen)

    resolve_ids-good :
        (nested : List String → List String → Resolved)
        → ((ids seen : List String) → ResultGood (nested ids seen))
        → (ids seen : List String) → ResultGood (resolve_ids nested sets ids seen)
    unfolding resolve_ids
    resolve_ids-good nested h [] seen = tt
    resolve_ids-good nested h (key ∷ ids) seen = elim (Bool-cases (contains_text key seen)) [
      | inl old ↦ rw (old, resolve_ids) (resolve_ids-good nested h ids seen)
      | inr new ↦ elim (Option-cases (lookup key sets)) [
        | inl absent ↦
            rw (new, resolve_ids)
              (rw (absent, resolve_ids) (resolve_ids-good nested h ids (key ∷ seen)))
        | inr (set, present) ↦
            rw (new, resolve_ids)
              (rw (present, resolve_ids)
                (nested-good set (nested set.file_sets (key ∷ seen)) (resolve_ids nested sets ids)
                  (good key set present) (h set.file_sets (key ∷ seen))
                  (resolve_ids-good nested h ids)))
      ]
    ]

    resolve-good : (fuel : ℕ) (ids seen : List String) → ResultGood (resolve fuel sets ids seen)
    unfolding resolve
    resolve-good zero ids seen = tt
    resolve-good (suc fuel) ids seen =
        resolve_ids-good (resolve fuel sets) (resolve-good fuel) ids seen

    resolve_file_sets-good : (ids : List String) → All P (resolve_file_sets sets ids)
    unfolding resolve_file_sets
    resolve_file_sets-good ids =
        files_of-good (resolve (suc (length sets)) sets ids [])
          (resolve-good (suc (length sets)) ids [])
      where
        files_of-good : (r : Resolved) → ResultGood r → All P (files_of_result r)
        files_of-good none h = tt
        files_of-good (some (files, seen)) h = h

    pub output_files_of-good : (groups : List (List String)) → All P (output_files_of sets groups)
    unfolding output_files_of
    output_files_of-good [] = tt
    output_files_of-good (ids ∷ groups) =
        All-append P (resolve_file_sets sets ids) (output_files_of sets groups)
          (resolve_file_sets-good ids) (output_files_of-good groups)

  add_named_set-good :
      (payload : Payload) (id : EventId) (sets : Dict NamedSetOfFiles)
      → All P (log_files (files_of payload))
      → SetsGood sets
      → SetsGood (add_named_set payload id sets)
  unfolding add_named_set
  add_named_set-good (Payload.named_set_of_files nsf) (EventId.named_set id) sets h good =
      λ key set e. elim (lookup-insert-cases id key nsf set sets e) [
        | inl (_, new) ↦ subst (λ s. All P (log_files s.files)) new h
        | inr old ↦ good key set old
      ]
  add_named_set-good (Payload.named_set_of_files nsf) _ sets h good = good
  add_named_set-good _ id sets h good = good

  pub add_named_sets-good :
      (events : List BuildEvent) (sets : Dict NamedSetOfFiles)
      → All EventGood events
      → SetsGood sets
      → SetsGood (add_named_sets events sets)
  unfolding add_named_sets
  add_named_sets-good [] sets h good = good
  add_named_sets-good (e ∷ events) sets (g, h) good =
      add_named_sets-good events (add_named_set e.payload e.id sets) h
        (add_named_set-good e.payload e.id sets g good)
