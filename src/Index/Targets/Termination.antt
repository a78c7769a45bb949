-- ===== src/Index/Targets/Termination.antt =====
-- `resolveFileSets` ends, also where the file sets refer to one another in a cycle: every nested
-- call has marked one more of the named sets as seen.
use bepper.Base.{
  ℕ, zero, suc, String, true, false, ◌+◌, ◌≤◌, ◌<◌, ◌≡◌, refl, none, some, List, [], ◌∷◌, ◌++◌,
  eq_iff, eq_refl, if◌then◌else◌, length, arith, Bool-cases, Option-cases, inl, inr,
}
use bepper.Base.Dict.{Dict, lookup}
use bepper.Events.{NamedSetOfFiles}
use bepper.Index.Tags.{contains_text}
use bepper.Index.Targets.FileSets.{LogFile, Resolved, log_files, resolve_ids, resolve, and_files}

-- How many of the sets have not been seen.
pub unseen {ℓ} : {V : Type ℓ} → Dict V → List String → ℕ
unseen [] seen = 0
unseen ((k, v) ∷ sets) seen = (if contains_text k seen then 0 else 1) + unseen sets seen

unseen-le-length {ℓ} :
    {V : Type ℓ} (sets : Dict V) (seen : List String) → unseen sets seen ≤ length sets
unfolding unseen
unseen-le-length [] seen = omega arith
unseen-le-length ((k, v) ∷ sets) seen = ground (arith, unseen-le-length sets seen)

unseen-cons-le {ℓ} :
    {V : Type ℓ} (sets : Dict V) (key : String) (seen : List String)
    → unseen sets (key ∷ seen) ≤ unseen sets seen
unfolding unseen contains_text
unseen-cons-le [] key seen = omega arith
unseen-cons-le ((k, v) ∷ sets) key seen = ground (arith, unseen-cons-le sets key seen)

unseen-cons-lt {ℓ} :
    {V : Type ℓ} (sets : Dict V) (key : String) (seen : List String) (v : V)
    → lookup key sets ≡ some v
    → contains_text key seen ≡ false
    → unseen sets (key ∷ seen) < unseen sets seen
unfolding unseen contains_text lookup
unseen-cons-lt [] key seen v e h = cc
unseen-cons-lt ((k, w) ∷ sets) key seen v e h = ground (
  arith,
  eq_iff k key,
  eq_iff key k,
  eq_refl key,
  unseen-cons-le sets key seen,
  unseen-cons-lt sets key seen v,
)

-- A run that comes to an end, with no more unseen sets than before.
abbrev Ends : Dict NamedSetOfFiles → List String → Resolved → Type 0
Ends sets seen r =
    (found : List LogFile × List String) × (r ≡ some found)
    × (unseen sets found.1 ≤ unseen sets seen)

module _ (sets : Dict NamedSetOfFiles) where
  module _ (nested : List String → List String → Resolved) (key : String)
      (ids seen : List String) where
    resolve_ids-old :
        contains_text key seen ≡ true
        → resolve_ids nested sets (key ∷ ids) seen ≡ resolve_ids nested sets ids seen
    unfolding resolve_ids
    resolve_ids-old old = ground arith

    resolve_ids-absent :
        contains_text key seen ≡ false
        → lookup key sets ≡ none
        → resolve_ids nested sets (key ∷ ids) seen ≡ resolve_ids nested sets ids (key ∷ seen)
    unfolding resolve_ids
    resolve_ids-absent new absent = ground arith

    resolve_ids-present :
        (set : NamedSetOfFiles) (below : List LogFile) (seen' : List String)
        → contains_text key seen ≡ false
        → lookup key sets ≡ some set
        → nested set.file_sets (key ∷ seen) ≡ some (below, seen')
        → resolve_ids nested sets (key ∷ ids) seen
          ≡ and_files (log_files set.files ++ below) (resolve_ids nested sets ids seen')
    unfolding resolve_ids
    resolve_ids-present set below seen' new present found = ground arith

  Ends-and_files :
      (seen seen' : List String) (files : List LogFile) (r : Resolved)
      → unseen sets seen' ≤ unseen sets seen
      → Ends sets seen' r
      → Ends sets seen (and_files files r)
  Ends-and_files seen seen' files none h (found, e, le) = cc
  Ends-and_files seen seen' files (some (rest, last)) h ((rest', last'), e, le) =
      ((files ++ rest, last), refl, ground arith)

  Ends-le :
      (seen seen' : List String) (r : Resolved)
      → unseen sets seen' ≤ unseen sets seen
      → Ends sets seen' r
      → Ends sets seen r
  Ends-le seen seen' r h (found, e, le) = (found, e, omega arith)

  -- The loop ends if the nested calls end from every larger set of seen keys.
  resolve_ids-Ends :
      (nested : List String → List String → Resolved) (bound : ℕ)
      → ((ids seen : List String) → unseen sets seen < bound → Ends sets seen (nested ids seen))
      → (ids seen : List String) → unseen sets seen ≤ bound
      → Ends sets seen (resolve_ids nested sets ids seen)
  resolve_ids-Ends nested bound ends [] seen h =
      (([], seen), unfold resolve_ids in refl, omega arith)
  resolve_ids-Ends nested bound ends (key ∷ ids) seen h =
      elim (Bool-cases (contains_text key seen)) [
        | inl old ↦
            rw (resolve_ids-old nested key ids seen old)
              (resolve_ids-Ends nested bound ends ids seen h)
        | inr new ↦ elim (Option-cases (lookup key sets)) [
          | inl absent ↦
              let le = unseen-cons-le sets key seen in
              rw (resolve_ids-absent nested key ids seen new absent) (
                Ends-le seen (key ∷ seen) _ le
                  (resolve_ids-Ends nested bound ends ids (key ∷ seen) (omega arith)))
          | inr (set, present) ↦
              let smaller = unseen-cons-lt sets key seen set present new in
              let ((below, seen'), found, le) = ends set.file_sets (key ∷ seen) (omega arith) in
              rw (resolve_ids-present nested key ids seen set below seen' new present found) (
                Ends-and_files seen seen' (log_files set.files ++ below) _ (omega arith)
                  (resolve_ids-Ends nested bound ends ids seen' (omega arith)))
        ]
      ]

  resolve-Ends :
      (fuel : ℕ) (ids seen : List String)
      → unseen sets seen < fuel
      → Ends sets seen (resolve fuel sets ids seen)
  unfolding resolve
  resolve-Ends zero ids seen h = absurd (omega arith)
  resolve-Ends (suc fuel) ids seen h =
      resolve_ids-Ends (resolve fuel sets) fuel (resolve-Ends fuel) ids seen (omega arith)

-- The search for the files of some sets returns, whatever the sets refer to: with more fuel than
-- there are named sets, the number that `resolve_file_sets` starts with or any larger one, the
-- depth of the nested calls is never the bound.
pub resolve_terminates :
    (sets : Dict NamedSetOfFiles) (ids seen : List String) (fuel : ℕ)
    → length sets < fuel
    → (found : List LogFile × List String) × (resolve fuel sets ids seen ≡ some found)
resolve_terminates sets ids seen fuel h =
    let le = unseen-le-length sets seen in
    let (found, e, _) = resolve-Ends sets fuel ids seen (omega arith) in (found, e)
