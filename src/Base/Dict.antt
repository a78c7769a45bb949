-- ===== src/Base/Dict.antt =====
-- Go's maps with string keys, as association lists. `lookup` reads the first entry of its key; the
-- order of the entries is an order in which a Go `range` may visit them.
use mathlib.Core.Path.{◌≡◌, refl}
use mathlib.Core.Option.{Option, none, some}
use mathlib.Core.Logic.{◌⊎◌, inl, inr}
use mathlib.Core.List.{List, [], ◌∷◌}
use Prim.Native.String.{String}
use native.Mathlib.Omega.{arith}
use text.Mathlib.Text.{◌==◌}
use text.Mathlib.TextEquality.{eq_iff}
use bepper.Base.Tests.{if◌then◌else◌, Bool-cases}

abbrev pub Dict {ℓ} : Type ℓ → Type ℓ
Dict V = List (String × V)

module _ {ℓ} {V : Type ℓ} where
  unfoldable pub lookup : String → Dict V → Option V
  lookup key [] = none
  lookup key ((other, value) ∷ dict) = if other == key then some value else lookup key dict

  -- m[key] = value
  unfoldable pub insert : String → V → Dict V → Dict V
  insert key value [] = (key, value) ∷ []
  insert key value ((other, old) ∷ dict) =
      if other == key then (key, value) ∷ dict else (other, old) ∷ insert key value dict

  -- delete(m, key)
  unfoldable pub delete : String → Dict V → Dict V
  delete key [] = []
  delete key ((other, value) ∷ dict) =
      let rest = delete key dict in if other == key then rest else (other, value) ∷ rest

  pub lookup-insert :
      (key sought : String) (new : V) (dict : Dict V)
      → lookup sought (insert key new dict)
        ≡ (if key == sought then some new else lookup sought dict)
  unfolding insert lookup
  lookup-insert key sought new [] = refl
  lookup-insert key sought new (entry ∷ dict) =
      let rest = lookup-insert key sought new dict in
      ground (arith, rest, eq_iff entry.0 key, eq_iff entry.0 sought, eq_iff key sought)

  pub lookup-delete :
      (key sought : String) (dict : Dict V)
      → lookup sought (delete key dict) ≡ (if key == sought then none else lookup sought dict)
  unfolding delete lookup
  lookup-delete key sought [] = ground arith
  lookup-delete key sought (entry ∷ dict) =
      let rest = lookup-delete key sought dict in
      ground (arith, rest, eq_iff entry.0 key, eq_iff entry.0 sought, eq_iff key sought)

-- What is found after an insertion is the inserted value, or was there before.
pub lookup-insert-cases {ℓ} :
    {V : Type ℓ} (k j : String) (v w : V) (m : Dict V)
    → lookup j (insert k v m) ≡ some w
    → ((k ≡ j) × (v ≡ w)) ⊎ (lookup j m ≡ some w)
lookup-insert-cases k j v w m e = elim (Bool-cases (k == j)) [
  | inl same ↦ inl ((eq_iff k j).0 same, ground (arith, lookup-insert k j v m))
  | inr other ↦ inr (ground (arith, lookup-insert k j v m))
]

pub ruleset dict_laws = (lookup-insert, lookup-delete)
