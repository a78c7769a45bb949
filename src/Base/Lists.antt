-- ===== src/Base/Lists.antt =====
-- Lists measured by native numbers, and a predicate of every item.
use Prim.Native.Nat.{ℕ, zero, suc, ◌+◌}
use mathlib.Core.Path.{◌≡◌, refl, ap}
use mathlib.Core.List.{List, [], ◌∷◌, ◌++◌}
use mathlib.Core.Option.{Option, none, some}
use native.Mathlib.Omega.{arith}

module _ {ℓ} {A : Type ℓ} where
  abbrev pub length : List A → ℕ
  length [] = 0
  length (x ∷ xs) = suc (length xs)

  pub length-append : (xs ys : List A) → length (xs ++ ys) ≡ length xs + length ys
  length-append [] ys = omega arith
  length-append (x ∷ xs) ys = omega (arith, length-append xs ys)

  -- xs[:n] and xs[n:]
  abbrev pub take : ℕ → List A → List A
  take zero xs = []
  take (suc n) [] = []
  take (suc n) (x ∷ xs) = x ∷ take n xs

  abbrev pub drop : ℕ → List A → List A
  drop zero xs = xs
  drop (suc n) [] = []
  drop (suc n) (x ∷ xs) = drop n xs

  pub take-append : (xs ys : List A) → take (length xs) (xs ++ ys) ≡ xs
  take-append [] ys = refl
  take-append (x ∷ xs) ys = ap (λ l. x ∷ l) (take-append xs ys)

  pub drop-append : (xs ys : List A) → drop (length xs) (xs ++ ys) ≡ ys
  drop-append [] ys = refl
  drop-append (x ∷ xs) ys = drop-append xs ys

-- The items of several lists, one after the other.
abbrev pub joined {ℓ} : {A : Type ℓ} → List (List A) → List A
joined [] = []
joined (chunk ∷ chunks) = chunk ++ joined chunks

-- The first item of a list that a search accepts.
abbrev pub first_some {ℓ κ} : {A : Type ℓ} {B : Type κ} → (A → Option B) → List A → Option B
first_some f [] = none
first_some f (x ∷ xs) = elim (f x) [ some b ↦ some b | none ↦ first_some f xs ]

abbrev pub All {ℓ κ} : {A : Type ℓ} → (A → Type κ) → List A → Type κ
All Q [] = Unit
All Q (item ∷ items) = Q item × All Q items

pub All-append {ℓ κ} :
    {A : Type ℓ} (Q : A → Type κ) (front back : List A)
    → All Q front
    → All Q back
    → All Q (front ++ back)
All-append Q [] back before after = after
All-append Q (x ∷ front) back before after = (before.0, All-append Q front back before.1 after)

pub All-map {ℓ κ} :
    {A : Type ℓ} (P Q : A → Type κ) → ((x : A) → P x → Q x) → (xs : List A) → All P xs → All Q xs
All-map P Q f [] h = tt
All-map P Q f (x ∷ xs) (p, h) = (f x p, All-map P Q f xs h)

pub All-of {ℓ κ} : {A : Type ℓ} (P : A → Type κ) → ((x : A) → P x) → (xs : List A) → All P xs
All-of P f [] = tt
All-of P f (x ∷ xs) = (f x, All-of P f xs)
