-- ===== src/Base/SortBy.antt =====
-- A stable sort by an order that is given by what goes strictly before what: the items that the order
-- does not tell apart stay as they were arranged.
use mathlib.Core.Path.{◌≡◌, refl, subst}
use mathlib.Core.Bool.{Bool, true, false}
use mathlib.Core.Logic.{inl, inr}
use mathlib.Core.List.{List, [], ◌∷◌, ◌++◌, Permᴰ}
use mathlib.Core.List.Permᴰ.{refl as Perm_refl, symm}
use bepper.Base.Tests.{if◌then◌else◌, Bool-cases}
use bepper.Base.Lists.{All, All-map}

module _ {A : Type 0} (before : A → A → Bool) where
  unfoldable pub insert_sorted : A → List A → List A
  insert_sorted a [] = a ∷ []
  insert_sorted a (b ∷ xs) =
      let rest = insert_sorted a xs in if before b a then b ∷ rest else a ∷ b ∷ xs

  unfoldable pub sort_by : List A → List A
  sort_by [] = []
  sort_by (a ∷ xs) = insert_sorted a (sort_by xs)

  insert_sorted-Perm : (a : A) (xs : List A) → Permᴰ (insert_sorted a xs) (a ∷ xs)
  unfolding insert_sorted
  insert_sorted-Perm a [] = Perm_refl _
  insert_sorted-Perm a (b ∷ xs) = elim (Bool-cases (before b a)) [
    | inl less ↦
        rw less (Permᴰ.trans (Permᴰ.cons refl (insert_sorted-Perm a xs)) (Permᴰ.swap refl refl))
    | inr not_less ↦ rw not_less (Perm_refl _)
  ]

  pub sort_by-Perm : (xs : List A) → Permᴰ (sort_by xs) xs
  unfolding sort_by
  sort_by-Perm [] = Permᴰ.nil
  sort_by-Perm (a ∷ xs) =
      Permᴰ.trans (insert_sorted-Perm a (sort_by xs)) (Permᴰ.cons refl (sort_by-Perm xs))

  -- No later item goes before an earlier one.
  abbrev pub Sorted : List A → Type 0
  Sorted [] = Unit
  Sorted (a ∷ xs) = All (λ later. before later a ≡ false) xs × Sorted xs

  -- What holds of all items does so in any order.
  pub All-Perm : (P : A → Type 0) (xs ys : List A) → Permᴰ xs ys → All P xs → All P ys
  All-Perm P _ _ Permᴰ.nil h = h
  All-Perm P _ _ (Permᴰ.cons {l₁} {l₂} p perm) (h, hs) = (subst P p h, All-Perm P l₁ l₂ perm hs)
  All-Perm P _ _ (Permᴰ.swap p q) (h, (k, hs)) = (subst P q k, (subst P p h, hs))
  All-Perm P _ _ (Permᴰ.trans {l₁} {l₂} {l₃} f g) h = All-Perm P l₂ l₃ g (All-Perm P l₁ l₂ f h)

  All-back : (P : A → Type 0) (front back : List A) → All P (front ++ back) → All P back
  All-back P [] back k = k
  All-back P (z ∷ front) back (k, ks) = All-back P front back ks

  -- Of a sorted list, no item of a later part goes before one of the part before it.
  pub All-after :
      (xs ys : List A) → Sorted (xs ++ ys) → All (λ x. All (λ y. before y x ≡ false) ys) xs
  All-after [] ys h = tt
  All-after (x ∷ xs) ys (h, hs) = (All-back (λ y. before y x ≡ false) xs ys h, All-after xs ys hs)

  -- The laws of an order by a key.
  module _ (asym : (a b : A) → before a b ≡ true → before b a ≡ false)
      (chain : (a b c : A) → before b a ≡ false → before c b ≡ false → before c a ≡ false) where
    insert_sorted-Sorted : (a : A) (xs : List A) → Sorted xs → Sorted (insert_sorted a xs)
    unfolding insert_sorted
    insert_sorted-Sorted a [] h = (tt, tt)
    insert_sorted-Sorted a (b ∷ xs) (h, hs) = elim (Bool-cases (before b a)) [
      | inl less ↦
          let smallest =
            All-Perm (λ later. before later b ≡ false) (a ∷ xs) (insert_sorted a xs)
              (symm (insert_sorted-Perm a xs)) (asym b a less, h) in
          rw less (smallest, insert_sorted-Sorted a xs hs)
      | inr not_less ↦
          let all =
            All-map (λ later. before later b ≡ false) (λ later. before later a ≡ false)
              (λ later k. chain a b later not_less k) xs h in
          rw not_less ((not_less, all), (h, hs))
    ]

    pub sort_by-Sorted : (xs : List A) → Sorted (sort_by xs)
    unfolding sort_by
    sort_by-Sorted [] = tt
    sort_by-Sorted (a ∷ xs) = insert_sorted-Sorted a (sort_by xs) (sort_by-Sorted xs)
