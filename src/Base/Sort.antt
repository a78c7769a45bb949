-- ===== src/Base/Sort.antt =====
-- `sort.Slice` on sequence numbers, as an insertion sort: an ascending list of numbers is
-- determined by its items, so any sorting algorithm returns the same.
use mathlib.Core.Path.{◌≡◌, refl, sym, ap, subst, ◌∙◌}
use mathlib.Core.Bool.{true, false}
use mathlib.Core.Logic.{inl, inr}
use mathlib.Core.List.{List, [], ◌∷◌, Permᴰ}
use mathlib.Core.List.Permᴰ.{refl as Perm_refl}
use native.Mathlib.Omega.{arith}
use bepper.Base.Tests.{if◌then◌else◌, Bool-cases}
use bepper.Base.Int.{ℤ, ltb_ℤ, not-ltb_ℤ→≤ℤ, ≤ℤ_antisymm}

insert_ascending : ℤ → List ℤ → List ℤ
insert_ascending a [] = a ∷ []
insert_ascending a (b ∷ xs) =
    let rest = insert_ascending a xs in if ltb_ℤ b a then b ∷ rest else a ∷ b ∷ xs

unfoldable pub sort : List ℤ → List ℤ
unfolding insert_ascending
sort [] = []
sort (a ∷ xs) = insert_ascending a (sort xs)

insert_ascending-Perm : (a : ℤ) (xs : List ℤ) → Permᴰ (insert_ascending a xs) (a ∷ xs)
unfolding insert_ascending
insert_ascending-Perm a [] = Perm_refl _
insert_ascending-Perm a (b ∷ xs) = elim (Bool-cases (ltb_ℤ b a)) [
  | inl less ↦
      rw less (Permᴰ.trans (Permᴰ.cons refl (insert_ascending-Perm a xs)) (Permᴰ.swap refl refl))
  | inr not_less ↦ rw not_less (Perm_refl _)
]

pub sort-Perm : (xs : List ℤ) → Permᴰ (sort xs) xs
unfolding sort
sort-Perm [] = Permᴰ.nil
sort-Perm (a ∷ xs) =
    Permᴰ.trans (insert_ascending-Perm a (sort xs)) (Permᴰ.cons refl (sort-Perm xs))

-- Numbers of which neither is less are the same.
neither_less : (a b : ℤ) → ltb_ℤ a b ≡ false → ltb_ℤ b a ≡ false → a ≡ b
neither_less a b h k = ≤ℤ_antisymm a b (not-ltb_ℤ→≤ℤ b a k) (not-ltb_ℤ→≤ℤ a b h)

ltb_ℤ_asymm : (a b : ℤ) → ltb_ℤ a b ≡ true → ltb_ℤ b a ≡ false
ltb_ℤ_asymm a b h = ground arith

ltb_ℤ_trans : (a b c : ℤ) → ltb_ℤ a b ≡ true → ltb_ℤ b c ≡ true → ltb_ℤ a c ≡ true
ltb_ℤ_trans a b c h k = ground arith

-- How an item goes into a list, by its first item.
insert_less :
    (a b : ℤ) (xs : List ℤ)
    → ltb_ℤ b a ≡ true
    → insert_ascending a (b ∷ xs) ≡ b ∷ insert_ascending a xs
unfolding insert_ascending
insert_less a b xs h = rw h

insert_not_less :
    (a b : ℤ) (xs : List ℤ) → ltb_ℤ b a ≡ false → insert_ascending a (b ∷ xs) ≡ a ∷ b ∷ xs
unfolding insert_ascending
insert_not_less a b xs h = rw h

-- Two items before which a list does not change.
insert_both :
    (a b : ℤ) (xs : List ℤ)
    → ltb_ℤ a b ≡ true
    → insert_ascending a xs ≡ a ∷ xs
    → insert_ascending b xs ≡ b ∷ xs
    → insert_ascending a (insert_ascending b xs) ≡ insert_ascending b (insert_ascending a xs)
insert_both a b xs less pa pb =
    rw (pb, pa)
      (rw (insert_not_less a b xs (ltb_ℤ_asymm a b less)) (rw (insert_less b a xs less, pb)))

insert_same_front :
    (a b : ℤ) (xs : List ℤ)
    → insert_ascending a xs ≡ a ∷ xs
    → insert_ascending b xs ≡ b ∷ xs
    → insert_ascending a (insert_ascending b xs) ≡ insert_ascending b (insert_ascending a xs)
insert_same_front a b xs pa pb = elim (Bool-cases (ltb_ℤ a b)) [
  | inl less ↦ insert_both a b xs less pa pb
  | inr h ↦ elim (Bool-cases (ltb_ℤ b a)) [
    | inl less ↦ sym (insert_both b a xs less pb pa)
    | inr k ↦
        subst
          (λ x.
            insert_ascending a (insert_ascending x xs) ≡ insert_ascending x (insert_ascending a xs))
          (neither_less a b h k) refl
  ]
]

less_around : (a b c : ℤ) → ltb_ℤ c a ≡ true → ltb_ℤ c b ≡ false → ltb_ℤ b a ≡ true
less_around a b c h k = ground arith

-- The front item `c` stands between the two.
insert_around :
    (a b c : ℤ) (xs : List ℤ)
    → ltb_ℤ c a ≡ true
    → ltb_ℤ c b ≡ false
    → insert_ascending a (insert_ascending b (c ∷ xs))
      ≡ insert_ascending b (insert_ascending a (c ∷ xs))
insert_around a b c xs h k =
    rw (insert_not_less b c xs k, insert_less a c xs h)
      (rw
        (
          insert_less a b (c ∷ xs) (less_around a b c h k),
          insert_not_less b c (insert_ascending a xs) k,
        )
        (rw (insert_less a c xs h) refl))

insert_ascending_comm :
    (a b : ℤ) (xs : List ℤ)
    → insert_ascending a (insert_ascending b xs) ≡ insert_ascending b (insert_ascending a xs)
insert_ascending_comm a b [] =
    insert_same_front a b [] (unfold insert_ascending in refl) (unfold insert_ascending in refl)
insert_ascending_comm a b (c ∷ xs) = elim (Bool-cases (ltb_ℤ c a)) [
  | inl h ↦ elim (Bool-cases (ltb_ℤ c b)) [
    | inl k ↦
        rw (insert_less b c xs k, insert_less a c xs h)
          (rw (insert_less a c (insert_ascending b xs) h, insert_less b c (insert_ascending a xs) k)
            (ap (λ l. c ∷ l) (insert_ascending_comm a b xs)))
    | inr k ↦ insert_around a b c xs h k
  ]
  | inr h ↦ elim (Bool-cases (ltb_ℤ c b)) [
    | inl k ↦ sym (insert_around b a c xs k h)
    | inr k ↦ insert_same_front a b (c ∷ xs) (insert_not_less a c xs h) (insert_not_less b c xs k)
  ]
]

-- The order of the items does not matter.
pub sort-eq : (xs ys : List ℤ) → Permᴰ xs ys → sort xs ≡ sort ys
unfolding sort
sort-eq _ _ Permᴰ.nil = refl
sort-eq _ _ (Permᴰ.cons {b} {l₁} {l₂} p h) = rw p (ap (insert_ascending b) (sort-eq l₁ l₂ h))
sort-eq _ _ (Permᴰ.swap {a' = c} {b' = d} {l} p q) = rw (p, q) (insert_ascending_comm d c (sort l))
sort-eq _ _ (Permᴰ.trans {l₁} {l₂} {l₃} h k) = sort-eq l₁ l₂ h ∙ sort-eq l₂ l₃ k

pub sort-one : (a : ℤ) → sort (a ∷ []) ≡ a ∷ []
unfolding sort insert_ascending
sort-one a = refl

-- A number that is not greater than the first of a sorted list goes before it.
pub sort-not_less :
    (a b : ℤ) (xs : List ℤ)
    → ltb_ℤ b a ≡ false
    → sort (b ∷ xs) ≡ b ∷ xs
    → sort (a ∷ b ∷ xs) ≡ a ∷ b ∷ xs
unfolding sort
sort-not_less a b xs h k = ap (insert_ascending a) k ∙ insert_not_less a b xs h
