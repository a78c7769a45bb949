-- ===== src/Diskcache/Eviction.antt =====
-- What the eviction of src/blobstore/diskcache/diskcache.go leaves in the cache.
use mathlib.Core.List.{Permᴰ}
use bepper.Base.{
  ℕ, ◌+◌, ◌-◌, ◌≤◌, ◌<◌, String, ◌≡◌, ◌⊎◌, refl, ap, subst, ◌∙◌, true, false, Option, none, List,
  [], ◌∷◌, ◌++◌, leb, arith, All, All-map, Bool-cases, inl, inr, leb→le, not-leb→lt,
}
use bepper.Base.Int.{ltb_ℤ, ◌≤ℤ◌, not-ltb_ℤ→≤ℤ}
use bepper.Blobstore.{Error}
use bepper.Diskcache.{CachedFile, older, total_size, evict_from, evict_files}
use bepper.Base.SortBy.{sort_by, sort_by-Perm, Sorted, sort_by-Sorted, All-after}

-- The files that were evicted, in the order of their removal, and those that are left: these fit,
-- and with the file that was removed last they would not.
pub record Evicted (max_bytes : ℕ) (sorted left : List CachedFile) : Type 0 where
  pub gone : List CachedFile
  pub in_order : sorted ≡ gone ++ left
  pub fits : total_size left ≤ max_bytes
  pub needed :
      (gone ≡ [])
      ⊎ ((f : CachedFile) × (init : List CachedFile) × (gone ≡ init ++ f ∷ [])
          × (max_bytes < total_size (f ∷ left)))

sub_front : (a b : ℕ) → a + b - a ≡ b
sub_front a b = omega arith

lt→not-leb : (a b : ℕ) → a < b → leb b a ≡ false
lt→not-leb a b h = ground arith

total_size-Perm : (xs ys : List CachedFile) → Permᴰ xs ys → total_size xs ≡ total_size ys
unfolding total_size
total_size-Perm _ _ Permᴰ.nil = refl
total_size-Perm _ _ (Permᴰ.cons {l₁} {l₂} p h) = rw p (omega (arith, total_size-Perm l₁ l₂ h))
total_size-Perm _ _ (Permᴰ.swap p q) = rw (p, q) (omega arith)
total_size-Perm _ _ (Permᴰ.trans {l₁} {l₂} {l₃} h k) =
    total_size-Perm l₁ l₂ h ∙ total_size-Perm l₂ l₃ k

module _ (remove : String → Option Error) (removes : (name : String) → remove name ≡ none) where
  Evicted-cons :
      (max_bytes : ℕ) (f : CachedFile) (files left : List CachedFile)
      → max_bytes < total_size (f ∷ files)
      → Evicted max_bytes files left
      → Evicted max_bytes (f ∷ files) left
  Evicted-cons max_bytes f files left over e = record {
    gone = f ∷ e.gone;
    in_order = ap (λ l. f ∷ l) e.in_order;
    fits = e.fits;
    needed = elim e.needed [
      | inl nothing ↦ inr (
        f,
        [],
        ap (λ l. f ∷ l) nothing,
        subst (λ l. max_bytes < total_size (f ∷ l)) (e.in_order ∙ ap (λ g. g ++ left) nothing) over,
      )
      | inr (g, init, eq, h) ↦ inr (g, f ∷ init, ap (λ l. f ∷ l) eq, h)
    ];
  }

  evict_from-fits :
      (max_bytes total : ℕ) (f : CachedFile) (files : List CachedFile)
      → leb total max_bytes ≡ true
      → evict_from remove max_bytes total (f ∷ files) ≡ f ∷ files
  unfolding evict_from
  evict_from-fits max_bytes total f files h = rw (evict_from, h) refl

  evict_from-over :
      (max_bytes : ℕ) (f : CachedFile) (files : List CachedFile)
      → leb (total_size (f ∷ files)) max_bytes ≡ false
      → evict_from remove max_bytes (total_size (f ∷ files)) (f ∷ files)
        ≡ evict_from remove max_bytes (total_size files) files
  unfolding evict_from total_size
  evict_from-over max_bytes f files h =
      rw (evict_from, h, removes f.name)
        (ap (λ t. evict_from remove max_bytes t files) (sub_front f.size (total_size files)))

  evict_from-Evicted :
      (max_bytes : ℕ) (files : List CachedFile)
      → Evicted max_bytes files (evict_from remove max_bytes (total_size files) files)
  evict_from-Evicted max_bytes [] =
      unfold evict_from total_size in
      record { gone = []; in_order = refl; fits = omega arith; needed = inl refl }
  evict_from-Evicted max_bytes (f ∷ files) =
      elim (Bool-cases (leb (total_size (f ∷ files)) max_bytes)) [
        | inl fits ↦ rw (evict_from-fits max_bytes (total_size (f ∷ files)) f files fits) (record {
          gone = [];
          in_order = refl;
          fits = leb→le (total_size (f ∷ files)) max_bytes fits;
          needed = inl refl;
        })
        | inr over ↦ rw (evict_from-over max_bytes f files over) (
            Evicted-cons max_bytes f files (evict_from remove max_bytes (total_size files) files)
              (not-leb→lt (total_size (f ∷ files)) max_bytes over)
              (evict_from-Evicted max_bytes files))
      ]

  older-asym : (f g : CachedFile) → older f g ≡ true → older g f ≡ false
  older-asym f g h = ground (arith, h)

  older-chain : (f g h : CachedFile) → older g f ≡ false → older h g ≡ false → older h f ≡ false
  older-chain f g h k l = ground (arith, k, l)

  not_older :
      (gone left : List CachedFile)
      → All (λ f. All (λ g. older g f ≡ false) left) gone
      → All (λ f. All (λ g. f.mod_time ≤ℤ g.mod_time) left) gone
  not_older gone left h =
      All-map (λ f. All (λ g. older g f ≡ false) left)
        (λ f. All (λ g. f.mod_time ≤ℤ g.mod_time) left)
        (λ f later.
          All-map (λ g. older g f ≡ false) (λ g. f.mod_time ≤ℤ g.mod_time)
            (λ g not_before. not-ltb_ℤ→≤ℤ g.mod_time f.mod_time not_before) left later)
        gone h

  -- Where every removal succeeds, an eviction of files that exceed the limit parts them into those
  -- that are gone, of which no later one is older than an earlier one, and those that are left, of
  -- which none is older than one that is gone. What is left fits into the limit, and would not with
  -- the file that was removed last. sort.Slice comes to the files in some order.
  pub evict_files-Evicted :
      (arrange : List CachedFile → List CachedFile) (max_bytes : ℕ) (files : List CachedFile)
      → Permᴰ (arrange files) files
      → max_bytes < total_size files
      → let left = evict_files remove arrange max_bytes files in
        (gone : List CachedFile) × Permᴰ (gone ++ left) files
        × Sorted (λ f g. ltb_ℤ f.mod_time g.mod_time) (gone ++ left)
        × All (λ f. All (λ g. f.mod_time ≤ℤ g.mod_time) left) gone
        × (total_size left ≤ max_bytes)
        × ((gone ≡ [])
            ⊎ ((f : CachedFile) × (init : List CachedFile) × (gone ≡ init ++ f ∷ [])
                × (max_bytes < total_size (f ∷ left))))
  unfolding evict_files
  evict_files-Evicted arrange max_bytes files perm over =
      let sorted = sort_by older (arrange files) in
      let sorted_perm = Permᴰ.trans (sort_by-Perm older (arrange files)) perm in
      let e : Evicted max_bytes sorted (evict_files remove arrange max_bytes files) =
        rw (evict_files, lt→not-leb max_bytes (total_size files) over)
          (subst (λ t. Evicted max_bytes sorted (evict_from remove max_bytes t sorted))
            (total_size-Perm sorted files sorted_perm) (evict_from-Evicted max_bytes sorted)) in
      let parts = e.in_order in
      let in_order =
        subst (Sorted older) parts (sort_by-Sorted older older-asym older-chain (arrange files)) in
      (
        e.gone,
        subst (λ l. Permᴰ l files) parts sorted_perm,
        in_order,
        not_older e.gone (evict_files remove arrange max_bytes files)
            (All-after older e.gone (evict_files remove arrange max_bytes files) in_order),
        e.fits,
        e.needed,
      )
