-- ===== src/Examples/Cache.antt =====
-- Three cached files of 12 bytes, under a limit of 6.
use mathlib.Core.List.{Permᴰ}
use mathlib.Core.List.Permᴰ
use bepper.Base.SortBy.{Sorted, sort_by, insert_sorted}
use bepper.Base.{ℕ, String, none, List, [], ◌∷◌, ◌++◌, ◌≡◌, ◌⊎◌, ◌≤◌, ◌<◌, All, arith, refl}
use bepper.Base.Int.{pos, ltb_ℤ, ◌≤ℤ◌}
use bepper.Diskcache.{CachedFile, total_size, evict_from, evict_files}
use bepper.Diskcache.Eviction.{evict_files-Evicted}

abbrev cached : String → ℕ → ℕ → CachedFile
cached name size time = record { name = name; size = size; mod_time = pos time }

abbrev cache : List CachedFile
cache = cached "b" 4 20 ∷ cached "a" 5 10 ∷ cached "c" 3 30 ∷ []

evict_files-Evicted_example :
    (gone : List CachedFile) × Permᴰ (gone ++ cached "c" 3 30 ∷ []) cache
    × Sorted (λ f g. ltb_ℤ f.mod_time g.mod_time) (gone ++ cached "c" 3 30 ∷ [])
    × All (λ f. All (λ g. f.mod_time ≤ℤ g.mod_time) (cached "c" 3 30 ∷ [])) gone
    × (total_size (cached "c" 3 30 ∷ []) ≤ 6)
    × ((gone ≡ [])
        ⊎ ((f : CachedFile) × (init : List CachedFile) × (gone ≡ init ++ f ∷ [])
            × (6 < total_size (f ∷ cached "c" 3 30 ∷ []))))
unfolding evict_files evict_from total_size sort_by insert_sorted
evict_files-Evicted_example =
    evict_files-Evicted (λ name. none) (λ name. refl) (λ files. files) 6 cache (Permᴰ.refl cache)
      (omega arith)
