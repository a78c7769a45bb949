-- ===== src/Diskcache.antt =====
-- src/blobstore/diskcache/diskcache.go: the eviction of cached files. The file system is a parameter:
-- what a listing of the cache directory shows, and which removals fail. sort.Slice leaves files with
-- the same time in any order, so the order in which it comes to them is a parameter, `arrange`.
pub mod Cached
pub mod Backing
pub mod Eviction
use bepper.Base.{
  ℕ, ◌+◌, ◌-◌, String, Bool, Option, none, some, List, [], ◌∷◌, eqb, leb, if◌then◌else◌,
}
use bepper.Base.Int.{ℤ, pos, ltb_ℤ}
use bepper.Base.SortBy.{sort_by}
use bepper.Base.Result.{Result, ok, err}
use bepper.Blobstore.{Error}

pub record CachedFile : Type 0 where
  pub name : String
  pub size : ℕ
  pub mod_time : ℤ

-- An entry of the listing; `unreadable` is one whose `Info` fails.
pub data Entry : Type 0 where
  directory unreadable : Entry
  regular : CachedFile → Entry

unfoldable pub files_of_entries : List Entry → List CachedFile
files_of_entries [] = []
files_of_entries (regular f ∷ entries) = f ∷ files_of_entries entries
files_of_entries (_ ∷ entries) = files_of_entries entries

unfoldable pub total_size : List CachedFile → ℕ
total_size [] = 0
total_size (f ∷ files) = f.size + total_size files

-- The comparator of sort.Slice.
abbrev pub older : CachedFile → CachedFile → Bool
older f g = ltb_ℤ f.mod_time g.mod_time

module _ (remove : String → Option Error) where
  -- The loop over the sorted files: those that are left when `total` bytes are cached.
  unfoldable pub evict_from : ℕ → ℕ → List CachedFile → List CachedFile
  evict_from max_bytes total [] = []
  evict_from max_bytes total (f ∷ files) =
      let after_failure = evict_from max_bytes total files in
      let after_removal = evict_from max_bytes (total - f.size) files in
      if leb total max_bytes
      then f ∷ files
      else elim (remove f.name) [ some e ↦ f ∷ after_failure | none ↦ after_removal ]

  unfoldable pub evict_files :
      (List CachedFile → List CachedFile) → ℕ → List CachedFile → List CachedFile
  unfolding evict_from total_size
  evict_files arrange max_bytes files =
      if leb (total_size files) max_bytes
      then files
      else evict_from max_bytes (total_size files) (sort_by older (arrange files))

  -- What is left of the files of a listing; nothing is done if there is no listing. A limit that is
  -- not positive, here 0, is none.
  unfoldable pub evict :
      (List CachedFile → List CachedFile) → ℕ → Result Error (List Entry) → Option (List CachedFile)
  unfolding evict_files files_of_entries
  evict arrange max_bytes (err e) = none
  evict arrange max_bytes (ok entries) =
      if eqb max_bytes 0
      then some (files_of_entries entries)
      else some (evict_files arrange max_bytes (files_of_entries entries))
