-- ===== src/Diskcache/Cached.antt =====
-- src/blobstore/diskcache/diskcache.go: the blobstore over a backing store and a cache. Reads of the
-- same blob at the same time are one after the other here; the eviction is a function on the cache.
use bepper.Base.{ℕ, String, ◌≡◌, refl, Bool, Option, none, some, List, [], ◌∷◌}
use bepper.Base.Result.{Result, ok, err, with_context, ◌>>=◌}
use bepper.Blobstore.{Blobstore, Bytes, Error}

module _ (B C : Blobstore) (evict : C.State → C.State) where
  pub record Stores : Type 0 where
    pub backing : B.State
    pub cache : C.State

  -- New, with what disk.New gives for the directory.
  unfoldable pub new : Result Error C.State → B.State → Result Error Stores
  new cache backing = do
    opened ← with_context "diskcache: " cache
    ok (record { backing = backing; cache = opened })

  -- No `cache` is one that has failed.
  pub record Tee : Type 0 where
    pub backing : B.Handle
    pub cache : Option C.Handle

  abbrev pub evict_after {ℓ} : {A : Type ℓ} → Result Error A × C.State → C.State
  evict_after (ok a, c) = evict c
  evict_after (err e, c) = c

  unfoldable pub populate : String → Bytes → C.State → C.State
  populate name bytes c = evict_after (C.write_blob name bytes c)

  abbrev pub populate_read : String → Result Error Bytes → C.State → C.State
  populate_read name (ok bytes) c = populate name bytes c
  populate_read name (err e) c = c

  abbrev pub fetch_backing :
      String → Result Error Bytes × B.State → C.State → Result Error Bytes × Stores
  fetch_backing name (r, b) c = (r, record { backing = b; cache = populate_read name r c })

  abbrev pub read_through :
      String → Result Error Bytes × C.State → B.State → Result Error Bytes × Stores
  read_through name (ok bytes, c) b = (ok bytes, record { backing = b; cache = c })
  read_through name (err e, c) b = fetch_backing name (B.read_blob name b) c

  unfoldable pub read_blob : String → Stores → Result Error Bytes × Stores
  read_blob name s = read_through name (C.read_blob name s.cache) s.backing

  abbrev pub populate_written :
      String → Bytes → Result Error ℕ × B.State → C.State → Result Error ℕ × Stores
  populate_written name bytes (ok n, b) c =
      (ok n, record { backing = b; cache = populate name bytes c })
  populate_written name bytes (err e, b) c = (err e, record { backing = b; cache = c })

  unfoldable pub write_blob : String → Bytes → Stores → Result Error ℕ × Stores
  write_blob name bytes s = populate_written name bytes (B.write_blob name bytes s.backing) s.cache

  abbrev pub delete_cached :
      String → Result Error (Unit {0}) × B.State → C.State → Result Error (Unit {0}) × Stores
  delete_cached name (ok u, b) c = (ok u, record { backing = b; cache = (C.delete_blob name c).1 })
  delete_cached name (err e, b) c = (err e, record { backing = b; cache = c })

  unfoldable pub delete_blob : String → Stores → Result Error (Unit {0}) × Stores
  delete_blob name s = delete_cached name (B.delete_blob name s.backing) s.cache

  unfoldable pub blob_exists : String → Stores → Result Error Bool × Stores
  blob_exists name s = let (r, b) = B.blob_exists name s.backing in (r, record s { backing = b })

  abbrev pub if_opened : Result Error C.Handle → Option C.Handle
  if_opened (ok h) = some h
  if_opened (err e) = none

  abbrev pub open_tee :
      String → Result Error B.Handle × B.State → C.State → Result Error Tee × Stores
  open_tee name (err e, b) c = (err e, record { backing = b; cache = c })
  open_tee name (ok h, b) c =
      let (opened, after) = C.writer name c in
      (ok (record { backing = h; cache = if_opened opened }), record { backing = b; cache = after })

  unfoldable pub writer : String → Stores → Result Error Tee × Stores
  writer name s = open_tee name (B.writer name s.backing) s.cache

  abbrev pub keep_if_written : C.Handle → Result Error ℕ × C.State → Option C.Handle × C.State
  keep_if_written h (ok n, c) = (some h, c)
  keep_if_written h (err e, c) = (none, c)

  abbrev pub write_cached : Option C.Handle → Bytes → C.State → Option C.Handle × C.State
  write_cached none p c = (none, c)
  write_cached (some h) p c = keep_if_written h (C.write h p c)

  abbrev pub write_rest :
      Tee → Bytes → Result Error ℕ × B.State → C.State → Result Error ℕ × (Tee × Stores)
  write_rest t p (err e, b) c = (err e, (t, record { backing = b; cache = c }))
  write_rest t p (ok n, b) c =
      let (kept, after) = write_cached t.cache p c in
      (ok n, (record t { cache = kept }, record { backing = b; cache = after }))

  unfoldable pub write : Tee → Bytes → Stores → Result Error ℕ × (Tee × Stores)
  write t p s = write_rest t p (B.write t.backing p s.backing) s.cache

  abbrev pub close_cached : Option C.Handle → C.State → C.State
  close_cached none c = c
  close_cached (some h) c = evict_after (C.close h c)

  -- The cache's writer is closed whatever the backing one says.
  unfoldable pub close : Tee → Stores → Result Error (Unit {0}) × Stores
  close t s =
      let (r, b) = B.close t.backing s.backing in
      (r, record { backing = b; cache = close_cached t.cache s.cache })

  -- Several writes: their results, and what they leave.
  abbrev pub write_all : List Bytes → Tee → Stores → List (Result Error ℕ) × (Tee × Stores)
  write_all [] t s = ([], (t, s))
  write_all (p ∷ chunks) t s =
      let one = write t p s in
      let rest = write_all chunks one.1.0 one.1.1 in (one.0 ∷ rest.0, rest.1)

  abbrev pub write_backing : List Bytes → B.Handle → B.State → List (Result Error ℕ) × B.State
  write_backing [] h b = ([], b)
  write_backing (p ∷ chunks) h b =
      let one = B.write h p b in let rest = write_backing chunks h one.1 in (one.0 ∷ rest.0, rest.1)

  pub write_rest-backing :
      (t : Tee) (p : Bytes) (r : Result Error ℕ × B.State) (c : C.State)
      → ((write_rest t p r c).0 ≡ r.0)
        × ((write_rest t p r c).1.0.backing ≡ t.backing)
        × ((write_rest t p r c).1.1.backing ≡ r.1)
  write_rest-backing t p (ok n, b) c = (refl, refl, refl)
  write_rest-backing t p (err e, b) c = (refl, refl, refl)
