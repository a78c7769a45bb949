-- ===== src/Diskcache/Backing.antt =====
-- The cache of src/blobstore/diskcache/diskcache.go beside its backing store.
use bepper.Base.{◌≡◌, refl, ap, ◌∙◌, List, [], ◌∷◌}
use bepper.Blobstore.{Blobstore, Bytes}
use bepper.Diskcache.Cached.{Stores, Tee, write_rest-backing, write, write_all, write_backing}

module _ (B C : Blobstore) (evict : C.State → C.State) where
  write-backing :
      (t : Tee B C evict) (p : Bytes) (s : Stores B C evict)
      → ((write B C evict t p s).0 ≡ (B.write t.backing p s.backing).0)
        × ((write B C evict t p s).1.0.backing ≡ t.backing)
        × ((write B C evict t p s).1.1.backing ≡ (B.write t.backing p s.backing).1)
  unfolding write
  write-backing t p s = write_rest-backing B C evict t p (B.write t.backing p s.backing) s.cache

  -- Writes through the tee give the results that they give on the backing store alone, and leave it in
  -- the same state, whatever the cache does.
  pub write_all-backing :
      (chunks : List Bytes) (t : Tee B C evict) (s : Stores B C evict)
      → ((write_all B C evict chunks t s).0
          ≡ (write_backing B C evict chunks t.backing s.backing).0)
        × ((write_all B C evict chunks t s).1.0.backing ≡ t.backing)
        × ((write_all B C evict chunks t s).1.1.backing
            ≡ (write_backing B C evict chunks t.backing s.backing).1)
  write_all-backing [] t s = (refl, refl, refl)
  write_all-backing (p ∷ chunks) t s =
      let one = write B C evict t p s in
      let (result, handle, state) = write-backing t p s in
      let (results, handles, states) = write_all-backing chunks one.1.0 one.1.1 in
      let same =
        ap (λ h. write_backing B C evict chunks h one.1.1.backing) handle
        ∙ ap (λ b. write_backing B C evict chunks t.backing b) state in
      (
        ap (λ r. r ∷ (write_all B C evict chunks one.1.0 one.1.1).0) result
            ∙ ap (λ rs. (B.write t.backing p s.backing).0 ∷ rs) (results ∙ ap (λ r. r.0) same),
        handles ∙ handle,
        states ∙ ap (λ r. r.1) same,
      )
