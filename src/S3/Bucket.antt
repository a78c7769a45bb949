-- ===== src/S3/Bucket.antt =====
-- The bucket that New of src/blobstore/s3/s3.go leaves behind, and a blob that is deleted.
use bepper.Base.{String, ◌≡◌, ◌≢◌, refl, ◌⊎◌, inl, inr, Bool, true, false, not, ◌==◌, eq_iff, arith}
use bepper.Base.Result.{Result, ok, err, check, bind_succeeds, check_passes}
use bepper.Blobstore.{Error}
use bepper.S3.{
  Service, ServiceError, not_found, no_such_key, other, Config, BlobStore, found, bucket_exists,
  create_bucket_if_not_exists, create_if_missing, wait_created, opened_store, open_store,
  check_config, client_options, new,
}

module _ (svc : Service) (quote : String → String) where
  -- NewBucketExistsWaiter waits for a HeadBucket that succeeds.
  abbrev pub WaitsForBucket : Type 0
  WaitsForBucket =
      (bucket : String) (s : svc.State)
      → (svc.wait_bucket_exists bucket s).0 ≡ ok tt
      → svc.head_bucket bucket (svc.wait_bucket_exists bucket s).1 ≡ ok tt

  -- A bucket that was there, with nothing else done; or one that was not found, and now is.
  abbrev pub Ready : (bucket : String) → svc.State → svc.State → Type 0
  Ready bucket s end =
      (svc.head_bucket bucket end ≡ ok tt)
      × ((end ≡ s) ⊎ ((e : Error) × (svc.head_bucket bucket s ≡ err (not_found e))))

  found_false :
      (r : Result ServiceError (Unit {0}))
      → found r ≡ ok false
      → (e : Error) × (r ≡ err (not_found e))
  found_false (ok u) h = cc
  found_false (err (not_found e)) h = (e, refl)
  found_false (err (no_such_key e)) h = cc
  found_false (err (other e)) h = cc

  found_true : (r : Result ServiceError (Unit {0})) → found r ≡ ok true → r ≡ ok tt
  found_true (ok u) h = refl
  found_true (err (not_found e)) h = cc
  found_true (err (no_such_key e)) h = cc
  found_true (err (other e)) h = cc

  created-Ready :
      (bucket : String) (created : Result Error (Unit {0}) × svc.State)
      → WaitsForBucket
      → (wait_created svc quote bucket created).0 ≡ ok tt
      → svc.head_bucket bucket (wait_created svc quote bucket created).1 ≡ ok tt
  created-Ready bucket (err e, s) waits h = cc
  created-Ready bucket (ok u, s) waits h = waits bucket s h

  missing-Ready :
      (bucket : String) (s : svc.State) (exists : Result Error Bool)
      → WaitsForBucket
      → bucket_exists svc bucket s ≡ exists
      → (create_if_missing svc quote bucket exists s).0 ≡ ok tt
      → Ready bucket s (create_if_missing svc quote bucket exists s).1
  unfolding bucket_exists
  missing-Ready bucket s (err e) waits h made = cc
  missing-Ready bucket s (ok true) waits h made = (found_true _ h, inl refl)
  missing-Ready bucket s (ok false) waits h made =
      (created-Ready bucket (svc.create_bucket bucket s) waits made, inr (found_false _ h))

  opened-Ready :
      (store : BlobStore) (made : Result Error (Unit {0}) × svc.State) (opened : BlobStore)
      → (opened_store svc store made).0 ≡ ok opened
      → (opened ≡ store) × (made.0 ≡ ok tt) × ((opened_store svc store made).1 ≡ made.1)
  opened-Ready store (err e, s) opened h = cc
  opened-Ready store (ok u, s) opened h = (cc, refl, refl)

  checked-Ready :
      (cfg : Config) (s : svc.State) (checked : Result Error (Unit {0})) (store : BlobStore)
      → WaitsForBucket
      → (open_store svc quote cfg checked s).0 ≡ ok store
      → (checked ≡ ok tt)
        × (store ≡ record { client = client_options cfg; bucket = cfg.bucket })
        × Ready cfg.bucket s (open_store svc quote cfg checked s).1
  unfolding create_bucket_if_not_exists
  checked-Ready cfg s (err e) store waits h = cc
  checked-Ready cfg s (ok u) store waits h =
      let made = create_bucket_if_not_exists svc quote cfg.bucket s in
      let (same, is_ok, state) = opened-Ready _ made store h in
      (refl, same, rw state (missing-Ready cfg.bucket s _ waits refl is_ok))

  -- A store that New has opened has the bucket of a configuration that names one, and the bucket
  -- answers: New has changed nothing if it was there, and has created one only where HeadBucket had
  -- not found it. The waiter returns once HeadBucket succeeds.
  pub new-Ready :
      (load_config : String → Result Error (Unit {0})) (cfg : Config) (s : svc.State)
      (store : BlobStore)
      → WaitsForBucket
      → (new svc quote load_config cfg s).0 ≡ ok store
      → (cfg.bucket ≢ "")
        × (store ≡ record { client = client_options cfg; bucket = cfg.bucket })
        × Ready cfg.bucket s (new svc quote load_config cfg s).1
  unfolding new
  new-Ready load_config cfg s store waits h =
      let (checked, same, ready) =
        checked-Ready cfg s (check_config load_config cfg) store waits h in
      let (u, named, h1) =
        bind_succeeds (check (not (cfg.bucket == "")) "s3: bucket is required") _ checked in
      let is_named = check_passes (not (cfg.bucket == "")) _ named in
      (λ empty. ground (arith, is_named, eq_iff cfg.bucket "", empty), same, ready)
