-- ===== src/S3/Laws.antt =====
-- What the blobstore of src/blobstore/s3 relies on: S3 shows an object as it was last uploaded as a
-- whole, and a request for it is answered by it.
use bepper.Base.{String, ◌≡◌, ◌≢◌, ◌⊎◌, Option, none, some, [], ◌++◌}
use bepper.Base.Result.{Result, ok, err}
use bepper.Blobstore.{Bytes, Error}
use bepper.S3.{Service, ServiceError, not_found, no_such_key, reading}

abbrev pub object_found : Option Bytes → Error → Result ServiceError Bytes
object_found none e = err (no_such_key e)
object_found (some body) e = ok body

abbrev pub head_found : Option Bytes → Error → Result ServiceError (Unit {0})
head_found none e = err (not_found e)
head_found (some body) e = ok tt

pub record ServiceLaws (svc : Service) : Type 1 where
  -- The visible objects; and of an upload its bucket and key, and what it has read of its body.
  pub object : String × String → svc.State → Option Bytes
  pub target : svc.Upload → String × String
  pub received : svc.Upload → Bytes
  pub started :
      (bucket key : String) (s : svc.State) (u : svc.Upload)
      → svc.start bucket key s ≡ reading u
      → (target u ≡ (bucket, key)) × (received u ≡ [])
  pub taken :
      (block : Bytes) (u next : svc.Upload) (s : svc.State)
      → (svc.read block u s).0 ≡ reading next
      → (target next ≡ target u) × (received next ≡ received u ++ block)
  -- Parts of an upload, and an upload that fails on its body, are not visible.
  pub read_keeps :
      (block : Bytes) (u : svc.Upload) (s : svc.State) (at : String × String)
      → object at (svc.read block u s).1 ≡ object at s
  pub fail_keeps :
      (e : Error) (u : svc.Upload) (s : svc.State) (at : String × String)
      → object at (svc.fail e u s) ≡ object at s
  -- The end of the body makes the object visible; an error may also be that of a lost answer.
  pub finished :
      (u : svc.Upload) (s : svc.State)
      → (svc.finish u s).0 ≡ ok tt
      → object (target u) (svc.finish u s).1 ≡ some (received u)
  pub finish_is_atomic :
      (u : svc.Upload) (s : svc.State)
      → (object (target u) (svc.finish u s).1 ≡ object (target u) s)
        ⊎ (object (target u) (svc.finish u s).1 ≡ some (received u))
  pub finish_keeps :
      (u : svc.Upload) (s : svc.State) (at : String × String)
      → at ≢ target u
      → object at (svc.finish u s).1 ≡ object at s
  -- The service answers in this state: no request for an object fails on the way.
  pub Answers : svc.State → Type 0
  pub absent : String → Error
  pub downloads :
      (bucket key : String) (s : svc.State)
      → Answers s
      → svc.download_object bucket key s ≡ object_found (object (bucket, key) s) (absent key)
  pub heads :
      (bucket key : String) (s : svc.State)
      → Answers s
      → svc.head_object bucket key s ≡ head_found (object (bucket, key) s) (absent key)
