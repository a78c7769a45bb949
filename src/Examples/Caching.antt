-- ===== src/Examples/Caching.antt =====
-- A cache over a backing store, both in memory: writes.
use bepper.Base.{◌≡◌, some, [], ◌∷◌}
use bepper.Blobstore.Memory.{Memory, memory}
use bepper.Diskcache.Cached.{Stores, Tee, write_all, write_backing}
use bepper.Diskcache.Backing.{write_all-backing}

abbrev keep_all : Memory → Memory
keep_all m = m

abbrev writing : Memory
writing = record { blobs = []; writers = ("a", 1 ∷ []) ∷ [] }

abbrev lost : Memory
lost = record { blobs = []; writers = [] }

abbrev tee : Tee memory memory keep_all
tee = record { backing = "a"; cache = some "a" }

abbrev stores : Memory → Memory → Stores memory memory keep_all
stores backing cache = record { backing = backing; cache = cache }

write_all-backing_example :
    ((write_all memory memory keep_all ((2 ∷ []) ∷ (3 ∷ []) ∷ []) tee (stores writing lost)).0
      ≡ (write_backing memory memory keep_all ((2 ∷ []) ∷ (3 ∷ []) ∷ []) "a" writing).0)
    × ((write_all memory memory keep_all
          ((2 ∷ []) ∷ (3 ∷ []) ∷ [])
          tee
          (stores writing lost)).1.0.backing
        ≡ "a")
    × ((write_all memory memory keep_all
          ((2 ∷ []) ∷ (3 ∷ []) ∷ [])
          tee
          (stores writing lost)).1.1.backing
        ≡ (write_backing memory memory keep_all ((2 ∷ []) ∷ (3 ∷ []) ∷ []) "a" writing).1)
write_all-backing_example =
    write_all-backing memory memory keep_all ((2 ∷ []) ∷ (3 ∷ []) ∷ []) tee (stores writing lost)
