-- ===== src/Server/OnDisk.antt =====
-- A whole stream from src/server through src/store to the files of src/blobstore/disk.
use bepper.Base.{All, String, ◌≡◌, ◌≢◌, true, none, some, List, [], ◌∷◌}
use bepper.Base.Result.{ok}
use bepper.Blobstore.Compression.{Inflates}
use bepper.Disk
use bepper.Disk.{open_path}
use bepper.Disk.Contract.{Directory, disk_store}
use bepper.Disk.Laws.{disk_laws}
use bepper.Disk.Reliable.{NeverFails, disk_reliable}
use bepper.Index.Indexer.{Indexer}
use bepper.Server.Defs.{StreamId, Request, Environment, eof, publish}
use bepper.Server.Loop.{IsContiguous, events_of}
use bepper.Server.Persistence.{new_server, complete_stream_is_stored}
use bepper.Store.{blob_name, read_events}
use bepper.Store.Json.{JsonLaws}
use bepper.Store.Reliable.{Marshals, appends_succeed}

-- After a stream whose first request names an invocation and whose sequence numbers are 1, ..., n in
-- some order, a server over the directory reads back exactly the events of the stream that could be
-- unmarshalled, in the order in which they arrived, if there is one. The operating system lets the
-- program use the file of the invocation, and gzip, the closing of files and protojson.Marshal of
-- these events give no error.
pub complete_stream_is_on_disk :
    (I : Indexer) (env : Environment) (disk : Disk.Environment) (root path : String) (id : StreamId)
    (r : Request) (requests : List Request) (directory : Directory disk root) (index : I.State)
    → JsonLaws env.json
    → All (Marshals env.json) (events_of env (r ∷ requests))
    → Inflates disk.gzip
    → NeverFails disk.gzip
    → ((path : String) → disk.close_error path ≡ none)
    → open_path disk root (blob_name id.invocation_id) ≡ ok path
    → r.stream_id ≡ some id
    → id.invocation_id ≢ ""
    → IsContiguous (r ∷ requests)
    → events_of env (r ∷ requests) ≢ []
    → (read_events
        (disk_store disk root)
        env.json
        id.invocation_id
        (publish
          (disk_store disk root)
          I
          env
          (r ∷ requests)
          eof
          (new_server (disk_store disk root) I env directory index)).1.store).0
      ≡ record { events = events_of env (r ∷ requests); found = true; error = none }
complete_stream_is_on_disk I env disk root path id r requests directory index json_laws marshals
      inflates works closes_files at named not_empty complete some_event =
    let reliable =
      disk_reliable disk root (blob_name id.invocation_id) path works closes_files at in
    let (u, success) =
      appends_succeed (disk_store disk root) env.json id.invocation_id reliable
        (events_of env (r ∷ requests)) directory marshals in
    complete_stream_is_stored (disk_store disk root) (disk_laws disk root inflates) I env json_laws
      id r requests directory index named not_empty complete some_event u success
