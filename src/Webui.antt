-- ===== src/Webui.antt =====
-- src/webui/webui.go: the handler of GET /api/invocations/{id}/blob. Package bytestream is a
-- parameter: a transfer is the writes that it makes and the error that it ends with.
pub mod Api
pub mod Details
pub mod Stored
pub mod Indexed
pub mod Guard
pub mod Streaming
pub mod Remote
pub mod Routes
pub mod Dispatch
pub mod Patterns
pub mod Served
pub mod Hosts
use bepper.Base.{
  ℕ, String, ◌==◌, if◌then◌else◌, Bool, true, false, Option, none, some, List, [], ◌∷◌, ◌++◌,
  first_some,
}
use bepper.Blobstore.{Bytes, Error}
use bepper.Events.{BuildEvent}
use bepper.Index.Targets.{LogFile, Target, parse_targets}
use bepper.Store.{ReadResult}

-- The writes of bytestream's `Stream`, all of which the client accepts, and its error.
pub record Transfer : Type 0 where
  pub writes : List Bytes
  pub error : Option Error

-- What the handler replies. `streamed` names the file, holds the body that was sent, and the error
-- that is appended to it or, if nothing was sent, replaces it.
pub data Reply : Type 0 where
  not_implemented missing_uri not_found not_reported : Reply
  internal_error : Error → Reply
  bad_gateway : Error → Reply
  content : (name : String) → Bytes → Reply

-- A URI that the handler has the client dial, if it does, and the reply.
pub record Response : Type 0 where
  pub dialed : Option String
  pub reply : Reply

unfoldable pub name_in : String → LogFile → Option String
name_in uri f = if f.uri == uri then some f.name else none

unfoldable pub name_in_target : String → Target → Option String
unfolding name_in
name_in_target uri t = first_some (name_in uri) (t.log_files ++ t.output_files)

unfoldable pub file_for_uri : List BuildEvent → String → Option String
unfolding name_in_target
file_for_uri events uri = first_some (name_in_target uri) (parse_targets events)

-- The body that has been sent, and whether `trackingWriter` has seen a byte.
unfoldable pub sent : List Bytes → Bytes
sent [] = []
sent (p ∷ writes) = p ++ sent writes

unfoldable pub written : List Bytes → Bool
written [] = false
written ([] ∷ writes) = written writes
written ((b ∷ p) ∷ writes) = true

unfoldable pub stream_reply : String → Transfer → Reply
unfolding sent written
stream_reply name t = elim t.error [
  | none ↦ content name (sent t.writes)
  | some e ↦ if written t.writes then content name (sent t.writes) else bad_gateway e
]

abbrev pub refuses : Reply → Response
refuses r = record { dialed = none; reply = r }

-- From the lookup of the URI on.
unfoldable pub serve : (String → Transfer) → String → Option String → Response
unfolding stream_reply
serve stream uri none = refuses not_reported
serve stream uri (some name) = record { dialed = some uri; reply = stream_reply name (stream uri) }

unfoldable pub serve_events : (String → Transfer) → String → ReadResult → Response
unfolding serve file_for_uri
serve_events stream uri r = elim r.error [
  | some e ↦ refuses (internal_error e)
  | none ↦ if r.found then serve stream uri (file_for_uri r.events uri) else refuses not_found
]

unfoldable pub get_blob : Option (String → Transfer) → String → ReadResult → Response
unfolding serve_events
get_blob none uri r = refuses not_implemented
get_blob (some stream) uri r = if uri == "" then refuses missing_uri else serve_events stream uri r
