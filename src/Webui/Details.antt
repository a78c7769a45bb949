-- ===== src/Webui/Details.antt =====
-- src/webui/webui.go: the handlers of GET /api/invocations/{id}/log, /details and /raw, and the
-- headers of /blob. The functions of packages strings, path/filepath and fmt are parameters.
use bepper.Base.{
  String, Bool, true, false, Option, none, some, List, [], ◌∷◌, map, ◌==◌, ◌||◌, if◌then◌else◌,
}
use bepper.Base.Int.{ℤ}
use bepper.Base.Result.{Result, ok, err, ◌>>=◌}
use bepper.Base.Text.{◌⧺◌}
use bepper.Blobstore.{Bytes, Error}
use bepper.Events.{BuildEvent, Payload}
use bepper.Index.Detail.{Flag, BuildInfo, parse_flags, parse_build_error, parse_build_info}
use bepper.Index.Targets.{LogFile, Target, TestAttempt, parse_targets}
use bepper.Store.{ProtoJson, ReadResult}
use bepper.Webui.Api.{Conversions, ApiReply, server_error, not_found, body}

-- From the results of ReadEvents on, with the reply that follows if it has found events.
unfoldable pub guard_events : {A : Type 0} → Option Error → Bool → ApiReply A → ApiReply A
guard_events (some e) found reply = server_error e
guard_events none false reply = not_found
guard_events none true reply = reply

unfoldable pub with_events : {A : Type 0} → ReadResult → (List BuildEvent → ApiReply A) → ApiReply A
with_events r handle = guard_events r.error r.found (handle r.events)

-- The console output of an event.
unfoldable pub output_of : Payload → String
output_of (Payload.progress stdout stderr) = stdout ⧺ stderr
output_of _ = ""

unfoldable pub console_log : List BuildEvent → String
console_log [] = ""
console_log (e ∷ events) = output_of e.payload ⧺ console_log events

unfoldable pub get_log : ReadResult → ApiReply String
get_log r = with_events r (λ events. body (console_log events))

pub record AttemptDto : Type 0 where
  pub status : String
  pub start_time : String
  pub duration_usec : ℤ
  pub cached_locally : Bool

pub record TargetDto : Type 0 where
  pub label : String
  pub kind : String
  pub is_test : Bool
  pub success : Bool
  pub test_status : String
  pub duration_usec : ℤ
  pub failure_message : String
  pub log_files : List LogFile
  pub attempts : List AttemptDto
  pub output_files : List LogFile

-- The DTOs of flags, of files and of the build's facts have the fields of the index's records.
pub record DetailDto : Type 0 where
  pub targets : List TargetDto
  pub flags : List Flag
  pub build_error : String
  pub build_info : BuildInfo

module _ (conv : Conversions) where
  unfoldable pub attempt_dto : TestAttempt → AttemptDto
  attempt_dto a = record {
    status = a.status;
    start_time = conv.format_time a.start_time;
    duration_usec = a.duration_usec;
    cached_locally = a.cached_locally;
  }

  unfoldable pub target_dto : Target → TargetDto
  target_dto t = record {
    label = t.label;
    kind = t.kind;
    is_test = t.is_test;
    success = t.success;
    test_status = t.test_status;
    duration_usec = t.duration_usec;
    failure_message = t.failure_message;
    log_files = t.log_files;
    attempts = map attempt_dto t.attempts;
    output_files = t.output_files;
  }

  unfoldable pub details_of : List BuildEvent → DetailDto
  details_of events = record {
    targets = map target_dto (parse_targets events);
    flags = parse_flags events;
    build_error = parse_build_error events;
    build_info = parse_build_info events;
  }

  unfoldable pub get_details : ReadResult → ApiReply DetailDto
  get_details r = with_events r (λ events. body (details_of events))

unfoldable pub reply_raw : Result Error (List Bytes) → ApiReply (List Bytes)
reply_raw (err e) = server_error e
reply_raw (ok lines) = body lines

module _ (json : ProtoJson) where
  unfoldable pub marshal_all : List BuildEvent → Result Error (List Bytes)
  marshal_all [] = ok []
  marshal_all (e ∷ events) = do line ← json.marshal e; lines ← marshal_all events; ok (line ∷ lines)

  unfoldable pub get_raw : ReadResult → ApiReply (List Bytes)
  get_raw r = with_events r (λ events. reply_raw (marshal_all events))

abbrev pub text_like_extensions : List String
text_like_extensions = ".log" ∷ ".txt" ∷ ".xml" ∷ ".json" ∷ ".md" ∷ ".yaml" ∷ ".yml" ∷ ".csv" ∷ []

abbrev pub is_among : String → List String → Bool
is_among text [] = false
is_among text (t ∷ texts) = t == text || is_among text texts

-- The headers of a blob: the content type, and the content disposition if there is one.
pub record BlobHeaders : Type 0 where
  pub content_type : String
  pub content_disposition : Option String

-- `extension` is strings.ToLower of filepath.Ext, `base` filepath.Base and `quote` the verb %q.
unfoldable pub set_blob_headers : (extension base quote : String → String) → String → BlobHeaders
set_blob_headers extension base quote name =
    if is_among (extension name) text_like_extensions
    then record { content_type = "text/plain; charset=utf-8"; content_disposition = none }
    else record {
      content_type = "application/octet-stream";
      content_disposition = some ("attachment; filename=" ⧺ quote (base name));
    }
