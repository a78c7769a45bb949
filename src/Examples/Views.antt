-- ===== src/Examples/Views.antt =====
-- What the web UI shows of a stream that was published, and of an indexed invocation.
use bepper.Base.{String, ◌≡◌, refl, Bool, true, none, some, List, [], ◌∷◌, All}
use bepper.Base.Dict.{lookup, insert, delete}
use bepper.Base.Int.{pos}
use bepper.Blobstore.Memory.{memory, memory_laws, empty}
use bepper.Examples.Publishing.{
  stream_id, second_request, first_request, server, a_is_not_empty, both-IsContiguous,
  both-Undisturbed,
}
use bepper.Index.Record.{Record}
use bepper.Postgres.{Row, Table, Driver, postgres_index, row_of}
use bepper.Samples.{counting, count_json, count_json_laws, list_index, sample_environment}
use bepper.Server.{BuildEventServer, publish, eof}
use bepper.Store.{
  new, append_event, append_line, writer_for, register, write_line, wrap, close_result, finalize,
  read_events, blob_name, ReadResult,
}
use bepper.Store.RoundTrip.{run}
use bepper.Webui.Api.{Conversions, InvocationDto, body, to_dto, list_invocations}
use bepper.Webui.Details.{get_log}
use bepper.Webui.Stored.{LogOf, complete_stream_is_shown}
use bepper.Webui.Indexed.{working, parsed, ShowsOlder, next_page_is_older}

abbrev conversions : Conversions
conversions = record {
  atoi = λ s. none;
  parse_time = λ s. some (pos 10000);
  format_time = λ t. "1970-01-01T00:00:00.00001Z";
}

complete_stream_is_shown_example :
    (log : String) × (get_log
        (read_events memory count_json "a"
          (publish memory list_index sample_environment
            (second_request ∷ first_request ∷ [])
            eof
            server).1.store).0
      ≡ body log)
    × LogOf (counting 1 ∷ counting 0 ∷ []) log
unfolding run new append_event append_line writer_for register write_line wrap finalize close_result
    lookup insert delete blob_name
complete_stream_is_shown_example =
    complete_stream_is_shown memory memory_laws list_index sample_environment count_json_laws
      stream_id second_request (first_request ∷ []) empty [] refl a_is_not_empty both-IsContiguous
      (λ e. cc) both-Undisturbed refl

abbrev read : ReadResult
read = record { events = counting 1 ∷ []; found = true; error = none }

abbrev all_like : String → String → Bool
all_like column sought = true

abbrev rows_of : Table → List Row
rows_of [] = []
rows_of ((id, row) ∷ table) = row ∷ rows_of table

abbrev driver : Driver
driver = working all_like (λ rows. rows) rows_of

abbrev index_server : BuildEventServer memory (postgres_index (λ s. s) driver) sample_environment
index_server = record { store = server.store; index = [] }

abbrev record_of_stream : Record
record_of_stream = parsed sample_environment stream_id (second_request ∷ first_request ∷ [])

abbrev last : Record
last = record record_of_stream { created_at = pos 10000 }

abbrev two_invocations : Table
two_invocations =
    ("b", row_of (record record_of_stream { invocation_id = "b"; created_at = pos 15000 }))
    ∷ ("c", row_of (record record_of_stream { invocation_id = "c"; created_at = pos 5000 }))
    ∷ []

next_page_is_older_example :
    (dtos : List InvocationDto) × ((list_invocations conversions
        (postgres_index (λ s. s) driver)
        (("before", "1970-01-01T00:00:00.00001Z") ∷ [])
        two_invocations).0
      ≡ body dtos)
    × All (ShowsOlder (λ s. s) conversions all_like (λ rows. rows) rows_of (pos 10000)) dtos
unfolding lookup to_dto
next_page_is_older_example =
    next_page_is_older (λ s. s) conversions all_like (λ rows. rows) rows_of
      (("before", "1970-01-01T00:00:00.00001Z") ∷ []) two_invocations last refl (λ e. cc) refl
      (λ P found h. h)
