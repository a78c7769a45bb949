-- ===== src/Examples/Publishing.antt =====
-- Streams of requests: one that is complete but out of order, and one that breaks off.
use mathlib.Core.List.{Permᴰ}
use bepper.Base.{◌≡◌, ◌↔◌, ◌≢◌, ℕ, refl, true, none, some, List, [], ◌∷◌, String}
use bepper.Base.Int.{ℤ, pos}
use bepper.Base.Dict.{lookup, insert, delete}
use bepper.Blobstore.Memory.{memory, memory_laws, empty}
use bepper.Base.Result.{ok}
use bepper.Base.Text.{contains, cut_prefix}
use bepper.Disk.{open_path, blob_path}
use bepper.Disk.Contract.{Directory, disk_store}
use bepper.Samples.Storage.{plain, plain-Inflates, plain-NeverFails}
use bepper.Server.OnDisk.{complete_stream_is_on_disk}
use bepper.Index.Parser.{parse_events}
use bepper.Samples.{counting, count_json, count_json_laws, list_index, sample_environment}
use bepper.Server.{StreamId, Request, eof, broken, BuildEventServer, publish}
use bepper.Server.Acks.{count_from}
use bepper.Server.Loop.{IsContiguous, first_parser, appends}
use bepper.Server.Persistence.{
  new_server, complete_stream_is_stored, retry_appends_to_the_first_attempt,
}
use bepper.Server.Streams.{
  publish-IsContiguous, incomplete_stream_fails, complete_stream_is_indexed,
}
use bepper.Store.{
  Store, new, append_event, append_line, writer_for, register, write_line, wrap, close_result,
  finalize, read_events, blob_name,
}
use bepper.Store.RoundTrip.{Undisturbed, done, own, run}

abbrev pub stream_id : StreamId
stream_id = record { invocation_id = "a" }

abbrev request : ℤ → List ℕ → Request
request n any = record { stream_id = some stream_id; sequence_number = n; bazel_event = some any }

abbrev pub second_request : Request
second_request = request (pos 2) (120 ∷ 120 ∷ [])

abbrev pub first_request : Request
first_request = request (pos 1) (120 ∷ [])

abbrev pub server : BuildEventServer memory list_index sample_environment
server = new_server memory list_index sample_environment empty []

pub a_is_not_empty : ◌≢◌ {A = String} "a" ""
a_is_not_empty e = cc e

pub both-IsContiguous : IsContiguous (second_request ∷ first_request ∷ [])
unfolding count_from
both-IsContiguous = Permᴰ.swap refl refl

publish-IsContiguous_example :
    ((publish memory list_index sample_environment
        (second_request ∷ first_request ∷ [])
        eof
        server).0.error
      ≡ none)
    ↔ IsContiguous (second_request ∷ first_request ∷ [])
publish-IsContiguous_example =
    publish-IsContiguous memory list_index sample_environment stream_id second_request
      (first_request ∷ []) server refl a_is_not_empty (λ n. refl)

incomplete_stream_fails_example :
    ((publish memory list_index sample_environment
        (second_request ∷ first_request ∷ [])
        (broken "reset")
        server).0.error
      ≢ none)
    × ((publish memory list_index sample_environment
          (second_request ∷ first_request ∷ [])
          (broken "reset")
          server).0.sent
        ≡ [])
    × ((publish memory list_index sample_environment
          (second_request ∷ first_request ∷ [])
          (broken "reset")
          server).1.index
        ≡ [])
incomplete_stream_fails_example =
    incomplete_stream_fails memory list_index sample_environment
      (second_request ∷ first_request ∷ []) (broken "reset") server (λ e. cc)

complete_stream_is_indexed_example :
    (publish memory list_index sample_environment
      (second_request ∷ first_request ∷ [])
      eof
      server).1.index
    ≡ record (parse_events sample_environment.urls
        (first_parser sample_environment stream_id)
        (counting 1 ∷ counting 0 ∷ [])).rec { updated_at = pos 2000 }
      ∷ []
complete_stream_is_indexed_example =
    complete_stream_is_indexed memory list_index sample_environment stream_id second_request
      (first_request ∷ []) server refl a_is_not_empty both-IsContiguous

abbrev stored_once : Store memory
stored_once = (append_event memory count_json "a" (counting 1) server.store).1

abbrev stored_twice : Store memory
stored_twice = (append_event memory count_json "a" (counting 0) stored_once).1

pub both-Undisturbed :
    Undisturbed memory count_json "a" (appends "a" (counting 1 ∷ counting 0 ∷ [])) server.store
unfolding new append_event append_line writer_for register write_line wrap lookup insert blob_name
both-Undisturbed =
    own {s = server.store} (counting 1) refl (own {s = stored_once} (counting 0) refl done)

complete_stream_is_stored_example :
    (read_events memory count_json "a"
      (publish memory list_index sample_environment
        (second_request ∷ first_request ∷ [])
        eof
        server).1.store).0
    ≡ record { events = counting 1 ∷ counting 0 ∷ []; found = true; error = none }
unfolding run new append_event append_line writer_for register write_line wrap finalize close_result
    lookup insert delete blob_name
complete_stream_is_stored_example =
    complete_stream_is_stored memory memory_laws list_index sample_environment count_json_laws
      stream_id second_request (first_request ∷ []) empty [] refl a_is_not_empty both-IsContiguous
      (λ e. cc) both-Undisturbed refl

abbrev stored_thrice : Store memory
stored_thrice = (append_event memory count_json "a" (counting 1) stored_once).1

retry-Undisturbed :
    Undisturbed memory count_json "a"
      (appends "a" (counting 1 ∷ counting 1 ∷ counting 0 ∷ []))
      server.store
unfolding new append_event append_line writer_for register write_line wrap lookup insert blob_name
retry-Undisturbed =
    own {s = server.store} (counting 1) refl
      (own {s = stored_once} (counting 1) refl (own {s = stored_thrice} (counting 0) refl done))

retry_appends_to_the_first_attempt_example :
    (read_events memory count_json "a"
      (publish memory list_index sample_environment
        (second_request ∷ first_request ∷ [])
        eof
        (publish memory list_index sample_environment
          (second_request ∷ [])
          (broken "reset")
          server).1).1.store).0
    ≡ record { events = counting 1 ∷ counting 1 ∷ counting 0 ∷ []; found = true; error = none }
unfolding run new append_event append_line writer_for register write_line wrap finalize close_result
    lookup insert delete blob_name
retry_appends_to_the_first_attempt_example =
    retry_appends_to_the_first_attempt memory memory_laws list_index sample_environment
      count_json_laws stream_id second_request second_request [] (first_request ∷ []) "reset" empty
      [] refl refl a_is_not_empty both-IsContiguous (λ e. cc) retry-Undisturbed refl

abbrev empty_directory : Directory plain "data"
empty_directory = record { files = []; next = 0; writers = λ h. none }

path_of_stream : open_path plain "data" "a.jsonl" ≡ ok "data/a.jsonl"
unfolding open_path blob_path contains cut_prefix
path_of_stream = refl

complete_stream_is_on_disk_example :
    (read_events
      (disk_store plain "data")
      count_json
      "a"
      (publish
        (disk_store plain "data")
        list_index
        sample_environment
        (second_request ∷ first_request ∷ [])
        eof
        (new_server
          (disk_store plain "data")
          list_index
          sample_environment
          empty_directory
          [])).1.store).0
    ≡ record { events = counting 1 ∷ counting 0 ∷ []; found = true; error = none }
unfolding blob_name
complete_stream_is_on_disk_example =
    complete_stream_is_on_disk list_index sample_environment plain "data" "data/a.jsonl" stream_id
      second_request (first_request ∷ []) empty_directory [] count_json_laws
      ((_, refl), ((_, refl), tt)) plain-Inflates plain-NeverFails (λ path. refl) path_of_stream
      refl a_is_not_empty both-IsContiguous (λ e. cc)
