-- ===== src/Examples/Remote.antt =====
-- A request for a blob that the client of the remote cache answers, and one for a log.
use bepper.Base.{◌↔◌, String, ◌≡◌, ◌⊎◌, ◌≤◌, refl, some, [], ◌∷◌, length}
use bepper.Base.Dict.{lookup, insert}
use bepper.Base.Text.{cut_prefix}
use bepper.Blobstore.{Bytes, Error}
use bepper.Bytestream.{
  StreamError, dial, reuse_or_dial, keep_connection, parse_uri, split_url, stream, stream_resource,
  read_to, copy, exceeds,
}
use bepper.Examples.Blobs.{read_log, test_log}
use bepper.Examples.Transfers.{cache_urls, client, connection, new_client}
use bepper.Index.Targets.{
  parse_targets, add_events, add_event, apply_event, target_event, update, add_result, log_files,
  in_order, parse_named_sets, add_named_sets, add_named_set,
}
use bepper.Webui.{
  get_blob, stream_reply, serve_events, serve, file_for_uri, name_in_target, name_in, sent,
}
use bepper.Webui.Guard.{WasReported}
use bepper.Webui.Routes.{answer, routes, handled, get_log}
use bepper.Webui.Served.{Serves, answer-Serves}
use bepper.Webui.Hosts.{HasHost, connects_to_reported_hosts}
use bepper.Webui.Remote.{get_blob_from, stream_blob, content_is_reported_and_within_limit}

abbrev text : StreamError → Error
text e = "transfer failed"

abbrev body : Bytes
body = 1 ∷ 2 ∷ 3 ∷ []

content_is_reported_and_within_limit_example :
    WasReported (test_log ∷ []) "bytestream://cache/1" "test.log" × (length body ≤ 3)
unfolding get_blob_from get_blob serve_events serve file_for_uri name_in_target name_in
    parse_targets add_events add_event apply_event target_event update add_result log_files in_order
    lookup insert parse_named_sets add_named_sets add_named_set stream_blob stream stream_resource
    parse_uri split_url cut_prefix dial reuse_or_dial keep_connection read_to copy exceeds
    stream_reply sent
content_is_reported_and_within_limit_example =
    content_is_reported_and_within_limit cache_urls new_client text 2 client "bytestream://cache/1"
      "test.log" read_log body refl refl

connects_to_reported_hosts_example :
    (lookup "cache:443" client.conns ≡ some connection)
    ⊎ (((name : String) × WasReported (test_log ∷ []) "bytestream://cache/1" name)
        × HasHost new_client cache_urls text "bytestream://cache/1" "cache:443")
unfolding get_blob_from get_blob serve_events serve file_for_uri name_in_target name_in
    parse_targets add_events add_event apply_event target_event update add_result log_files in_order
    lookup insert parse_named_sets add_named_sets add_named_set stream_blob stream stream_resource
    parse_uri split_url cut_prefix dial reuse_or_dial keep_connection
connects_to_reported_hosts_example =
    connects_to_reported_hosts new_client cache_urls text client "bytestream://cache/1" "cache:443"
      read_log connection refl

answer-Serves_example :
    (answer routes "GET" ("api" ∷ "invocations" ∷ "a" ∷ "log" ∷ []) ≡ handled get_log ("a" ∷ []))
    ↔ Serves ("api" ∷ "invocations" ∷ "a" ∷ "log" ∷ []) get_log ("a" ∷ [])
answer-Serves_example = answer-Serves ("api" ∷ "invocations" ∷ "a" ∷ "log" ∷ []) ("a" ∷ []) get_log
