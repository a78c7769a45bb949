-- ===== src/Server/Defs.antt =====
-- src/server/server.go: the handler of a stream of build events. gRPC, the unmarshalling of the
-- Bazel event and the clock are parameters; what the handler logs is left out.
use bepper.Base.{
  ℕ, String, ◌==◌, Option, none, some, List, [], ◌∷◌, ◌++◌, suc, if◌then◌else◌, false,
}
use bepper.Base.Int.{ℤ, pos, negsuc, eqb_ℤ}
use bepper.Base.Sort.{sort}
use bepper.Base.Result.{Result, ok, err}
use bepper.Blobstore.{Blobstore, Bytes, Error}
use bepper.Events.{BuildEvent, Time}
use bepper.Index.GitUrl.{UrlPackage}
use bepper.Index.Indexer.{Indexer}
use bepper.Index.Parser.{EventParser, new_event_parser, parse_event}
use bepper.Index.Record.{Record}
use bepper.Store.{ProtoJson, Store, append_event, finalize}

-- besv1.StreamId, as far as the handler looks into it.
pub record StreamId : Type 0 where
  pub invocation_id : String

-- besv1.PublishBuildToolEventStreamRequest: a message or an Any that is absent is `none`.
pub record Request : Type 0 where
  pub stream_id : Option StreamId
  pub sequence_number : ℤ
  pub bazel_event : Option Bytes

-- besv1.PublishBuildToolEventStreamResponse
pub record Response : Type 0 where
  pub stream_id : StreamId
  pub sequence_number : ℤ

-- What `Recv` reports after the last request: io.EOF, or another error.
pub data End : Type 0 where
  eof : End
  broken : Error → End

-- The error that the handler returns.
pub data Status : Type 0 where
  missing_invocation_id : Status
  sequence_mismatch : (invocation_id : String) → (got want : ℤ) → Status
  recv_error : Error → Status
  send_error : Error → Status

-- What the handler returns, and the responses that were sent.
pub record Outcome : Type 0 where
  pub error : Option Status
  pub sent : List Response

-- The parameters of the handler: net/url, protojson, protobuf's `Any.UnmarshalTo`, the result of
-- the n-th call of `Send`, and the two readings of the clock.
pub record Environment : Type 1 where
  pub urls : UrlPackage
  pub json : ProtoJson
  pub unmarshal_to : Bytes → Result Error BuildEvent
  pub send : ℕ → Option Error
  pub started_at : Time
  pub finished_at : Time

-- The zero value of time.Time: the first of January of the year 1.
abbrev pub zero_time : Time
zero_time = negsuc 62135596799999999999

-- &index.Record{InvocationID: id, CreatedAt: now}
abbrev pub new_record : String → Time → Record
new_record id now = record {
  invocation_id = id;
  host = "";
  user = "";
  role = "";
  repo_url = "";
  branch_name = "";
  commit_sha = "";
  command = "";
  pattern = [];
  tags = [];
  parent_run_id = "";
  run_id = "";
  success = false;
  bazel_exit_code = "";
  duration_usec = pos 0;
  action_count = pos 0;
  created_at = now;
  updated_at = zero_time;
}

-- The check of the sorted sequence numbers, from the index `i` on.
unfoldable pub check_acks : String → ℕ → List ℤ → Option Status
check_acks id i [] = none
check_acks id i (ack ∷ acks) =
    let rest = check_acks id (suc i) acks in
    let want = pos (suc i) in if eqb_ℤ ack want then rest else some (sequence_mismatch id ack want)

abbrev pub fails : Status → Outcome
fails e = record { error = some e; sent = [] }

-- A response that was sent before the others.
abbrev pub after_response : Response → Outcome → Outcome
after_response r o = record { error = o.error; sent = r ∷ o.sent }

module _ (env : Environment) where
  -- The first request names the invocation.
  unfoldable pub start_with : StreamId → Result Status (StreamId × EventParser)
  start_with id =
      if id.invocation_id == ""
      then err missing_invocation_id
      else ok (id, new_event_parser (new_record id.invocation_id env.started_at))

  unfoldable pub start : Option StreamId → Result Status (StreamId × EventParser)
  unfolding start_with
  start none = err missing_invocation_id
  start (some id) = start_with id

  -- The responses, from the n-th call of `Send` on.
  unfoldable pub send_acks : StreamId → ℕ → List ℤ → Outcome
  send_acks id n [] = record { error = none; sent = [] }
  send_acks id n (ack ∷ acks) = elim (env.send n) [
    | some e ↦ fails (send_error e)
    | none ↦
        after_response (record { stream_id = id; sequence_number = ack })
          (send_acks id (suc n) acks)
  ]

module _ (B : Blobstore) (I : Indexer) (env : Environment) where
  pub record BuildEventServer : Type 0 where
    pub store : Store B
    pub index : I.State

  unfoldable pub store_event :
      StreamId
      → Result Error BuildEvent
      → EventParser
      → BuildEventServer
      → EventParser × BuildEventServer
  store_event id (err e) p s = (p, s)
  store_event id (ok event) p s = (
    parse_event env.urls p event,
    record s { store = (append_event B env.json id.invocation_id event s.store).1 },
  )

  unfoldable pub receive_event :
      StreamId → Option Bytes → EventParser → BuildEventServer → EventParser × BuildEventServer
  unfolding store_event
  receive_event id none p s = (p, s)
  receive_event id (some any) p s = store_event id (env.unmarshal_to any) p s

  unfoldable pub finish_complete :
      StreamId → EventParser → List ℤ → BuildEventServer → Outcome × BuildEventServer
  finish_complete id p acks s =
      let summary = record p.rec { updated_at = env.finished_at } in
      (
        send_acks env id 0 acks,
        record {
          store = (finalize B id.invocation_id s.store).1;
          index = (I.upsert summary s.index).1;
        },
      )

  unfoldable pub finish :
      StreamId → EventParser → List ℤ → BuildEventServer → Outcome × BuildEventServer
  unfolding finish_complete
  finish id p acks s = elim (check_acks id.invocation_id 0 (sort acks)) [
    | some mismatch ↦ (fails mismatch, s)
    | none ↦ finish_complete id p (sort acks) s
  ]

  -- The loop, once the stream's id is known.
  unfoldable pub receive :
      StreamId
      → EventParser
      → List ℤ
      → List Request
      → End
      → BuildEventServer
      → Outcome × BuildEventServer
  unfolding finish receive_event
  receive id p acks [] eof s = finish id p acks s
  receive id p acks [] (broken e) s = (fails (recv_error e), s)
  receive id p acks (r ∷ requests) end s =
      let (p', s') = receive_event id r.bazel_event p s in
      receive id p' (acks ++ r.sequence_number ∷ []) requests end s'

  unfoldable pub publish : List Request → End → BuildEventServer → Outcome × BuildEventServer
  unfolding receive
  publish [] eof s = (record { error = none; sent = [] }, s)
  publish [] (broken e) s = (fails (recv_error e), s)
  publish (r ∷ requests) end s = elim (start env r.stream_id) [
    | err e ↦ (fails e, s)
    | ok (id, p) ↦ receive id p [] (r ∷ requests) end s
  ]
