-- ===== src/Server/Loop.antt =====
-- What the loop of the handler has done when the stream ends.
use mathlib.Core.List.{Permᴰ, append_assoc, append-nil}
use bepper.Base.{
  String, ◌≡◌, ◌↔◌, ◌≢◌, refl, ap, ◌∙◌, subst, Option, none, some, List, [], ◌∷◌, ◌++◌, map, suc,
  eq_iff, arith, length,
}
use bepper.Base.Int.{ℤ}
use bepper.Base.Sort.{sort}
use bepper.Base.Result.{Result, ok, err}
use bepper.Blobstore.{Blobstore, Bytes, Error}
use bepper.Events.{BuildEvent}
use bepper.Index.Indexer.{Indexer}
use bepper.Index.Parser.{EventParser, new_event_parser, parse_event, parse_events}
use bepper.Server.Acks.{count_from, check_acks-sort}
use bepper.Server.Defs.{
  StreamId, Request, Environment, Status, End, eof, broken, BuildEventServer, check_acks, fails,
  start, store_event, receive_event, finish, finish_complete, receive, publish, recv_error,
  start_with, new_record,
}
use bepper.Store.RoundTrip.{Op, append, run}

-- The events of a stream whose Any can be unmarshalled; the others are only logged.
abbrev pub event_of : Result Error BuildEvent → List BuildEvent
event_of (ok event) = event ∷ []
event_of (err e) = []

abbrev pub event_in : Environment → Option Bytes → List BuildEvent
event_in env none = []
event_in env (some any) = event_of (env.unmarshal_to any)

abbrev pub events_of : Environment → List Request → List BuildEvent
events_of env [] = []
events_of env (r ∷ requests) = event_in env r.bazel_event ++ events_of env requests

abbrev pub numbers : List Request → List ℤ
numbers = map (λ r. r.sequence_number)

-- The sequence numbers are 1, 2, ..., n in some order.
abbrev pub IsContiguous : List Request → Type 0
IsContiguous requests = Permᴰ (numbers requests) (count_from 0 (length requests))

abbrev pub appends : String → List BuildEvent → List Op
appends id = map (append id)

module _ (B : Blobstore) (I : Indexer) (env : Environment) where
  -- The server after it has stored these events.
  abbrev pub storing :
      StreamId → List BuildEvent → BuildEventServer B I env → BuildEventServer B I env
  storing id events s = record s {
    store = run B env.json (appends id.invocation_id events) s.store;
  }

  store_event-eq :
      (id : StreamId) (r : Result Error BuildEvent) (p : EventParser) (s : BuildEventServer B I env)
      → store_event B I env id r p s
        ≡ (parse_events env.urls p (event_of r), storing id (event_of r) s)
  unfolding store_event run parse_events
  store_event-eq id (ok event) p s = refl
  store_event-eq id (err e) p s = refl

  receive_event-eq :
      (id : StreamId) (any : Option Bytes) (p : EventParser) (s : BuildEventServer B I env)
      → receive_event B I env id any p s
        ≡ (parse_events env.urls p (event_in env any), storing id (event_in env any) s)
  unfolding receive_event run parse_events
  receive_event-eq id none p s = refl
  receive_event-eq id (some any) p s = store_event-eq id (env.unmarshal_to any) p s

  storing-append :
      (id : StreamId) (xs ys : List BuildEvent) (s : BuildEventServer B I env)
      → storing id ys (storing id xs s) ≡ storing id (xs ++ ys) s
  unfolding run
  storing-append id [] ys s = refl
  storing-append id (x ∷ xs) ys s = storing-append id xs ys (storing id (x ∷ []) s)

  parse_events-append :
      (p : EventParser) (xs ys : List BuildEvent)
      → parse_events env.urls (parse_events env.urls p xs) ys ≡ parse_events env.urls p (xs ++ ys)
  unfolding parse_events
  parse_events-append p [] ys = refl
  parse_events-append p (x ∷ xs) ys = parse_events-append (parse_event env.urls p x) xs ys

  receive-step :
      (id : StreamId) (p : EventParser) (acks : List ℤ) (r : Request) (requests : List Request)
      (end : End) (s : BuildEventServer B I env)
      → receive B I env id p acks (r ∷ requests) end s
        ≡ receive B I env id
            (parse_events env.urls p (event_in env r.bazel_event))
            (acks ++ r.sequence_number ∷ [])
            requests
            end
            (storing id (event_in env r.bazel_event) s)
  unfolding receive
  receive-step id p acks r requests end s =
      ap (λ q. receive B I env id q.0 (acks ++ r.sequence_number ∷ []) requests end q.1)
        (receive_event-eq id r.bazel_event p s)

  -- The loop parses and stores the events of its requests, and notes their numbers.
  receive-end :
      (id : StreamId) (p : EventParser) (acks : List ℤ) (requests : List Request) (end : End)
      (s : BuildEventServer B I env)
      → receive B I env id p acks requests end s
        ≡ receive B I env id
            (parse_events env.urls p (events_of env requests))
            (acks ++ numbers requests)
            []
            end
            (storing id (events_of env requests) s)
  unfolding run parse_events
  receive-end id p acks [] end s = rw append-nil refl
  receive-end id p acks (r ∷ requests) end s =
      receive-step id p acks r requests end s
      ∙ receive-end id (parse_events env.urls p (event_in env r.bazel_event))
          (acks ++ r.sequence_number ∷ []) requests end (storing id (event_in env r.bazel_event) s)
      ∙ rw
          (
            parse_events-append p (event_in env r.bazel_event) (events_of env requests),
            storing-append id (event_in env r.bazel_event) (events_of env requests) s,
            append_assoc acks (r.sequence_number ∷ []) (numbers requests),
          )
          refl

  -- A stream whose first request names an invocation.
  publish-receive :
      (id : StreamId) (p : EventParser) (r : Request) (requests : List Request) (end : End)
      (s : BuildEventServer B I env)
      → start env r.stream_id ≡ ok (id, p)
      → publish B I env (r ∷ requests) end s
        ≡ receive B I env id
            (parse_events env.urls p (events_of env (r ∷ requests)))
            (numbers (r ∷ requests))
            []
            end
            (storing id (events_of env (r ∷ requests)) s)
  unfolding publish
  publish-receive id p r requests end s h =
      rw (publish, h) (receive-end id p [] (r ∷ requests) end s)

  pub publish-eof :
      (id : StreamId) (p : EventParser) (r : Request) (requests : List Request)
      (s : BuildEventServer B I env)
      → start env r.stream_id ≡ ok (id, p)
      → publish B I env (r ∷ requests) eof s
        ≡ finish B I env id
            (parse_events env.urls p (events_of env (r ∷ requests)))
            (numbers (r ∷ requests))
            (storing id (events_of env (r ∷ requests)) s)
  unfolding receive
  publish-eof id p r requests s h = publish-receive id p r requests eof s h

  pub publish-broken :
      (id : StreamId) (p : EventParser) (r : Request) (requests : List Request) (e : Error)
      (s : BuildEventServer B I env)
      → start env r.stream_id ≡ ok (id, p)
      → publish B I env (r ∷ requests) (broken e) s
        ≡ (fails (recv_error e), storing id (events_of env (r ∷ requests)) s)
  unfolding receive
  publish-broken id p r requests e s h = publish-receive id p r requests (broken e) s h

  pub publish-refused :
      (e : Status) (r : Request) (requests : List Request) (end : End)
      (s : BuildEventServer B I env)
      → start env r.stream_id ≡ err e
      → publish B I env (r ∷ requests) end s ≡ (fails e, s)
  unfolding publish
  publish-refused e r requests end s h = rw (publish, h) refl

  pub finish_accepted :
      (id : StreamId) (p : EventParser) (acks : List ℤ) (s : BuildEventServer B I env)
      → check_acks id.invocation_id 0 (sort acks) ≡ none
      → finish B I env id p acks s ≡ finish_complete B I env id p (sort acks) s
  unfolding finish
  finish_accepted id p acks s h = rw (finish, h) refl

  pub finish-mismatch :
      (id : StreamId) (p : EventParser) (acks : List ℤ) (e : Status) (s : BuildEventServer B I env)
      → check_acks id.invocation_id 0 (sort acks) ≡ some e
      → finish B I env id p acks s ≡ (fails e, s)
  unfolding finish
  finish-mismatch id p acks e s h = rw (finish, h) refl

-- The parser of a new stream.
abbrev pub first_parser : Environment → StreamId → EventParser
first_parser env id = new_event_parser (new_record id.invocation_id env.started_at)

pub start-ok :
    (env : Environment) (id : StreamId) (r : Request)
    → r.stream_id ≡ some id
    → id.invocation_id ≢ ""
    → start env r.stream_id ≡ ok (id, first_parser env id)
unfolding start start_with
start-ok env id r e ne = rw (e, start) (ground (arith, eq_iff id.invocation_id "", ne))

pub length-numbers : (requests : List Request) → length (numbers requests) ≡ length requests
length-numbers [] = refl
length-numbers (r ∷ requests) = ap suc (length-numbers requests)

pub IsContiguous-check :
    (id : StreamId) (requests : List Request)
    → (check_acks id.invocation_id 0 (sort (numbers requests)) ≡ none) ↔ IsContiguous requests
IsContiguous-check id requests =
    subst
      (λ n.
        (check_acks id.invocation_id 0 (sort (numbers requests)) ≡ none)
        ↔ Permᴰ (numbers requests) (count_from 0 n))
      (length-numbers requests) (check_acks-sort id.invocation_id (numbers requests))
