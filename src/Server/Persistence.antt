-- ===== src/Server/Persistence.antt =====
-- What is read from the store after the streams of an invocation.
use bepper.Base.{
  String, ◌≡◌, ◌≢◌, refl, sym, ap, ◌∙◌, subst, true, none, some, List, [], ◌∷◌, ◌++◌, eq_refl,
}
use bepper.Blobstore.{Blobstore, WriterLaws, Error}
use bepper.Events.{BuildEvent}
use bepper.Index.Indexer.{Indexer}
use bepper.Server.Defs.{
  StreamId, Request, Environment, eof, broken, BuildEventServer, finish_complete, publish,
}
use bepper.Server.Loop.{
  IsContiguous, events_of, appends, storing, publish-broken, first_parser, start-ok,
}
use bepper.Server.Streams.{publish_complete}
use bepper.Store.{Store, finalize, new, read_events}
use bepper.Store.Invariant.{Succeeds}
use bepper.Store.Json.{JsonLaws}
use bepper.Store.RoundTrip.{append, appended, run, Undisturbed, read_events-finalize}

appended-appends :
    (id : String) (events : List BuildEvent) → appended id (appends id events) ≡ events
appended-appends id [] = refl
appended-appends id (event ∷ events) =
    rw (eq_refl id) (ap (λ l. event ∷ l) (appended-appends id events))

module _ (B : Blobstore) (I : Indexer) (env : Environment) where
  -- A server with a store that has just been opened.
  abbrev pub new_server : B.State → I.State → BuildEventServer B I env
  new_server blobs index = record { store = new B blobs; index = index }

module _ (B : Blobstore) (laws : WriterLaws B) (I : Indexer) (env : Environment)
    (json_laws : JsonLaws env.json) where
  run-appends :
      (id : String) (xs ys : List BuildEvent) (s : Store B)
      → run B env.json (appends id ys) (run B env.json (appends id xs) s)
        ≡ run B env.json (appends id (xs ++ ys)) s
  unfolding run
  run-appends id [] ys s = refl
  run-appends id (x ∷ xs) ys s = run-appends id xs ys (run B env.json (append id x ∷ []) s)

  read-finalize :
      (id : String) (events : List BuildEvent) (blobs : B.State)
      → events ≢ []
      → Undisturbed B env.json id (appends id events) (new B blobs)
      → Succeeds (finalize B id (run B env.json (appends id events) (new B blobs)))
      → (read_events B env.json id
          (finalize B id (run B env.json (appends id events) (new B blobs))).1).0
        ≡ record { events = events; found = true; error = none }
  read-finalize id events blobs some_event u success =
      let same = appended-appends id events in
      subst
        (λ l.
          (read_events B env.json id
            (finalize B id (run B env.json (appends id events) (new B blobs))).1).0
          ≡ record { events = l; found = true; error = none })
        same
        (read_events-finalize B laws env.json json_laws id (appends id events) blobs u
          (λ e. some_event (sym same ∙ e)) success)

  -- After a stream whose first request names an invocation and whose sequence numbers are 1, ...,
  -- n in some order, the store of a server that was new
  -- reads back exactly the events of the stream that could be unmarshalled, in the order in which
  -- they arrived, if there is one and the appends and `Finalize` succeed.
  pub complete_stream_is_stored :
      (id : StreamId) (r : Request) (requests : List Request) (blobs : B.State) (index : I.State)
      → r.stream_id ≡ some id
      → id.invocation_id ≢ ""
      → IsContiguous (r ∷ requests)
      → events_of env (r ∷ requests) ≢ []
      → Undisturbed B env.json id.invocation_id
          (appends id.invocation_id (events_of env (r ∷ requests)))
          (new B blobs)
      → Succeeds (
          finalize B id.invocation_id (
            run B env.json (appends id.invocation_id (events_of env (r ∷ requests))) (new B blobs)))
      → (read_events B env.json id.invocation_id
          (publish B I env (r ∷ requests) eof (new_server B I env blobs index)).1.store).0
        ≡ record { events = events_of env (r ∷ requests); found = true; error = none }
  complete_stream_is_stored id r requests blobs index named not_empty complete some_event u
        success =
      unfold finish_complete in
      ap (λ o. (read_events B env.json id.invocation_id o.1.store).0)
        (publish_complete B I env id r requests (new_server B I env blobs index) named not_empty
          complete)
      ∙ read-finalize id.invocation_id (events_of env (r ∷ requests)) blobs some_event u success

  -- A stream that breaks off does not close the writer of its invocation: after it and then a
  -- complete stream for the same invocation, the store of a server that was new reads back the
  -- events of both streams one after the other, if there is one and the appends and `Finalize`
  -- succeed.
  pub retry_appends_to_the_first_attempt :
      (id : StreamId) (first r : Request) (firsts requests : List Request) (e : Error)
      (blobs : B.State) (index : I.State)
      → first.stream_id ≡ some id
      → r.stream_id ≡ some id
      → id.invocation_id ≢ ""
      → IsContiguous (r ∷ requests)
      → events_of env (first ∷ firsts) ++ events_of env (r ∷ requests) ≢ []
      → Undisturbed B env.json id.invocation_id
          (appends id.invocation_id
            (events_of env (first ∷ firsts) ++ events_of env (r ∷ requests)))
          (new B blobs)
      → Succeeds (
          finalize B id.invocation_id (
            run B env.json
              (appends id.invocation_id
                (events_of env (first ∷ firsts) ++ events_of env (r ∷ requests)))
              (new B blobs)))
      → (read_events B env.json id.invocation_id
          (publish B I env
            (r ∷ requests)
            eof
            (publish B I env
              (first ∷ firsts)
              (broken e)
              (new_server B I env blobs index)).1).1.store).0
        ≡ record {
          events = events_of env (first ∷ firsts) ++ events_of env (r ∷ requests);
          found = true;
          error = none;
        }
  retry_appends_to_the_first_attempt id first r firsts requests e blobs index named_first named
        not_empty complete some_event u success =
      let firsts_events = events_of env (first ∷ firsts) in
      let events = events_of env (r ∷ requests) in
      let s = new_server B I env blobs index in
      let stored = storing B I env id firsts_events s in
      let broken_off =
        ap (λ o. o.1)
          (publish-broken B I env id (first_parser env id) first firsts e s
            (start-ok env id first named_first not_empty)) in
      unfold finish_complete in
      ap
        (λ t.
          (read_events B env.json id.invocation_id
            (publish B I env (r ∷ requests) eof t).1.store).0)
        broken_off
      ∙ ap (λ o. (read_events B env.json id.invocation_id o.1.store).0)
          (publish_complete B I env id r requests stored named not_empty complete)
      ∙ ap (λ t. (read_events B env.json id.invocation_id (finalize B id.invocation_id t).1).0)
          (run-appends id.invocation_id firsts_events events s.store)
      ∙ read-finalize id.invocation_id (firsts_events ++ events) blobs some_event u success
