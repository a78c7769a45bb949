-- ===== src/Server/Streams.antt =====
-- Whole streams: when a stream is acknowledged, and what is indexed for it.
use mathlib.Core.List.{Permᴰ}
use bepper.Base.{
  ℕ, ◌≡◌, ◌↔◌, ◌≢◌, refl, sym, ap, ◌∙◌, none, some, List, [], ◌∷◌, map, length, Option-cases, inl,
  inr,
}
use bepper.Base.Sort.{sort}
use bepper.Base.Result.{ok, Result-cases}
use bepper.Blobstore.{Blobstore}
use bepper.Index.Indexer.{Indexer}
use bepper.Index.Parser.{EventParser, parse_events}
use bepper.Server.Acks.{count_from, sorted_acks, response, send_acks-all, send_acks-no_error}
use bepper.Server.Defs.{
  StreamId, Request, Environment, Outcome, Status, End, eof, broken, BuildEventServer, check_acks,
  fails, start, finish, finish_complete, publish,
}
use bepper.Server.Loop.{
  IsContiguous, numbers, events_of, storing, publish-eof, publish-broken, publish-refused,
  finish_accepted, finish-mismatch, first_parser, start-ok, length-numbers, IsContiguous-check,
}

module _ (B : Blobstore) (I : Indexer) (env : Environment) where
  finish-IsContiguous :
      (id : StreamId) (p : EventParser) (requests : List Request) (s : BuildEventServer B I env)
      → IsContiguous requests
      → finish B I env id p (numbers requests) s
        ≡ finish_complete B I env id p (count_from 0 (length requests)) s
  finish-IsContiguous id p requests s complete =
      let h = (IsContiguous-check id requests).1 complete in
      finish_accepted B I env id p (numbers requests) s h
      ∙ ap (λ l. finish_complete B I env id p l s)
          (sorted_acks id.invocation_id (numbers requests) h
            ∙ ap (count_from 0) (length-numbers requests))

  finish-error :
      (id : StreamId) (p : EventParser) (requests : List Request) (s : BuildEventServer B I env)
      → (finish B I env id p (numbers requests) s).0.error ≡ none
      → IsContiguous requests
  finish-error id p requests s h =
      elim (Option-cases (check_acks id.invocation_id 0 (sort (numbers requests)))) [
        | inl accepted ↦ (IsContiguous-check id requests).0 accepted
        | inr (e, mismatch) ↦
            cc (
              h,
              ap (λ r. r.0.error) (finish-mismatch B I env id p (numbers requests) e s mismatch),
            )
      ]

  module _ (id : StreamId) (r : Request) (requests : List Request) (s : BuildEventServer B I env)
      (named : r.stream_id ≡ some id) (not_empty : id.invocation_id ≢ "") where
    abbrev last_parser : EventParser
    last_parser = parse_events env.urls (first_parser env id) (events_of env (r ∷ requests))

    abbrev stored : BuildEventServer B I env
    stored = storing B I env id (events_of env (r ∷ requests)) s

    publish-finish :
        publish B I env (r ∷ requests) eof s
        ≡ finish B I env id last_parser (numbers (r ∷ requests)) stored
    publish-finish =
        publish-eof B I env id (first_parser env id) r requests s
          (start-ok env id r named not_empty)

    publish-accepted :
        (publish B I env (r ∷ requests) eof s).0.error ≡ none → IsContiguous (r ∷ requests)
    publish-accepted h =
        finish-error id last_parser (r ∷ requests) stored
          (ap (λ o. o.0.error) (sym publish-finish) ∙ h)

    pub publish_complete :
        IsContiguous (r ∷ requests)
        → publish B I env (r ∷ requests) eof s
          ≡ finish_complete B I env id last_parser (count_from 0 (length (r ∷ requests))) stored
    publish_complete complete =
        publish-finish ∙ finish-IsContiguous id last_parser (r ∷ requests) stored complete

  -- A stream of requests that ends and whose first request names an invocation is accepted
  -- without an error exactly if its sequence numbers are 1, ..., n in some order, ascending or not,
  -- where no call of `Send` fails.
  pub publish-IsContiguous :
      (id : StreamId) (r : Request) (requests : List Request) (s : BuildEventServer B I env)
      → r.stream_id ≡ some id
      → id.invocation_id ≢ ""
      → ((n : ℕ) → env.send n ≡ none)
      → ((publish B I env (r ∷ requests) eof s).0.error ≡ none) ↔ IsContiguous (r ∷ requests)
  publish-IsContiguous id r requests s named not_empty sends = (
    publish-accepted id r requests s named not_empty,
    λ complete.
        unfold finish_complete in
        ap (λ o. o.0.error) (publish_complete id r requests s named not_empty complete)
        ∙ send_acks-no_error env id 0 (count_from 0 (length (r ∷ requests))) sends,
  )

  -- If a stream ends without an error, and its first request names an invocation, the responses
  -- are the numbers 1, ..., n in ascending order with the id of the first request.
  publish-sent :
      (id : StreamId) (r : Request) (requests : List Request) (s : BuildEventServer B I env)
      → r.stream_id ≡ some id
      → id.invocation_id ≢ ""
      → (publish B I env (r ∷ requests) eof s).0.error ≡ none
      → (publish B I env (r ∷ requests) eof s).0.sent
        ≡ map (response id) (count_from 0 (length (r ∷ requests)))
  publish-sent id r requests s named not_empty success =
      let complete = publish-accepted id r requests s named not_empty success in
      let eq = publish_complete id r requests s named not_empty complete in
      unfold finish_complete in
      ap (λ o. o.0.sent) eq
      ∙ send_acks-all env id 0 (count_from 0 (length (r ∷ requests)))
          (ap (λ o. o.0.error) (sym eq) ∙ success)

  -- The handler fails; it has sent nothing and has left the index alone.
  abbrev IsRejected : Outcome × BuildEventServer B I env → BuildEventServer B I env → Type 0
  IsRejected r s = (r.0.error ≢ none) × (r.0.sent ≡ []) × (r.1.index ≡ s.index)

  IsRejected-fails : (e : Status) (s : BuildEventServer B I env) → IsRejected (fails e, s) s
  IsRejected-fails e s = (λ h. cc, refl, refl)

  finish-incomplete :
      (id : StreamId) (p : EventParser) (requests : List Request) (s : BuildEventServer B I env)
      → ¬ IsContiguous requests
      → IsRejected (finish B I env id p (numbers requests) s) s
  finish-incomplete id p requests s incomplete =
      elim (Option-cases (check_acks id.invocation_id 0 (sort (numbers requests)))) [
        | inl accepted ↦ absurd (incomplete ((IsContiguous-check id requests).0 accepted))
        | inr (e, mismatch) ↦
            rw (finish-mismatch B I env id p (numbers requests) e s mismatch) (IsRejected-fails e s)
      ]

  started_stream_fails :
      (id : StreamId) (p : EventParser) (r : Request) (requests : List Request) (end : End)
      (s : BuildEventServer B I env)
      → start env r.stream_id ≡ ok (id, p)
      → (end ≡ eof → ¬ IsContiguous (r ∷ requests))
      → IsRejected (publish B I env (r ∷ requests) end s) s
  started_stream_fails id p r requests eof s started incomplete =
      rw (publish-eof B I env id p r requests s started) (
        finish-incomplete id (parse_events env.urls p (events_of env (r ∷ requests))) (r ∷ requests)
          (storing B I env id (events_of env (r ∷ requests)) s) (incomplete refl))
  started_stream_fails id p r requests (broken e) s started incomplete =
      rw (publish-broken B I env id p r requests e s started) (λ h. cc, refl, refl)

  -- A stream that breaks off or whose sequence numbers are not 1, ..., n in some order fails; no
  -- response is sent and the index is left as it was.
  pub incomplete_stream_fails :
      (requests : List Request) (end : End) (s : BuildEventServer B I env)
      → (end ≡ eof → ¬ IsContiguous requests)
      → ((publish B I env requests end s).0.error ≢ none)
        × ((publish B I env requests end s).0.sent ≡ [])
        × ((publish B I env requests end s).1.index ≡ s.index)
  unfolding count_from
  incomplete_stream_fails [] eof s incomplete = absurd (incomplete refl Permᴰ.nil)
  incomplete_stream_fails [] (broken e) s incomplete =
      (unfold publish in λ h. cc, unfold publish in refl, unfold publish in refl)
  incomplete_stream_fails (r ∷ requests) end s incomplete =
      elim (Result-cases (start env r.stream_id)) [
        | inl (e, refused) ↦
            rw (publish-refused B I env e r requests end s refused) (IsRejected-fails e s)
        | inr ((id, p), started) ↦ started_stream_fails id p r requests end s started incomplete
      ]

  -- A complete stream leaves one upsert in the index: of the record that the parser makes of the
  -- stream's events, in their order, with the time of the end.
  pub complete_stream_is_indexed :
      (id : StreamId) (r : Request) (requests : List Request) (s : BuildEventServer B I env)
      → r.stream_id ≡ some id
      → id.invocation_id ≢ ""
      → IsContiguous (r ∷ requests)
      → (publish B I env (r ∷ requests) eof s).1.index
        ≡ (I.upsert
            (record (parse_events env.urls
              (first_parser env id)
              (events_of env (r ∷ requests))).rec { updated_at = env.finished_at })
            s.index).1
  complete_stream_is_indexed id r requests s named not_empty complete =
      unfold finish_complete in
      ap (λ o. o.1.index) (publish_complete id r requests s named not_empty complete)
