-- ===== src/Webui/Indexed.antt =====
-- What the handlers of src/webui/webui.go show of invocations in the index of
-- src/index/postgres/postgres.go.
use bepper.Base.{
  ℕ, zero, suc, String, ◌≡◌, ◌≢◌, refl, ap, subst, Bool, true, ◌&&◌, none, some, List, [], ◌∷◌, map,
  take, All, All-map, &&-true, Bool-cases, inl, inr,
}
use bepper.Base.Dict.{Dict, lookup}
use mathlib.Core.List.Permᴰ.{symm}
use bepper.Base.SortBy.{sort_by, sort_by-Perm, All-Perm}
use bepper.Base.Int.{pos_part, ltb_ℤ, ltb_ℤ-floor}
use bepper.Base.Result.{ok}
use bepper.Base.Text.{not_empty}
use bepper.Blobstore.{Blobstore}
use bepper.Events.{Time}
use bepper.Index.Indexer.{ListOptions}
use bepper.Index.Parser.{parse_events}
use bepper.Index.Record.{Record}
use bepper.Postgres.{Row, Table, Driver, postgres_index, record_of, limit_of}
use bepper.Postgres.Listing.{list_invocations-newest}
use bepper.Postgres.Semantics.{
  matches_query, has_status, before_option, since_option, selects, execute, keep_if, newer,
}
use bepper.Server.{StreamId, Request, Environment}
use bepper.Server.Loop.{events_of, first_parser}
use bepper.Webui.Api.{
  Conversions, InvocationDto, body, to_dto, reply_list, list_options, parse_time_param,
  list_invocations,
}

-- A driver without errors, for a way to order rows and a reading of ILIKE.
abbrev pub working : (String → String → Bool) → (List Row → List Row) → (Table → List Row) → Driver
working ilike arrange rows = record {
  exec_error = λ table. none;
  query_row_error = λ table. none;
  query_context = λ table q. ok (execute ilike arrange (rows table) q);
}

-- The record of a stream, as its parser leaves it at the end.
abbrev pub parsed : Environment → StreamId → List Request → Record
parsed env id requests =
    record (parse_events env.urls (first_parser env id) (events_of env requests)).rec {
      updated_at = env.finished_at;
    }

module _ (quote : String → String) (conv : Conversions) (ilike : String → String → Bool)
    (arrange : List Row → List Row) (rows : Table → List Row) where
  -- The row's record, which was created before this time.
  abbrev pub ShowsOlder : Time → InvocationDto → Type 0
  ShowsOlder t dto =
      (row : Row) × (dto ≡ to_dto conv (record_of row)) × (ltb_ℤ row.created_at t ≡ true)

  All-take : {A : Type 0} (P : A → Type 0) (n : ℕ) (xs : List A) → All P xs → All P (take n xs)
  All-take P zero xs h = tt
  All-take P (suc n) [] h = tt
  All-take P (suc n) (x ∷ xs) (h, hs) = (h, All-take P n xs hs)

  All-keep_if :
      (test : Row → Bool) (kept : List Row) → All (λ row. test row ≡ true) (keep_if test kept)
  All-keep_if test [] = tt
  All-keep_if test (row ∷ kept) = elim (Bool-cases (test row)) [
    | inl passes ↦ simp passes (refl, All-keep_if test kept)
    | inr fails ↦ rw fails (All-keep_if test kept)
  ]

  selects-before :
      (opts : ListOptions) (row : Row) (t : Time)
      → opts.before ≡ some t
      → selects ilike opts row ≡ true
      → ltb_ℤ row.created_at t ≡ true
  selects-before opts row t set h =
      let (h1, _) =
        &&-true
          (matches_query ilike opts.query row
            && has_status opts.status row
            && before_option opts.before row
            && since_option opts.since row)
          (before_option opts.until row) h in
      let (h2, _) =
        &&-true
          (matches_query ilike opts.query row
            && has_status opts.status row
            && before_option opts.before row)
          (since_option opts.since row) h1 in
      let (_, h3) =
        &&-true (matches_query ilike opts.query row && has_status opts.status row)
          (before_option opts.before row) h2 in
      ltb_ℤ-floor row.created_at t (subst (λ o. before_option o row ≡ true) set h3)

  shown-Older :
      (t : Time) (found : List Row)
      → All (λ row. ltb_ℤ row.created_at t ≡ true) found
      → All (ShowsOlder t) (map (to_dto conv) (map record_of found))
  shown-Older t [] h = tt
  shown-Older t (row ∷ found) (h, hs) = ((row, refl, h), shown-Older t found hs)

  before_cursor :
      (query : Dict String) (last : Record)
      → conv.parse_time (conv.format_time last.created_at) ≡ some last.created_at
      → conv.format_time last.created_at ≢ ""
      → lookup "before" query ≡ some (to_dto conv last).created_at
      → (list_options conv query).before ≡ some last.created_at
  unfolding list_options parse_time_param to_dto
  before_cursor query last parses given sent =
      rw (sent, not_empty (conv.format_time last.created_at) given) parses

  All-sort_by : (P : Row → Type 0) (found : List Row) → All P found → All P (sort_by newer found)
  All-sort_by P found h =
      All-Perm newer P found (sort_by newer found) (symm (sort_by-Perm newer found)) h

  -- With the time of creation that the list shows for an invocation as `before`, the list goes on with
  -- invocations that were created before that one. Go's RFC 3339 must read back this time as it
  -- writes it, and Postgres must return rows that it has selected.
  pub next_page_is_older :
      (query : Dict String) (table : Table) (last : Record)
      → conv.parse_time (conv.format_time last.created_at) ≡ some last.created_at
      → conv.format_time last.created_at ≢ ""
      → lookup "before" query ≡ some (to_dto conv last).created_at
      → ((P : Row → Type 0) (found : List Row) → All P found → All P (arrange found))
      → (dtos : List InvocationDto) × ((list_invocations conv
            (postgres_index quote (working ilike arrange rows))
            query
            table).0
          ≡ body dtos)
        × All (ShowsOlder last.created_at) dtos
  unfolding list_invocations reply_list
  next_page_is_older query table last parses given sent arranged =
      let opts = list_options conv query in
      let found =
        take (pos_part (limit_of opts))
          (sort_by newer (arrange (keep_if (selects ilike opts) (rows table)))) in
      let sorted = λ (P : Row → Type 0) (kept : List Row) (h : All P kept).
        All-sort_by P (arrange kept) (arranged P kept h) in
      let older =
        All-take (λ row. ltb_ℤ row.created_at last.created_at ≡ true) (pos_part (limit_of opts))
          (sort_by newer (arrange (keep_if (selects ilike opts) (rows table))))
          (sorted (λ row. ltb_ℤ row.created_at last.created_at ≡ true)
            (keep_if (selects ilike opts) (rows table))
            (All-map (λ row. selects ilike opts row ≡ true)
              (λ row. ltb_ℤ row.created_at last.created_at ≡ true)
              (λ row h.
                selects-before opts row last.created_at (before_cursor query last parses given sent)
                  h)
              (keep_if (selects ilike opts) (rows table))
              (All-keep_if (selects ilike opts) (rows table)))) in
      (
        map (to_dto conv) (map record_of found),
        ap (reply_list conv) (list_invocations-newest ilike arrange (rows table) opts),
        shown-Older last.created_at found older,
      )
