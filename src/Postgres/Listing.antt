-- ===== src/Postgres/Listing.antt =====
-- What the statement that `List` of src/index/postgres/postgres.go builds asks for.
use bepper.Base.{
  ℕ, suc, String, ◌≡◌, refl, sym, ap, ◌∙◌, Bool, true, false, not, ◌&&◌, ◌==◌, ◌≤◌, Option, none,
  some, List, [], ◌∷◌, ◌++◌, map, length, length-append, take, All, All-append, All-map, Bool-cases,
  inl, inr, arith,
}
use bepper.Base.Int.{pos_part, ltb_ℤ}
use bepper.Base.Result.{ok}
use bepper.Base.Text.{◌⧺◌}
use bepper.Base.SortBy.{sort_by}
use bepper.Events.{Time}
use bepper.Index.Indexer.{ListOptions}
use bepper.Postgres.{
  Row, record_of, Arg, text, time, number, Condition, any_column_like, succeeded, not_succeeded,
  created_before, created_since, Query, add_arg, add_time, add_text, add_status, where_clause,
  limit_of, list_query, timestamptz, scan_all, list_invocations,
}
use bepper.Postgres.Semantics.{
  arg_at, arg_at-append, arg_at-last, placeholder, keep_if, any_like, like_arg, before_arg,
  since_arg, satisfies, all_hold, before_option, since_option, has_status, matches_query, selects,
  limit_arg, execute, newer,
}

&&_identity : (a : Bool) → (a && true) ≡ a
&&_identity true = refl
&&_identity false = refl

&&_assoc : (a b c : Bool) → (a && b && c) ≡ (a && (b && c))
&&_assoc true b c = refl
&&_assoc false b c = refl

module _ (ilike : (column sought : String) → Bool) where
  satisfies-append :
      (args more : List Arg) (row : Row) (c : Condition)
      → placeholder c ≤ length args
      → satisfies ilike (args ++ more) row c ≡ satisfies ilike args row c
  satisfies-append args more row (any_column_like n) h =
      ap (like_arg ilike row) (arg_at-append n args more h)
  satisfies-append args more row succeeded h = refl
  satisfies-append args more row not_succeeded h = refl
  satisfies-append args more row (created_before n) h =
      ap (before_arg row) (arg_at-append n args more h)
  satisfies-append args more row (created_since n) h =
      ap (since_arg row) (arg_at-append n args more h)

  all_hold-args :
      (args more : List Arg) (row : Row) (cs : List Condition)
      → All (λ c. placeholder c ≤ length args) cs
      → all_hold ilike (args ++ more) row cs ≡ all_hold ilike args row cs
  all_hold-args args more row [] h = refl
  all_hold-args args more row (c ∷ cs) (h, hs) =
      rw (satisfies-append args more row c h, all_hold-args args more row cs hs) refl

  all_hold-append :
      (args : List Arg) (row : Row) (cs : List Condition) (c : Condition)
      → all_hold ilike args row (cs ++ c ∷ [])
        ≡ (all_hold ilike args row cs && satisfies ilike args row c)
  all_hold-append args row [] c = &&_identity (satisfies ilike args row c)
  all_hold-append args row (d ∷ cs) c = rw (all_hold-append args row cs c) (
      sym (
        &&_assoc (satisfies ilike args row d) (all_hold ilike args row cs)
          (satisfies ilike args row c)))

  -- The placeholders have their arguments, and the conditions so far have this value at a row.
  record Means (q : Query) (row : Row) (value : Bool) : Type 0 where
    placed : All (λ c. placeholder c ≤ length q.args) q.conditions
    holds : all_hold ilike q.args row q.conditions ≡ value

  add_arg-Means :
      (q : Query) (row : Row) (value extra : Bool) (arg : Arg) (condition : ℕ → Condition)
      → ((n : ℕ) → placeholder (condition n) ≡ n)
      → satisfies ilike (q.args ++ arg ∷ []) row (condition (suc (length q.args))) ≡ extra
      → Means q row value
      → Means (add_arg arg condition q) row (value && extra)
  unfolding add_arg
  add_arg-Means q row value extra arg condition own new_holds means =
      let longer = length-append q.args (arg ∷ []) in
      let new = condition (suc (length q.args)) in
      record {
        placed =
            All-append (λ c. placeholder c ≤ length (q.args ++ arg ∷ [])) q.conditions (new ∷ [])
              (All-map (λ c. placeholder c ≤ length q.args)
                (λ c. placeholder c ≤ length (q.args ++ arg ∷ [])) (λ c h. omega (arith, h, longer))
                q.conditions means.placed)
              (omega (arith, own (suc (length q.args)), longer), tt);
        holds =
            all_hold-append (q.args ++ arg ∷ []) row q.conditions new
            ∙ ap (λ b. b && satisfies ilike (q.args ++ arg ∷ []) row new)
                (all_hold-args q.args (arg ∷ []) row q.conditions means.placed ∙ means.holds)
            ∙ ap (λ b. value && b) new_holds;
      }

  add_condition-Means :
      (q : Query) (row : Row) (value : Bool) (c : Condition)
      → placeholder c ≡ 0
      → Means q row value
      → Means
          (record q { conditions = q.conditions ++ c ∷ [] })
          row
          (value && satisfies ilike q.args row c)
  add_condition-Means q row value c nullary means = record {
    placed =
        All-append (λ d. placeholder d ≤ length q.args) q.conditions (c ∷ []) means.placed
          (omega (arith, nullary), tt);
    holds =
        all_hold-append q.args row q.conditions c
        ∙ ap (λ b. b && satisfies ilike q.args row c) means.holds;
  }

  unchanged-Means :
      (q : Query) (row : Row) (value : Bool) → Means q row value → Means q row (value && true)
  unchanged-Means q row value means = record {
    placed = means.placed;
    holds = means.holds ∙ sym (&&_identity value);
  }

  add_text-Means :
      (q : Query) (row : Row) (value : Bool) (sought : String)
      → Means q row value
      → Means (add_text sought q) row (value && matches_query ilike sought row)
  unfolding add_text
  add_text-Means q row value sought means = elim (Bool-cases (sought == "")) [
    | inl absent ↦ simp absent (unchanged-Means q row value means)
    | inr present ↦
        let arg = text ("%" ⧺ sought ⧺ "%") in
        simp present (
          add_arg-Means q row value (any_like ilike row ("%" ⧺ sought ⧺ "%")) arg any_column_like
            (λ n. refl) (ap (like_arg ilike row) (arg_at-last q.args arg)) means)
  ]

  add_before-Means :
      (q : Query) (row : Row) (value : Bool) (t : Option Time)
      → Means q row value
      → Means (add_time t created_before q) row (value && before_option t row)
  unfolding add_time
  add_before-Means q row value none means = unchanged-Means q row value means
  add_before-Means q row value (some t) means =
      add_arg-Means q row value (ltb_ℤ row.created_at (timestamptz t)) (time t) created_before
        (λ n. refl) (ap (before_arg row) (arg_at-last q.args (time t))) means

  add_since-Means :
      (q : Query) (row : Row) (value : Bool) (t : Option Time)
      → Means q row value
      → Means (add_time t created_since q) row (value && since_option t row)
  unfolding add_time
  add_since-Means q row value none means = unchanged-Means q row value means
  add_since-Means q row value (some t) means =
      add_arg-Means q row value (not (ltb_ℤ row.created_at (timestamptz t))) (time t) created_since
        (λ n. refl) (ap (since_arg row) (arg_at-last q.args (time t))) means

  add_status-Means :
      (q : Query) (row : Row) (value : Bool) (status : String)
      → Means q row value
      → Means (add_status status q) row (value && has_status status row)
  unfolding add_status
  add_status-Means q row value status means = elim (Bool-cases (status == "success")) [
    | inl success ↦ simp success (add_condition-Means q row value succeeded refl means)
    | inr other ↦ elim (Bool-cases (status == "failure")) [
      | inl failure ↦
          simp (other, failure) (add_condition-Means q row value not_succeeded refl means)
      | inr any ↦ simp (other, any) (unchanged-Means q row value means)
    ]
  ]

  where_clause-Means :
      (opts : ListOptions) (row : Row) → Means (where_clause opts) row (selects ilike opts row)
  unfolding where_clause
  where_clause-Means opts row = add_before-Means _ row _ opts.until (
      add_since-Means _ row _ opts.since (
        add_before-Means _ row _ opts.before (
          add_status-Means _ row _ opts.status (
            add_text-Means (record { conditions = []; args = [] }) row true opts.query
              (record { placed = tt; holds = refl })))))

  pub keep_if-same :
      (f g : Row → Bool)
      → ((row : Row) → f row ≡ g row)
      → (rows : List Row) → keep_if f rows ≡ keep_if g rows
  keep_if-same f g same [] = refl
  keep_if-same f g same (row ∷ rows) = rw (same row, keep_if-same f g same rows) refl

  scan_all-map : (rows : List Row) → scan_all (map ok rows) ≡ ok (map record_of rows)
  unfolding scan_all
  scan_all-map [] = refl
  scan_all-map (row ∷ rows) = rw (scan_all-map rows) refl

  limited :
      (opts : ListOptions) (row : Row)
      → all_hold ilike ((list_query opts).args) row ((list_query opts).conditions)
        ≡ selects ilike opts row
  unfolding list_query
  limited opts row =
      let means = where_clause-Means opts row in
      all_hold-args (where_clause opts).args (number (limit_of opts) ∷ []) row
        (where_clause opts).conditions means.placed
      ∙ means.holds

  limit_arg-list_query :
      (opts : ListOptions)
      → limit_arg (arg_at (list_query opts).limit (list_query opts).args) ≡ pos_part (limit_of opts)
  unfolding list_query
  limit_arg-list_query opts =
      ap limit_arg (arg_at-last (where_clause opts).args (number (limit_of opts)))

  -- What List gives: the newest of the rows that the statement selects.
  pub list_invocations-newest :
      (arrange : List Row → List Row) (rows : List Row) (opts : ListOptions)
      → list_invocations (λ q. ok (execute ilike arrange rows q)) opts
        ≡ ok (
            map record_of (
              take
                (pos_part (limit_of opts))
                (sort_by newer (arrange (keep_if (selects ilike opts) rows)))))
  unfolding list_invocations list_query
  list_invocations-newest arrange rows opts =
      rw
        (
          limit_arg-list_query opts,
          keep_if-same
              (λ row. all_hold ilike (list_query opts).args row (list_query opts).conditions)
              (selects ilike opts) (limited opts) rows,
          scan_all-map (
              take (pos_part (limit_of opts))
                (sort_by newer (arrange (keep_if (selects ilike opts) rows)))),
        )
        refl
