-- ===== src/Postgres/Semantics.antt =====
-- The statement of `List` in src/index/postgres/postgres.go as Postgres reads it, and what the
-- options ask for.
use bepper.Base.{
  ℕ, zero, suc, String, ◌≡◌, refl, Bool, true, false, not, ◌&&◌, ◌||◌, ◌==◌, ◌≤◌, Option, none,
  some, List, [], ◌∷◌, ◌++◌, map, length, take, if◌then◌else◌, arith,
}
use bepper.Base.Int.{pos_part, ltb_ℤ}
use bepper.Base.Result.{ok}
use bepper.Base.Text.{◌⧺◌, contains}
use bepper.Events.{Time}
use bepper.Index.Indexer.{ListOptions}
use bepper.Postgres.{
  Row, Arg, text, time, number, Condition, any_column_like, succeeded, not_succeeded,
  created_before, created_since, OrderBy, newest_first, oldest_first, Statement, timestamptz,
  Answer,
}
use bepper.Base.SortBy.{sort_by}

-- The argument of a placeholder; they are numbered from 1.
abbrev pub arg_at : ℕ → List Arg → Option Arg
arg_at zero args = none
arg_at (suc n) [] = none
arg_at (suc zero) (arg ∷ args) = some arg
arg_at (suc (suc n)) (arg ∷ args) = arg_at (suc n) args

pub arg_at-append :
    (n : ℕ) (args more : List Arg) → n ≤ length args → arg_at n (args ++ more) ≡ arg_at n args
arg_at-append zero args more h = refl
arg_at-append (suc n) [] more h = ground arith
arg_at-append (suc zero) (arg ∷ args) more h = refl
arg_at-append (suc (suc n)) (arg ∷ args) more h = arg_at-append (suc n) args more (omega (arith, h))

pub arg_at-last :
    (args : List Arg) (arg : Arg) → arg_at (suc (length args)) (args ++ arg ∷ []) ≡ some arg
arg_at-last [] arg = refl
arg_at-last (first ∷ args) arg = arg_at-last args arg

abbrev pub placeholder : Condition → ℕ
placeholder (any_column_like n) = n
placeholder succeeded = 0
placeholder not_succeeded = 0
placeholder (created_before n) = n
placeholder (created_since n) = n

abbrev pub keep_if : (Row → Bool) → List Row → List Row
keep_if test [] = []
keep_if test (row ∷ rows) = let rest = keep_if test rows in if test row then row ∷ rest else rest

abbrev pub before_arg : Row → Option Arg → Bool
before_arg row (some (time t)) = ltb_ℤ row.created_at (timestamptz t)
before_arg row _ = false

abbrev pub since_arg : Row → Option Arg → Bool
since_arg row (some (time t)) = not (ltb_ℤ row.created_at (timestamptz t))
since_arg row _ = false

-- What the options ask of a row.
abbrev pub before_option : Option Time → Row → Bool
before_option none row = true
before_option (some t) row = ltb_ℤ row.created_at (timestamptz t)

abbrev pub since_option : Option Time → Row → Bool
since_option none row = true
since_option (some t) row = not (ltb_ℤ row.created_at (timestamptz t))

abbrev pub has_status : String → Row → Bool
has_status status row =
    if status == "success"
    then row.success
    else if status == "failure"
    then not row.success
    else true

abbrev pub limit_arg : Option Arg → ℕ
limit_arg (some (number n)) = pos_part n
limit_arg _ = 0

-- A row that was created after another, or before it.
abbrev pub newer : Row → Row → Bool
newer a b = ltb_ℤ b.created_at a.created_at

abbrev pub older : Row → Row → Bool
older a b = ltb_ℤ a.created_at b.created_at

abbrev pub ordered : OrderBy → List Row → List Row
ordered newest_first rows = sort_by newer rows
ordered oldest_first rows = sort_by older rows

module _ (ilike : (column sought : String) → Bool) where
  abbrev pub any_like : Row → String → Bool
  any_like row sought =
      ilike row.command sought
      || ilike row.pattern sought
      || ilike row.repo_url sought
      || ilike row.branch_name sought
      || ilike row.user_name sought
      || ilike row.commit_sha sought

  abbrev pub like_arg : Row → Option Arg → Bool
  like_arg row (some (text sought)) = any_like row sought
  like_arg row _ = false

  abbrev pub satisfies : List Arg → Row → Condition → Bool
  satisfies args row (any_column_like n) = like_arg row (arg_at n args)
  satisfies args row succeeded = row.success
  satisfies args row not_succeeded = not row.success
  satisfies args row (created_before n) = before_arg row (arg_at n args)
  satisfies args row (created_since n) = since_arg row (arg_at n args)

  abbrev pub all_hold : List Arg → Row → List Condition → Bool
  all_hold args row [] = true
  all_hold args row (c ∷ conditions) = satisfies args row c && all_hold args row conditions

  abbrev pub matches_query : String → Row → Bool
  matches_query sought row = if sought == "" then true else any_like row ("%" ⧺ sought ⧺ "%")

  abbrev pub selects : ListOptions → Row → Bool
  selects opts row =
      matches_query opts.query row
      && has_status opts.status row
      && before_option opts.before row
      && since_option opts.since row
      && before_option opts.until row

  -- `arrange` is the order in which Postgres comes to the rows, which it keeps where ORDER BY does not
  -- tell them apart.
  module _ (arrange : List Row → List Row) (rows : List Row) where
    -- What Postgres answers.
    abbrev pub execute : Statement → Answer
    execute q = record {
      scans = map ok (
          take (limit_arg (arg_at q.limit q.args)) (
            ordered q.order_by (arrange (keep_if (λ row. all_hold q.args row q.conditions) rows))));
      rows_err = none;
    }

-- What the options ask of a row: their text is a substring of one of the six columns, whatever the
-- case of the letters.
module _ (fold_case : String → String) where
  abbrev pub holds : (column sought : String) → Bool
  holds column sought = contains (fold_case column) (fold_case sought)

  abbrev pub any_holds : Row → String → Bool
  any_holds row sought =
      holds row.command sought
      || holds row.pattern sought
      || holds row.repo_url sought
      || holds row.branch_name sought
      || holds row.user_name sought
      || holds row.commit_sha sought

  abbrev pub asks_for : ListOptions → Row → Bool
  asks_for opts row =
      (if opts.query == "" then true else any_holds row opts.query)
      && has_status opts.status row
      && before_option opts.before row
      && since_option opts.since row
      && before_option opts.until row
