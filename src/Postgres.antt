-- ===== src/Postgres.antt =====
-- src/index/postgres/postgres.go: the index in a table of Postgres. The statements are read as what
-- Postgres documents, and its times have whole microseconds; ILIKE and the order of rows that were
-- created at the same time are parameters.
pub mod Rows
pub mod Semantics
pub mod Listing
pub mod Selects
use bepper.Base.{
  ℕ, zero, suc, String, Bool, true, false, not, ◌&&◌, ◌||◌, ◌==◌, ◌+◌, Option, none, some, List, [],
  ◌∷◌, ◌++◌, map, length, take, if◌then◌else◌,
}
use bepper.Base.Dict.{Dict, lookup, insert}
use bepper.Base.Int.{ℤ, pos, pos_part, ltb_ℤ, leb_ℤ, floor_thousands}
use bepper.Base.Result.{Result, ok, err, with_context, ◌>>=◌}
use bepper.Base.Text.{◌⧺◌, join, split}
use bepper.Blobstore.{Error}
use bepper.Events.{Time}
use bepper.Index.Indexer.{Indexer, ListOptions}
use bepper.Index.Record.{Record}

abbrev pub list_separator : String
list_separator = "\u{1f}"

-- sql.Open, and the calls of a connection pool: Ping, and Exec of the schema.
pub record Database (Pool : Type 0) : Type 0 where
  pub open_pool : (dsn : String) → Result Error Pool
  pub ping : Pool → Result Error (Unit {0})
  pub migrate : Pool → Result Error (Unit {0})

unfoldable pub new : {Pool : Type 0} → Database Pool → (dsn : String) → Result Error Pool
new db dsn = do
  pool ← with_context "open postgres: " (db.open_pool dsn)
  reached ← with_context "ping postgres: " (db.ping pool)
  migrated ← with_context "migrate schema: " (db.migrate pool)
  ok pool

-- The columns of the table, in which the lists are texts.
pub record Row : Type 0 where
  pub invocation_id : String
  pub command : String
  pub pattern : String
  pub tags : String
  pub user_name : String
  pub host : String
  pub role : String
  pub repo_url : String
  pub branch_name : String
  pub commit_sha : String
  pub parent_run_id : String
  pub run_id : String
  pub success : Bool
  pub bazel_exit_code : String
  pub duration_usec : ℤ
  pub action_count : ℤ
  pub created_at : Time
  pub updated_at : Time

-- A time in a TIMESTAMPTZ column or an argument for one: the whole microseconds of the nanoseconds.
abbrev pub timestamptz : Time → Time
timestamptz t = floor_thousands t

-- The columns that the arguments of the INSERT fill.
unfoldable pub row_of : Record → Row
row_of rec = record {
  invocation_id = rec.invocation_id;
  command = rec.command;
  pattern = join list_separator rec.pattern;
  tags = join list_separator rec.tags;
  user_name = rec.user;
  host = rec.host;
  role = rec.role;
  repo_url = rec.repo_url;
  branch_name = rec.branch_name;
  commit_sha = rec.commit_sha;
  parent_run_id = rec.parent_run_id;
  run_id = rec.run_id;
  success = rec.success;
  bazel_exit_code = rec.bazel_exit_code;
  duration_usec = rec.duration_usec;
  action_count = rec.action_count;
  created_at = timestamptz rec.created_at;
  updated_at = timestamptz rec.updated_at;
}

unfoldable pub split_list : String → List String
split_list joined = if joined == "" then [] else split b'\x1f' joined

-- scanRecord, when Scan succeeds.
unfoldable pub record_of : Row → Record
record_of row = record {
  invocation_id = row.invocation_id;
  host = row.host;
  user = row.user_name;
  role = row.role;
  repo_url = row.repo_url;
  branch_name = row.branch_name;
  commit_sha = row.commit_sha;
  command = row.command;
  pattern = split_list row.pattern;
  tags = split_list row.tags;
  parent_run_id = row.parent_run_id;
  run_id = row.run_id;
  success = row.success;
  bazel_exit_code = row.bazel_exit_code;
  duration_usec = row.duration_usec;
  action_count = row.action_count;
  created_at = row.created_at;
  updated_at = row.updated_at;
}

-- The rows by their primary key.
abbrev pub Table : Type 0
Table = Dict Row

-- ON CONFLICT: every column but the key and created_at takes its new value.
unfoldable pub on_conflict : Option Row → Row → Row
on_conflict none row = row
on_conflict (some old) row = record row { created_at = old.created_at }

-- sql.ErrNoRows is the absent row.
unfoldable pub scanned : Option Row → Option Record
scanned none = none
scanned (some row) = some (record_of row)

module _ (quote : String → String) where
  -- `failure` is the error of ExecContext, if it has one; then the statement has done nothing.
  unfoldable pub upsert : Option Error → Record → Table → Option Error × Table
  upsert (some e) rec table =
      (some ("upsert invocation " ⧺ quote rec.invocation_id ⧺ ": " ⧺ e), table)
  upsert none rec table = (
    none,
    insert rec.invocation_id (on_conflict (lookup rec.invocation_id table) (row_of rec)) table,
  )

  unfoldable pub get : Option Error → String → Table → Result Error (Option Record)
  get (some e) id table = err ("get invocation " ⧺ quote id ⧺ ": " ⧺ e)
  get none id table = ok (scanned (lookup id table))

pub data Arg : Type 0 where
  text : String → Arg
  time : Time → Arg
  number : ℤ → Arg

-- A condition of the WHERE clause, with the number of its placeholder.
pub data Condition : Type 0 where
  any_column_like : ℕ → Condition
  succeeded : Condition
  not_succeeded : Condition
  created_before : ℕ → Condition
  created_since : ℕ → Condition

pub record Query : Type 0 where
  pub conditions : List Condition
  pub args : List Arg

-- Appends an argument, and a condition on its placeholder.
unfoldable pub add_arg : Arg → (ℕ → Condition) → Query → Query
add_arg arg condition q = record {
  conditions = q.conditions ++ condition (suc (length q.args)) ∷ [];
  args = q.args ++ arg ∷ [];
}

unfoldable pub add_time : Option Time → (ℕ → Condition) → Query → Query
add_time none condition q = q
add_time (some t) condition q = add_arg (time t) condition q

unfoldable pub add_text : String → Query → Query
add_text sought q =
    if sought == "" then q else add_arg (text ("%" ⧺ sought ⧺ "%")) any_column_like q

unfoldable pub add_status : String → Query → Query
add_status status q =
    if status == "success"
    then record q { conditions = q.conditions ++ succeeded ∷ [] }
    else if status == "failure"
    then record q { conditions = q.conditions ++ not_succeeded ∷ [] }
    else q

-- The WHERE clause, with the arguments so far.
unfoldable pub where_clause : ListOptions → Query
where_clause opts = add_time opts.until created_before (
    add_time opts.since created_since (
      add_time opts.before created_before
        (add_status opts.status (add_text opts.query (record { conditions = []; args = [] })))))

unfoldable pub limit_of : ListOptions → ℤ
limit_of opts = if leb_ℤ opts.limit (pos 0) then pos 50 else opts.limit

-- ORDER BY created_at, DESC or not.
pub data OrderBy : Type 0 where
  newest_first oldest_first : OrderBy

-- The whole statement, with the placeholder of LIMIT.
pub record Statement : Type 0 where
  pub conditions : List Condition
  pub args : List Arg
  pub order_by : OrderBy
  pub limit : ℕ

-- The last argument is the limit.
unfoldable pub list_query : ListOptions → Statement
list_query opts =
    let q = where_clause opts in
    record {
      conditions = q.conditions;
      args = q.args ++ number (limit_of opts) ∷ [];
      order_by = newest_first;
      limit = suc (length q.args);
    }

-- rows.Next and Scan for each row.
unfoldable pub scan_all : List (Result Error Row) → Result Error (List Record)
scan_all [] = ok []
scan_all (err e ∷ rows) = err ("scan invocation: " ⧺ e)
scan_all (ok row ∷ rows) = do out ← scan_all rows; ok (record_of row ∷ out)

-- What QueryContext gives: what Scan gives for each row, and rows.Err.
pub record Answer : Type 0 where
  pub scans : List (Result Error Row)
  pub rows_err : Option Error

abbrev pub or_rows_err : Option Error → List Record → Result Error (List Record)
or_rows_err none out = ok out
or_rows_err (some e) out = err e

unfoldable pub list_invocations :
    (Statement → Result Error Answer) → ListOptions → Result Error (List Record)
list_invocations query_context opts = do
  answer ← with_context "list invocations: " (query_context (list_query opts))
  out ← scan_all answer.scans
  or_rows_err answer.rows_err out

-- The driver: the errors of ExecContext and of QueryRowContext, and the answers of QueryContext.
pub record Driver : Type 0 where
  pub exec_error : Table → Option Error
  pub query_row_error : Table → Option Error
  pub query_context : Table → Statement → Result Error Answer

-- The store as an index.
abbrev pub postgres_index : (quote : String → String) → Driver → Indexer
postgres_index quote driver = record {
  State = Table;
  upsert = λ rec table. upsert quote (driver.exec_error table) rec table;
  get = λ id table. (get quote (driver.query_row_error table) id table, table);
  list = λ opts table. (list_invocations (driver.query_context table) opts, table);
}
