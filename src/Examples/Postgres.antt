-- ===== src/Examples/Postgres.antt =====
-- An invocation that is indexed twice, and a list of the failed ones.
use bepper.Base.{String, ◌≡◌, refl, false, none, some, List, [], ◌∷◌}
use bepper.Base.Dict.{lookup}
use bepper.Base.Int.{ℤ, pos, negsuc, floor_thousands}
use bepper.Base.Result.{ok}
use bepper.Base.Text.{split, join}
use mathlib.Core.List.{Permᴰ}
use mathlib.Core.List.Permᴰ
use bepper.Index.Indexer.{ListOptions}
use bepper.Index.Record.{Record}
use bepper.Postgres.{Table, row_of, record_of, upsert, get, scanned, split_list}
use bepper.Postgres.Rows.{get-upsert}

abbrev built_at : ℤ → String → Record
built_at time command = record {
  invocation_id = "i1";
  host = "h";
  user = "u";
  role = "";
  repo_url = "";
  branch_name = "main";
  commit_sha = "";
  command = command;
  pattern = "//a" ∷ "//b" ∷ [];
  tags = [];
  parent_run_id = "";
  run_id = "";
  success = false;
  bazel_exit_code = "1";
  duration_usec = pos 5;
  action_count = pos 1;
  created_at = time;
  updated_at = time;
}

abbrev once : Table
once = ("i1", row_of (built_at (pos 10000) "build")) ∷ []

get-upsert_example :
    get (λ s. s) none "i1" (upsert (λ s. s) none (built_at (pos 20999) "test") once).1
    ≡ ok (some (record (built_at (pos 20000) "test") { created_at = pos 10000 }))
unfolding row_of get lookup scanned record_of join split_list split floor_thousands
get-upsert_example =
    get-upsert (λ s. s) (built_at (pos 20999) "test") "i1" once
      (((refl, (refl, (refl, tt))), ((refl, (refl, (refl, tt))), tt)), λ e. cc) (tt, λ e. cc)

abbrev failures : ListOptions
failures = record {
  limit = negsuc 0;
  query = "BUILD";
  status = "failure";
  before = none;
  since = some (pos 5000);
  until = some (pos 15999);
}
