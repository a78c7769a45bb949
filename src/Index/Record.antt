-- ===== src/Index/Record.antt =====
-- src/index/record.go: the summary of one invocation.
use bepper.Base.{String, Bool, List}
use bepper.Base.Int.{ℤ}
use bepper.Events.{Time}

pub record Record : Type 0 where
  pub invocation_id : String
  pub host : String
  pub user : String
  pub role : String
  pub repo_url : String
  pub branch_name : String
  pub commit_sha : String
  pub command : String
  pub pattern : List String
  pub tags : List String
  pub parent_run_id : String
  pub run_id : String
  pub success : Bool
  pub bazel_exit_code : String
  pub duration_usec : ℤ
  pub action_count : ℤ
  pub created_at : Time
  pub updated_at : Time
