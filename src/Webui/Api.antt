-- ===== src/Webui/Api.antt =====
-- src/webui/webui.go: the handlers of GET /api/invocations and /api/invocations/{id}. The functions
-- of packages strconv and time are parameters.
use bepper.Base.{String, Bool, Option, none, some, List, map, ◌==◌, if◌then◌else◌}
use bepper.Base.Dict.{Dict, lookup}
use bepper.Base.Int.{ℤ, pos, leb_ℤ}
use bepper.Base.Result.{Result, ok, err}
use bepper.Base.Text.{or_else}
use bepper.Blobstore.{Error}
use bepper.Events.{Time}
use bepper.Index.Indexer.{Indexer, ListOptions}
use bepper.Index.Record.{Record}

-- strconv.Atoi, time.Parse and Time.Format with the layout time.RFC3339Nano.
pub record Conversions : Type 0 where
  pub atoi : String → Option ℤ
  pub parse_time : String → Option Time
  pub format_time : Time → String

-- What a handler of the API replies.
pub data ApiReply (A : Type 0) : Type 0 where
  server_error : Error → ApiReply A
  not_found : ApiReply A
  body : A → ApiReply A

abbrev pub default_list_limit : ℤ
default_list_limit = pos 50

pub record InvocationDto : Type 0 where
  pub id : String
  pub command : String
  pub pattern : List String
  pub tags : List String
  pub user : String
  pub host : String
  pub role : String
  pub repo_url : String
  pub branch_name : String
  pub commit_sha : String
  pub parent_run_id : String
  pub run_id : String
  pub success : Bool
  pub bazel_exit_code : String
  pub duration_usec : ℤ
  pub action_count : ℤ
  pub created_at : String
  pub updated_at : String

abbrev pub positive : Option ℤ → Option ℤ
positive none = none
positive (some n) = if leb_ℤ n (pos 0) then none else some n

module _ (conv : Conversions) where
  unfoldable pub to_dto : Record → InvocationDto
  to_dto rec = record {
    id = rec.invocation_id;
    command = rec.command;
    pattern = rec.pattern;
    tags = rec.tags;
    user = rec.user;
    host = rec.host;
    role = rec.role;
    repo_url = rec.repo_url;
    branch_name = rec.branch_name;
    commit_sha = rec.commit_sha;
    parent_run_id = rec.parent_run_id;
    run_id = rec.run_id;
    success = rec.success;
    bazel_exit_code = rec.bazel_exit_code;
    duration_usec = rec.duration_usec;
    action_count = rec.action_count;
    created_at = conv.format_time rec.created_at;
    updated_at = conv.format_time rec.updated_at;
  }

  -- The handlers see a request by its query.
  unfoldable pub parse_time_param : Dict String → String → Option Time
  parse_time_param query name =
      let v = or_else "" (lookup name query) in if v == "" then none else conv.parse_time v

  unfoldable pub parse_limit : String → ℤ
  parse_limit v =
      if v == "" then default_list_limit else or_else default_list_limit (positive (conv.atoi v))

  unfoldable pub list_options : Dict String → ListOptions
  list_options query = record {
    limit = parse_limit (or_else "" (lookup "limit" query));
    query = or_else "" (lookup "q" query);
    status = or_else "" (lookup "status" query);
    before = parse_time_param query "before";
    since = parse_time_param query "since";
    until = parse_time_param query "until";
  }

  unfoldable pub reply_list : Result Error (List Record) → ApiReply (List InvocationDto)
  reply_list (err e) = server_error e
  reply_list (ok recs) = body (map to_dto recs)

  unfoldable pub reply_get : Result Error (Option Record) → ApiReply InvocationDto
  reply_get (err e) = server_error e
  reply_get (ok none) = not_found
  reply_get (ok (some rec)) = body (to_dto rec)

  module _ (I : Indexer) where
    unfoldable pub list_invocations :
        Dict String → I.State → ApiReply (List InvocationDto) × I.State
    list_invocations query s =
        let (recs, after) = I.list (list_options query) s in (reply_list recs, after)

    unfoldable pub get_invocation : String → I.State → ApiReply InvocationDto × I.State
    get_invocation id s = let (rec, after) = I.get id s in (reply_get rec, after)
