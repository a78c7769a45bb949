-- ===== src/Auth/Middleware.antt =====
-- src/auth/middleware.go: the handlers of the sign-on and the gate in front of the web UI. What
-- http.Redirect and the page's template make of their arguments is theirs.
pub mod Gate
pub mod Callback
pub mod Login
use bepper.Base.{ℕ, String, Bool, not, ◌||◌, Option, none, some, List, [], ◌∷◌, ◌==◌, if◌then◌else◌}
use bepper.Base.Int.{pos, ◌+ℤ◌}
use bepper.Base.Dict.{Dict, lookup}
use bepper.Base.Result.{Result, ok, err, check, required, or_error, ◌>>=◌}
use bepper.Base.Text.{◌⧺◌, has_prefix, cut_prefix, is_some, or_else}
use bepper.Blobstore.{Bytes, Error}
use bepper.Events.{Time}
use bepper.Index.GitUrl.{UrlPackage}
use bepper.Auth.Provider.{Authenticator, Claims}
use bepper.Auth.ReturnPath.{validate_return_path, local_path}
use bepper.Auth.Session.{
  Crypto, JsonCodec, Read, Session, LoginState, Cookie, session_lifetime, session_cookie,
  login_state_cookie, cleared_session_cookie, cleared_login_state_cookie, session_from_request,
  login_state_from_request,
}

-- The libraries that the handlers call.
pub record Libraries : Type 1 where
  pub crypto : Crypto
  pub session_json : JsonCodec Session
  pub login_json : JsonCodec LoginState
  pub urls : UrlPackage
  pub query_escape : String → String

-- What a handler sees of a request, with the time of its `time.Now` and its calls of rand.Read.
pub record Request : Type 0 where
  pub method : String
  pub path : String
  pub request_uri : String
  pub query : Dict String
  pub cookies : Dict String
  pub now : Time
  pub read : ℕ → Read

pub record PageData : Type 0 where
  pub tagline : String
  pub button_label : String
  pub button_href : String

-- The arguments of http.Error.
pub record Failure : Type 0 where
  pub message : String
  pub status : ℕ

-- `served` is what the wrapped handler replies.
pub data Reply (Served : Type 0) : Type 0 where
  failure : Failure → Reply Served
  redirect : String → Reply Served
  page : PageData → Reply Served
  identity : (email name : String) → Reply Served
  served : Served → Reply Served

pub record Response (Served : Type 0) : Type 0 where
  pub set_cookies : List Cookie
  pub reply : Reply Served

-- r.URL.Query().Get(key)
unfoldable pub query_value : Request → String → String
query_value r key = or_else "" (lookup key r.query)

abbrev pub bad_request : String → Failure
bad_request message = record { message = message; status = 400 }

abbrev pub authentication_failed : Failure
authentication_failed = record { message = "authentication failed"; status = 401 }

abbrev pub unauthorized : Failure
unauthorized = record { message = "unauthorized"; status = 401 }

abbrev pub internal_error : Failure
internal_error = record { message = "internal error"; status = 500 }

-- The patterns that Wrap registers. A pattern for GET matches HEAD too.
pub data Route : Type 0 where
  login callback logout me other : Route

unfoldable pub route : String → String → Route
route method path =
    if not ((method == "GET") || (method == "HEAD"))
    then other
    else if path == "/auth/login"
    then login
    else if path == "/auth/callback"
    then callback
    else if path == "/auth/logout"
    then logout
    else if path == "/auth/me"
    then me
    else other

module _ (lib : Libraries) where
  unfoldable pub random_token : Read → Result Error String
  random_token read = do token ← read 32; ok (lib.crypto.encode_to_string token)

  module _ (a : Authenticator) where
    unfoldable pub session_of : Request → Option Session
    session_of r = session_from_request lib.crypto lib.session_json r.now a.codec r.cookies

    unfoldable pub seal_login : Request → LoginState → Result Failure (LoginState × Cookie)
    seal_login r ls = do
      cookie ←
          or_error
            (login_state_cookie lib.crypto lib.login_json (r.read 2) a.codec a.secure_cookies ls)
            internal_error
      ok (ls, cookie)

    -- The state, the nonce and the cookie that holds them, or an internal error.
    unfoldable pub begin_login : Request → Result Failure (LoginState × Cookie)
    begin_login r = do
      state ← or_error (random_token (r.read 0)) internal_error
      nonce ← or_error (random_token (r.read 1)) internal_error
      let ls : LoginState = record {
        state = state;
        nonce = nonce;
        return_path = validate_return_path lib.urls (query_value r "return");
      }
      seal_login r ls

    -- The checks of the callback, from the state on.
    unfoldable pub authenticate : LoginState → Request → Result Failure Claims
    authenticate ls r = do
      same_state ← check (ls.state == query_value r "state") (bad_request "state mismatch")
      has_code ← check (not (query_value r "code" == "")) (bad_request "missing code")
      token ← or_error (a.oauth2_config.exchange (query_value r "code")) authentication_failed
      raw_id_token ← required token.id_token authentication_failed
      id_token ← or_error (a.verify raw_id_token) authentication_failed
      same_nonce ← check (id_token.nonce == ls.nonce) authentication_failed
      or_error id_token.claims authentication_failed

    unfoldable pub issue_session : Claims → Request → Result Failure Cookie
    issue_session claims r =
        or_error
          (session_cookie lib.crypto lib.session_json (r.read 0) a.codec a.secure_cookies (record {
            email = claims.email;
            name = claims.name;
            expiry = r.now +ℤ session_lifetime;
          }))
          internal_error

    unfoldable pub complete_login : Option LoginState → Request → Result Failure (String × Cookie)
    complete_login none r = err (bad_request "missing or expired login state")
    complete_login (some ls) r = do
      claims ← authenticate ls r
      cookie ← issue_session claims r
      ok (ls.return_path, cookie)

    module _ {Served : Type 0} where
      unfoldable pub render_login_page : Request → Response Served
      render_login_page r = record {
        set_cookies = [];
        reply = page (record {
          tagline = "Sign in to view build invocations.";
          button_label = "Log in";
          button_href = "/auth/login?return=" ⧺ lib.query_escape r.request_uri;
        });
      }

      abbrev pub fails : Failure → Response Served
      fails f = record { set_cookies = []; reply = failure f }

      unfoldable pub gate : (Request → Served) → Request → Option Session → Response Served
      gate next r (some session) = record { set_cookies = []; reply = served (next r) }
      gate next r none =
          if has_prefix r.path "/api/" then fails unauthorized else render_login_page r

      unfoldable pub require_session : (Request → Served) → Request → Response Served
      require_session next r = gate next r (session_of r)

      unfoldable pub after_beginning : Result Failure (LoginState × Cookie) → Response Served
      after_beginning (err f) = fails f
      after_beginning (ok (ls, cookie)) = record {
        set_cookies = cookie ∷ [];
        reply = redirect (a.oauth2_config.auth_code_url ls.state ls.nonce);
      }

      unfoldable pub handle_login : Request → Response Served
      handle_login r = after_beginning (begin_login r)

      -- The cookie of the login state is cleared first.
      unfoldable pub after_clearing : Result Failure (String × Cookie) → Response Served
      after_clearing (err f) = record {
        set_cookies = cleared_login_state_cookie a.secure_cookies ∷ [];
        reply = failure f;
      }
      after_clearing (ok (return_path, cookie)) = record {
        set_cookies = cleared_login_state_cookie a.secure_cookies ∷ cookie ∷ [];
        reply = redirect return_path;
      }

      unfoldable pub handle_callback : Request → Response Served
      handle_callback r =
          after_clearing (
            complete_login (login_state_from_request lib.crypto lib.login_json a.codec r.cookies) r)

      unfoldable pub handle_logout : Response Served
      handle_logout = record {
        set_cookies = cleared_session_cookie a.secure_cookies ∷ [];
        reply = page (record {
          tagline = "You have been logged out.";
          button_label = "Log back in";
          button_href = "/auth/login";
        });
      }

      unfoldable pub identify : Option Session → Response Served
      identify none = fails unauthorized
      identify (some session) = record {
        set_cookies = [];
        reply = identity session.email session.name;
      }

      unfoldable pub handle_me : Request → Response Served
      handle_me r = identify (session_of r)

      unfoldable pub serve_route : (Request → Served) → Request → Route → Response Served
      serve_route next r login = handle_login r
      serve_route next r callback = handle_callback r
      serve_route next r logout = handle_logout
      serve_route next r me = handle_me r
      serve_route next r other = require_session next r

      unfoldable pub wrap : (Request → Served) → Request → Response Served
      wrap next r = serve_route next r (route r.method r.path)
