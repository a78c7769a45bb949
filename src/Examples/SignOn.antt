-- ===== src/Examples/SignOn.antt =====
-- A sign-on from the login page to the first answer, a configuration, and two return paths.
use bepper.Base.{String, ◌≡◌, ◌↔◌, refl, true, none, some, [], ◌∷◌}
use bepper.Base.Dict.{Dict, lookup}
use bepper.Base.Int.{pos, ◌+ℤ◌}
use bepper.Base.Result.{ok, err}
use bepper.Base.Text.{cut_prefix, or_else}
use bepper.Samples.{path_urls}
use bepper.Samples.Cookies.{
  open_crypto, open_crypto_laws, zeros, zeros-Fills, token, sample_login, login_codec,
  sample_session, login_codec-Inverts, session_codec, session_codec-Inverts,
}
use bepper.Auth.Middleware.Gate.{SignedIn, wrap-SignedIn}
use bepper.Auth.Session.RoundTrip.{decode_session-encode_value}
use bepper.Auth.Config.{Environ, Complete, config_of, config_from_env, config_from_env-Complete}
use bepper.Auth.Middleware.{
  Libraries, Request, redirect, served, query_value, begin_login, random_token, seal_login,
  issue_session, handle_callback, wrap, route, other,
}
use bepper.Auth.ReturnPath.{validate_return_path, local_path, Local, validate_return_path-Local}
use bepper.Auth.Middleware.Callback.{Verified, Outcome, handle_callback-Outcome}
use bepper.Auth.Middleware.Login.{Reliable, sign_on_completes}
use bepper.Auth.Provider.{Authenticator, Claims}
use bepper.Auth.Session.{
  Session, Cookie, login_state_cookie_name, session_cookie_name, login_state_lifetime,
  session_lifetime, cleared_login_state_cookie, login_state_cookie, session_cookie, encode_value,
  gcm, decode_session,
}

abbrev pub libraries : Libraries
libraries = record {
  crypto = open_crypto;
  session_json = session_codec;
  login_json = login_codec;
  urls = path_urls;
  query_escape = λ s. s;
}

abbrev claims : Claims
claims = record { email = ""; name = "" }

abbrev pub authenticator : Authenticator
authenticator = record {
  oauth2_config = record {
    auth_code_url = λ state nonce. "https://idp/authorize";
    exchange = λ code. ok (record { id_token = some "id" });
  };
  verify = λ raw. ok (record { nonce = token; claims = ok claims });
  codec = record { key = [] };
  secure_cookies = true;
}

abbrev login_request : Request
login_request = record {
  method = "GET";
  path = "/auth/login";
  request_uri = "/auth/login?return=/invocation/1";
  query = ("return", "/invocation/1") ∷ [];
  cookies = [];
  now = pos 0;
  read = λ call. zeros;
}

abbrev login_value : String
login_value = "b"

abbrev session_value : String
session_value = "b"

abbrev callback_request : Request
callback_request = record {
  method = "GET";
  path = "/auth/callback";
  request_uri = "/auth/callback";
  query = ("state", token) ∷ ("code", "c") ∷ [];
  cookies = ("bepper_oidc_state", login_value) ∷ [];
  now = pos 0;
  read = λ call. zeros;
}

reliable : Reliable libraries authenticator
reliable = record {
  crypto = open_crypto_laws;
  sessions = session_codec-Inverts;
  logins = login_codec-Inverts;
}

abbrev login_cookie : Cookie
login_cookie = record {
  name = login_state_cookie_name;
  value = login_value;
  path = "/auth";
  secure = true;
  expires = none;
  max_age = login_state_lifetime;
}

abbrev cookie : Cookie
cookie = record {
  name = session_cookie_name;
  value = session_value;
  path = "/";
  secure = true;
  expires = some session_lifetime;
  max_age = pos 0;
}

abbrev pub later : Request
later = record {
  method = "GET";
  path = "/invocation/1";
  request_uri = "/invocation/1";
  query = [];
  cookies = ("bepper_session", session_value) ∷ [];
  now = pos 1000;
  read = λ call. zeros;
}

abbrev pub next : Request → String
next r = r.path

vouched : Verified libraries authenticator sample_login claims callback_request
unfolding query_value lookup
vouched = record {
  token = record { id_token = some "id" };
  raw_id_token = "id";
  id_token = record { nonce = token; claims = ok claims };
  same_state = refl;
  has_code = λ e. cc;
  exchanged = refl;
  has_id_token = refl;
  accepted = refl;
  same_nonce = refl;
  claimed = refl;
}

begun : begin_login libraries authenticator login_request ≡ ok (sample_login, login_cookie)
unfolding begin_login random_token seal_login login_state_cookie encode_value gcm query_value lookup
    validate_return_path local_path cut_prefix
begun = refl

issued : issue_session libraries authenticator claims callback_request ≡ ok cookie
unfolding issue_session session_cookie encode_value gcm ◌+ℤ◌
issued = refl

sign_on_completes_example :
    (handle_callback libraries authenticator {Served = String} callback_request ≡ record {
      set_cookies = cleared_login_state_cookie true ∷ cookie ∷ [];
      reply = redirect "/invocation/1";
    })
    × ((wrap libraries authenticator next later).reply ≡ served "/invocation/1")
unfolding query_value lookup validate_return_path local_path cut_prefix route ◌+ℤ◌
sign_on_completes_example =
    sign_on_completes libraries authenticator reliable next login_request callback_request later
      sample_login login_cookie cookie claims (zeros-Fills) (zeros-Fills) begun refl vouched issued
      refl refl refl

abbrev pub variables : Dict String
variables =
    ("BEP_OIDC_ISSUER_URL", "https://idp")
    ∷ ("BEP_OIDC_CLIENT_ID", "bepper")
    ∷ ("BEP_OIDC_CLIENT_SECRET", "key")
    ∷ ("BEP_OIDC_REDIRECT_URL", "https://bepper/auth/callback")
    ∷ ("BEP_SESSION_SECRET", "0123456789abcdef")
    ∷ []

abbrev getenv : Environ
getenv name = or_else "" (lookup name variables)

config_from_env-Complete_example :
    (config_from_env getenv ≡ ok (some (config_of getenv)))
    ↔ (Complete getenv × (config_of getenv ≡ config_of getenv))
config_from_env-Complete_example = config_from_env-Complete getenv (config_of getenv)

sealed : encode_value open_crypto session_codec zeros (record { key = [] }) sample_session ≡ ok "b"
unfolding encode_value gcm
sealed = refl

decode_session-encode_value_example :
    decode_session open_crypto session_codec (pos 86400000000001) (record { key = [] }) "b"
    ≡ err "auth: session expired"
decode_session-encode_value_example =
    decode_session-encode_value open_crypto session_codec zeros (pos 86400000000001)
      (record { key = [] }) sample_session "b" open_crypto_laws session_codec-Inverts zeros-Fills
      sealed

wrap-SignedIn_example :
    ((wrap libraries authenticator next later).reply ≡ served "/invocation/1") ↔ (
      (route "GET" "/invocation/1" ≡ other)
      × (next later ≡ "/invocation/1")
      × ((s : Session) × SignedIn libraries authenticator later s))
wrap-SignedIn_example = wrap-SignedIn libraries authenticator next later "/invocation/1"

handle_callback-Outcome_example :
    Outcome libraries authenticator callback_request
      (handle_callback libraries authenticator {Served = String} callback_request)
handle_callback-Outcome_example = handle_callback-Outcome libraries authenticator callback_request

validate_return_path-Local_example :
    Local path_urls "//evil.example" (validate_return_path path_urls "//evil.example")
validate_return_path-Local_example = validate_return_path-Local path_urls "//evil.example"
