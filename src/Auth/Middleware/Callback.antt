-- ===== src/Auth/Middleware/Callback.antt =====
-- When `handleCallback` of src/auth/middleware.go issues a session.
use bepper.Base.{
  String, ◌≡◌, ◌≢◌, refl, subst, not, ◌==◌, eq_iff, eq_refl, Option, none, some, [], ◌∷◌,
}
use bepper.Base.Result.{
  Result, ok, err, check, required, or_error, bind_succeeds, check_passes, required_succeeds,
  or_error_succeeds, ok_inj,
}
use bepper.Base.Text.{given, not_empty}
use bepper.Auth.Middleware.{
  Libraries, Request, Response, Failure, failure, redirect, query_value, authenticate,
  issue_session, complete_login, after_clearing, handle_callback,
}
use bepper.Auth.Provider.{Authenticator, Claims, IdToken, Token}
use bepper.Auth.Session.{LoginState, Cookie, cleared_login_state_cookie, login_state_from_request}

module _ (lib : Libraries) (a : Authenticator) where
  -- The provider vouches for these claims in answer to this login: the request has the login's state
  -- and a code, the code's token has an ID token that the verifier accepts, and that token has the
  -- login's nonce.
  pub record Verified (ls : LoginState) (claims : Claims) (r : Request) : Type 0 where
    pub token : Token
    pub raw_id_token : String
    pub id_token : IdToken
    pub same_state : ls.state ≡ query_value r "state"
    pub has_code : query_value r "code" ≢ ""
    pub exchanged : a.oauth2_config.exchange (query_value r "code") ≡ ok token
    pub has_id_token : token.id_token ≡ some raw_id_token
    pub accepted : a.verify raw_id_token ≡ ok id_token
    pub same_nonce : id_token.nonce ≡ ls.nonce
    pub claimed : id_token.claims ≡ ok claims

  authenticate-Verified :
      (ls : LoginState) (claims : Claims) (r : Request)
      → authenticate lib a ls r ≡ ok claims
      → Verified ls claims r
  unfolding authenticate
  authenticate-Verified ls claims r h =
      let (_, state, h1) = bind_succeeds (check (ls.state == query_value r "state") _) _ h in
      let (_, code, h2) = bind_succeeds (check (not (query_value r "code" == "")) _) _ h1 in
      let (token, exchanged, h3) =
        bind_succeeds (or_error (a.oauth2_config.exchange (query_value r "code")) _) _ h2 in
      let (raw, has_raw, h4) = bind_succeeds (required token.id_token _) _ h3 in
      let (id_token, accepted, h5) = bind_succeeds (or_error (a.verify raw) _) _ h4 in
      let (_, nonce, h6) = bind_succeeds (check (id_token.nonce == ls.nonce) _) _ h5 in
      record {
        token = token;
        raw_id_token = raw;
        id_token = id_token;
        same_state = (eq_iff _ _).0 (check_passes _ _ state);
        has_code = given _ (check_passes _ _ code);
        exchanged = or_error_succeeds _ _ exchanged;
        has_id_token = required_succeeds _ _ has_raw;
        accepted = or_error_succeeds _ _ accepted;
        same_nonce = (eq_iff _ _).0 (check_passes _ _ nonce);
        claimed = or_error_succeeds _ _ h6;
      }

  pub Verified-authenticate :
      (ls : LoginState) (claims : Claims) (r : Request)
      → Verified ls claims r
      → authenticate lib a ls r ≡ ok claims
  unfolding authenticate
  Verified-authenticate ls claims r v =
      rw
        (
          v.same_state,
          eq_refl (query_value r "state"),
          not_empty (query_value r "code") v.has_code,
          v.exchanged,
          v.has_id_token,
          v.accepted,
          v.same_nonce,
          eq_refl ls.nonce,
          v.claimed,
        )
        refl

  -- What a callback may come to: the login state's cookie is cleared, and either there is an error
  -- and nothing else, or the claims of the new session are verified ones.
  pub data Outcome {Served : Type 0} (r : Request) : Response Served → Type 0 where
    refused :
        (f : Failure)
        → Outcome r (record {
          set_cookies = cleared_login_state_cookie a.secure_cookies ∷ [];
          reply = failure f;
        })
    logged_in :
        (ls : LoginState) (claims : Claims) (cookie : Cookie)
        → login_state_from_request lib.crypto lib.login_json a.codec r.cookies ≡ some ls
        → Verified ls claims r
        → issue_session lib a claims r ≡ ok cookie
        → Outcome r (record {
          set_cookies = cleared_login_state_cookie a.secure_cookies ∷ cookie ∷ [];
          reply = redirect ls.return_path;
        })

  module _ {Served : Type 0} (r : Request) where
    ended-Outcome :
        (ls : Option LoginState) (ended : Result Failure (String × Cookie))
        → login_state_from_request lib.crypto lib.login_json a.codec r.cookies ≡ ls
        → complete_login lib a ls r ≡ ended
        → Outcome {Served = Served} r (after_clearing lib a ended)
    unfolding after_clearing complete_login
    ended-Outcome ls (err f) sent h = refused f
    ended-Outcome none (ok (path, cookie)) sent h = cc
    ended-Outcome (some ls) (ok (path, cookie)) sent h =
        let (claims, verified, h1) = bind_succeeds (authenticate lib a ls r) _ h in
        let (issued, made, h2) = bind_succeeds (issue_session lib a claims r) _ h1 in
        subst (λ end. Outcome {Served = Served} r (after_clearing lib a (ok end))) (ok_inj h2)
          (logged_in ls claims issued sent (authenticate-Verified ls claims r verified) made)

    -- A callback sets a session cookie only for claims that the provider vouches for in answer to the
    -- login whose state the request carries, and it always clears the cookie of that state.
    pub handle_callback-Outcome : Outcome {Served = Served} r (handle_callback lib a r)
    unfolding handle_callback
    handle_callback-Outcome =
        let ls = login_state_from_request lib.crypto lib.login_json a.codec r.cookies in
        ended-Outcome ls (complete_login lib a ls r) refl refl
