-- ===== src/Auth/Middleware/Login.antt =====
-- A whole sign-on through the handlers of src/auth/middleware.go.
use bepper.Base.{◌≡◌, refl, sym, ap, subst, false, some, [], ◌∷◌}
use bepper.Base.Dict.{lookup}
use bepper.Base.Int.{ltb_ℤ, ◌+ℤ◌}
use bepper.Base.Result.{ok, or_error, bind_succeeds, or_error_succeeds, ok_inj}
use bepper.Auth.Middleware.{
  Libraries, Request, redirect, served, other, route, query_value, seal_login, begin_login,
  issue_session, complete_login, after_clearing, handle_callback, wrap, random_token,
  internal_error,
}
use bepper.Auth.Middleware.Callback.{Verified, Verified-authenticate}
use bepper.Auth.Middleware.Gate.{wrap-SignedIn, from_cookie-sent}
use bepper.Auth.Provider.{Authenticator, Claims}
use bepper.Auth.ReturnPath.{validate_return_path}
use bepper.Auth.Session.{
  cleared_login_state_cookie, Session, LoginState, Cookie, login_state_cookie,
  login_state_cookie_name, session_cookie_name, session_lifetime, decode_value,
  login_state_from_request,
}
use bepper.Auth.Session.RoundTrip.{
  CryptoLaws, Fills, Inverts, session_cookie-decode, login_state_cookie-decode,
}

module _ (lib : Libraries) (a : Authenticator) where
  -- What is relied on of the libraries.
  pub record Reliable : Type 0 where
    pub crypto : CryptoLaws lib.crypto
    pub sessions : Inverts lib.session_json
    pub logins : Inverts lib.login_json

  module _ (reliable : Reliable) where
    sealed-decode :
        (r : Request) (started ls : LoginState) (cookie : Cookie)
        → Fills (r.read 2)
        → seal_login lib a r started ≡ ok (ls, cookie)
        → (decode_value lib.crypto lib.login_json a.codec cookie.value ≡ ok ls) × (started ≡ ls)
    unfolding seal_login
    sealed-decode r started ls cookie fills h =
        let (made, sealed, h1) =
          bind_succeeds
            (or_error
              (login_state_cookie lib.crypto lib.login_json (r.read 2) a.codec a.secure_cookies
                started)
              internal_error)
            _ h in
        (
          subst (λ end. decode_value lib.crypto lib.login_json a.codec end.1.value ≡ ok end.0)
              (ok_inj h1)
              (login_state_cookie-decode lib.crypto reliable.crypto (r.read 2) fills lib.login_json
                a.codec a.secure_cookies started made reliable.logins
                (or_error_succeeds _ _ sealed)),
          ap (λ end. end.0) (ok_inj h1),
        )

    begun-decode :
        (r : Request) (ls : LoginState) (cookie : Cookie)
        → Fills (r.read 2)
        → begin_login lib a r ≡ ok (ls, cookie)
        → (decode_value lib.crypto lib.login_json a.codec cookie.value ≡ ok ls)
          × (ls.return_path ≡ validate_return_path lib.urls (query_value r "return"))
    unfolding begin_login
    begun-decode r ls cookie fills h =
        let (state, _, h1) = bind_succeeds (or_error (random_token lib (r.read 0)) _) _ h in
        let (nonce, _, h2) = bind_succeeds (or_error (random_token lib (r.read 1)) _) _ h1 in
        let (decoded, same) = sealed-decode r _ ls cookie fills h2 in
        (decoded, sym (ap (λ s. s.return_path) same))

    sent-login_state :
        (r : Request) (ls : LoginState) (cookie : Cookie)
        → lookup login_state_cookie_name r.cookies ≡ some cookie.value
        → decode_value lib.crypto lib.login_json a.codec cookie.value ≡ ok ls
        → login_state_from_request lib.crypto lib.login_json a.codec r.cookies ≡ some ls
    unfolding login_state_from_request
    sent-login_state r ls cookie sent decoded =
        from_cookie-sent login_state_cookie_name cookie.value
          (decode_value lib.crypto lib.login_json a.codec) r.cookies ls sent decoded

    abbrev session_at : Request → Claims → Session
    session_at r claims = record {
      email = claims.email;
      name = claims.name;
      expiry = r.now +ℤ session_lifetime;
    }

    issued-decode :
        (r : Request) (claims : Claims) (cookie : Cookie)
        → Fills (r.read 0)
        → issue_session lib a claims r ≡ ok cookie
        → decode_value lib.crypto lib.session_json a.codec cookie.value ≡ ok (session_at r claims)
    unfolding issue_session
    issued-decode r claims cookie fills h =
        session_cookie-decode lib.crypto reliable.crypto (r.read 0) fills lib.session_json a.codec
          a.secure_cookies (session_at r claims) cookie reliable.sessions (or_error_succeeds _ _ h)

    Verified-handle_callback :
        {Served : Type 0} (r : Request) (ls : LoginState) (claims : Claims) (cookie : Cookie)
        → login_state_from_request lib.crypto lib.login_json a.codec r.cookies ≡ some ls
        → Verified lib a ls claims r
        → issue_session lib a claims r ≡ ok cookie
        → handle_callback lib a {Served = Served} r ≡ record {
          set_cookies = cleared_login_state_cookie a.secure_cookies ∷ cookie ∷ [];
          reply = redirect ls.return_path;
        }
    unfolding handle_callback complete_login after_clearing
    Verified-handle_callback r ls claims cookie sent verified issued =
        rw (sent, Verified-authenticate lib a ls claims r verified, issued) refl

    -- A sign-on ends where it began. Let /auth/login have set a cookie for its state, and let the
    -- callback carry this cookie and claims that the provider vouches for in answer to it. Then the
    -- callback sets a session cookie and redirects to the path that the login accepted, and every
    -- request with this cookie is answered by the wrapped handler until the session expires.
    pub sign_on_completes :
        {Served : Type 0} (next : Request → Served) (login_request callback_request later : Request)
        (ls : LoginState) (login_cookie cookie : Cookie) (claims : Claims)
        → Fills (login_request.read 2)
        → Fills (callback_request.read 0)
        → begin_login lib a login_request ≡ ok (ls, login_cookie)
        → lookup login_state_cookie_name callback_request.cookies ≡ some login_cookie.value
        → Verified lib a ls claims callback_request
        → issue_session lib a claims callback_request ≡ ok cookie
        → route later.method later.path ≡ other
        → lookup session_cookie_name later.cookies ≡ some cookie.value
        → ltb_ℤ (callback_request.now +ℤ session_lifetime) later.now ≡ false
        → (handle_callback lib a {Served = Served} callback_request ≡ record {
          set_cookies = cleared_login_state_cookie a.secure_cookies ∷ cookie ∷ [];
          reply = redirect (validate_return_path lib.urls (query_value login_request "return"));
        })
          × ((wrap lib a next later).reply ≡ served (next later))
    sign_on_completes {Served = Served} next r1 r2 r3 ls login_cookie cookie claims fills1 fills2
          begun sent verified issued elsewhere sent_session fresh =
        let (decoded, path) = begun-decode r1 ls login_cookie fills1 begun in
        let session = issued-decode r2 claims cookie fills2 issued in
        (
          subst
              (λ p. handle_callback lib a {Served = Served} r2 ≡ record {
                set_cookies = cleared_login_state_cookie a.secure_cookies ∷ cookie ∷ [];
                reply = redirect p;
              })
              path
              (Verified-handle_callback r2 ls claims cookie
                (sent-login_state r2 ls login_cookie sent decoded) verified issued),
          (wrap-SignedIn lib a next r3 (next r3)).1 (
            elsewhere,
            refl,
            (
              session_at r2 claims,
              record { raw = cookie.value; sent = sent_session; decoded = session; fresh = fresh },
            ),
          ),
        )
