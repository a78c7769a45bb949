-- ===== src/Auth/Middleware/Gate.antt =====
-- Which requests the middleware of src/auth/middleware.go lets through.
use bepper.Base.{
  String, ◌≡◌, ◌↔◌, refl, ap, subst, ◌∙◌, Bool, true, false, Option, none, some, if-cases, inl, inr,
  if◌then◌else◌,
}
use bepper.Events.{Time}
use bepper.Blobstore.{Error}
use bepper.Base.Dict.{Dict, lookup}
use bepper.Base.Int.{ltb_ℤ}
use bepper.Base.Result.{Result, ok, err, bind_succeeds, ok_inj}
use bepper.Base.Text.{has_prefix}
use bepper.Auth.Middleware.{
  Libraries, Request, Route, served, unauthorized, fails, other, route, session_of, require_session,
  handle_login, handle_callback, handle_logout, handle_me, serve_route, wrap, render_login_page,
  begin_login, complete_login, gate, after_beginning, identify, Failure, login, callback, logout,
  me, after_clearing,
}
use bepper.Auth.Provider.{Authenticator}
use bepper.Auth.Session.{
  Session, session_cookie_name, decode_value, decode_session, session_from_request, from_cookie,
  Cookie, LoginState, decode_cookie, Crypto, JsonCodec, SessionCodec, to_option,
}

to_option-ok {ℓ κ} :
    {E : Type ℓ} {A : Type κ} {v : A} (result : Result E A)
    → to_option result ≡ some v
    → result ≡ ok v
to_option-ok (ok w) h = cc
to_option-ok (err e) h = cc

decode_cookie-some {ℓ} :
    {A : Type ℓ} (decode : String → Result Error A) (cookie : Option String) (v : A)
    → decode_cookie decode cookie ≡ some v
    → (raw : String) × (cookie ≡ some raw) × (decode raw ≡ ok v)
unfolding decode_cookie
decode_cookie-some decode none v h = cc
decode_cookie-some decode (some raw) v h = (raw, refl, to_option-ok (decode raw) h)

pub from_cookie-some {ℓ} :
    {A : Type ℓ} (name : String) (decode : String → Result Error A) (cookies : Dict String) (v : A)
    → from_cookie name decode cookies ≡ some v
    → (raw : String) × (lookup name cookies ≡ some raw) × (decode raw ≡ ok v)
unfolding from_cookie
from_cookie-some name decode cookies v h = decode_cookie-some decode (lookup name cookies) v h

pub from_cookie-sent {ℓ} :
    {A : Type ℓ} (name raw : String) (decode : String → Result Error A) (cookies : Dict String)
    (v : A)
    → lookup name cookies ≡ some raw
    → decode raw ≡ ok v
    → from_cookie name decode cookies ≡ some v
unfolding from_cookie decode_cookie
from_cookie-sent name raw decode cookies v sent decoded = rw sent (ap to_option decoded)

module _ (crypto : Crypto) (json : JsonCodec Session) (now : Time) (c : SessionCodec) where
  decode_session-ok :
      (raw : String) (s : Session)
      → decode_session crypto json now c raw ≡ ok s
      → (decode_value crypto json c raw ≡ ok s) × (ltb_ℤ s.expiry now ≡ false)
  unfolding decode_session
  decode_session-ok raw s h =
      let (t, decoded, h1) = bind_succeeds (decode_value crypto json c raw) _ h in
      elim (if-cases (ltb_ℤ t.expiry now) h1) [
        | inl (expired, wrong) ↦ cc
        | inr (fresh, same) ↦
            let eq = ok_inj same in
            (decoded ∙ same, subst (λ x. ltb_ℤ x.expiry now ≡ false) eq fresh)
      ]

  decode_session-fresh :
      (raw : String) (s : Session)
      → decode_value crypto json c raw ≡ ok s
      → ltb_ℤ s.expiry now ≡ false
      → decode_session crypto json now c raw ≡ ok s
  unfolding decode_session
  decode_session-fresh raw s decoded fresh = rw (decoded, fresh) refl

module _ (lib : Libraries) (a : Authenticator) where
  -- The request has a session cookie that decodes to this session, which has not expired.
  pub record SignedIn (r : Request) (s : Session) : Type 0 where
    pub raw : String
    pub sent : lookup session_cookie_name r.cookies ≡ some raw
    pub decoded : decode_value lib.crypto lib.session_json a.codec raw ≡ ok s
    pub fresh : ltb_ℤ s.expiry r.now ≡ false

  session_of-SignedIn : (r : Request) (s : Session) → session_of lib a r ≡ some s → SignedIn r s
  unfolding session_of session_from_request
  session_of-SignedIn r s h =
      let (raw, sent, h1) = from_cookie-some session_cookie_name _ r.cookies s h in
      let (decoded, h2) = decode_session-ok lib.crypto lib.session_json r.now a.codec raw s h1 in
      record { raw = raw; sent = sent; decoded = decoded; fresh = h2 }

  pub SignedIn-session_of : (r : Request) (s : Session) → SignedIn r s → session_of lib a r ≡ some s
  unfolding session_of session_from_request
  SignedIn-session_of r s h =
      from_cookie-sent session_cookie_name h.raw _ r.cookies s h.sent
        (decode_session-fresh lib.crypto lib.session_json r.now a.codec h.raw s h.decoded h.fresh)

  module _ {Served : Type 0} (next : Request → Served) (r : Request) (answer : Served) where
    refusal-served :
        {P : Type 0} (api : Bool)
        → (if api then fails lib a unauthorized else render_login_page lib a r).reply
          ≡ served answer
        → P
    unfolding render_login_page
    refusal-served true h = cc
    refusal-served false h = cc

    gate-served :
        (session : Option Session)
        → (gate lib a next r session).reply ≡ served answer
        → (next r ≡ answer) × ((s : Session) × (session ≡ some s))
    unfolding gate
    gate-served (some s) h = (cc, (s, refl))
    gate-served none h = refusal-served (has_prefix r.path "/api/") h

    after_beginning-served :
        {P : Type 0} (begun : Result Failure (LoginState × Cookie))
        → (after_beginning lib a begun).reply ≡ served answer
        → P
    unfolding after_beginning
    after_beginning-served (err f) h = cc
    after_beginning-served (ok begun) h = cc

    after_clearing-served :
        {P : Type 0} (ended : Result Failure (String × Cookie))
        → (after_clearing lib a ended).reply ≡ served answer
        → P
    unfolding after_clearing
    after_clearing-served (err f) h = cc
    after_clearing-served (ok ended) h = cc

    identify-served :
        {P : Type 0} (session : Option Session) → (identify lib a session).reply ≡ served answer → P
    unfolding identify
    identify-served none h = cc
    identify-served (some s) h = cc

    serve_route-served :
        (where_to : Route)
        → (serve_route lib a next r where_to).reply ≡ served answer
        → (where_to ≡ other) × (next r ≡ answer) × ((s : Session) × (session_of lib a r ≡ some s))
    unfolding serve_route handle_login handle_callback handle_logout handle_me require_session
    serve_route-served login h = after_beginning-served (begin_login lib a r) h
    serve_route-served callback h = after_clearing-served (complete_login lib a _ r) h
    serve_route-served logout h = cc
    serve_route-served me h = identify-served (session_of lib a r) h
    serve_route-served other h =
        let (same, signed_in) = gate-served (session_of lib a r) h in (refl, same, signed_in)

    pub served-gate :
        (s : Session)
        → session_of lib a r ≡ some s
        → (serve_route lib a next r other).reply ≡ served (next r)
    unfolding serve_route require_session gate
    served-gate s h = rw h refl

    -- The wrapped handler answers a request exactly if the request is none of the sign-on's own and
    -- has a session cookie that decodes to a session which has not expired.
    pub wrap-SignedIn :
        ((wrap lib a next r).reply ≡ served answer)
        ↔ ((route r.method r.path ≡ other) × (next r ≡ answer) × ((s : Session) × SignedIn r s))
    unfolding wrap
    wrap-SignedIn = (
      λ h.
          let (same_route, same, (s, signed_in)) = serve_route-served (route r.method r.path) h in
          (same_route, same, (s, session_of-SignedIn r s signed_in)),
      λ (same_route, same, (s, signed_in)).
          rw (same_route, ← same) (served-gate s (SignedIn-session_of r s signed_in)),
    )
