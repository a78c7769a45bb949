-- ===== src/Auth/Session.antt =====
-- src/auth/session.go: sessions and login states as encrypted cookies. The ciphers, base64 and
-- encoding/json are parameters.
pub mod RoundTrip
use bepper.Base.{
  ℕ, String, Bool, not, Option, none, some, ltb, if◌then◌else◌, take, drop, length, ◌++◌,
}
use bepper.Base.Int.{ℤ, pos, negsuc, ltb_ℤ}
use bepper.Base.Dict.{Dict, lookup}
use bepper.Base.Result.{Result, ok, err, check, with_context, ◌>>=◌}
use bepper.Blobstore.{Bytes, Error}
use bepper.Events.{Time}

-- cipher.AEAD, without additional data.
pub record Aead : Type 0 where
  pub nonce_size : ℕ
  pub seal : (nonce plaintext : Bytes) → Bytes
  pub unseal : (nonce ciphertext : Bytes) → Result Error Bytes

pub record Crypto : Type 0 where
  pub sha256 : String → Bytes
  -- aes.NewCipher, then cipher.NewGCM.
  pub new_gcm : Bytes → Result Error Aead
  -- base64.RawURLEncoding
  pub encode_to_string : Bytes → String
  pub decode_string : String → Result Error Bytes

-- json.Marshal and json.Unmarshal at one type.
pub record JsonCodec (A : Type 0) : Type 0 where
  pub marshal : A → Result Error Bytes
  pub unmarshal : Bytes → Result Error A

-- rand.Read into a buffer of this many bytes.
abbrev pub Read : Type 0
Read = ℕ → Result Error Bytes

abbrev pub session_lifetime : ℤ
session_lifetime = pos 86400000000000

-- The seconds of loginStateLifetime.
abbrev pub login_state_lifetime : ℤ
login_state_lifetime = pos 600

abbrev pub session_cookie_name : String
session_cookie_name = "bepper_session"

abbrev pub login_state_cookie_name : String
login_state_cookie_name = "bepper_oidc_state"

pub record Session : Type 0 where
  pub email : String
  pub name : String
  pub expiry : Time

pub record LoginState : Type 0 where
  pub state : String
  pub nonce : String
  pub return_path : String

pub record SessionCodec : Type 0 where
  pub key : Bytes

-- http.Cookie. All cookies are HttpOnly, with SameSite=Lax. No `expires` and a `max_age` of 0 are
-- the zero values.
pub record Cookie : Type 0 where
  pub name : String
  pub value : String
  pub path : String
  pub secure : Bool
  pub expires : Option Time
  pub max_age : ℤ

module _ (crypto : Crypto) where
  unfoldable pub new_session_codec : String → SessionCodec
  new_session_codec secret = record { key = crypto.sha256 secret }

  unfoldable pub gcm : SessionCodec → Result Error Aead
  gcm c = crypto.new_gcm c.key

  module _ {A : Type 0} (json : JsonCodec A) where
    unfoldable pub encode_value : Read → SessionCodec → A → Result Error String
    encode_value read c v = do
      plaintext ← json.marshal v
      aead ← gcm c
      nonce ← read aead.nonce_size
      ok (crypto.encode_to_string (nonce ++ aead.seal nonce plaintext))

    unfoldable pub decode_value : SessionCodec → String → Result Error A
    decode_value c raw = do
      payload ← crypto.decode_string raw
      aead ← gcm c
      long ← check (not (ltb (length payload) aead.nonce_size)) "auth: cookie payload too short"
      plaintext ← aead.unseal (take aead.nonce_size payload) (drop aead.nonce_size payload)
      json.unmarshal plaintext

  module _ (session_json : JsonCodec Session) where
    unfoldable pub decode_session : Time → SessionCodec → String → Result Error Session
    decode_session now c raw = do
      s ← decode_value session_json c raw
      if ltb_ℤ s.expiry now then err "auth: session expired" else ok s

    unfoldable pub session_cookie : Read → SessionCodec → Bool → Session → Result Error Cookie
    session_cookie read c secure s = do
      raw ← with_context "auth: encode session: " (encode_value session_json read c s)
      ok (record {
        name = session_cookie_name;
        value = raw;
        path = "/";
        secure = secure;
        expires = some s.expiry;
        max_age = pos 0;
      })

  module _ (login_json : JsonCodec LoginState) where
    unfoldable pub login_state_cookie :
        Read → SessionCodec → Bool → LoginState → Result Error Cookie
    login_state_cookie read c secure ls = do
      raw ← with_context "auth: encode login state: " (encode_value login_json read c ls)
      ok (record {
        name = login_state_cookie_name;
        value = raw;
        path = "/auth";
        secure = secure;
        expires = none;
        max_age = login_state_lifetime;
      })

unfoldable pub cleared_session_cookie : Bool → Cookie
cleared_session_cookie secure = record {
  name = session_cookie_name;
  value = "";
  path = "/";
  secure = secure;
  expires = none;
  max_age = negsuc 0;
}

unfoldable pub cleared_login_state_cookie : Bool → Cookie
cleared_login_state_cookie secure = record {
  name = login_state_cookie_name;
  value = "";
  path = "/auth";
  secure = secure;
  expires = none;
  max_age = negsuc 0;
}

abbrev pub to_option {ℓ κ} : {E : Type ℓ} {A : Type κ} → Result E A → Option A
to_option (ok a) = some a
to_option (err e) = none

unfoldable pub decode_cookie {ℓ} :
    {A : Type ℓ} → (String → Result Error A) → Option String → Option A
decode_cookie decode none = none
decode_cookie decode (some raw) = to_option (decode raw)

-- What a decoder makes of the cookie with this name, of which r.Cookie takes the first.
unfoldable pub from_cookie {ℓ} :
    {A : Type ℓ} → String → (String → Result Error A) → Dict String → Option A
from_cookie name decode cookies = decode_cookie decode (lookup name cookies)

module _ (crypto : Crypto) where
  unfoldable pub session_from_request :
      JsonCodec Session → Time → SessionCodec → Dict String → Option Session
  session_from_request json now c cookies =
      from_cookie session_cookie_name (decode_session crypto json now c) cookies

  unfoldable pub login_state_from_request :
      JsonCodec LoginState → SessionCodec → Dict String → Option LoginState
  login_state_from_request json c cookies =
      from_cookie login_state_cookie_name (decode_value crypto json c) cookies
