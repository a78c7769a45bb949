-- ===== src/Samples/Cookies.antt =====
-- Ciphers that hide nothing, a base64 that counts in unary, and codecs of JSON for one login state
-- and for one session.
use bepper.Base.{
  ℕ, zero, suc, String, ◌≡◌, refl, sym, ap, subst, ◌∙◌, ◌+◌, ◌&&◌, ◌==◌, eq_iff, eqb, length, [],
  ◌∷◌, if◌then◌else◌, if-cases, &&-true, inl, inr, arith,
}
use Prim.Native.Char.{code}
use bepper.Base.Int.{ℤ, eqb_ℤ, eqb_ℤ→eq}
use bepper.Base.Result.{Result, ok, err, ok_inj}
use bepper.Blobstore.{Bytes, Error}
use bepper.Auth.Session.{Crypto, JsonCodec, Session, LoginState, Read, session_lifetime}
use bepper.Auth.Session.RoundTrip.{CryptoLaws, Inverts, Fills}

abbrev unary : ℕ → String → String
unary zero s = String.◌∷◌ "b" s
unary (suc n) s = String.◌∷◌ "a" (unary n s)

abbrev encode : Bytes → String
encode [] = ""
encode (n ∷ payload) = unary n (encode payload)

abbrev with_first : ℕ → Result Error Bytes → Result Error Bytes
with_first n (ok payload) = ok (n ∷ payload)
with_first n (err e) = err e

abbrev decode_from : ℕ → String → Result Error Bytes
decode_from k String.[] = ok []
decode_from k (String.◌∷◌ c s) =
    let after = decode_from 0 s in
    let longer = decode_from (suc k) s in if eqb (code c) b'b' then with_first k after else longer

decode_from-unary :
    (n k : ℕ) (s : String) → decode_from k (unary n s) ≡ with_first (k + n) (decode_from 0 s)
decode_from-unary zero k s = ap (λ m. with_first m (decode_from 0 s)) (omega arith)
decode_from-unary (suc n) k s =
    decode_from-unary n (suc k) s ∙ ap (λ m. with_first m (decode_from 0 s)) (omega arith)

decode-encode : (payload : Bytes) → decode_from 0 (encode payload) ≡ ok payload
decode-encode [] = refl
decode-encode (n ∷ payload) =
    decode_from-unary n 0 (encode payload)
    ∙ (ap (λ m. with_first m (decode_from 0 (encode payload))) (omega arith)
        ∙ ap (with_first n) (decode-encode payload))

abbrev pub open_crypto : Crypto
open_crypto = record {
  sha256 = λ secret. [];
  new_gcm = λ key. ok (record {
    nonce_size = 1;
    seal = λ nonce plaintext. plaintext;
    unseal = λ nonce ciphertext. ok ciphertext;
  });
  encode_to_string = encode;
  decode_string = decode_from 0;
}

pub open_crypto_laws : CryptoLaws open_crypto
open_crypto_laws = record {
  decode-encode = decode-encode;
  unseal-seal = λ key nonce plaintext aead made filled.
      subst (λ x. x.unseal nonce (x.seal nonce plaintext) ≡ ok plaintext) (ok_inj made) refl;
}

abbrev repeat_zero : ℕ → Bytes
repeat_zero zero = []
repeat_zero (suc n) = 0 ∷ repeat_zero n

length-repeat_zero : (n : ℕ) → length (repeat_zero n) ≡ n
length-repeat_zero zero = refl
length-repeat_zero (suc n) = ap suc (length-repeat_zero n)

abbrev pub zeros : Read
zeros n = ok (repeat_zero n)

pub zeros-Fills : Fills zeros
zeros-Fills n filled h = subst (λ bytes. length bytes ≡ n) (ok_inj h) (length-repeat_zero n)

abbrev pub token : String
token = "bbbbbbbbbbbbbbbbbbbbbbbbbbbbbbbb"

abbrev pub sample_login : LoginState
sample_login = record { state = token; nonce = token; return_path = "/invocation/1" }

abbrev marshal_login : String → String → String → Result Error Bytes
marshal_login state nonce return_path =
    if (state == token) && (nonce == token) && (return_path == "/invocation/1")
    then ok []
    else err "not a sample"

abbrev pub login_codec : JsonCodec LoginState
login_codec = record {
  marshal = λ ls. marshal_login ls.state ls.nonce ls.return_path;
  unmarshal = λ line. ok sample_login;
}

is_sample :
    (state nonce return_path : String) (line : Bytes)
    → marshal_login state nonce return_path ≡ ok line
    → (token ≡ state) × (token ≡ nonce) × ("/invocation/1" ≡ return_path)
is_sample state nonce return_path line h =
    elim (if-cases ((state == token) && (nonce == token) && (return_path == "/invocation/1")) h) [
      | inl (same, _) ↦
          ground (
            arith,
            same,
            eq_iff state token,
            eq_iff nonce token,
            eq_iff return_path "/invocation/1",
          )
      | inr (different, wrong) ↦ cc
    ]

pub login_codec-Inverts : Inverts login_codec
login_codec-Inverts ls line h =
    let (state, nonce, path) = is_sample ls.state ls.nonce ls.return_path line h in cc

abbrev pub sample_session : Session
sample_session = record { email = ""; name = ""; expiry = session_lifetime }

abbrev marshal_session : String → String → ℤ → Result Error Bytes
marshal_session email name expiry =
    if (email == "") && (name == "") && eqb_ℤ expiry session_lifetime
    then ok []
    else err "not a sample"

abbrev pub session_codec : JsonCodec Session
session_codec = record {
  marshal = λ s. marshal_session s.email s.name s.expiry;
  unmarshal = λ line. ok sample_session;
}

is_sample_session :
    (email name : String) (expiry : ℤ) (line : Bytes)
    → marshal_session email name expiry ≡ ok line
    → ("" ≡ email) × ("" ≡ name) × (session_lifetime ≡ expiry)
is_sample_session email name expiry line h =
    elim (if-cases ((email == "") && (name == "") && eqb_ℤ expiry session_lifetime) h) [
      | inl (same, _) ↦
          let (rest, third) =
            &&-true ((email == "") && (name == "")) (eqb_ℤ expiry session_lifetime) same in
          let (first, second) = &&-true (email == "") (name == "") rest in
          (
            sym ((eq_iff email "").0 first),
            sym ((eq_iff name "").0 second),
            sym (eqb_ℤ→eq expiry session_lifetime third),
          )
      | inr (different, wrong) ↦ cc
    ]

pub session_codec-Inverts : Inverts session_codec
session_codec-Inverts s line h =
    let (email, name, expiry) = is_sample_session s.email s.name s.expiry line h in cc
