-- ===== src/Auth/Session/RoundTrip.antt =====
-- What the codec of src/auth/session.go encodes, it decodes.
use bepper.Base.{
  ℕ, String, ◌≡◌, refl, ap, ◌∙◌, Bool, false, ltb, if◌then◌else◌, length, length-append,
  take-append, drop-append, ◌++◌, arith, subst,
}
use bepper.Base.Int.{ltb_ℤ}
use bepper.Base.Result.{ok, err, bind_succeeds, ok_inj, with_context, with_context_succeeds}
use bepper.Blobstore.{Bytes}
use bepper.Events.{Time}
use bepper.Auth.Session.{
  Aead, Cookie, LoginState, session_cookie, login_state_cookie, Crypto, JsonCodec, Read, Session,
  SessionCodec, encode_value, decode_value, decode_session, gcm,
}

-- What the ciphers, base64 and rand.Read are relied on for.
pub record CryptoLaws (crypto : Crypto) : Type 0 where
  pub decode-encode :
      (payload : Bytes) → crypto.decode_string (crypto.encode_to_string payload) ≡ ok payload
  pub unseal-seal :
      (key nonce plaintext : Bytes) (aead : Aead)
      → crypto.new_gcm key ≡ ok aead
      → length nonce ≡ aead.nonce_size
      → aead.unseal nonce (aead.seal nonce plaintext) ≡ ok plaintext

-- rand.Read fills its buffer or fails.
abbrev pub Fills : Read → Type 0
Fills read = (n : ℕ) (filled : Bytes) → read n ≡ ok filled → length filled ≡ n

-- What is marshalled can be unmarshalled.
abbrev pub Inverts : {A : Type 0} → JsonCodec A → Type 0
Inverts {A = A} json =
    (v : A) (line : Bytes) → json.marshal v ≡ ok line → json.unmarshal line ≡ ok v

not_short : (nonce rest : Bytes) → ltb (length (nonce ++ rest)) (length nonce) ≡ false
not_short nonce rest = ground (arith, length-append nonce rest)

module _ (crypto : Crypto) (laws : CryptoLaws crypto) {A : Type 0} (json : JsonCodec A) where
  -- What stands in an encoded value.
  decode-sealed :
      (c : SessionCodec) (aead : Aead) (nonce plaintext : Bytes)
      → gcm crypto c ≡ ok aead
      → length nonce ≡ aead.nonce_size
      → decode_value crypto json c (crypto.encode_to_string (nonce ++ aead.seal nonce plaintext))
        ≡ json.unmarshal plaintext
  unfolding decode_value gcm
  decode-sealed c aead nonce plaintext made filled =
      let sealed = aead.seal nonce plaintext in
      rw
        (
          laws.decode-encode (nonce ++ sealed),
          made,
          ← filled,
          not_short nonce sealed,
          take-append nonce sealed,
          drop-append nonce sealed,
          laws.unseal-seal c.key nonce plaintext aead made filled,
        )
        refl

  pub decode_value-encode :
      (read : Read) (c : SessionCodec) (v : A) (raw : String)
      → Inverts json
      → Fills read
      → encode_value crypto json read c v ≡ ok raw
      → decode_value crypto json c raw ≡ ok v
  unfolding encode_value
  decode_value-encode read c v raw inverts fills encoded =
      let (plaintext, marshalled, h1) = bind_succeeds (json.marshal v) _ encoded in
      let (aead, made, h2) = bind_succeeds (gcm crypto c) _ h1 in
      let (nonce, filled, h3) = bind_succeeds (read aead.nonce_size) _ h2 in
      subst (λ text. decode_value crypto json c text ≡ ok v) (ok_inj h3)
        (decode-sealed c aead nonce plaintext made (fills _ nonce filled)
          ∙ inverts v plaintext marshalled)

-- A session is read back from its cookie until it expires, and is an error from then on.
pub decode_session-encode_value :
    (crypto : Crypto) (json : JsonCodec Session) (read : Read) (now : Time) (c : SessionCodec)
    (s : Session) (raw : String)
    → CryptoLaws crypto
    → Inverts json
    → Fills read
    → encode_value crypto json read c s ≡ ok raw
    → decode_session crypto json now c raw
      ≡ (if ltb_ℤ s.expiry now then err "auth: session expired" else ok s)
unfolding decode_session
decode_session-encode_value crypto json read now c s raw laws inverts fills encoded =
    rw (decode_value-encode crypto laws json read c s raw inverts fills encoded) refl

module _ (crypto : Crypto) (laws : CryptoLaws crypto) (read : Read) (fills : Fills read) where
  pub session_cookie-decode :
      (json : JsonCodec Session) (c : SessionCodec) (secure : Bool) (s : Session) (cookie : Cookie)
      → Inverts json
      → session_cookie crypto json read c secure s ≡ ok cookie
      → decode_value crypto json c cookie.value ≡ ok s
  unfolding session_cookie
  session_cookie-decode json c secure s cookie inverts h =
      let (raw, encoded, h1) =
        bind_succeeds (with_context _ (encode_value crypto json read c s)) _ h in
      subst (λ text. decode_value crypto json c text ≡ ok s) (ap (λ k. k.value) (ok_inj h1))
        (decode_value-encode crypto laws json read c s raw inverts fills
          (with_context_succeeds _ _ encoded))

  pub login_state_cookie-decode :
      (json : JsonCodec LoginState) (c : SessionCodec) (secure : Bool) (ls : LoginState)
      (cookie : Cookie)
      → Inverts json
      → login_state_cookie crypto json read c secure ls ≡ ok cookie
      → decode_value crypto json c cookie.value ≡ ok ls
  unfolding login_state_cookie
  login_state_cookie-decode json c secure ls cookie inverts h =
      let (raw, encoded, h1) =
        bind_succeeds (with_context _ (encode_value crypto json read c ls)) _ h in
      subst (λ text. decode_value crypto json c text ≡ ok ls) (ap (λ k. k.value) (ok_inj h1))
        (decode_value-encode crypto laws json read c ls raw inverts fills
          (with_context_succeeds _ _ encoded))
