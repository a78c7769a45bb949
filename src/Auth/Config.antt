-- ===== src/Auth/Config.antt =====
-- src/auth/config.go: the configuration from the environment, in which a variable that is not set
-- reads as the empty text.
use bepper.Base.{
  ℕ, String, ◌≡◌, ◌≢◌, ◌↔◌, refl, ap, ◌∙◌, Bool, false, ◌&&◌, List, [], ◌∷◌, ◌++◌, Option, none,
  some, if◌then◌else◌, ◌==◌, eq_iff, ltb, ◌≤◌, Bool-cases, if-cases, &&-true, inl, inr, arith,
}
use bepper.Base.Result.{Result, ok, err}
use bepper.Base.Text.{◌⧺◌, join, fields, byte_length, not_empty}
use bepper.Blobstore.{Error}

abbrev pub Environ : Type 0
Environ = String → String

abbrev pub default_scopes : List String
default_scopes = "openid" ∷ "profile" ∷ "email" ∷ []

abbrev pub min_session_secret_len : ℕ
min_session_secret_len = 16

pub record Config : Type 0 where
  pub issuer_url : String
  pub client_id : String
  pub client_secret : String
  pub redirect_url : String
  pub scopes : List String
  pub session_secret : String
  pub insecure_cookies : Bool

-- Appends the name of a variable that is not set.
unfoldable pub missing_if_unset : Environ → String → List String → List String
missing_if_unset getenv name missing = if getenv name == "" then missing ++ name ∷ [] else missing

unfoldable pub missing_variables : Environ → List String
unfolding missing_if_unset
missing_variables getenv = missing_if_unset getenv "BEP_SESSION_SECRET" (
    missing_if_unset getenv "BEP_OIDC_REDIRECT_URL" (
      missing_if_unset getenv "BEP_OIDC_CLIENT_SECRET" (
        missing_if_unset getenv "BEP_OIDC_CLIENT_ID"
          (missing_if_unset getenv "BEP_OIDC_ISSUER_URL" []))))

unfoldable pub config_of : Environ → Config
config_of getenv = record {
  issuer_url = getenv "BEP_OIDC_ISSUER_URL";
  client_id = getenv "BEP_OIDC_CLIENT_ID";
  client_secret = getenv "BEP_OIDC_CLIENT_SECRET";
  redirect_url = getenv "BEP_OIDC_REDIRECT_URL";
  scopes =
      if getenv "BEP_OIDC_SCOPES" == "" then default_scopes else fields (getenv "BEP_OIDC_SCOPES");
  session_secret = getenv "BEP_SESSION_SECRET";
  insecure_cookies = getenv "BEP_INSECURE_COOKIES" == "true";
}

-- From the list of missing variables on.
unfoldable pub check_config : Environ → List String → Result Error (Option Config)
unfolding config_of
check_config getenv (v ∷ missing) =
    err ("auth: incomplete OIDC configuration, missing " ⧺ join ", " (v ∷ missing))
check_config getenv [] =
    if ltb (byte_length (getenv "BEP_SESSION_SECRET")) min_session_secret_len
    then err "auth: BEP_SESSION_SECRET must be at least 16 bytes"
    else ok (some (config_of getenv))

unfoldable pub config_from_env : Environ → Result Error (Option Config)
config_from_env getenv =
    if getenv "BEP_OIDC_ISSUER_URL" == "" && getenv "BEP_OIDC_CLIENT_ID" == ""
    then ok none
    else check_config getenv (missing_variables getenv)

-- Everything that the sign-on needs is set.
pub record Complete (getenv : Environ) : Type 0 where
  pub issuer : getenv "BEP_OIDC_ISSUER_URL" ≢ ""
  pub client : getenv "BEP_OIDC_CLIENT_ID" ≢ ""
  pub client_key : getenv "BEP_OIDC_CLIENT_SECRET" ≢ ""
  pub redirect : getenv "BEP_OIDC_REDIRECT_URL" ≢ ""
  pub secret : getenv "BEP_SESSION_SECRET" ≢ ""
  pub long_secret : min_session_secret_len ≤ byte_length (getenv "BEP_SESSION_SECRET")

missing_if_unset-set :
    (getenv : Environ) (name : String) (missing : List String)
    → missing_if_unset getenv name missing ≡ []
    → (getenv name ≢ "") × (missing ≡ [])
unfolding missing_if_unset
missing_if_unset-set getenv name [] h = ground (arith, h, eq_iff (getenv name) "")
missing_if_unset-set getenv name (v ∷ missing) h = elim (Bool-cases (getenv name == "")) [
  | inl unset ↦ cc
  | inr other ↦ cc
]

set-missing_if_unset :
    (getenv : Environ) (name : String) → getenv name ≢ "" → missing_if_unset getenv name [] ≡ []
unfolding missing_if_unset
set-missing_if_unset getenv name h = ground (arith, h, eq_iff (getenv name) "")

missing_variables-set :
    (getenv : Environ)
    → missing_variables getenv ≡ []
    → ltb (byte_length (getenv "BEP_SESSION_SECRET")) min_session_secret_len ≡ false
    → Complete getenv
unfolding missing_variables
missing_variables-set getenv h long =
    let (secret, h1) = missing_if_unset-set getenv "BEP_SESSION_SECRET" _ h in
    let (redirect, h2) = missing_if_unset-set getenv "BEP_OIDC_REDIRECT_URL" _ h1 in
    let (client_key, h3) = missing_if_unset-set getenv "BEP_OIDC_CLIENT_SECRET" _ h2 in
    let (client, h4) = missing_if_unset-set getenv "BEP_OIDC_CLIENT_ID" _ h3 in
    let (issuer, h5) = missing_if_unset-set getenv "BEP_OIDC_ISSUER_URL" [] h4 in
    record {
      issuer = issuer;
      client = client;
      client_key = client_key;
      redirect = redirect;
      secret = secret;
      long_secret = ground (arith, long);
    }

set-missing_variables : (getenv : Environ) → Complete getenv → missing_variables getenv ≡ []
unfolding missing_variables
set-missing_variables getenv complete =
    rw
      (
        set-missing_if_unset getenv "BEP_OIDC_ISSUER_URL" complete.issuer,
        set-missing_if_unset getenv "BEP_OIDC_CLIENT_ID" complete.client,
        set-missing_if_unset getenv "BEP_OIDC_CLIENT_SECRET" complete.client_key,
        set-missing_if_unset getenv "BEP_OIDC_REDIRECT_URL" complete.redirect,
      )
      (set-missing_if_unset getenv "BEP_SESSION_SECRET" complete.secret)

check_config-Complete :
    (getenv : Environ) (missing : List String) (config : Config)
    → check_config getenv missing ≡ ok (some config)
    → (missing ≡ [])
      × (ltb (byte_length (getenv "BEP_SESSION_SECRET")) min_session_secret_len ≡ false)
      × (config_of getenv ≡ config)
unfolding check_config
check_config-Complete getenv (v ∷ missing) config h = cc
check_config-Complete getenv [] config h =
    elim (if-cases (ltb (byte_length (getenv "BEP_SESSION_SECRET")) min_session_secret_len) h) [
      | inl (short, wrong) ↦ cc
      | inr (long, same) ↦ (refl, long, cc)
    ]

check_config-some {ℓ} :
    {P : Type ℓ} (getenv : Environ) (missing : List String)
    → check_config getenv missing ≡ ok none
    → P
unfolding check_config
check_config-some getenv (v ∷ missing) h = cc
check_config-some getenv [] h =
    elim (if-cases (ltb (byte_length (getenv "BEP_SESSION_SECRET")) min_session_secret_len) h) [
      | inl (short, wrong) ↦ cc
      | inr (long, wrong) ↦ cc
    ]

check-Complete :
    (getenv : Environ)
    → Complete getenv
    → (missing : List String) → missing ≡ []
    → check_config getenv missing ≡ ok (some (config_of getenv))
unfolding check_config
check-Complete getenv complete (v ∷ missing) h = cc
check-Complete getenv complete [] h = ground (arith, complete.long_secret)

-- The environment gives a configuration exactly if the issuer, the client, its secret, the redirect
-- URL and a session secret of at least 16 bytes are set, and then the configuration is theirs, with
-- the default scopes if none are set.
pub config_from_env-Complete :
    (getenv : Environ) (config : Config)
    → (config_from_env getenv ≡ ok (some config)) ↔ (Complete getenv × (config_of getenv ≡ config))
unfolding config_from_env
config_from_env-Complete getenv config = (
  λ h. elim (if-cases (getenv "BEP_OIDC_ISSUER_URL" == "" && getenv "BEP_OIDC_CLIENT_ID" == "") h) [
    | inl (absent, wrong) ↦ cc
    | inr (present, checked) ↦
        let (set, long, same) =
          check_config-Complete getenv (missing_variables getenv) config checked in
        (missing_variables-set getenv set long, same)
  ],
  λ (complete, same). rw (not_empty (getenv "BEP_OIDC_ISSUER_URL") complete.issuer) (
      check-Complete getenv complete (missing_variables getenv)
        (set-missing_variables getenv complete)
      ∙ ap (λ c. ok (some c)) same),
)

-- The environment asks for no sign-on exactly if neither the issuer nor the client is set; anything
-- in between is an error, never a web UI without sign-on.
config_from_env-none :
    (getenv : Environ)
    → (config_from_env getenv ≡ ok none)
      ↔ ((getenv "BEP_OIDC_ISSUER_URL" ≡ "") × (getenv "BEP_OIDC_CLIENT_ID" ≡ ""))
unfolding config_from_env
config_from_env-none getenv = (
  λ h. elim (if-cases (getenv "BEP_OIDC_ISSUER_URL" == "" && getenv "BEP_OIDC_CLIENT_ID" == "") h) [
    | inl (absent, _) ↦
        let (issuer, client) = &&-true _ _ absent in ((eq_iff _ _).0 issuer, (eq_iff _ _).0 client)
    | inr (present, checked) ↦ check_config-some getenv (missing_variables getenv) checked
  ],
  λ (issuer, client). rw (issuer, client) refl,
)
