-- ===== src/Auth/Provider.antt =====
-- src/auth/oidc.go, over the packages oidc and oauth2.
use bepper.Base.{String, Bool, not, Option, List}
use bepper.Base.Result.{Result, ok, with_context, ◌>>=◌}
use bepper.Base.Text.{◌⧺◌}
use bepper.Blobstore.{Error}
use bepper.Auth.Config.{Config}
use bepper.Auth.Session.{Crypto, SessionCodec, new_session_codec}

pub record Claims : Type 0 where
  pub email : String
  pub name : String

-- oidc.IDToken; `claims` is what its method `Claims` unmarshals.
pub record IdToken : Type 0 where
  pub nonce : String
  pub claims : Result Error Claims

-- oauth2.Token; `id_token` is its extra field of that name, if that is a text.
pub record Token : Type 0 where
  pub id_token : Option String

-- The methods of an oauth2.Config, in the order the program passes their arguments.
pub record Oauth2 : Type 0 where
  pub auth_code_url : (state nonce : String) → String
  pub exchange : (code : String) → Result Error Token

-- What an oauth2.Config is made of, but for the provider's endpoint.
pub record Client : Type 0 where
  pub client_id : String
  pub client_secret : String
  pub redirect_url : String
  pub scopes : List String

-- oidc.Provider: its endpoint makes a configuration of a client; its verifier is for a client id.
pub record Provider : Type 0 where
  pub oauth2 : Client → Oauth2
  pub verifier : String → String → Result Error IdToken

pub record Authenticator : Type 0 where
  pub oauth2_config : Oauth2
  pub verify : String → Result Error IdToken
  pub codec : SessionCodec
  pub secure_cookies : Bool

-- `quote` is strconv.Quote.
unfoldable pub new_authenticator :
    Crypto
    → (quote : String → String) → (String → Result Error Provider)
    → Config
    → Result Error Authenticator
new_authenticator crypto quote new_provider cfg = do
  provider ←
      with_context ("auth: OIDC discovery against " ⧺ quote cfg.issuer_url ⧺ " failed: ")
        (new_provider cfg.issuer_url)
  ok (record {
    oauth2_config = provider.oauth2 (record {
      client_id = cfg.client_id;
      client_secret = cfg.client_secret;
      redirect_url = cfg.redirect_url;
      scopes = cfg.scopes;
    });
    verify = provider.verifier cfg.client_id;
    codec = new_session_codec crypto cfg.session_secret;
    secure_cookies = not cfg.insecure_cookies;
  })
