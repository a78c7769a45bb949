-- ===== src/Main/SignOn.antt =====
-- Who the program of main.go answers when it is told to require a sign-on.
use bepper.Base.{
  if-cases, inl, inr, ◌≡◌, ◌≢◌, sym, ap, ◌∙◌, subst, true, false, Option, none, some, ◌==◌, eq_refl,
}
use bepper.Base.Result.{Result, ok, err, bind_succeeds, ok_inj, with_context, with_context_succeeds}
use bepper.Blobstore.{Error}
use bepper.Auth.Config.{Config, Environ, config_from_env}
use bepper.Auth.Middleware.{Libraries, Request, served}
use bepper.Auth.Middleware.Gate.{SignedIn, wrap-SignedIn}
use bepper.Auth.Provider.{Authenticator}
use bepper.Auth.Session.{Session}
use bepper.Main.{
  Constructors, Parts, new_blobstore, new_indexer, new_bytestream_client, configured, listening,
  authenticator_of, make_authenticator, start, ui_handler,
}

true_not_false : true ≢ false
true_not_false e = cc

configured-some :
    (made : Result Error Authenticator) (authn : Option Authenticator)
    → configured made ≡ ok authn
    → (a : Authenticator) × (authn ≡ some a)
configured-some (err e) authn h = cc
configured-some (ok a) authn h = (a, sym (ok_inj h))

module _ {Blobs Indexer : Type 0} (make : Constructors Blobs Indexer) (getenv : Environ)
    (lib : Libraries) (required : getenv "BEP_REQUIRE_AUTH" ≡ "true") where
  authenticator_of-some :
      (cfg : Option Config) (authn : Option Authenticator)
      → authenticator_of make getenv lib cfg ≡ ok authn
      → (a : Authenticator) × (authn ≡ some a)
  unfolding authenticator_of
  authenticator_of-some none authn h = elim (if-cases (getenv "BEP_REQUIRE_AUTH" == "true") h) [
    | inl (on, refused) ↦ cc
    | inr (off, _) ↦
        absurd (true_not_false (sym (ap (λ v. v == "true") required ∙ eq_refl "true") ∙ off))
  ]
  authenticator_of-some (some cfg) authn h = configured-some _ authn h

  started-some :
      (parts : Parts Blobs Indexer)
      → start make getenv lib ≡ ok parts
      → (a : Authenticator) × (parts.authenticator ≡ some a)
  unfolding start make_authenticator
  started-some parts h =
      let (blobs, _, h1) = bind_succeeds (with_context _ (new_blobstore make getenv)) _ h in
      let (indexer, _, h2) = bind_succeeds (with_context _ (new_indexer make getenv)) _ h1 in
      let (authn, made, h3) =
        bind_succeeds (with_context _ (make_authenticator make getenv lib)) _ h2 in
      let (_, _, h4) = bind_succeeds (with_context _ (listening (make.listen ":1985"))) _ h3 in
      let (client, _, h5) =
        bind_succeeds (with_context _ (new_bytestream_client make getenv)) _ h4 in
      let (cfg, _, h6) =
        bind_succeeds (config_from_env getenv) _ (with_context_succeeds _ _ made) in
      let (a, some_a) = authenticator_of-some cfg authn h6 in
      (a, sym (ap (λ p. p.authenticator) (ok_inj h5)) ∙ some_a)

  -- With BEP_REQUIRE_AUTH=true the program does not start without a sign-on, and when it has started,
  -- a request that the web UI answers has an unexpired session of the sign-on.
  pub required_sign_on_gates :
      {Served : Type 0} (parts : Parts Blobs Indexer) (next : Request → Served) (r : Request)
      (answer : Served)
      → start make getenv lib ≡ ok parts
      → (ui_handler lib parts.authenticator next r).reply ≡ served answer
      → (a : Authenticator) × (parts.authenticator ≡ some a) × ((s : Session) × SignedIn lib a r s)
  unfolding ui_handler
  required_sign_on_gates parts next r answer started answered =
      let (a, on) = started-some parts started in
      let gated = subst (λ o. (ui_handler lib o next r).reply ≡ served answer) on answered in
      (a, on, ((wrap-SignedIn lib a next r answer).0 gated).2)
