-- ===== src/Server/Wiring/Deps.antt =====
-- The constructors of the handlers of internal/auth for tests, over any dependencies.
use braza_sso.Prelude.{Text}
use braza_sso.Server.Wiring.Handlers.{
  RegistrationHandler, LoginHandler, PasswordResetHandler, TotpHandler, FederationHandler,
  GoogleConfig, IdTokenVerifier,
}
use braza_sso.Totp.{totp_issuer}

unfoldable pub new_registration_handler_with_deps :
    {Users Tokens Mailer : Type 0}
    → Users
    → Tokens
    → Mailer
    → Text
    → Text
    → RegistrationHandler Users Tokens Mailer
new_registration_handler_with_deps users tokens mailer pepper base_url = record {
  users = users;
  tokens = tokens;
  mailer = mailer;
  pepper = pepper;
  base_url = base_url;
}

unfoldable pub new_login_handler_with_deps :
    {Users Tokens Jwt Mailer : Type 0}
    → Users
    → Tokens
    → Jwt
    → Mailer
    → Text
    → Text
    → Text
    → LoginHandler Users Tokens Jwt Mailer
new_login_handler_with_deps users tokens jwt mailer pepper base_url issuer = record {
  users = users;
  tokens = tokens;
  jwt = jwt;
  mailer = mailer;
  pepper = pepper;
  base_url = base_url;
  issuer = issuer;
}

unfoldable pub new_password_reset_handler_with_deps :
    {Users Tokens Mailer : Type 0}
    → Users
    → Tokens
    → Mailer
    → Text
    → Text
    → PasswordResetHandler Users Tokens Mailer
new_password_reset_handler_with_deps users tokens mailer pepper base_url = record {
  users = users;
  tokens = tokens;
  mailer = mailer;
  pepper = pepper;
  base_url = base_url;
}

unfoldable pub new_totp_handler_with_deps :
    {Users Codes Tokens Jwt Mailer : Type 0}
    → Users
    → Codes
    → Tokens
    → Jwt
    → Mailer
    → Text
    → Text
    → TotpHandler Users Codes Tokens Jwt Mailer
new_totp_handler_with_deps users codes tokens jwt mailer pepper jwt_issuer = record {
  users = users;
  codes = codes;
  tokens = tokens;
  jwt = jwt;
  mailer = mailer;
  pepper = pepper;
  jwt_issuer = jwt_issuer;
  issuer = totp_issuer;
}

unfoldable pub new_federation_handler_with_deps :
    {Users Identities Tokens Jwt : Type 0}
    → GoogleConfig
    → IdTokenVerifier
    → Users
    → Identities
    → Tokens
    → Jwt
    → Text
    → Text
    → FederationHandler Users Identities Tokens Jwt
new_federation_handler_with_deps google_cfg oidc_verifier users identities token_store jwt pepper
      jwt_issuer =
    record {
      google_cfg = google_cfg;
      oidc_verifier = oidc_verifier;
      users = users;
      identities = identities;
      token_store = token_store;
      jwt = jwt;
      pepper = pepper;
      jwt_issuer = jwt_issuer;
    }
