-- ===== src/Server/Wiring/Handlers.antt =====
-- The structs of the handlers of internal/auth and internal/oauth, with their constructors. A field
-- that is an interface in the source has the type of the value that it holds, which is a parameter
-- of the struct here; the constructors fix it.
use braza_sso.Prelude.{List, Text}
use braza_sso.Connections.{Options}
use braza_sso.Server.Outside.{Outside, TokenService}
use braza_sso.Server.Wiring.{Repository, RecoveryCodeRepository, TokenStore}
use braza_sso.Totp.{totp_issuer}

pub record RegistrationHandler (Users Tokens Mailer : Type 0) : Type 0 where
  pub users : Users
  pub tokens : Tokens
  pub mailer : Mailer
  pub pepper : Text
  pub base_url : Text

unfoldable pub new_registration_handler :
    {Session Mailer : Type 0}
    → Repository Session
    → TokenStore Options
    → Mailer
    → Text
    → Text
    → RegistrationHandler (Repository Session) (TokenStore Options) Mailer
new_registration_handler users tokens mailer pepper base_url = record {
  users = users;
  tokens = tokens;
  mailer = mailer;
  pepper = pepper;
  base_url = base_url;
}

pub record LoginHandler (Users Tokens Jwt Mailer : Type 0) : Type 0 where
  pub users : Users
  pub tokens : Tokens
  pub jwt : Jwt
  pub mailer : Mailer
  pub pepper : Text
  pub base_url : Text
  pub issuer : Text

unfoldable pub new_login_handler :
    {O : Outside} {Mailer : Type 0}
    → Repository O.Session
    → TokenStore Options
    → TokenService O
    → Mailer
    → Text
    → Text
    → Text
    → LoginHandler (Repository O.Session) (TokenStore Options) (TokenService O) Mailer
new_login_handler users tokens jwt mailer pepper base_url issuer = record {
  users = users;
  tokens = tokens;
  jwt = jwt;
  mailer = mailer;
  pepper = pepper;
  base_url = base_url;
  issuer = issuer;
}

pub record PasswordResetHandler (Users Tokens Mailer : Type 0) : Type 0 where
  pub users : Users
  pub tokens : Tokens
  pub mailer : Mailer
  pub pepper : Text
  pub base_url : Text

unfoldable pub new_password_reset_handler :
    {Session Mailer : Type 0}
    → Repository Session
    → TokenStore Options
    → Mailer
    → Text
    → Text
    → PasswordResetHandler (Repository Session) (TokenStore Options) Mailer
new_password_reset_handler users tokens mailer pepper base_url = record {
  users = users;
  tokens = tokens;
  mailer = mailer;
  pepper = pepper;
  base_url = base_url;
}

pub record TotpHandler (Users Codes Tokens Jwt Mailer : Type 0) : Type 0 where
  pub users : Users
  pub codes : Codes
  pub tokens : Tokens
  pub jwt : Jwt
  pub mailer : Mailer
  pub pepper : Text
  pub issuer : Text
  pub jwt_issuer : Text

unfoldable pub new_totp_handler :
    {O : Outside} {Mailer : Type 0}
    → Repository O.Session
    → RecoveryCodeRepository O.Session
    → TokenStore Options
    → TokenService O
    → Mailer
    → Text
    → Text
    → TotpHandler
        (Repository O.Session)
        (RecoveryCodeRepository O.Session)
        (TokenStore Options)
        (TokenService O)
        Mailer
new_totp_handler users codes tokens jwt mailer pepper jwt_issuer = record {
  users = users;
  codes = codes;
  tokens = tokens;
  jwt = jwt;
  mailer = mailer;
  pepper = pepper;
  jwt_issuer = jwt_issuer;
  issuer = totp_issuer;
}

pub record OauthHandlers (Clients Consents Users Redis Jwt : Type 0) : Type 0 where
  pub clients : Clients
  pub consents : Consents
  pub users : Users
  pub redis : Redis
  pub jwt : Jwt
  pub issuer : Text
  pub base_url : Text
  pub frontend_url : Text
  pub token_svc : Jwt

unfoldable pub new_oauth_handlers :
    {Clients Consents Users Redis Jwt : Type 0}
    → Clients
    → Consents
    → Users
    → Redis
    → Jwt
    → Text
    → Text
    → Text
    → OauthHandlers Clients Consents Users Redis Jwt
new_oauth_handlers clients consents users redis jwt issuer base_url frontend_url = record {
  clients = clients;
  consents = consents;
  users = users;
  redis = redis;
  jwt = jwt;
  issuer = issuer;
  base_url = base_url;
  frontend_url = frontend_url;
  token_svc = jwt;
}

pub record BackChannelLogoutService (Clients Consents : Type 0) : Type 0 where
  pub clients : Clients
  pub consents : Consents

unfoldable pub new_back_channel_logout_service :
    {Clients Consents : Type 0} → Clients → Consents → BackChannelLogoutService Clients Consents
new_back_channel_logout_service clients consents = record { clients = clients; consents = consents }

pub record LogoutHandler (Tokens Jwt Notifier : Type 0) : Type 0 where
  pub tokens : Tokens
  pub jwt : Jwt
  pub notifier : Notifier

unfoldable pub new_logout_handler :
    {Tokens Jwt Notifier : Type 0} → Tokens → Jwt → Notifier → LogoutHandler Tokens Jwt Notifier
new_logout_handler tokens jwt notifier = record { tokens = tokens; jwt = jwt; notifier = notifier }

-- The configuration of `oauth2` for Google, less the endpoint, and the verifier of its ID tokens,
-- which wants them for one client.
pub record GoogleConfig : Type 0 where
  pub client_id : Text
  pub client_secret : Text
  pub redirect_url : Text
  pub scopes : List Text

pub record IdTokenVerifier : Type 0 where
  pub client_id : Text

pub record FederationHandler (Users Identities Tokens Jwt : Type 0) : Type 0 where
  pub google_cfg : GoogleConfig
  pub oidc_verifier : IdTokenVerifier
  pub users : Users
  pub identities : Identities
  pub token_store : Tokens
  pub jwt : Jwt
  pub pepper : Text
  pub jwt_issuer : Text
