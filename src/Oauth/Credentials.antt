-- ===== src/Oauth/Credentials.antt =====
-- The grant `client_credentials`.
use braza_sso.Prelude.{◌≡◌, [], ◌++◌, Text, codes, ok, stop, arith}
use braza_sso.Env.Services.{Services}
use braza_sso.Jwt.{Config}
use braza_sso.Model.{Client}
use braza_sso.Oauth.Clients.{find_client}
use braza_sso.Oauth.Handlers.{TokenForm, handle_client_credentials, oauth_error}
use braza_sso.Password.Format.{verify_password-bcrypt}
use braza_sso.World.{World}

module _ (S : Services) (c : Config) where
  -- A client whose secret is stored as cmd/register-client stores it, as a bcrypt hash of cost 10,
  -- is never given a token: every secret, the right one included, is answered with 401.
  pub handle_client_credentials-bcrypt :
      (form : TokenForm) (w : World S) (client : Client) (s : Text)
      → (find_client S form.client_id w).0 ≡ ok client
      → client.secret_hash ≡ codes "$2a$10$" ++ s
      → (handle_client_credentials S c form w).0 ≡ stop (oauth_error "invalid_client" 401)
  unfolding handle_client_credentials
  handle_client_credentials-bcrypt form w client s found stored =
      ground (arith, verify_password-bcrypt S form.client_secret [] s)
