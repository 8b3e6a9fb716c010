-- ===== src/Oauth/Keys.antt =====
-- internal/oauth/jwks.go: the public key set. Its headers are left out.
use braza_sso.Prelude.{pure}
use braza_sso.Env.Services.{Services}
use braza_sso.Http.{respond}
use braza_sso.Jwt.{Config, public_key_jwk}
use braza_sso.World.{Response, Handler, key_set}

abbrev pub jwks_handler : (S : Services) → Config → Handler S Response
jwks_handler S c = pure (respond 200 (key_set (public_key_jwk c)))
