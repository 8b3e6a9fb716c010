-- ===== src/Settings.antt =====
-- internal/config/config.go: the settings of the service, read from the environment.
pub mod Missing
use braza_sso.Prelude.{
  List, [], ◌∷◌, ◌++◌, Text, codes, String, Result, ok, stop, M, pure, leave, gets, on_option,
  ◌>>=◌, ◌>>◌, Option, none, some,
}
use braza_sso.Go.Strconv.{ℤ, atoi}

pub record Settings : Type 0 where
  pub port : Text
  pub base_url : Text
  pub frontend_url : Text
  pub env : Text
  pub pepper : Text
  pub jwt_private_key_path : Text
  pub jwt_issuer : Text
  -- In nanoseconds
  pub jwt_access_token_ttl : ℤ
  pub jwt_refresh_token_ttl : ℤ
  pub cassandra_hosts : List Text
  pub cassandra_keyspace : Text
  pub cassandra_username : Text
  pub cassandra_password : Text
  pub redis_addr : Text
  pub redis_password : Text
  pub redis_db : ℤ
  pub smtp_host : Text
  pub smtp_port : ℤ
  pub smtp_user : Text
  pub smtp_pass : Text
  pub smtp_from : Text
  pub google_client_id : Text
  pub google_client_secret : Text
  pub keycloak_issuer : Text
  pub keycloak_client_id : Text
  pub keycloak_client_secret : Text

-- The variable's value, or the fallback where it is unset or empty.
unfoldable pub or_fallback : Text → Text → Text
or_fallback [] fallback = fallback
or_fallback (b ∷ v) fallback = b ∷ v

-- `os.Getenv`, empty for a variable that is not set, and what `time.ParseDuration` returns next
-- to its error, which is ignored: 0 for a text that is no duration.
module _ (getenv : Text → Text) (parse_duration : Text → ℤ) where
  -- The state is the list `missing`.
  unfoldable pub required : {E : Type 0} → Text → M (List Text) E Text
  required key missing =
      (ok (getenv key), elim (getenv key) [ [] ↦ missing ++ (key ∷ []) | b ∷ v ↦ missing ])

  unfoldable pub optional : String → Text → Text
  unfolding or_fallback
  optional key fallback = or_fallback (getenv (codes key)) fallback

  unfoldable pub settings_of : Text → Text → Text → Text → Settings
  unfolding optional
  settings_of base_url pepper key_path issuer = record {
    port = optional "PORT" (codes "8080");
    base_url = base_url;
    frontend_url = optional "FRONTEND_URL" base_url;
    env = optional "ENV" (codes "production");
    pepper = pepper;
    jwt_private_key_path = key_path;
    jwt_issuer = issuer;
    jwt_access_token_ttl = parse_duration (optional "JWT_ACCESS_TOKEN_TTL" (codes "15m"));
    jwt_refresh_token_ttl = parse_duration (optional "JWT_REFRESH_TOKEN_TTL" (codes "168h"));
    cassandra_hosts = optional "CASSANDRA_HOSTS" (codes "localhost") ∷ [];
    cassandra_keyspace = optional "CASSANDRA_KEYSPACE" (codes "braza_sso");
    cassandra_username = optional "CASSANDRA_USERNAME" [];
    cassandra_password = optional "CASSANDRA_PASSWORD" [];
    redis_addr = optional "REDIS_ADDR" (codes "localhost:6379");
    redis_password = optional "REDIS_PASSWORD" [];
    redis_db = atoi (optional "REDIS_DB" (codes "0"));
    smtp_host = optional "SMTP_HOST" (codes "localhost");
    smtp_port = atoi (optional "SMTP_PORT" (codes "587"));
    smtp_user = optional "SMTP_USER" [];
    smtp_pass = optional "SMTP_PASS" [];
    smtp_from = optional "SMTP_FROM" (codes "noreply@localhost");
    google_client_id = optional "GOOGLE_CLIENT_ID" [];
    google_client_secret = optional "GOOGLE_CLIENT_SECRET" [];
    keycloak_issuer = optional "KEYCLOAK_ISSUER" [];
    keycloak_client_id = optional "KEYCLOAK_CLIENT_ID" [];
    keycloak_client_secret = optional "KEYCLOAK_CLIENT_SECRET" [];
  }

  -- The error is the list of the names that are missing.
  abbrev reject_missing : List Text → M (List Text) (List Text) (Unit {0})
  reject_missing [] = pure tt
  reject_missing (key ∷ missing) = leave (key ∷ missing)

  unfoldable pub load_from : M (List Text) (List Text) Settings
  unfolding required settings_of
  load_from = do
    base_url ← required (codes "BASE_URL")
    pepper ← required (codes "PEPPER")
    key_path ← required (codes "JWT_PRIVATE_KEY_PATH")
    issuer ← required (codes "JWT_ISSUER")
    missing ← gets (λ missing. missing)
    reject_missing missing
    pure (settings_of base_url pepper key_path issuer)

  -- `Load`
  unfoldable pub load : Result (List Text) Settings
  unfolding load_from
  load = (load_from []).0
