-- ===== src/RegisterClient.antt =====
-- cmd/register-client/main.go: the tool that adds an OAuth client, with what it prints.
pub mod Registered
use braza_sso.Prelude.{
  ℕ, suc, Bool, true, false, not, ◌||◌, Option, none, some, List, [], ◌∷◌, map, Text, codes, String,
  M, pure, leave, stop_if, or_stop, or_else, ◌>>=◌, ◌>>◌,
}
use braza_sso.Connections.{Cluster, new_cassandra_session}
use braza_sso.Env.Services.{Services}
use braza_sso.Go.Fmt.{hex}
use braza_sso.Go.Strings.{split, trim_space}
use braza_sso.Model.{Client}
use braza_sso.Oauth.Clients.{create_client}
use braza_sso.Settings.{or_fallback}
use braza_sso.World.{World, random_bytes, new_uuid}

-- The command line. A flag that is not given has the default of its declaration.
pub record Flags : Type 0 where
  pub name : Text
  pub redirect_uris : Text
  pub scopes : Text
  pub logo_url : Text
  pub backchannel_logout_uri : Text

abbrev pub default_flags : Flags
default_flags = record {
  name = [];
  redirect_uris = [];
  scopes = codes "openid profile email";
  logo_url = [];
  backchannel_logout_uri = [];
}

-- Why it exits with status 1.
pub data Exit : Type 0 where
  usage hash_failed connection_failed create_failed : Exit

-- The two values printed.
pub record Printed : Type 0 where
  pub client_id : Text
  pub client_secret : Text

abbrev is_empty : Text → Bool
is_empty [] = true
is_empty (b ∷ s) = false

unfoldable pub split_trimmed : Text → List Text
unfolding split trim_space
split_trimmed s = map trim_space (split b',' s)

-- The tool's own `getenv`.
unfoldable pub env_or : (Text → Text) → String → Text → Text
unfolding or_fallback
env_or getenv key fallback = or_fallback (getenv (codes key)) fallback

unfoldable pub client_of : Flags → Text → Text → Client
unfolding split_trimmed
client_of flags client_id secret_hash = record {
  id = client_id;
  secret_hash = secret_hash;
  redirect_uris = split_trimmed flags.redirect_uris;
  scopes = split_trimmed flags.scopes;
  name = flags.name;
  logo_url = flags.logo_url;
  back_channel_logout_uri = flags.backchannel_logout_uri;
}

-- bcrypt's hash of a secret with the salt drawn at a tick, if it gives one, and what
-- `CreateSession` gives at an attempt.
module _ (S : Services) (getenv : Text → Text) (generate_from_password : ℕ → Text → Option Text)
    (create_session : Cluster → ℕ → Option (Unit {0})) where
  unfoldable pub generate_secret : {E : Type 0} → M (World S) E Text
  unfolding random_bytes hex
  generate_secret = do buf ← random_bytes S 32; pure (hex buf)

  -- `bcrypt.GenerateFromPassword`, a draw of its own.
  unfoldable pub hash_secret : Text → M (World S) Exit Text
  hash_secret secret w =
      (or_stop (generate_from_password w.tick secret) hash_failed) (record w { tick = suc w.tick })

  unfoldable pub connect : M (World S) Exit (Unit {0})
  unfolding env_or split new_cassandra_session
  connect =
      or_stop
        (new_cassandra_session create_session
          (split b',' (env_or getenv "CASSANDRA_HOSTS" (codes "localhost")))
          (env_or getenv "CASSANDRA_KEYSPACE" (codes "braza_sso"))
          (env_or getenv "CASSANDRA_USERNAME" []) (env_or getenv "CASSANDRA_PASSWORD" [])).0
        connection_failed

  -- `main`
  unfoldable pub register_client : Flags → M (World S) Exit Printed
  unfolding generate_secret hash_secret connect client_of new_uuid create_client
  register_client flags = do
    stop_if (is_empty flags.name || is_empty flags.redirect_uris) usage
    secret ← generate_secret
    secret_hash ← hash_secret secret
    connect
    id ← new_uuid S
    let client_id = S.uuid_text id
    or_else (create_client S (client_of flags client_id secret_hash)) create_failed
    pure (record { client_id = client_id; client_secret = secret })
