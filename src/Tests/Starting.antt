-- ===== src/Tests/Starting.antt =====
-- The theorems on the start of the server, applied.
use braza_sso.Prelude.{
  ℕ, ◌≡◌, ◌≢◌, ◌≤◌, ◌==◌, refl, true, Option, none, some, [], ◌∷◌, ◌++◌, Text, codes, ok, arith,
  if◌then◌else◌,
}
use braza_sso.Connections
use braza_sso.Connections.{Cluster, Options}
use braza_sso.Connections.Retry
use braza_sso.Go.Strconv.{ℤ, pos}
use braza_sso.Server.Start
use braza_sso.Server.Outside.{Outside, TokenService}
use braza_sso.Server.Start.Wired
use braza_sso.Server.Start.Listening
use braza_sso.Settings.{Settings, load}
use braza_sso.Settings.Missing.{loaded}

-- Cassandra answers from the third attempt on.
abbrev third_time : Cluster → ℕ → Option ℕ
third_time cluster attempt = if attempt == 3 then some 7 else none

new_cassandra_session_lem_example :
    (j : ℕ) × (session : ℕ) × (1 ≤ j)
    × (j ≤ 3)
    × (third_time (Connections.cluster_of [] [] [] []) j ≡ some session)
    × ((Connections.new_cassandra_session third_time [] [] [] []).0 ≡ some session)
    × ((Connections.new_cassandra_session third_time [] [] [] []).1 ≤ 165)
new_cassandra_session_lem_example =
    Retry.new_cassandra_session_lem third_time [] [] [] [] 3 (omega arith) (omega arith)
      (λ e. absurd (ground arith))

abbrev seconds : Text → ℤ
seconds text = pos 900

abbrev full : Text → Text
full name = codes "x"

abbrev outside : Outside
outside = record {
  getenv = full;
  parse_duration = seconds;
  Key = ℕ;
  read_file = λ path. some path;
  pem_decode = λ text. some text;
  parse_pkcs1 = λ bytes. none;
  parse_pkcs8 = λ bytes. some (some 5);
  Session = ℕ;
  create_session = third_time;
  ping = λ options. some tt;
  new_provider = λ issuer. true;
}

abbrev settings : Settings
settings = loaded full seconds

abbrev client : Options
client = record { addr = codes "x"; password = codes "x"; db = settings.redis_db }

abbrev token_service : TokenService outside
token_service = record { private_key = 5; issuer = codes "x"; access_ttl = pos 900 }

abbrev handlers : Start.Handlers outside
handlers = Start.wire outside settings 7 client token_service

abbrev google : Start.Google outside
google = record {
  google_cfg = record {
    client_id = codes "x";
    client_secret = codes "x";
    redirect_url = codes "x/auth/federation/google/callback";
    scopes = codes "openid" ∷ codes "email" ∷ codes "profile" ∷ [];
  };
  oidc_verifier = record { client_id = codes "x" };
  users = handlers.user_repo;
  identities = record { session = 7 };
  token_store = handlers.token_store;
  jwt = token_service;
  pepper = codes "x";
  jwt_issuer = codes "x";
}

abbrev started : Start.Started outside
started = record {
  http_server = record {
    addr = codes ":x";
    read_timeout = 15;
    write_timeout = 15;
    idle_timeout = 60;
  };
  settings = settings;
  session = 7;
  redis = client;
  token_service = token_service;
  handlers = handlers;
  google = some google;
}

start_ok_example :
    (started.http_server.addr ≡ codes ":" ++ started.settings.port)
    × (load full seconds ≡ ok started.settings)
    × (started.settings.pepper ≢ [])
    × (started.settings.jwt_issuer ≢ [])
    × (started.token_service.issuer ≡ started.settings.jwt_issuer)
    × (started.token_service.access_ttl ≡ started.settings.jwt_access_token_ttl)
    × Listening.FitsGoogle outside started.google started.settings.google_client_id
        started.settings.base_url
unfolding Start.start Connections.new_cassandra_session Connections.new_redis_client
start_ok_example = Listening.start_ok outside {s = started} refl

start-IsShared_example :
    Wired.IsConfigOf outside (Wired.config_of settings 900 [] []) started
    × Wired.IsShared outside started
unfolding Start.start Connections.new_cassandra_session Connections.new_redis_client
start-IsShared_example = Wired.start-IsShared outside 900 [] [] {s = started} refl
