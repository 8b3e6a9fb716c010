-- ===== src/Connections.antt =====
-- internal/db/cassandra.go and internal/cache/redis.go: the connections that a process opens when
-- it starts.
pub mod Retry
use braza_sso.Prelude.{ℕ, zero, suc, ◌+◌, ◌*◌, Option, none, some, List, [], ◌∷◌, Text}
use braza_sso.Go.Strconv.{ℤ}

-- gocql's configuration of a cluster, as far as it is set; durations are in seconds. The
-- consistency is QUORUM. An authenticator is a user and a password.
pub record Cluster : Type 0 where
  pub hosts : List Text
  pub keyspace : Text
  pub timeout : ℕ
  pub connect_timeout : ℕ
  pub num_conns : ℕ
  pub authenticator : Option (Text × Text)

unfoldable pub authenticator_of : Text → Text → Option (Text × Text)
authenticator_of [] password = none
authenticator_of (b ∷ username) password = some (b ∷ username, password)

unfoldable pub cluster_of : List Text → Text → Text → Text → Cluster
unfolding authenticator_of
cluster_of hosts keyspace username password = record {
  hosts = hosts;
  keyspace = keyspace;
  timeout = 10;
  connect_timeout = 10;
  num_conns = 2;
  authenticator = authenticator_of username password;
}

abbrev pub max_attempts : ℕ
max_attempts = 10

-- What `CreateSession` gives at an attempt.
module _ {Session : Type 0} (create_session : Cluster → ℕ → Option Session) where
  -- The loop, with the attempts left, the number of this one, and the seconds slept so far.
  unfoldable pub retry : Cluster → ℕ → ℕ → ℕ → Option Session × ℕ
  retry cluster zero attempt slept = (none, slept)
  retry cluster (suc left) attempt slept = elim (create_session cluster attempt) [
    | some session ↦ (some session, slept)
    | none ↦ retry cluster left (suc attempt) (slept + attempt * 3)
  ]

  -- `NewCassandraSession`, with the seconds that it slept.
  unfoldable pub new_cassandra_session : List Text → Text → Text → Text → Option Session × ℕ
  unfolding retry cluster_of
  new_cassandra_session hosts keyspace username password =
      retry (cluster_of hosts keyspace username password) max_attempts 1 0

-- The options of a Redis client.
pub record Options : Type 0 where
  pub addr : Text
  pub password : Text
  pub db : ℤ

-- `NewRedisClient`: a client whose PING is answered.
unfoldable pub new_redis_client : (Options → Option (Unit {0})) → Text → Text → ℤ → Option Options
new_redis_client ping addr password db =
    let options : Options = record { addr = addr; password = password; db = db } in
    elim (ping options) [ none ↦ none | some x ↦ some options ]
