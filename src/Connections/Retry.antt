-- ===== src/Connections/Retry.antt =====
-- How long the server waits for Cassandra, and when that is enough.
use braza_sso.Prelude.{
  ℕ, zero, suc, ◌+◌, ◌*◌, ◌≤◌, ◌<◌, ◌≡◌, ◌≢◌, Option, none, some, List, Text, arith, Option-cases,
  inl, inr,
}
use braza_sso.Connections.{Cluster, cluster_of, retry, new_cassandra_session, max_attempts}

-- The seconds slept when all attempts fail.
abbrev waits : ℕ → ℕ → ℕ
waits zero attempt = 0
waits (suc left) attempt = attempt * 3 + waits left (suc attempt)

module _ {Session : Type 0} (create_session : Cluster → ℕ → Option Session)
    (cluster : Cluster) where
  retry-first :
      (left attempt slept k : ℕ)
      → attempt ≤ k
      → k < attempt + left
      → create_session cluster k ≢ none
      → (j : ℕ) × (session : Session) × (attempt ≤ j)
        × (j ≤ k)
        × (create_session cluster j ≡ some session)
        × ((retry create_session cluster left attempt slept).0 ≡ some session)
  unfolding retry
  retry-first zero attempt slept k le lt good = absurd (omega arith)
  retry-first (suc left) attempt slept k le lt good =
      elim (Option-cases (create_session cluster attempt)) [
        | inl failed ↦
            let ne : attempt ≢ k = λ e. good (ground (arith, e, failed)) in
            let (j, session, lo, hi, made, got) =
              retry-first left (suc attempt) (slept + attempt * 3) k (omega arith) (omega arith)
                good in
            (j, session, omega arith, hi, made, ground (arith, got))
        | inr (session, made) ↦ (attempt, session, omega arith, le, made, ground arith)
      ]

  retry-waits :
      (left attempt slept : ℕ)
      → (retry create_session cluster left attempt slept).1 ≤ slept + waits left attempt
  unfolding retry
  retry-waits zero attempt slept = omega arith
  retry-waits (suc left) attempt slept = elim (Option-cases (create_session cluster attempt)) [
    | inl failed ↦
        let later = retry-waits left (suc attempt) (slept + attempt * 3) in ground (arith, later)
    | inr (session, made) ↦ ground arith
  ]

module _ {Session : Type 0} (create_session : Cluster → ℕ → Option Session) where
  -- If one of the ten attempts to reach Cassandra gives a session, the server gets a session, the
  -- one that some attempt up to that one gave; it sleeps at most 165 seconds.
  pub new_cassandra_session_lem :
      (hosts : List Text) (keyspace username password : Text) (k : ℕ)
      → 1 ≤ k
      → k ≤ 10
      → create_session (cluster_of hosts keyspace username password) k ≢ none
      → (j : ℕ) × (session : Session) × (1 ≤ j)
        × (j ≤ k)
        × (create_session (cluster_of hosts keyspace username password) j ≡ some session)
        × ((new_cassandra_session create_session hosts keyspace username password).0 ≡ some session)
        × ((new_cassandra_session create_session hosts keyspace username password).1 ≤ 165)
  unfolding new_cassandra_session
  new_cassandra_session_lem hosts keyspace username password k lo hi good =
      let cluster = cluster_of hosts keyspace username password in
      let (j, session, le, le', made, got) =
        retry-first create_session cluster max_attempts 1 0 k lo (omega arith) good in
      (j, session, le, le', made, got, retry-waits create_session cluster max_attempts 1 0)
