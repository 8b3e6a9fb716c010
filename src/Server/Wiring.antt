-- ===== src/Server/Wiring.antt =====
-- The structs of the repositories (internal/user and internal/oauth/client.go), of the token store
-- and of the limiter, with their constructors.
pub mod Deps
pub mod Handlers

-- What works on a session of Cassandra.
pub record Repository (Session : Type 0) : Type 0 where
  pub session : Session

pub record RecoveryCodeRepository (Session : Type 0) : Type 0 where
  pub session : Session

pub record FederatedIdentityRepository (Session : Type 0) : Type 0 where
  pub session : Session

pub record ClientRepository (Session : Type 0) : Type 0 where
  pub session : Session

pub record ConsentRepository (Session : Type 0) : Type 0 where
  pub session : Session

module _ {Session : Type 0} (session : Session) where
  unfoldable pub new_repository : Repository Session
  new_repository = record { session = session }

  unfoldable pub new_recovery_code_repository : RecoveryCodeRepository Session
  new_recovery_code_repository = record { session = session }

  unfoldable pub new_federated_identity_repository : FederatedIdentityRepository Session
  new_federated_identity_repository = record { session = session }

  unfoldable pub new_client_repository : ClientRepository Session
  new_client_repository = record { session = session }

  unfoldable pub new_consent_repository : ConsentRepository Session
  new_consent_repository = record { session = session }

-- What works on a client of Redis.
pub record TokenStore (Redis : Type 0) : Type 0 where
  pub redis : Redis

pub record SlidingWindowLimiter (Redis : Type 0) : Type 0 where
  pub redis : Redis

module _ {Redis : Type 0} (redis : Redis) where
  unfoldable pub new_token_store : TokenStore Redis
  new_token_store = record { redis = redis }

  unfoldable pub new_sliding_window_limiter : SlidingWindowLimiter Redis
  new_sliding_window_limiter = record { redis = redis }
