-- ===== src/Env/Services.antt =====
-- All services together, and what the environment decides at each call: whether the call reaches
-- the server, the time, and the random bytes. Calls are numbered; `tick` counts them.
use braza_sso.Prelude.{ℕ, ◌≤◌, ◌≡◌, Bool, Option, some, List, Text}
use braza_sso.Model.{
  Uuid, User, Client, Claims, RecoveryCode, FederatedIdentity, Consent, AuthCodeMeta, IdClaims,
}
use braza_sso.Env.Redis.{Redis, RedisLaws}
use braza_sso.Env.Table.{Table, TableLaws}

-- A remote call is answered, or fails: before the server has carried it out, or after.
pub data Fault : Type 0 where
  delivered lost late : Fault

pub record Services : Type 1 where
  pub redis : Redis
  pub users : Table Uuid User
  pub users_by_email : Table Text Uuid
  pub clients : Table Text Client
  -- Partitions of `user_consents` and `user_recovery_codes`: the rows of one user.
  pub consents : Table Uuid (List Consent)
  pub recovery_codes : Table Uuid (List RecoveryCode)
  pub identities : Table (Uuid × Text) FederatedIdentity
  -- The environment at each tick.
  pub fault : ℕ → Fault
  pub clock : ℕ → ℕ
  pub random : ℕ → ℕ → Text
  pub new_uuid : ℕ → Uuid
  -- google/uuid
  pub uuid_text : Uuid → Text
  pub uuid_parse : Text → Option Uuid
  -- golang.org/x/crypto/argon2: password, salt, time, memory, threads, key length
  pub argon2_id_key : Text → Text → ℕ → ℕ → ℕ → ℕ → Text
  -- golang-jwt: signing with the service's key (may fail) and verifying at a time
  pub sign : Claims → Option Text
  pub verify : ℕ → Text → Option Claims
  -- pquerna/otp: code against secret at a time; the secret and URI generated for an account
  pub totp_validate : ℕ → Text → Text → Bool
  pub totp_generate : ℕ → Text → Text → Option (Text × Text)
  -- crypto/sha256
  pub sha256 : Text → Text
  -- golang.org/x/oauth2 and go-oidc: the redirect for a state, the ID token for a code (empty if
  -- the answer has none), and the claims of an ID token that verifies (none if they do not parse)
  pub auth_code_url : Text → Text
  pub exchange : ℕ → Text → Option Text
  pub verify_id_token : ℕ → Text → Option (Option IdClaims)
  -- encoding/json on `authCodeMeta`
  pub marshal_meta : AuthCodeMeta → Text
  pub unmarshal_meta : Text → Option AuthCodeMeta
  -- net/url: a URL with query parameters set (none if it does not parse), and `QueryEscape`
  pub with_query : Text → List (Text × Text) → Option Text
  pub query_escape : Text → Text
  -- The tables of package unicode
  pub is_upper : ℕ → Bool
  pub is_lower : ℕ → Bool
  pub is_digit : ℕ → Bool
  pub is_letter : ℕ → Bool

pub record ServiceLaws (S : Services) : Type 0 where
  pub redis : RedisLaws S.redis
  pub users : TableLaws S.users
  pub users_by_email : TableLaws S.users_by_email
  pub clients : TableLaws S.clients
  pub consents : TableLaws S.consents
  pub recovery_codes : TableLaws S.recovery_codes
  pub identities : TableLaws S.identities
  pub clock_mono : (i j : ℕ) → i ≤ j → S.clock i ≤ S.clock j
  pub uuid_parse-uuid_text : (u : Uuid) → S.uuid_parse (S.uuid_text u) ≡ some u
