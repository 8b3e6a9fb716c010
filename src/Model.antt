-- ===== src/Model.antt =====
-- The records that cross components: the account of internal/user/model.go, the OAuth client of
-- internal/oauth/client.go, the claims of internal/auth/jwt.go, and what a handler writes.
use braza_sso.Prelude.{ℕ, Text, Bool, false, Option, none, List, []}

-- A UUID is its 16 bytes read as a number; times are seconds since the epoch.
abbrev pub Uuid : Type 0
Uuid = ℕ

abbrev pub Time : Type 0
Time = ℕ

pub record User : Type 0 where
  pub id : Uuid
  pub email : Text
  pub password_hash : Text
  pub email_verified : Bool
  pub totp_enabled : Bool
  pub totp_secret : Text
  pub locked_until : Option Time
  pub failed_attempts : ℕ
  pub created_at : Time
  pub updated_at : Time

-- What `Scan` leaves of a row whose columns are null: Go's zero values.
abbrev pub zero_user : Uuid → User
zero_user id = record {
  id = id;
  email = [];
  password_hash = [];
  email_verified = false;
  totp_enabled = false;
  totp_secret = [];
  locked_until = none;
  failed_attempts = 0;
  created_at = 0;
  updated_at = 0;
}

pub record Client : Type 0 where
  pub id : Text
  pub secret_hash : Text
  pub redirect_uris : List Text
  pub scopes : List Text
  pub name : Text
  pub logo_url : Text
  pub back_channel_logout_uri : Text

pub record Claims : Type 0 where
  pub email : Text
  pub email_verified : Bool
  pub issuer : Text
  pub subject : Text
  pub audience : Text
  pub expires_at : Time
  pub issued_at : Time
  pub jti : Text

-- A row of `user_recovery_codes` within its user's partition.
pub record RecoveryCode : Type 0 where
  pub code_id : Uuid
  pub code_hash : Text
  pub used : Bool

-- A row of `user_consents` within its user's partition.
pub record Consent : Type 0 where
  pub client_id : Text
  pub scopes : List Text

-- `authCodeMeta` of internal/oauth/handlers.go: what an authorization code stands for.
pub record AuthCodeMeta : Type 0 where
  pub user_id : Text
  pub client_id : Text
  pub redirect_uri : Text
  pub scopes : List Text
  pub code_challenge : Text

-- The claims that the federation reads from a verified ID token.
pub record IdClaims : Type 0 where
  pub sub : Text
  pub email : Text
  pub email_verified : Bool

-- A row of `federated_identities`, whose key is the user and the provider.
pub record FederatedIdentity : Type 0 where
  pub provider_user_id : Text
  pub email : Text
  pub linked_at : Time
