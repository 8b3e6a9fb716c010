-- ===== src/Tests.antt =====
-- Concrete states on which the theorems are applied: one account, one client, and services in
-- memory whose calls are all answered, with one second to a tick.
mod Tokens
mod SignIn
mod Requests
mod Clients
mod Hashes
mod Once
mod Browsing
mod Service
mod Starting
mod Tools
use braza_sso.Prelude.{
  ℕ, ◌+◌, Bool, true, false, Option, none, some, List, [], ◌∷◌, ◌++◌, Text, codes, text_eq, refl,
  ◌≡◌, if◌then◌else◌,
}
use braza_sso.Env.Memory.{memory_services, memory_services-laws, empty_store}
use braza_sso.Env.Services.{Services, ServiceLaws, delivered}
use braza_sso.Jwt.{Config}
use braza_sso.Model.{User, Client, RecoveryCode, zero_user}
use braza_sso.Password.{encode_hash}
use braza_sso.World.{World}

abbrev pub services : Services
services = memory_services (λ _. delivered) (λ t. t)

abbrev pub laws : ServiceLaws services
laws = memory_services-laws (λ _. delivered) (λ t. t) (λ i j le. le)

abbrev pub config : Config
config = record {
  base_url = codes "https://sso";
  frontend_url = codes "https://www";
  pepper = codes "p";
  issuer = codes "https://sso";
  access_ttl = 900;
  modulus = 1 ∷ [];
  exponent = 3 ∷ [];
}

-- The stored hash of a password, with a salt of zeros.
abbrev pub hash_of : Text → Text
hash_of password =
    let salt = services.random 0 16 in
    encode_hash salt (services.argon2_id_key (password ++ codes "p") salt 3 65536 4 32)

abbrev pub address : Text
address = codes "a@b.c"

abbrev pub secret : Text
secret = codes "Secret-12345"

abbrev pub alice : User
alice = record (zero_user 5) {
  email = address;
  password_hash = hash_of secret;
  totp_secret = codes "123456";
}

abbrev pub app : Client
app = record {
  id = codes "app";
  secret_hash = codes "$2a$10$abc";
  redirect_uris = codes "https://app/cb" ∷ [];
  scopes = [];
  name = codes "App";
  logo_url = [];
  back_channel_logout_uri = [];
}

abbrev pub start : World services
start = record {
  redis = empty_store;
  users = λ id. none;
  users_by_email = λ email. none;
  clients = λ id. none;
  consents = λ id. none;
  recovery_codes = λ id. none;
  identities = λ k. none;
  tick = 0;
  posts = [];
  mails = [];
  cookies = [];
}

abbrev pub with_alice : World services
with_alice = record start {
  users = λ id. some alice;
  users_by_email = λ email. if text_eq email address then some 5 else none;
  clients = λ id. if text_eq id (codes "app") then some app else none;
  recovery_codes =
      λ id. some (record { code_id = 9; code_hash = hash_of (codes "rc"); used = false } ∷ []);
  consents = λ id. some (record { client_id = codes "app"; scopes = codes "openid" ∷ [] } ∷ []);
}
