-- ===== src/Server/Outside.antt =====
-- What cmd/api/main.go finds outside of the process, and the token service of internal/auth/jwt.go
-- with the private key that it reads there.
use braza_sso.Prelude.{ℕ, Bool, Option, none, some, Text}
use braza_sso.Connections.{Cluster, Options}
use braza_sso.Go.Strconv.{ℤ}

-- What a process finds outside: the environment, durations, files, PEM blocks and the two forms of
-- a private key, of which the second may be no RSA key, and whether the databases and Google's
-- provider can be reached.
pub record Outside : Type 1 where
  pub getenv : Text → Text
  pub parse_duration : Text → ℤ
  pub Key : Type 0
  pub read_file : Text → Option Text
  pub pem_decode : Text → Option Text
  pub parse_pkcs1 : Text → Option Key
  pub parse_pkcs8 : Text → Option (Option Key)
  pub Session : Type 0
  pub create_session : Cluster → ℕ → Option Session
  pub ping : Options → Option (Unit {0})
  pub new_provider : Text → Bool

module _ (O : Outside) where
  -- `ParsePKCS8PrivateKey`, where `ParsePKCS1PrivateKey` has failed.
  unfoldable pub parse_key : Text → Option O.Key
  parse_key bytes = elim (O.parse_pkcs1 bytes) [
    | some key ↦ some key
    | none ↦ elim (O.parse_pkcs8 bytes) [ none ↦ none | some rsa ↦ rsa ]
  ]

  pub record TokenService : Type 0 where
    pub private_key : O.Key
    pub issuer : Text
    pub access_ttl : ℤ

  -- `NewTokenService`
  unfoldable pub new_token_service : Text → Text → ℤ → Option TokenService
  unfolding parse_key
  new_token_service path issuer access_ttl = elim (O.read_file path) [
    | none ↦ none
    | some key_bytes ↦ elim (O.pem_decode key_bytes) [
      | none ↦ none
      | some block ↦ elim (parse_key block) [
        | none ↦ none
        | some key ↦ some (record { private_key = key; issuer = issuer; access_ttl = access_ttl })
      ]
    ]
  ]
