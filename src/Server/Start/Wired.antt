-- ===== src/Server/Start/Wired.antt =====
-- What the handlers of a server that has started were made of.
use braza_sso.Prelude.{ℕ, ◌≡◌, Option, none, some, Text, ok, [], ◌∷◌, arith}
use braza_sso.Jwt.{Config}
use braza_sso.Server.Outside.{Outside}
use braza_sso.Server.Start.{Started, Google, start, wire, federation, new_federation_handler}
use braza_sso.Server.Start.Listening.{start-inv, made_google, new_token_service-issuer}
use braza_sso.Server.Wiring.{new_federated_identity_repository}
use braza_sso.Settings.{Settings}

-- The configuration that the model's handlers take, from the settings, the time to live of an
-- access token in seconds, and the public key.
abbrev pub config_of : Settings → ℕ → Text → Text → Config
config_of settings access_ttl modulus exponent = record {
  base_url = settings.base_url;
  frontend_url = settings.frontend_url;
  pepper = settings.pepper;
  issuer = settings.jwt_issuer;
  access_ttl = access_ttl;
  modulus = modulus;
  exponent = exponent;
}

module _ (O : Outside) where
  -- Google's handler, if there is one, has the values of the configuration and what it shares with
  -- the other handlers.
  abbrev pub IsGoogleOf : Option (Google O) → Config → Started O → Type 0
  IsGoogleOf none c s = Unit {0}
  IsGoogleOf (some g) c s =
      (g.pepper ≡ c.pepper)
      × (g.jwt_issuer ≡ c.issuer)
      × (g.users ≡ s.handlers.user_repo)
      × (g.token_store ≡ s.handlers.token_store)
      × (g.jwt ≡ s.token_service)
      × (g.identities.session ≡ s.session)

  -- Every handler has the values of the configuration.
  pub record IsConfigOf (c : Config) (s : Started O) : Type 0 where
    pub pepper :
        (s.handlers.registration.pepper ≡ c.pepper)
        × (s.handlers.login.pepper ≡ c.pepper)
        × (s.handlers.password_reset.pepper ≡ c.pepper)
        × (s.handlers.totp.pepper ≡ c.pepper)
    pub base_url :
        (s.handlers.registration.base_url ≡ c.base_url)
        × (s.handlers.login.base_url ≡ c.base_url)
        × (s.handlers.password_reset.base_url ≡ c.base_url)
        × (s.handlers.oauth.base_url ≡ c.base_url)
    pub issuer :
        (s.handlers.login.issuer ≡ c.issuer)
        × (s.handlers.totp.jwt_issuer ≡ c.issuer)
        × (s.handlers.oauth.issuer ≡ c.issuer)
        × (s.token_service.issuer ≡ c.issuer)
    pub frontend_url : s.handlers.oauth.frontend_url ≡ c.frontend_url
    pub google : IsGoogleOf s.google c s

  -- Every handler works on one session of Cassandra, one client of Redis and one token service.
  pub record IsShared (s : Started O) : Type 0 where
    pub users :
        (s.handlers.registration.users ≡ s.handlers.user_repo)
        × (s.handlers.login.users ≡ s.handlers.user_repo)
        × (s.handlers.password_reset.users ≡ s.handlers.user_repo)
        × (s.handlers.totp.users ≡ s.handlers.user_repo)
        × (s.handlers.oauth.users ≡ s.handlers.user_repo)
    pub sessions :
        (s.handlers.user_repo.session ≡ s.session)
        × (s.handlers.totp.codes.session ≡ s.session)
        × (s.handlers.oauth.clients.session ≡ s.session)
        × (s.handlers.oauth.consents.session ≡ s.session)
    pub tokens :
        (s.handlers.registration.tokens ≡ s.handlers.token_store)
        × (s.handlers.login.tokens ≡ s.handlers.token_store)
        × (s.handlers.password_reset.tokens ≡ s.handlers.token_store)
        × (s.handlers.totp.tokens ≡ s.handlers.token_store)
        × (s.handlers.logout.tokens ≡ s.handlers.token_store)
    pub redis :
        (s.handlers.token_store.redis ≡ s.redis)
        × (s.handlers.rl.redis ≡ s.redis)
        × (s.handlers.oauth.redis ≡ s.redis)
    pub jwt :
        (s.handlers.login.jwt ≡ s.token_service)
        × (s.handlers.totp.jwt ≡ s.token_service)
        × (s.handlers.oauth.jwt ≡ s.token_service)
        × (s.handlers.oauth.token_svc ≡ s.token_service)
        × (s.handlers.logout.jwt ≡ s.token_service)
    pub notifier :
        (s.handlers.logout.notifier.clients ≡ s.handlers.oauth.clients)
        × (s.handlers.logout.notifier.consents ≡ s.handlers.oauth.consents)

  wire-IsShared :
      (s : Started O)
      → s.handlers ≡ wire O s.settings s.session s.redis s.token_service
      → IsShared s
  unfolding wire
  wire-IsShared s wired = record {
    users = ground arith;
    sessions = ground arith;
    tokens = ground arith;
    redis = ground arith;
    jwt = ground arith;
    notifier = ground arith;
  }

  -- Google's handler has what `federation` is given.
  made_google-IsGoogleOf :
      (s : Started O) (ttl : ℕ) (modulus exponent id : Text) (g : Google O)
      → made_google O id s.settings s.session s.handlers s.token_service ≡ some g
      → IsGoogleOf (some g) (config_of s.settings ttl modulus exponent) s
  unfolding new_federation_handler new_federated_identity_repository
  made_google-IsGoogleOf s ttl modulus exponent id g made = ground arith

  federation-IsGoogleOf :
      (s : Started O) (ttl : ℕ) (modulus exponent id : Text) (google : Option (Google O))
      → (federation O id s.settings s.session s.handlers s.token_service tt).0 ≡ ok google
      → IsGoogleOf google (config_of s.settings ttl modulus exponent) s
  unfolding federation
  federation-IsGoogleOf s ttl modulus exponent id none made = tt
  federation-IsGoogleOf s ttl modulus exponent [] (some g) made = absurd (ground arith)
  federation-IsGoogleOf s ttl modulus exponent (b ∷ id) (some g) made =
      made_google-IsGoogleOf s ttl modulus exponent (b ∷ id) g (ground arith)

  -- A server that listens has handlers that agree: all have the values of one configuration, which
  -- are those of the settings, with the token service's issuer the audience of their tokens; and
  -- all work on one session of Cassandra, one client of Redis and one token service.
  pub start-IsShared :
      (ttl : ℕ) (modulus exponent : Text) {s : Started O}
      → (start O tt).0 ≡ ok s
      → IsConfigOf (config_of s.settings ttl modulus exponent) s × IsShared s
  unfolding wire
  start-IsShared ttl modulus exponent {s} h =
      let (_, made, wired, google, _) = start-inv O h in
      let (issuer, _) =
        new_token_service-issuer O s.settings.jwt_private_key_path s.settings.jwt_issuer
          s.settings.jwt_access_token_ttl made in
      (
        record {
          pepper = ground arith;
          base_url = ground arith;
          issuer = ground arith;
          frontend_url = ground arith;
          google =
              federation-IsGoogleOf s ttl modulus exponent s.settings.google_client_id s.google
                google;
        },
        wire-IsShared s wired,
      )
