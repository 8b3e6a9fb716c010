-- ===== src/Server/Start.antt =====
-- cmd/api/main.go: the start of the server up to listening.
pub mod Listening
pub mod Wired
use braza_sso.Prelude.{
  ℕ, ◌≡◌, ◌≢◌, Bool, true, false, not, Option, none, some, List, [], ◌∷◌, ◌++◌, Text, codes, Result,
  ok, stop, M, pure, leave, or_stop, stop_if, on_result, on_option, ◌>>=◌, ◌>>◌, arith,
  Result-cases, Option-cases, inl, inr, if◌then◌else◌,
}
use braza_sso.Connections.{Cluster, Options, new_cassandra_session, new_redis_client}
use braza_sso.Go.Strconv.{ℤ}
use braza_sso.Email.{SmtpSender, new_smtp_sender}
use braza_sso.Server.Wiring.{
  Repository, RecoveryCodeRepository, FederatedIdentityRepository, ClientRepository,
  ConsentRepository, new_repository, new_recovery_code_repository,
  new_federated_identity_repository, new_client_repository, new_consent_repository, TokenStore,
  SlidingWindowLimiter, new_token_store, new_sliding_window_limiter,
}
use braza_sso.Server.Wiring.Handlers.{
  RegistrationHandler, new_registration_handler, LoginHandler, new_login_handler,
  PasswordResetHandler, new_password_reset_handler, TotpHandler, new_totp_handler, OauthHandlers,
  new_oauth_handlers, BackChannelLogoutService, new_back_channel_logout_service, LogoutHandler,
  new_logout_handler, FederationHandler,
}
use braza_sso.Server.Outside.{Outside, TokenService, new_token_service}
use braza_sso.Settings.{Settings, load}

-- Why it does not start: the parameters of `log.Fatal`, in the order of the checks.
pub data Fatal : Type 0 where
  missing : List Text → Fatal
  cassandra_failed redis_failed key_failed federation_failed : Fatal

module _ (O : Outside) where
  -- The repositories and handlers that do not depend on Google, with what they are made of.
  abbrev pub Users : Type 0
  Users = Repository O.Session

  abbrev pub Tokens : Type 0
  Tokens = TokenStore Options

  abbrev pub Partners : Type 0
  Partners = BackChannelLogoutService (ClientRepository O.Session) (ConsentRepository O.Session)

  pub record Handlers : Type 0 where
    pub user_repo : Users
    pub token_store : Tokens
    pub mailer : SmtpSender
    pub rl : SlidingWindowLimiter Options
    pub registration : RegistrationHandler Users Tokens SmtpSender
    pub login : LoginHandler Users Tokens (TokenService O) SmtpSender
    pub password_reset : PasswordResetHandler Users Tokens SmtpSender
    pub totp :
        TotpHandler Users (RecoveryCodeRepository O.Session) Tokens (TokenService O) SmtpSender
    pub oauth :
        OauthHandlers
          (ClientRepository O.Session)
          (ConsentRepository O.Session)
          Users
          Options
          (TokenService O)
    pub logout : LogoutHandler Tokens (TokenService O) Partners

  -- The calls of the constructors in `main`, in their order.
  unfoldable pub wire : Settings → O.Session → Options → TokenService O → Handlers
  unfolding new_repository new_token_store new_smtp_sender new_sliding_window_limiter
      new_registration_handler new_login_handler new_password_reset_handler
      new_recovery_code_repository new_totp_handler new_client_repository new_consent_repository
      new_oauth_handlers new_back_channel_logout_service new_logout_handler
  wire cfg session redis token_svc =
      let user_repo = new_repository session in
      let token_store = new_token_store redis in
      let mailer =
        new_smtp_sender cfg.smtp_host cfg.smtp_port cfg.smtp_user cfg.smtp_pass cfg.smtp_from in
      let oauth_clients = new_client_repository session in
      let oauth_consents = new_consent_repository session in
      let notifier = new_back_channel_logout_service oauth_clients oauth_consents in
      record {
        user_repo = user_repo;
        token_store = token_store;
        mailer = mailer;
        rl = new_sliding_window_limiter redis;
        registration =
            new_registration_handler user_repo token_store mailer cfg.pepper cfg.base_url;
        login =
            new_login_handler user_repo token_store token_svc mailer cfg.pepper cfg.base_url
              cfg.jwt_issuer;
        password_reset =
            new_password_reset_handler user_repo token_store mailer cfg.pepper cfg.base_url;
        totp =
            new_totp_handler user_repo (new_recovery_code_repository session) token_store token_svc
              mailer cfg.pepper cfg.jwt_issuer;
        oauth =
            new_oauth_handlers oauth_clients oauth_consents user_repo redis token_svc cfg.jwt_issuer
              cfg.base_url cfg.frontend_url;
        logout = new_logout_handler token_store token_svc notifier;
      }

  abbrev pub Google : Type 0
  Google = FederationHandler Users (FederatedIdentityRepository O.Session) Tokens (TokenService O)

  -- `NewFederationHandler`
  unfoldable pub new_federation_handler :
      Text
      → Text
      → Text
      → Users
      → FederatedIdentityRepository O.Session
      → Tokens
      → TokenService O
      → Text
      → Text
      → Option Google
  new_federation_handler client_id client_secret base_url users identities token_store jwt pepper
        jwt_issuer =
      if O.new_provider (codes "https://accounts.google.com")
      then some (record {
        google_cfg = record {
          client_id = client_id;
          client_secret = client_secret;
          redirect_url = base_url ++ codes "/auth/federation/google/callback";
          scopes = codes "openid" ∷ codes "email" ∷ codes "profile" ∷ [];
        };
        oidc_verifier = record { client_id = client_id };
        users = users;
        identities = identities;
        token_store = token_store;
        jwt = jwt;
        pepper = pepper;
        jwt_issuer = jwt_issuer;
      })
      else none

  -- The settings of `http.Server`, with durations in seconds.
  pub record HttpServer : Type 0 where
    pub addr : Text
    pub read_timeout : ℕ
    pub write_timeout : ℕ
    pub idle_timeout : ℕ

  -- A server that listens, with a handler for Google if there is a client of Google's.
  pub record Started : Type 0 where
    pub http_server : HttpServer
    pub settings : Settings
    pub session : O.Session
    pub redis : Options
    pub token_service : TokenService O
    pub handlers : Handlers
    pub google : Option Google

  unfoldable pub read_settings : M (Unit {0}) Fatal Settings
  unfolding load
  read_settings =
      on_result (load O.getenv O.parse_duration) (λ settings. pure settings)
        (λ names. leave (missing names))

  -- The handler for Google, if the identifier of a client of Google's is set.
  unfoldable pub federation :
      Text → Settings → O.Session → Handlers → TokenService O → M (Unit {0}) Fatal (Option Google)
  unfolding new_federation_handler new_federated_identity_repository
  federation [] cfg session h token_svc = pure none
  federation (b ∷ id) cfg session h token_svc = do
    google ←
        or_stop
          (new_federation_handler (b ∷ id) cfg.google_client_secret cfg.base_url h.user_repo
            (new_federated_identity_repository session) h.token_store token_svc cfg.pepper
            cfg.jwt_issuer)
          federation_failed
    pure (some google)

  unfoldable pub start : M (Unit {0}) Fatal Started
  unfolding read_settings new_token_service wire federation
  start = do
    settings ← read_settings
    session ←
        or_stop
          (new_cassandra_session O.create_session settings.cassandra_hosts
            settings.cassandra_keyspace settings.cassandra_username settings.cassandra_password).0
          cassandra_failed
    redis ←
        or_stop
          (new_redis_client O.ping settings.redis_addr settings.redis_password settings.redis_db)
          redis_failed
    token_service ←
        or_stop
          (new_token_service O settings.jwt_private_key_path settings.jwt_issuer
            settings.jwt_access_token_ttl)
          key_failed
    let handlers = wire settings session redis token_service
    google ← federation settings.google_client_id settings session handlers token_service
    pure (record {
      http_server = record {
        addr = codes ":" ++ settings.port;
        read_timeout = 15;
        write_timeout = 15;
        idle_timeout = 60;
      };
      settings = settings;
      session = session;
      redis = redis;
      token_service = token_service;
      handlers = handlers;
      google = google;
    })
