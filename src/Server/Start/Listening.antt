-- ===== src/Server/Start/Listening.antt =====
-- The server that a successful start leaves.
use braza_sso.Prelude.{
  ◌≡◌, ◌≢◌, Option, none, some, [], ◌∷◌, ◌++◌, Text, codes, ok, arith, Option-cases, inl, inr,
}
use braza_sso.Server.Outside.{Outside, TokenService, new_token_service}
use braza_sso.Server.Start.{
  Started, Handlers, Google, start, read_settings, federation, new_federation_handler, wire,
}
use braza_sso.Server.Wiring.{new_federated_identity_repository}
use braza_sso.Settings.{Settings, load}
use braza_sso.Settings.Missing.{load-IsComplete}

module _ (O : Outside) where
  read_settings-eq-ok :
      {settings : Settings}
      → (read_settings O tt).0 ≡ ok settings
      → load O.getenv O.parse_duration ≡ ok settings
  unfolding read_settings
  read_settings-eq-ok h = ground arith

  pub new_token_service-issuer :
      (path issuer : Text) (ttl : _) {t : TokenService O}
      → new_token_service O path issuer ttl ≡ some t
      → (t.issuer ≡ issuer) × (t.access_ttl ≡ ttl)
  unfolding new_token_service
  new_token_service-issuer path issuer ttl h = ground arith

  -- Google's handler, by whether there is a client of Google's.
  abbrev pub FitsGoogle : Option (Google O) → Text → Text → Type 0
  FitsGoogle google [] base_url = google ≡ none
  FitsGoogle google (b ∷ id) base_url =
      (g : Google O) × (google ≡ some g)
      × (g.google_cfg.client_id ≡ b ∷ id)
      × (g.oidc_verifier.client_id ≡ b ∷ id)
      × (g.google_cfg.redirect_url ≡ base_url ++ codes "/auth/federation/google/callback")

  -- The handler that `federation` makes, if it makes one.
  abbrev pub made_google :
      Text → Settings → O.Session → Handlers O → TokenService O → Option (Google O)
  made_google id cfg session h t =
      new_federation_handler O id cfg.google_client_secret cfg.base_url h.user_repo
        (new_federated_identity_repository session) h.token_store t cfg.pepper cfg.jwt_issuer

  made_google-fields :
      (id : Text) (cfg : Settings) (session : O.Session) (h : Handlers O) (t : TokenService O)
      {g : Google O}
      → made_google id cfg session h t ≡ some g
      → (g.google_cfg.client_id ≡ id)
        × (g.oidc_verifier.client_id ≡ id)
        × (g.google_cfg.redirect_url ≡ cfg.base_url ++ codes "/auth/federation/google/callback")
  unfolding new_federation_handler
  made_google-fields id cfg session h t e = ground arith

  federation-eq-ok :
      (id : Text) (cfg : Settings) (session : O.Session) (h : Handlers O) (t : TokenService O)
      {google : Option (Google O)}
      → (federation O id cfg session h t tt).0 ≡ ok google
      → FitsGoogle google id cfg.base_url
  unfolding federation
  federation-eq-ok [] cfg session h t e = ground arith
  federation-eq-ok (b ∷ id) cfg session h t e =
      elim (Option-cases (made_google (b ∷ id) cfg session h t)) [
        | inl failed ↦ absurd (ground arith)
        | inr (g, made) ↦
            let (client, verifier, address) = made_google-fields (b ∷ id) cfg session h t made in
            (g, ground arith, client, verifier, address)
      ]

  -- The parts of a start that succeeds.
  pub start-inv :
      {s : Started O}
      → (start O tt).0 ≡ ok s
      → ((read_settings O tt).0 ≡ ok s.settings)
        × (new_token_service O s.settings.jwt_private_key_path s.settings.jwt_issuer
              s.settings.jwt_access_token_ttl
            ≡ some s.token_service)
        × (s.handlers ≡ wire O s.settings s.session s.redis s.token_service)
        × ((federation O s.settings.google_client_id s.settings s.session s.handlers s.token_service
              tt).0
            ≡ ok s.google)
        × (s.http_server.addr ≡ codes ":" ++ s.settings.port)
  unfolding start
  start-inv h = ground arith

  -- A server that listens does so at the port that is set; it has settings that loaded, with a
  -- pepper and an issuer that are not empty; it issues tokens as that issuer, for the time that is
  -- set; and it has a handler for Google exactly if a client of Google's is set, which takes ID
  -- tokens for that client, and to which Google sends back at the callback's route.
  pub start_ok :
      {s : Started O}
      → (start O tt).0 ≡ ok s
      → (s.http_server.addr ≡ codes ":" ++ s.settings.port)
        × (load O.getenv O.parse_duration ≡ ok s.settings)
        × (s.settings.pepper ≢ [])
        × (s.settings.jwt_issuer ≢ [])
        × (s.token_service.issuer ≡ s.settings.jwt_issuer)
        × (s.token_service.access_ttl ≡ s.settings.jwt_access_token_ttl)
        × FitsGoogle s.google s.settings.google_client_id s.settings.base_url
  start_ok {s} h =
      let (read, made, wired, google, address) = start-inv h in
      let loaded = read_settings-eq-ok read in
      let (base, frontend, pepper, path, issuer) =
        load-IsComplete O.getenv O.parse_duration loaded in
      let (same_issuer, same_ttl) =
        new_token_service-issuer s.settings.jwt_private_key_path s.settings.jwt_issuer
          s.settings.jwt_access_token_ttl made in
      (
        address,
        loaded,
        pepper,
        issuer,
        same_issuer,
        same_ttl,
        federation-eq-ok s.settings.google_client_id s.settings s.session s.handlers s.token_service
            google,
      )
