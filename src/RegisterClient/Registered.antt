-- ===== src/RegisterClient/Registered.antt =====
-- What the tool's client can do.
use braza_sso.Prelude.{
  ℕ, suc, ◌≡◌, ◌∙◌, ap, ◌++◌, map, Option, some, Text, codes, ok, stop, arith, Option-cases, inl,
  inr,
}
use braza_sso.Connections.{Cluster}
use braza_sso.Env.Services.{Services, ServiceLaws, delivered}
use braza_sso.Go.Fmt.{hex}
use braza_sso.Go.Strings.{split, trim_space}
use braza_sso.Jwt.{Config}
use braza_sso.Model.{Client}
use braza_sso.Oauth.Clients.{find_client, create_client}
use braza_sso.Oauth.Credentials.{handle_client_credentials-bcrypt}
use braza_sso.Oauth.Handlers.{TokenForm, handle_client_credentials, oauth_error}
use braza_sso.RegisterClient.{Flags, Printed, register_client, client_of, split_trimmed}
use braza_sso.World.{World, deliver}

module _ (S : Services) (L : ServiceLaws S) (getenv : Text → Text)
    (generate_from_password : ℕ → Text → Option Text)
    (create_session : Cluster → ℕ → Option (Unit {0})) where
  create-find_client :
      (client : Client) (w w' : World S)
      → (create_client S client w).0 ≡ ok tt
      → w'.clients ≡ (create_client S client w).1.clients
      → S.fault w'.tick ≡ delivered
      → (find_client S client.id w').0 ≡ ok client
  unfolding create_client find_client deliver
  create-find_client client w w' done same fate =
      ground (arith, L.clients.row-upsert client.id (λ _. client) w.clients)

  abbrev secret_at : World S → Text
  secret_at w = hex (S.random w.tick 32)

  abbrev client_at : Flags → Text → World S → Client
  client_at flags h w = client_of flags (S.uuid_text (S.new_uuid (suc (suc w.tick)))) h

  -- The parts of a run that succeeds.
  register_client-inv :
      (flags : Flags) (w : World S) {p : Printed}
      → (register_client S getenv generate_from_password create_session flags w).0 ≡ ok p
      → (h : Text) × (generate_from_password (suc w.tick) (secret_at w) ≡ some h)
        × (p ≡ record {
          client_id = S.uuid_text (S.new_uuid (suc (suc w.tick)));
          client_secret = secret_at w;
        })
        × (let w1 : World S = record w { tick = suc (suc (suc w.tick)) } in
            ((create_client S (client_at flags h w) w1).0 ≡ ok tt)
            × ((register_client S getenv generate_from_password create_session flags w).1
                ≡ (create_client S (client_at flags h w) w1).1))
  unfolding register_client
  register_client-inv flags w done =
      elim (Option-cases (generate_from_password (suc w.tick) (secret_at w))) [
        | inl failed ↦ absurd (ground arith)
        | inr (h, hashed) ↦ (h, hashed, ground arith, (ground arith, ground arith))
      ]

  -- A client that the tool registers is found by the printed identifier, where that call is
  -- answered and the table of clients is as the tool left it: each field has the value of its flag,
  -- the redirect addresses and the scopes split at commas and trimmed, and the hash is one of the
  -- printed secret.
  pub register_client-find_client :
      (flags : Flags) (w w' : World S) {p : Printed}
      → (register_client S getenv generate_from_password create_session flags w).0 ≡ ok p
      → w'.clients
        ≡ (register_client S getenv generate_from_password create_session flags w).1.clients
      → S.fault w'.tick ≡ delivered
      → (h : Text) × (generate_from_password (suc w.tick) p.client_secret ≡ some h)
        × ((find_client S p.client_id w').0
            ≡ ok (record {
              id = p.client_id;
              secret_hash = h;
              redirect_uris = map trim_space (split b',' flags.redirect_uris);
              scopes = map trim_space (split b',' flags.scopes);
              name = flags.name;
              logo_url = flags.logo_url;
              back_channel_logout_uri = flags.backchannel_logout_uri;
            }))
  unfolding client_of split_trimmed
  register_client-find_client flags w w' done same fate =
      let (h, hashed, printed, (created, final)) = register_client-inv flags w done in
      let w1 : World S = record w { tick = suc (suc (suc w.tick)) } in
      let found =
        create-find_client (client_at flags h w) w1 w' created (same ∙ ap (λ x. x.clients) final)
          fate in
      (h, ground (arith, hashed, printed), rw printed found)

  -- Where bcrypt's hashes begin with `$2a$10$`, as for its default cost: after the tool has
  -- registered a client, and while the table of clients is as it left it, the token endpoint
  -- refuses that client's credentials with 401, the printed secret included.
  pub register_client-refused :
      (c : Config) (flags : Flags) (form : TokenForm) (w w' : World S) {p : Printed}
      → ((i : ℕ) (secret h : Text)
          → generate_from_password i secret ≡ some h
          → (s : Text) × (h ≡ codes "$2a$10$" ++ s))
      → (register_client S getenv generate_from_password create_session flags w).0 ≡ ok p
      → w'.clients
        ≡ (register_client S getenv generate_from_password create_session flags w).1.clients
      → S.fault w'.tick ≡ delivered
      → form.client_id ≡ p.client_id
      → (handle_client_credentials S c form w').0 ≡ stop (oauth_error "invalid_client" 401)
  unfolding client_of split_trimmed
  register_client-refused c flags form w w' {p} bcrypt done same fate named =
      let (h, hashed, found) = register_client-find_client flags w w' done same fate in
      let (s, scheme) = bcrypt (suc w.tick) p.client_secret h hashed in
      handle_client_credentials-bcrypt S c form w' (client_of flags p.client_id h) s
        (rw named found) scheme
