-- ===== src/Oauth/Grant.antt =====
-- A code from its issue to its exchange, and what the consent does not check.
use braza_sso.Prelude.{
  ℕ, suc, ◌+◌, ◌≡◌, ◌≤◌, ◌<◌, refl, Bool, true, Option, none, some, Text, ok, stop, arith, Bool,
  ◌≢◌, Result-cases, inl, inr, ◌∙◌,
}
use braza_sso.Env.Services.{Services, ServiceLaws, delivered}
use braza_sso.Go.Base64
use braza_sso.Go.Fmt
use braza_sso.Http.{respond}
use braza_sso.Jwt.{Config, issue_access_token, claims_of}
use braza_sso.Model.{AuthCodeMeta, Claims, User, Uuid}
use braza_sso.Oauth.Handlers.{
  TokenForm, ConsentForm, consent, issue_auth_code, handle_auth_code, grant_fits, auth_code_key,
  auth_code_ttl, ok_or_empty, redirect_with_code,
}
use braza_sso.Oauth.Clients.{store_consent}
use braza_sso.TokenStore.{get_del, set_key, random_token}
use braza_sso.TokenStore.Lifetime.{set_key-get_del}
use braza_sso.User.{find_by_id}
use braza_sso.World.{World, Response, Error, random_bytes, token_response, now, deliver}

module _ (S : Services) (c : Config) where
  issue_auth_code_lem :
      (meta : AuthCodeMeta) (w : World S)
      → S.fault (suc w.tick) ≡ delivered
      → let code = Base64.encode Base64.url (S.random w.tick 24) in
        ((issue_auth_code S c meta w).0 ≡ ok code)
        × ((issue_auth_code S c meta w).1.redis
            ≡ (set_key S
                (auth_code_key code)
                (S.marshal_meta meta)
                auth_code_ttl
                (record w { tick = suc w.tick })).1.redis)
  unfolding issue_auth_code random_token random_bytes set_key deliver
  issue_auth_code_lem meta w fate = ground arith

  issue_access_token-signed :
      (sig : Claims → Text) (signs : (claims : Claims) → S.sign claims ≡ some (sig claims))
      (uid email : Text) (verified : Bool) (aud : Text) (w : World S) (e : Error)
      → (issue_access_token S c uid email verified aud w).0 ≢ stop e
  unfolding issue_access_token
  issue_access_token-signed sig signs uid email verified aud w e h = ground (
    arith,
    signs
        (claims_of c (S.clock w.tick) (Fmt.hex (S.random (suc w.tick) 16)) uid email verified aud),
  )

  find_by_id-found :
      (id : Uuid) (u : User) (w : World S)
      → S.fault w.tick ≡ delivered
      → S.users.row w.users id ≡ some u
      → (find_by_id S id w).0 ≡ ok (record u { id = id })
  unfolding find_by_id deliver
  find_by_id-found id u w fate found = ground arith

  get_del-frame :
      (key : Text) (w : World S)
      → ((get_del S key w).1.users ≡ w.users) × ((get_del S key w).1.tick ≡ suc w.tick)
  unfolding get_del
  get_del-frame key w = ground arith

  -- Where every call is answered, JSON reads the record back and signing succeeds: a code that
  -- was issued for an account that exists is exchanged, for a minute from its issue, for a form
  -- that fits it, with status 200, if Redis was not written in between.
  pub issue_auth_code-handle_auth_code :
      (L : ServiceLaws S) (reliable : (tick : ℕ) → S.fault tick ≡ delivered) (sig : Claims → Text)
      (signs : (claims : Claims) → S.sign claims ≡ some (sig claims)) (meta : AuthCodeMeta)
      (form : TokenForm) (w w' : World S) (id : Uuid) (u : User)
      → S.unmarshal_meta (S.marshal_meta meta) ≡ some meta
      → (issue_auth_code S c meta w).0 ≡ ok form.code
      → w'.redis ≡ (issue_auth_code S c meta w).1.redis
      → suc w.tick ≤ w'.tick
      → S.clock w'.tick < S.clock (suc w.tick) + auth_code_ttl
      → grant_fits S c meta form ≡ true
      → S.uuid_parse meta.user_id ≡ some id
      → S.users.row w'.users id ≡ some u
      → (r : Response) × ((handle_auth_code S c form w').0 ≡ ok r) × (r.status ≡ 200)
  unfolding handle_auth_code
  issue_auth_code-handle_auth_code L reliable sig signs meta form w w' id u json made same later
        soon fits parsed found =
      let (issued, stored) = issue_auth_code_lem meta w (reliable (suc w.tick)) in
      let code = Base64.encode Base64.url (S.random w.tick 24) in
      let named : form.code ≡ code = ground arith in
      let w1 = (get_del S (auth_code_key form.code) w').1 in
      let read : (get_del S (auth_code_key form.code) w').0 ≡ ok (S.marshal_meta meta) = ground (
        arith,
        named,
        stored,
        set_key-get_del S L (auth_code_key code) (S.marshal_meta meta) auth_code_ttl
            (record w { tick = suc w.tick }) w' (reliable (suc w.tick)) (same ∙ stored) later
            (reliable w'.tick),
      ) in
      let v = record u { id = id } in
      let account : (find_by_id S id w1).0 ≡ ok v =
        find_by_id-found id u w1 (reliable w1.tick)
          (ground (arith, get_del-frame (auth_code_key form.code) w')) in
      let w2 = (find_by_id S id w1).1 in
      let signed =
        issue_access_token S c (S.uuid_text v.id) v.email v.email_verified form.client_id w2 in
      elim (Result-cases signed.0) [
        | inr (e, unsigned) ↦ absurd (issue_access_token-signed sig signs _ _ _ _ w2 e unsigned)
        | inl (token, yes_signed) ↦ (
          respond 200 (
              token_response token (
                ok_or_empty S c
                  (issue_access_token S c (S.uuid_text v.id) v.email v.email_verified form.client_id
                    signed.1).0)),
          ground (arith, read, json, account),
          refl,
        )
      ]

  -- The consent endpoint does not look at the registered clients: for every table of clients, the
  -- one without any included, it gives the same answer and, if any, the same code.
  pub consent-clients :
      (form : Option ConsentForm) (context : Option Text) (w : World S) (d : S.clients.Db)
      → (consent S c form context (record w { clients = d })).0 ≡ (consent S c form context w).0
  unfolding consent redirect_with_code issue_auth_code store_consent set_key random_token
      random_bytes now deliver
  consent-clients none context w d = ground arith
  consent-clients (some form) none w d = ground arith
  consent-clients (some form) (some text) w d = ground arith
