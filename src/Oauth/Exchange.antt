-- ===== src/Oauth/Exchange.antt =====
-- The exchange of an authorization code: what it takes, and that it works once.
use braza_sso.Prelude.{
  ◌≡◌, ◌≢◌, ◌↔◌, Bool, true, ◌⊎◌, some, [], Text, text_eq_iff, ok, arith, Result-cases,
  Option-cases, inl, inr, subst, ◌∙◌,
}
use braza_sso.Model.{Uuid, AuthCodeMeta}
use braza_sso.Env.Services.{Services, ServiceLaws}
use braza_sso.Go.Base64
use braza_sso.Jwt.{Config, issue_access_token}
use braza_sso.TokenStore.{get_del}
use braza_sso.TokenStore.Consume.{get_del_again}
use braza_sso.User.{find_by_id}
use braza_sso.Oauth.Handlers.{TokenForm, grant_fits, verify_pkce, handle_auth_code, auth_code_key}
use braza_sso.World.{World, Response}

module _ (S : Services) (c : Config) where
  -- A form fits a code exactly if it names the client and the redirect address that the code was
  -- issued for and, where a challenge was given, carries a verifier whose digest is the challenge.
  pub grant_fits_iff :
      (meta : AuthCodeMeta) (form : TokenForm)
      → (grant_fits S c meta form ≡ true) ↔ (
          (meta.client_id ≡ form.client_id)
          × (meta.redirect_uri ≡ form.redirect_uri)
          × ((meta.code_challenge ≡ [])
              ⊎ ((form.code_verifier ≢ [])
                  × (Base64.encode Base64.url (S.sha256 form.code_verifier)
                      ≡ meta.code_challenge))))
  unfolding grant_fits verify_pkce
  grant_fits_iff meta form = ground (
    arith,
    text_eq_iff meta.client_id form.client_id,
    text_eq_iff meta.redirect_uri form.redirect_uri,
    text_eq_iff meta.code_challenge [],
    text_eq_iff form.code_verifier [],
    text_eq_iff (Base64.encode Base64.url (S.sha256 form.code_verifier)) meta.code_challenge,
  )

  -- A code is exchanged only if it is stored in Redis at that time, and its record fits the form.
  pub handle_auth_code_ok :
      (form : TokenForm) (w : World S) {r : Response}
      → (handle_auth_code S c form w).0 ≡ ok r
      → (val : Text) × (meta : AuthCodeMeta) × ((get_del S (auth_code_key form.code) w).0 ≡ ok val)
        × (S.unmarshal_meta val ≡ some meta)
        × (grant_fits S c meta form ≡ true)
  unfolding handle_auth_code
  handle_auth_code_ok form w h =
      let taken = get_del S (auth_code_key form.code) w in
      elim (Result-cases taken.0) [
        | inl (val, e) ↦ elim (Option-cases (S.unmarshal_meta val)) [
          | inl e' ↦ absurd (ground arith)
          | inr (meta, e') ↦ (val, meta, e, e', ground arith)
        ]
        | inr (err, e) ↦ absurd (ground arith)
      ]

  find_by_id-redis : (id : Uuid) (w : World S) → (find_by_id S id w).1.redis ≡ w.redis
  unfolding find_by_id
  find_by_id-redis id w = ground arith

  issue_access_token-redis :
      (uid email : Text) (verified : Bool) (aud : Text) (w : World S)
      → (issue_access_token S c uid email verified aud w).1.redis ≡ w.redis
  unfolding issue_access_token
  issue_access_token-redis uid email verified aud w = ground arith

  pub handle_auth_code-redis :
      (form : TokenForm) (w : World S)
      → (handle_auth_code S c form w).1.redis ≡ (get_del S (auth_code_key form.code) w).1.redis
  unfolding handle_auth_code
  handle_auth_code-redis form w =
      let w1 = (get_del S (auth_code_key form.code) w).1 in
      elim (Result-cases (get_del S (auth_code_key form.code) w).0) [
        | inl (val, e) ↦ elim (Option-cases (S.unmarshal_meta val)) [
          | inl e' ↦ ground arith
          | inr (meta, e') ↦ elim (Option-cases (S.uuid_parse meta.user_id)) [
            | inl e'' ↦ ground arith
            | inr (id, e'') ↦ elim (Result-cases (find_by_id S id w1).0) [
              | inl (u, found) ↦
                  let w2 = (find_by_id S id w1).1 in
                  ground (
                    arith,
                    find_by_id-redis id w1,
                    issue_access_token-redis (S.uuid_text u.id) u.email u.email_verified
                        form.client_id w2,
                    issue_access_token-redis (S.uuid_text u.id) u.email u.email_verified
                        form.client_id
                        (issue_access_token S c (S.uuid_text u.id) u.email u.email_verified
                          form.client_id w2).1,
                  )
              | inr (x, lost) ↦ ground (arith, find_by_id-redis id w1)
            ]
          ]
        ]
        | inr (err, e) ↦ ground arith
      ]

  -- An authorization code is good once: after a successful exchange no form with the same code
  -- gets an answer with tokens, whatever fails, while nothing is written to Redis between.
  pub handle_auth_code-once :
      (L : ServiceLaws S) (form form' : TokenForm) (w w' : World S) {r : Response} (r' : Response)
      → form'.code ≡ form.code
      → (handle_auth_code S c form w).0 ≡ ok r
      → w'.redis ≡ (handle_auth_code S c form w).1.redis
      → (handle_auth_code S c form' w').0 ≢ ok r'
  handle_auth_code-once L form form' w w' r' same first between second =
      let (v, _, e, _, _) = handle_auth_code_ok form w first in
      let (v', _, e', _, _) = handle_auth_code_ok form' w' second in
      get_del_again S L.redis (auth_code_key form.code) w w' e
        (between ∙ handle_auth_code-redis form w) v'
        (subst (λ code. (get_del S (auth_code_key code) w').0 ≡ ok v') same e')
