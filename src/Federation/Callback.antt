-- ===== src/Federation/Callback.antt =====
-- What a sign-in with Google has checked.
use braza_sso.Prelude.{
  suc, Bool, Result, codes, ◌≡◌, ◌≢◌, refl, stop, none, some, [], Text, text_eq_iff, ok, arith,
  Result-cases, Option-cases, inl, inr,
}
use braza_sso.Env.Services.{Services, ServiceLaws}
use braza_sso.Federation.{google_callback, ask, find_or_create_user, upsert_identity}
use braza_sso.Jwt.{Config, issue_access_token, new_jti, claims_of}
use braza_sso.Http.{respond}
use braza_sso.Go.Fmt.{hex}
use braza_sso.Model.{User, Claims, IdClaims}
use braza_sso.TokenStore.{consume_state}
use braza_sso.World.{World, Response, Error, now, random_bytes, login_response}
use braza_sso.Federation.Accounts.{IsAccountOf, find_or_create_user_ok}

module _ (S : Services) (c : Config) where
  -- The states after the state parameter is consumed, and after the two calls to Google.
  abbrev pub opened : Text → World S → World S
  opened state w = (consume_state S state w).1

  abbrev pub checked : Text → World S → World S
  checked state w = record (opened state w) { tick = suc (suc (opened state w).tick) }

  -- The state in which the access token is issued, and its issue.
  abbrev identified : IdClaims → User → World S → World S
  identified claims u w = (upsert_identity S c u.id (codes "google") claims.sub claims.email w).1

  abbrev issued : IdClaims → User → World S → Result Error Text × World S
  issued claims u w =
      issue_access_token S c (S.uuid_text u.id) u.email u.email_verified c.issuer
        (identified claims u w)

  -- An access token that is issued names its user as the subject.
  access_token_subject :
      (user_id email : Text) (verified : Bool) (audience : Text) (w : World S) {t : Text}
      → (issue_access_token S c user_id email verified audience w).0 ≡ ok t
      → (a : Claims) × (S.sign a ≡ some t) × (a.subject ≡ user_id)
  unfolding issue_access_token now new_jti random_bytes
  access_token_subject user_id email verified audience w h =
      let jti = hex (S.random (suc w.tick) 16) in
      (claims_of c (S.clock w.tick) jti user_id email verified audience, ground arith, refl)

  -- What is answered once the account is found.
  module _ (state code : Text) (w : World S) {return_to raw : Text} {claims : IdClaims} {u : User}
      (taken : (consume_state S state w).0 ≡ ok return_to)
      (given : S.exchange (opened state w).tick code ≡ some raw)
      (verified : S.verify_id_token (suc (opened state w).tick) raw ≡ some (some claims))
      (found : (find_or_create_user S c claims (checked state w)).0 ≡ ok u) where
    abbrev issue : Result Error Text
    issue = (issued claims u (find_or_create_user S c claims (checked state w)).1).0

    unissued :
        {e : Error} {r : Response} → issue ≡ stop e → (google_callback S c state code w).0 ≢ ok r
    unfolding google_callback ask
    unissued failed h = ground arith

    answered :
        {t : Text} {r : Response}
        → issue ≡ ok t
        → (google_callback S c state code w).0 ≡ ok r
        → r ≡ respond 200 (login_response t)
    unfolding google_callback ask
    answered made h = ground arith

    answer :
        {r : Response}
        → (google_callback S c state code w).0 ≡ ok r
        → (t : Text) × (issue ≡ ok t) × (r ≡ respond 200 (login_response t))
    answer h = elim (Result-cases issue) [
      | inr (e, failed) ↦ absurd (unissued failed h)
      | inl (t, made) ↦ (t, made, answered made h)
    ]

  -- A sign-in with Google succeeds only if the state parameter was in Redis, Google gave an ID
  -- token for the code, and the token verifies with claims that name an address. The answer is
  -- then an access token whose subject is an account that was found by that address, or is new,
  -- where the lookup failed: then it was stored, or, with the address taken meanwhile, it was not,
  -- and the answer names it all the same.
  pub google_callback_ok :
      (L : ServiceLaws S) (state code : Text) (w : World S) {r : Response}
      → (google_callback S c state code w).0 ≡ ok r
      → (return_to : Text) × (raw : Text) × (claims : IdClaims) × (u : User) × (a : Claims)
        × (t : Text) × ((consume_state S state w).0 ≡ ok return_to)
        × (S.exchange (opened state w).tick code ≡ some raw)
        × (S.verify_id_token (suc (opened state w).tick) raw ≡ some (some claims))
        × (claims.email ≢ [])
        × IsAccountOf S c claims (checked state w) u
        × (r ≡ respond 200 (login_response t))
        × (S.sign a ≡ some t)
        × (a.subject ≡ S.uuid_text u.id)
  unfolding google_callback ask
  google_callback_ok L state code w h = elim (Result-cases (consume_state S state w).0) [
    | inr (e, unknown) ↦ absurd (ground arith)
    | inl (return_to, taken) ↦ elim (Option-cases (S.exchange (opened state w).tick code)) [
      | inl refused ↦ absurd (ground arith)
      | inr (raw, given) ↦ elim (Option-cases (S.verify_id_token (suc (opened state w).tick) raw)) [
        | inl forged ↦ absurd (ground arith)
        | inr (none, verified) ↦ absurd (ground arith)
        | inr (some claims, verified) ↦
            let w1 = checked state w in
            elim (Result-cases (find_or_create_user S c claims w1).0) [
              | inr (e, failed) ↦ absurd (ground arith)
              | inl (u, found) ↦
                  let (t, made, said) = answer state code w taken given verified found h in
                  let (a, signed, subject) =
                    access_token_subject (S.uuid_text u.id) u.email u.email_verified c.issuer
                      (identified claims u (find_or_create_user S c claims w1).1) made in
                  (
                    return_to,
                    raw,
                    claims,
                    u,
                    a,
                    t,
                    taken,
                    given,
                    verified,
                    ground (arith, text_eq_iff claims.email []),
                    find_or_create_user_ok S c L claims w1 found,
                    said,
                    signed,
                    subject,
                  )
            ]
      ]
    ]
  ]
