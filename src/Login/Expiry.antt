-- ===== src/Login/Expiry.antt =====
-- What the answer to a sign-in says about the life of its access token.
use braza_sso.Prelude.{suc, text_eq, ◌+◌, ◌≡◌, some, Text, ok, arith, refl, Result-cases, inl, inr}
use braza_sso.Env.Services.{Services}
use braza_sso.Go.Fmt.{hex}
use braza_sso.Http.{respond}
use braza_sso.Http.Documents.{value_of, json, number}
use braza_sso.Jwt.{Config, issue_access_token, claims_of, new_jti}
use braza_sso.Login.{issue_token_pair}
use braza_sso.Model.{User, Claims}
use braza_sso.World.{World, Response, string, login_response, now, random_bytes}

module _ (S : Services) (c : Config) where
  -- A token that is issued has claims from the time of the call on, for the time to live.
  issue_access_token_ok :
      (uid email : Text) (verified : _) (aud : Text) (w : World S) {t : Text}
      → (issue_access_token S c uid email verified aud w).0 ≡ ok t
      → (claims : Claims) × (S.sign claims ≡ some t)
        × (claims.issued_at ≡ S.clock w.tick)
        × (claims.expires_at ≡ S.clock w.tick + c.access_ttl)
  unfolding issue_access_token now new_jti random_bytes
  issue_access_token_ok uid email verified aud w h =
      let jti = hex (S.random (suc w.tick) 16) in
      let claims = claims_of c (S.clock w.tick) jti uid email verified aud in
      (claims, ground arith, refl, refl)

  pair_answer :
      (u : User) (w : World S) {t : Text} {r : Response}
      → (issue_access_token S c (S.uuid_text u.id) u.email u.email_verified c.issuer w).0 ≡ ok t
      → (issue_token_pair S c u w).0 ≡ ok r
      → r ≡ respond 200 (login_response t)
  unfolding issue_token_pair
  pair_answer u w issued h = ground arith

  -- The answer to a sign-in says that its access token lives 900 seconds, whatever time to live is
  -- set: a pair that is issued answers with a token that was signed with the time of the call as
  -- its issue, and to expire after the time to live from then on, and with 900 as the value of
  -- `expires_in`.
  pub issue_token_pair-expires_in :
      (u : User) (w : World S) {r : Response}
      → (issue_token_pair S c u w).0 ≡ ok r
      → (claims : Claims) × (t : Text) × (S.sign claims ≡ some t)
        × (claims.issued_at ≡ S.clock w.tick)
        × (claims.expires_at ≡ S.clock w.tick + c.access_ttl)
        × (value_of "access_token" r.body ≡ some (json (string t)))
        × (value_of "expires_in" r.body ≡ some (number 900))
  unfolding issue_token_pair value_of text_eq
  issue_token_pair-expires_in u w h =
      elim (Result-cases
        (issue_access_token S c (S.uuid_text u.id) u.email u.email_verified c.issuer w).0) [
          | inr (e, failed) ↦ absurd (ground arith)
          | inl (t, issued) ↦
              let (claims, signed, at, expires) =
                issue_access_token_ok (S.uuid_text u.id) u.email u.email_verified c.issuer w
                  issued in
              let said = pair_answer u w issued h in
              (claims, t, signed, at, expires, rw said refl, rw said refl)
        ]
