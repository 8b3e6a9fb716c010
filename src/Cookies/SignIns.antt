-- ===== src/Cookies/SignIns.antt =====
-- The cookies that the sign-ins other than that with a password leave.
use braza_sso.Prelude.{
  ◌≡◌, ◌++◌, refl, Option, [], ◌∷◌, Text, ok, M, pure, ◌>>=◌, Result-cases, inl, inr, arith,
}
use braza_sso.Cookies.Kept.{Keeps, keeps, open_mfa_session-Keeps, find_or_create_user-Keeps}
use braza_sso.Env.Services.{Services}
use braza_sso.Federation.{google_callback}
use braza_sso.Http.{serve}
use braza_sso.Jwt.{Config}
use braza_sso.Model.{User}
use braza_sso.Totp.{VerifyRequest, verify, recovery, issue_token_pair_for_user}
use braza_sso.World.{World, Response, Handler, set_cookie, set_refresh}

module _ (S : Services) where
  -- A success adds one cookie, with a refresh token.
  unfoldable pub Adds : Handler S Response → Type 0
  Adds m =
      (w : World S) (r : Response)
      → (m w).0 ≡ ok r
      → (t : Text) × ((m w).1.cookies ≡ w.cookies ++ (set_refresh t ∷ []))

  set_refresh-Adds :
      (t : Text) (r : Response) → Adds (set_cookie S (set_refresh t) >>= λ (_ : Unit {0}). pure r)
  unfolding Adds set_cookie
  set_refresh-Adds t r w answer h = (t, refl)

  >>=-Adds :
      {A : Type 0} (m : M (World S) Response A) (f : A → Handler S Response)
      → Keeps S m
      → ((a : A) → Adds (f a))
      → Adds (m >>= f)
  unfolding Adds Keeps
  >>=-Adds m f kept adds w r h = elim (Result-cases (m w).0) [
    | inr (e, failed) ↦ absurd (ground arith)
    | inl (a, done) ↦ let (t, same) = adds a (m w).1 r (ground arith) in (t, ground (arith, kept w))
  ]

ruleset adds = (set_refresh-Adds, >>=-Adds)

-- The sign-ins that end otherwise than with a password alone.
pub data OtherSignIn (S : Services) (c : Config) : Handler S Response → Type 0 where
  with_code : (body : Option VerifyRequest) → OtherSignIn S c (verify S c body)
  with_recovery_code : (body : Option VerifyRequest) → OtherSignIn S c (recovery S c body)
  with_google : (state code : Text) → OtherSignIn S c (google_callback S c state code)

module _ (S : Services) (c : Config) where
  issue_token_pair_for_user-Adds : (u : User) → Adds S (issue_token_pair_for_user S c u)
  unfolding issue_token_pair_for_user
  issue_token_pair_for_user-Adds u = search (keeps, adds) depth 30 fits 3000

  other-Adds : {h : Handler S Response} → OtherSignIn S c h → Adds S h
  unfolding verify recovery google_callback
  other-Adds (with_code body) =
      search (keeps, adds, open_mfa_session-Keeps, issue_token_pair_for_user-Adds) depth 30 fits
        3000
  other-Adds (with_recovery_code body) =
      search (keeps, adds, open_mfa_session-Keeps) depth 40 fits 3000
  other-Adds (with_google state code) =
      search (keeps, adds, find_or_create_user-Keeps) depth 40 fits 3000

  -- The answer to a sign-in with a second factor, with a recovery code or with Google that succeeds
  -- sets one cookie, and that is for a refresh token: it sets no session cookie.
  pub OtherSignIn-cookies :
      {h : Handler S Response} (w : World S) {r : Response}
      → OtherSignIn S c h
      → (h (record w { cookies = [] })).0 ≡ ok r
      → (t : Text) × ((serve S h w).1.cookies ≡ set_refresh t ∷ [])
  unfolding Adds serve
  OtherSignIn-cookies w {r} sign_in succeeds =
      other-Adds sign_in (record w { cookies = [] }) r succeeds
