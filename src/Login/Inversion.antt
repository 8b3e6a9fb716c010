-- ===== src/Login/Inversion.antt =====
-- What a successful answer of the login handlers says of the steps that led to it.
use braza_sso.Prelude.{◌≡◌, false, some, [], Text, ok, arith, Result-cases, if◌then◌else◌, inl, inr}
use braza_sso.Model.{User}
use braza_sso.Env.Services.{Services}
use braza_sso.Http.{respond}
use braza_sso.Jwt.{Config}
use braza_sso.Password.{verify_password}
use braza_sso.User.{find_by_email}
use braza_sso.World.{Body, World, Response, login_response, mfa_required}
use braza_sso.Login.{
  LoginRequest, login, normalize_email, issue_token_pair, is_locked, check_credentials, refuse,
  authenticated, require_mfa, reset_attempts,
}

-- The token in a body that carries one.
abbrev pub token_of : Body → Text
token_of (mfa_required t) = t
token_of (login_response t) = t
token_of _ = []

-- The body of a successful login: the second factor is asked for exactly where it is enabled.
abbrev pub FitsSecondFactor : User → Response → Type 0
FitsSecondFactor u r =
    r
    ≡ respond 200 (
        if u.totp_enabled then mfa_required (token_of r.body) else login_response (token_of r.body))

module _ (S : Services) (c : Config) where
  pub require_mfa_ok :
      (u : User) (w : World S) (r : Response)
      → (require_mfa S c u w).0 ≡ ok r
      → r ≡ respond 200 (mfa_required (token_of r.body))
  unfolding require_mfa
  require_mfa_ok u w r h = ground arith

  pub issue_token_pair_ok :
      (u : User) (w : World S) (r : Response)
      → (issue_token_pair S c u w).0 ≡ ok r
      → r ≡ respond 200 (login_response (token_of r.body))
  unfolding issue_token_pair
  issue_token_pair_ok u w r h = ground arith

  pub reset_attempts_ok :
      (u : User) (w : World S) → (reset_attempts S c {E = Response} u w).0 ≡ ok tt
  unfolding reset_attempts
  reset_attempts_ok u w = ground arith

  pub authenticated_ok :
      (u : User) (w : World S) (r : Response)
      → (authenticated S c u w).0 ≡ ok r
      → FitsSecondFactor u r
  unfolding authenticated
  authenticated_ok u w r h =
      let w' = (reset_attempts S c {E = Response} u w).1 in
      ground (arith, reset_attempts_ok u w, require_mfa_ok u w' r, issue_token_pair_ok u w' r)

  pub check_credentials_ok :
      (u : User) (password : Text) (w : World S) (r : Response)
      → (check_credentials S c u password w).0 ≡ ok r
      → (verify_password S password c.pepper u.password_hash ≡ ok tt) × FitsSecondFactor u r
  unfolding check_credentials refuse
  check_credentials_ok u password w r h = ground (arith, authenticated_ok u w r)

  -- The steps of a successful login, from the account that was found.
  pub login_steps :
      (req : LoginRequest) (w : World S) (r : Response) (u : User)
      → (login S c (some req) w).0 ≡ ok r
      → let found = find_by_email S (normalize_email req.email) w in
        found.0 ≡ ok u
        → let locked = is_locked S c {E = Response} u.locked_until found.1 in
          (locked.0 ≡ ok false) × ((check_credentials S c u req.password locked.1).0 ≡ ok r)
  unfolding login
  login_steps req w r u h e = ground arith

  -- Whenever a login is answered with success, the address has an account, that account is not
  -- locked, the password verifies against its hash, and the answer is the second-factor session
  -- if the account has one enabled and the tokens otherwise.
  pub login_ok :
      (req : LoginRequest) (w : World S) (r : Response)
      → (login S c (some req) w).0 ≡ ok r
      → let found = find_by_email S (normalize_email req.email) w in
        (u : User) × (found.0 ≡ ok u)
        × ((is_locked S c {E = Response} u.locked_until found.1).0 ≡ ok false)
        × (verify_password S req.password c.pepper u.password_hash ≡ ok tt)
        × FitsSecondFactor u r
  unfolding login
  login_ok req w r h =
      let found = find_by_email S (normalize_email req.email) w in
      elim (Result-cases found.0) [
        | inl (u, e) ↦
            let (free, rest) = login_steps req w r u h e in
            let (verified, fits) = check_credentials_ok u req.password _ r rest in
            (u, e, free, verified, fits)
        | inr (err, e) ↦ absurd (ground arith)
      ]
