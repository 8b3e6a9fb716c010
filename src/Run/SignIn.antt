-- ===== src/Run/SignIn.antt =====
-- The handlers of login.go, logout.go and their helpers, as runs.
use braza_sso.Prelude.{ℕ, Option, none, some, Text}
use braza_sso.Env.Services.{Services}
use braza_sso.Jwt.{Config}
use braza_sso.Login
use braza_sso.Model.{User}
use braza_sso.Run.{Runs}
use braza_sso.Run.Calls.{calls}

module _ (S : Services) (n : ℕ) (c : Config) where
  is_locked-Runs : (E : Type 0) (o : Option ℕ) → Runs S n (Login.is_locked S c {E = E} o)
  unfolding Login.is_locked
  is_locked-Runs E none = search calls
  is_locked-Runs E (some until) = search calls

  lock_for-Runs :
      (E : Type 0) (u : User) (count : ℕ) → Runs S n (Login.lock_for S c {E = E} u count)
  unfolding Login.lock_for
  lock_for-Runs E u count = search calls depth 20 fits 3000

  handle_failed_attempt-Runs :
      (E : Type 0) (u : User) → Runs S n (Login.handle_failed_attempt S c {E = E} u)
  unfolding Login.handle_failed_attempt
  handle_failed_attempt-Runs E u = search (calls, lock_for-Runs) depth 20 fits 3000

  refuse-Runs : (u : User) → Runs S n (Login.refuse S c u)
  unfolding Login.refuse
  refuse-Runs u = search (calls, handle_failed_attempt-Runs) depth 20 fits 3000

  reset_attempts-Runs : (E : Type 0) (u : User) → Runs S n (Login.reset_attempts S c {E = E} u)
  unfolding Login.reset_attempts
  reset_attempts-Runs E u = search calls depth 20 fits 3000

  require_mfa-Runs : (u : User) → Runs S n (Login.require_mfa S c u)
  unfolding Login.require_mfa
  require_mfa-Runs u = search calls depth 20 fits 3000

  pub issue_token_pair-Runs : (u : User) → Runs S n (Login.issue_token_pair S c u)
  unfolding Login.issue_token_pair
  issue_token_pair-Runs u = search calls depth 30 fits 3000

  authenticated-Runs : (u : User) → Runs S n (Login.authenticated S c u)
  unfolding Login.authenticated
  authenticated-Runs u =
      search (calls, reset_attempts-Runs, require_mfa-Runs, issue_token_pair-Runs) depth 20 fits
        3000

  check_credentials-Runs :
      (u : User) (password : Text) → Runs S n (Login.check_credentials S c u password)
  unfolding Login.check_credentials
  check_credentials-Runs u password =
      search (calls, authenticated-Runs, refuse-Runs) depth 20 fits 3000

  pub login-Runs : (body : Option Login.LoginRequest) → Runs S n (Login.login S c body)
  unfolding Login.login
  login-Runs body = search (calls, is_locked-Runs, check_credentials-Runs) depth 30 fits 3000

  pub refresh-Runs : (cookie : Option Text) → Runs S n (Login.refresh S c cookie)
  unfolding Login.refresh
  refresh-Runs cookie = search (calls, issue_token_pair-Runs) depth 30 fits 3000
