-- ===== src/Login.antt =====
-- internal/auth/login.go: sign-in, refresh, and the lock after failed attempts.
pub mod Access
pub mod Expiry
pub mod Inversion
pub mod Lockout
pub mod Pair
pub mod Rotation
use braza_sso.Prelude.{
  ℕ, ◌+◌, ◌*◌, Bool, true, false, ◌||◌, Option, none, some, List, [], ◌∷◌, ◌++◌, Text, codes,
  text_eq, ltb, leb, choose, on_result, Result, ok, stop, M, pure, leave, stop_if, or_stop, or_else,
  attempt, ◌>>=◌, ◌>>◌,
}
use braza_sso.Model.{Uuid, Time, User}
use braza_sso.Env.Services.{Services}
use braza_sso.Go.Strings.{to_lower, trim_space}
use braza_sso.Http.{respond, write_error}
use braza_sso.Jwt.{Config, issue_access_token}
use braza_sso.Password.{verify_password}
use braza_sso.TokenStore.{
  minute, day, max_login_attempts, lockout_duration, random_token, incr_login_attempts,
  reset_login_attempts, store_refresh_token, consume_refresh_token, store_session_token,
  store_mfa_session,
}
use braza_sso.User.{find_by_id, find_by_email, update_failed_attempts, update_failed_attempts_reset}
use braza_sso.World.{
  Call, World, Response, Handler, now, send_mail, account_locked, set_cookie, set_refresh,
  set_session, login_response, mfa_required,
}

abbrev pub refresh_token_ttl : ℕ
refresh_token_ttl = 7 * day

pub record LoginRequest : Type 0 where
  pub email : Text
  pub password : Text

unfoldable pub normalize_email : Text → Text
unfolding to_lower trim_space
normalize_email email = to_lower (trim_space email)

module _ (S : Services) (c : Config) where
  -- A token for the user, a refresh token and a session token, with their cookies.
  unfoldable pub issue_token_pair : User → Handler S Response
  issue_token_pair u = do
    access_token ←
        or_else (issue_access_token S c (S.uuid_text u.id) u.email u.email_verified c.issuer)
          (write_error 500 "failed to issue access token")
    refresh_token ← random_token S 32
    or_else (store_refresh_token S refresh_token (S.uuid_text u.id) refresh_token_ttl)
        (write_error 500 "failed to store refresh token")
    set_cookie S (set_refresh refresh_token)
    session_token ← random_token S 32
    or_else (store_session_token S session_token (S.uuid_text u.id))
        (write_error 500 "failed to create session")
    set_cookie S (set_session session_token)
    pure (respond 200 (login_response access_token))

  -- `u.LockedUntil != nil && time.Now().Before(*u.LockedUntil)`
  unfoldable pub is_locked : {E : Type 0} → Option Time → M (World S) E Bool
  is_locked none = pure false
  is_locked (some until) = do t ← now S; pure (ltb t until)

  -- The lock that a count of failures calls for, with its mail.
  unfoldable pub lock_for : {E : Type 0} → User → ℕ → M (World S) E (Option Time)
  lock_for u count =
      choose (leb max_login_attempts count)
        (do
          t ← now S
          send_mail S (account_locked u.email (c.base_url ++ codes "/auth/unlock"))
          pure (some (t + lockout_duration)))
        (pure none)

  unfoldable pub handle_failed_attempt : {E : Type 0} → User → M (World S) E (Unit {0})
  handle_failed_attempt u = do
    counted ← attempt (incr_login_attempts S (S.uuid_text u.id))
    on_result counted
        (λ count. do
          locked_until ← lock_for u count
          attempt (update_failed_attempts S u.id count locked_until)
          pure tt)
        (λ _. pure tt)

  -- The password is wrong: count the failure, and answer as for an unknown address.
  unfoldable pub refuse : User → Handler S Response
  refuse u = do handle_failed_attempt u; leave (write_error 401 "invalid credentials")

  -- After the password: the counters are reset, and their errors are only logged.
  unfoldable pub reset_attempts : {E : Type 0} → User → M (World S) E (Unit {0})
  reset_attempts u = do
    attempt (reset_login_attempts S (S.uuid_text u.id))
    choose (ltb 0 u.failed_attempts) (do attempt (update_failed_attempts_reset S u.id); pure tt)
        (pure tt)

  unfoldable pub require_mfa : User → Handler S Response
  require_mfa u = do
    mfa_token ← random_token S 32
    or_else (store_mfa_session S mfa_token (S.uuid_text u.id) (5 * minute))
        (write_error 500 "failed to create mfa session")
    pure (respond 200 (mfa_required mfa_token))

  -- What follows a correct password.
  unfoldable pub authenticated : User → Handler S Response
  authenticated u = do reset_attempts u; choose u.totp_enabled (require_mfa u) (issue_token_pair u)

  unfoldable pub check_credentials : User → Text → Handler S Response
  check_credentials u password =
      on_result (verify_password S password c.pepper u.password_hash) (λ _. authenticated u)
        (λ _. refuse u)

  unfoldable pub login : Option LoginRequest → Handler S Response
  login body = do
    req ← or_stop body (write_error 400 "invalid request body")
    let email = normalize_email req.email
    stop_if (text_eq email [] || text_eq req.password [])
        (write_error 400 "email and password are required")
    u ← or_else (find_by_email S email) (write_error 401 "invalid credentials")
    locked ← is_locked u.locked_until
    stop_if locked (write_error 403 "account is temporarily locked")
    check_credentials u req.password

  -- The repository that `main` passes has the method `FindByID`.
  abbrev find_user_by_id : Uuid → Call S User
  find_user_by_id id = find_by_id S id

  -- The argument is the refresh cookie, if the request has one.
  unfoldable pub refresh : Option Text → Handler S Response
  refresh cookie = do
    token ← or_stop cookie (write_error 401 "refresh token missing")
    user_id_text ←
        or_else (consume_refresh_token S token) (write_error 401 "invalid or expired refresh token")
    user_id ← or_stop (S.uuid_parse user_id_text) (write_error 500 "malformed session data")
    u ← or_else (find_user_by_id user_id) (write_error 401 "user not found")
    issue_token_pair u
