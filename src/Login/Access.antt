-- ===== src/Login/Access.antt =====
-- The refusals of a login: an account that is locked, and credentials that do not fit.
use braza_sso.Prelude.{
  suc, ◌≡◌, ◌<◌, ◌⊎◌, inl, inr, false, Option, some, [], Text, ok, stop, arith, text_eq,
}
use braza_sso.Model.{Time, User}
use braza_sso.Env.Services.{Services}
use braza_sso.Http.{write_error}
use braza_sso.Jwt.{Config}
use braza_sso.Login.{
  LoginRequest, login, normalize_email, is_locked, check_credentials, refuse, handle_failed_attempt,
  lock_for,
}
use braza_sso.Password.{verify_password}
use braza_sso.TokenStore.{incr_login_attempts}
use braza_sso.User.{find_by_email, update_failed_attempts}
use braza_sso.World.{World, Response, Error, now, send_mail}

module _ (S : Services) (c : Config) where
  -- A login that names an address and a password, for an account that is locked at that time, is
  -- answered with 403, whatever the password: the state is that after the lookup, with the clock
  -- read once, so no attempt is counted and nothing is written.
  pub login-locked :
      (req : LoginRequest) (w : World S) {u : User} {until : Time}
      → text_eq (normalize_email req.email) [] ≡ false
      → text_eq req.password [] ≡ false
      → (find_by_email S (normalize_email req.email) w).0 ≡ ok u
      → u.locked_until ≡ some until
      → S.clock (find_by_email S (normalize_email req.email) w).1.tick < until
      → let found = (find_by_email S (normalize_email req.email) w).1 in
        login S c (some req) w ≡ (
          stop (write_error 403 "account is temporarily locked"),
          record found { tick = suc found.tick },
        )
  unfolding login is_locked now
  login-locked req w named secret found locked early = ground arith

  -- The credentials do not fit: the address has no account that can be read, or the account is not
  -- locked and the password does not verify.
  abbrev pub IsRefused : LoginRequest → World S → Type 0
  IsRefused req w =
      let found = find_by_email S (normalize_email req.email) w in
      ((e : Error) × (found.0 ≡ stop e))
      ⊎ ((u : User) × (e : Error) × (found.0 ≡ ok u)
          × ((is_locked S c {E = Response} u.locked_until found.1).0 ≡ ok false)
          × (verify_password S req.password c.pepper u.password_hash ≡ stop e))

  -- Counting a failure always ends, with nothing for the browser.
  pub handle_failed_attempt_lem :
      (u : User) (w : World S)
      → ((handle_failed_attempt S c {E = Response} u w).0 ≡ ok tt)
        × ((handle_failed_attempt S c {E = Response} u w).1.cookies ≡ w.cookies)
  unfolding handle_failed_attempt lock_for incr_login_attempts update_failed_attempts now send_mail
  handle_failed_attempt_lem u w = ground arith

  find_by_email-cookies :
      (email : Text) (w : World S) → (find_by_email S email w).1.cookies ≡ w.cookies
  unfolding find_by_email
  find_by_email-cookies email w = ground arith

  is_locked-cookies :
      (until : Option Time) (w : World S)
      → (is_locked S c {E = Response} until w).1.cookies ≡ w.cookies
  unfolding is_locked now
  is_locked-cookies until w = ground arith

  -- For a login that names an address and a password: if no account can be found or read for the
  -- address, or if it is not locked and the password does not verify, the answer is the same 401
  -- and no cookie is set.
  pub login-refused :
      (req : LoginRequest) (w : World S)
      → text_eq (normalize_email req.email) [] ≡ false
      → text_eq req.password [] ≡ false
      → IsRefused req w
      → ((login S c (some req) w).0 ≡ stop (write_error 401 "invalid credentials"))
        × ((login S c (some req) w).1.cookies ≡ w.cookies)
  unfolding login check_credentials refuse
  login-refused req w named secret (inl (e, unknown)) =
      ground (arith, find_by_email-cookies (normalize_email req.email) w)
  login-refused req w named secret (inr (u, e, found, free, wrong)) =
      let w' = (find_by_email S (normalize_email req.email) w).1 in
      ground (
        arith,
        find_by_email-cookies (normalize_email req.email) w,
        is_locked-cookies u.locked_until w',
        handle_failed_attempt_lem u (is_locked S c {E = Response} u.locked_until w').1,
      )
