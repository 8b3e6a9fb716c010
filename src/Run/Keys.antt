-- ===== src/Run/Keys.antt =====
-- The keys that the service writes are of other families than a user's sessions.
use braza_sso.Prelude.{ℕ, refl, arith, Text, codes, ◌++◌, text_eq}
use braza_sso.Env.Services.{Services}
use braza_sso.Oauth.Handlers.{auth_code_key}
use braza_sso.Run.{
  Written, of_email, of_reset, of_session, of_mfa, of_state, of_code, Counter, of_attempts,
  of_limiter,
}
use braza_sso.TokenStore.{refresh_key, user_sessions_key}
use braza_sso.TokenStore.Keys.{
  IsApart, email_verify_key-IsApart, password_reset_key-IsApart, session_key-IsApart,
  mfa_session_key-IsApart, state_key-IsApart, login_attempts_key-IsApart,
}

pub auth_code_key-IsApart : (t : Text) → IsApart (auth_code_key t)
unfolding text_eq refresh_key user_sessions_key auth_code_key
auth_code_key-IsApart t = record { not_refresh = λ _. refl; not_sessions = λ _. refl }

rl-IsApart : (t : Text) → IsApart (codes "rl:" ++ t)
unfolding text_eq refresh_key user_sessions_key
rl-IsApart t = record { not_refresh = λ _. ground arith; not_sessions = λ _. refl }

pub Written-IsApart : (S : Services) (n : ℕ) {key : Text} → Written S n key → IsApart key
Written-IsApart S n (of_email i le) = email_verify_key-IsApart _
Written-IsApart S n (of_reset i le) = password_reset_key-IsApart _
Written-IsApart S n (of_session i le) = session_key-IsApart _
Written-IsApart S n (of_mfa i le) = mfa_session_key-IsApart _
Written-IsApart S n (of_state i le) = state_key-IsApart _
Written-IsApart S n (of_code i le) = auth_code_key-IsApart _

pub Counter-IsApart : {key : Text} → Counter key → IsApart key
Counter-IsApart (of_attempts uid) = login_attempts_key-IsApart uid
Counter-IsApart (of_limiter t) = rl-IsApart t
