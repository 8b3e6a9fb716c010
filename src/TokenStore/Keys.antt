-- ===== src/TokenStore/Keys.antt =====
-- The key families of the token store do not meet, and a key determines its token.
use braza_sso.Prelude.{
  ◌≡◌, refl, ◌≢◌, false, Text, text_eq, ne_of_text_eq, map, List, [], ◌∷◌, contains, arith,
}
use braza_sso.TokenStore.{
  refresh_key, user_sessions_key, session_key, mfa_session_key, password_reset_key,
  email_verify_key, login_attempts_key, state_key,
}

pub refresh_key-eq : (s t : Text) → text_eq (refresh_key s) (refresh_key t) ≡ text_eq s t
unfolding text_eq refresh_key user_sessions_key
refresh_key-eq s t = refl

pub user_sessions_key-eq :
    (s t : Text) → text_eq (user_sessions_key s) (user_sessions_key t) ≡ text_eq s t
unfolding text_eq refresh_key user_sessions_key
user_sessions_key-eq s t = refl

pub refresh-eq-user_sessions : (s t : Text) → text_eq (refresh_key s) (user_sessions_key t) ≡ false
unfolding text_eq refresh_key user_sessions_key
refresh-eq-user_sessions s t = refl

pub refresh-ne-user_sessions : (s t : Text) → refresh_key s ≢ user_sessions_key t
refresh-ne-user_sessions s t = ne_of_text_eq _ _ (refresh-eq-user_sessions s t)

pub user_sessions-eq-refresh : (s t : Text) → text_eq (user_sessions_key s) (refresh_key t) ≡ false
unfolding text_eq refresh_key user_sessions_key
user_sessions-eq-refresh s t = refl

-- A key of another family than the two that make up a user's sessions.
pub record IsApart (key : Text) : Type 0 where
  pub not_refresh : (t : Text) → text_eq (refresh_key t) key ≡ false
  pub not_sessions : (u : Text) → text_eq (user_sessions_key u) key ≡ false

pub session_key-IsApart : (t : Text) → IsApart (session_key t)
unfolding text_eq refresh_key user_sessions_key session_key
session_key-IsApart t = record { not_refresh = λ _. refl; not_sessions = λ _. refl }

pub mfa_session_key-IsApart : (t : Text) → IsApart (mfa_session_key t)
unfolding text_eq refresh_key user_sessions_key mfa_session_key
mfa_session_key-IsApart t = record { not_refresh = λ _. refl; not_sessions = λ _. refl }

pub password_reset_key-IsApart : (t : Text) → IsApart (password_reset_key t)
unfolding text_eq refresh_key user_sessions_key password_reset_key
password_reset_key-IsApart t = record { not_refresh = λ _. refl; not_sessions = λ _. refl }

pub email_verify_key-IsApart : (t : Text) → IsApart (email_verify_key t)
unfolding text_eq refresh_key user_sessions_key email_verify_key
email_verify_key-IsApart t = record { not_refresh = λ _. refl; not_sessions = λ _. refl }

pub login_attempts_key-IsApart : (t : Text) → IsApart (login_attempts_key t)
unfolding text_eq refresh_key user_sessions_key login_attempts_key
login_attempts_key-IsApart t = record { not_refresh = λ _. refl; not_sessions = λ _. refl }

pub state_key-IsApart : (t : Text) → IsApart (state_key t)
unfolding text_eq refresh_key user_sessions_key state_key
state_key-IsApart t = record { not_refresh = λ _. refl; not_sessions = λ _. refl }

pub contains-map-refresh_key :
    (l : List Text) (t : Text) → contains (map refresh_key l) (refresh_key t) ≡ contains l t
unfolding contains
contains-map-refresh_key [] t = refl
contains-map-refresh_key (s ∷ l) t =
    ground (arith, refresh_key-eq s t, contains-map-refresh_key l t)
