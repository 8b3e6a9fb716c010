-- ===== src/Run/Once.antt =====
-- Tokens that are good once: their keys after a use, under every run of the service.
pub mod Refresh
pub mod Codes
pub mod Reset
pub mod SecondFactor
pub mod Spends
use braza_sso.Prelude.{
  ℕ, suc, ◌+◌, ◌≤◌, ◌≡◌, ◌≢◌, ◌∙◌, refl, false, none, some, ne_of_text_eq, Text, codes, ok, arith,
  text_eq, text_eq_refl,
}
use braza_sso.Env.Services.{Services, ServiceLaws}
use braza_sso.Jwt.{Config}
use braza_sso.Login.{refresh_token_ttl}
use braza_sso.Oauth.Handlers.{auth_code_key}
use braza_sso.Run.{
  drawn, Written, of_email, of_reset, of_session, of_mfa, of_state, of_code, Counter, of_attempts,
  of_limiter,
}
use braza_sso.Run.Over.{set_key-IsOver, store-IsOver}
use braza_sso.Run.Over.Steps.{IsUnwritten, IsStable, Over, Run-Over}
use braza_sso.Run.Requests.{Served, Served-Run}
use braza_sso.Run.Week.{refresh_key-IsUnwritten}
use braza_sso.TokenStore.{
  get_del, set_key, store_refresh_token, refresh_key, user_sessions_key, password_reset_key,
  mfa_session_key, email_verify_key, session_key, state_key, login_attempts_key,
}
use braza_sso.TokenStore.Consume.{get_del_ok}
use braza_sso.TokenStore.Keys.{refresh_key-eq}
use braza_sso.World.{World}

-- A token that differs from every one of its size that is drawn at tick n or later.
abbrev pub IsFresh : Services → ℕ → ℕ → Text → Type 0
IsFresh S n size t = (i : ℕ) → n ≤ i → text_eq t (drawn S i size) ≡ false

module _ (S : Services) (n : ℕ) (t : Text) where
  password_reset_key-Written :
      IsFresh S n 32 t → (k : Text) → Written S n k → text_eq (password_reset_key t) k ≡ false
  unfolding text_eq password_reset_key email_verify_key session_key mfa_session_key state_key
      auth_code_key
  password_reset_key-Written fresh k (of_email i le) = refl
  password_reset_key-Written fresh k (of_reset i le) = fresh i le
  password_reset_key-Written fresh k (of_session i le) = refl
  password_reset_key-Written fresh k (of_mfa i le) = refl
  password_reset_key-Written fresh k (of_state i le) = refl
  password_reset_key-Written fresh k (of_code i le) = refl

  password_reset_key-counted : (k : Text) → Counter k → text_eq (password_reset_key t) k ≡ false
  unfolding text_eq password_reset_key login_attempts_key
  password_reset_key-counted k (of_attempts uid) = refl
  password_reset_key-counted k (of_limiter s) = refl

  password_reset_key-sessions : (uid : Text) → password_reset_key t ≢ user_sessions_key uid
  unfolding text_eq password_reset_key user_sessions_key
  password_reset_key-sessions uid = ne_of_text_eq _ _ refl

  pub password_reset_key-IsUnwritten : IsFresh S n 32 t → IsUnwritten S n (password_reset_key t)
  password_reset_key-IsUnwritten fresh = record {
    written = password_reset_key-Written fresh;
    counted = password_reset_key-counted;
    sessions = password_reset_key-sessions;
  }

  pub password_reset_key-not_refresh :
      (s : Text) → text_eq (password_reset_key t) (refresh_key s) ≡ false
  unfolding text_eq password_reset_key refresh_key
  password_reset_key-not_refresh s = refl

  mfa_session_key-Written :
      IsFresh S n 32 t → (k : Text) → Written S n k → text_eq (mfa_session_key t) k ≡ false
  unfolding text_eq password_reset_key email_verify_key session_key mfa_session_key state_key
      auth_code_key
  mfa_session_key-Written fresh k (of_email i le) = refl
  mfa_session_key-Written fresh k (of_reset i le) = refl
  mfa_session_key-Written fresh k (of_session i le) = refl
  mfa_session_key-Written fresh k (of_mfa i le) = fresh i le
  mfa_session_key-Written fresh k (of_state i le) = refl
  mfa_session_key-Written fresh k (of_code i le) = refl

  mfa_session_key-counted : (k : Text) → Counter k → text_eq (mfa_session_key t) k ≡ false
  unfolding text_eq mfa_session_key login_attempts_key
  mfa_session_key-counted k (of_attempts uid) = refl
  mfa_session_key-counted k (of_limiter s) = refl

  mfa_session_key-sessions : (uid : Text) → mfa_session_key t ≢ user_sessions_key uid
  unfolding text_eq mfa_session_key user_sessions_key
  mfa_session_key-sessions uid = ne_of_text_eq _ _ refl

  pub mfa_session_key-IsUnwritten : IsFresh S n 32 t → IsUnwritten S n (mfa_session_key t)
  mfa_session_key-IsUnwritten fresh = record {
    written = mfa_session_key-Written fresh;
    counted = mfa_session_key-counted;
    sessions = mfa_session_key-sessions;
  }

  pub mfa_session_key-not_refresh : (s : Text) → text_eq (mfa_session_key t) (refresh_key s) ≡ false
  unfolding text_eq mfa_session_key refresh_key
  mfa_session_key-not_refresh s = refl

  auth_code_key-Written :
      IsFresh S n 24 t → (k : Text) → Written S n k → text_eq (auth_code_key t) k ≡ false
  unfolding text_eq password_reset_key email_verify_key session_key mfa_session_key state_key
      auth_code_key
  auth_code_key-Written fresh k (of_email i le) = refl
  auth_code_key-Written fresh k (of_reset i le) = refl
  auth_code_key-Written fresh k (of_session i le) = refl
  auth_code_key-Written fresh k (of_mfa i le) = refl
  auth_code_key-Written fresh k (of_state i le) = refl
  auth_code_key-Written fresh k (of_code i le) = fresh i le

  auth_code_key-counted : (k : Text) → Counter k → text_eq (auth_code_key t) k ≡ false
  unfolding text_eq auth_code_key login_attempts_key
  auth_code_key-counted k (of_attempts uid) = refl
  auth_code_key-counted k (of_limiter s) = refl

  auth_code_key-sessions : (uid : Text) → auth_code_key t ≢ user_sessions_key uid
  unfolding text_eq auth_code_key user_sessions_key
  auth_code_key-sessions uid = ne_of_text_eq _ _ refl

  pub auth_code_key-IsUnwritten : IsFresh S n 24 t → IsUnwritten S n (auth_code_key t)
  auth_code_key-IsUnwritten fresh = record {
    written = auth_code_key-Written fresh;
    counted = auth_code_key-counted;
    sessions = auth_code_key-sessions;
  }

  pub auth_code_key-not_refresh : (s : Text) → text_eq (auth_code_key t) (refresh_key s) ≡ false
  unfolding text_eq auth_code_key refresh_key
  auth_code_key-not_refresh s = refl

module _ (S : Services) (L : ServiceLaws S) (n : ℕ) where
  -- Storing a refresh token with another key.
  store-Over :
      (K : Text) (unwritten : IsUnwritten S n K) (tok uid : Text) (ttl : ℕ) (w : World S)
      → text_eq K (refresh_key tok) ≡ false
      → Over S L n K 0 unwritten w
      → Over S L n K 0 unwritten (store_refresh_token S tok uid ttl w).1
  store-Over K unwritten tok uid ttl w apart h =
      store-IsOver S L K 0 unwritten.sessions tok uid ttl w
        (set_key-IsOver S L K 0 unwritten.sessions (refresh_key tok) uid ttl w apart h)

  pub stable :
      (K : Text) (unwritten : IsUnwritten S n K)
      → ((i : ℕ) → n ≤ i → text_eq K (refresh_key (drawn S i 32)) ≡ false)
      → IsStable S L n K 0 unwritten
  stable K unwritten apart i uid w le h =
      store-Over K unwritten (drawn S i 32) uid refresh_token_ttl w (apart i le) h

  pub refresh_stable :
      (t : Text)
      → IsFresh S n 32 t
      → IsStable S L n (refresh_key t) 0 (refresh_key-IsUnwritten S n t)
  refresh_stable t fresh =
      stable (refresh_key t) (refresh_key-IsUnwritten S n t)
        (λ i le. refresh_key-eq t (drawn S i 32) ∙ fresh i le)

  -- A key that was read with GETDEL is unset.
  pub get_del-unset :
      (K : Text) (w : World S) {v : Text} (u : ℕ)
      → (get_del S K w).0 ≡ ok v
      → S.redis.value (get_del S K w).1.redis u K ≡ none
  get_del-unset K w u h =
      ground (arith, get_del_ok S L.redis K w h, L.redis.value-del K w.redis u K, text_eq_refl K)

  -- A key that is unset stays so in all that the service does, and is then not there to be read.
  pub Over-Served :
      (c : Config) (K : Text) (unwritten : IsUnwritten S n K) {start w : World S} (v : Text)
      → IsStable S L n K 0 unwritten
      → n ≤ start.tick
      → Over S L n K 0 unwritten start
      → Served S c start w
      → S.redis.value w.redis (S.clock w.tick) K ≢ some v
  Over-Served c K unwritten {start} {w} v keeps le over served there =
      let gone =
        Run-Over S L n K 0 unwritten keeps (Served-Run S c n le served) over (S.clock w.tick)
          (omega arith) in
      absurd (ground (arith, gone, there))
