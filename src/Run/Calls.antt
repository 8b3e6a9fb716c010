-- ===== src/Run/Calls.antt =====
-- The calls that handlers make, as runs.
use braza_sso.Prelude.{ℕ, ◌≤◌, ◌≡◌, refl, Option, none, M, Text, arith, Bool, true}
use braza_sso.Env.Services.{Services}
use braza_sso.Jwt.{Config, issue_access_token, verify_access_token}
use braza_sso.Model
use braza_sso.Model.{Uuid}
use braza_sso.Password.{hash_password}
use braza_sso.Run.{
  Runs, here, next, elapse, store, consume, revoke, set_other, get_del_other, del_other, incr_other,
  update, drawn, Written, Counter, of_email, of_reset, of_session, of_mfa, of_state, of_attempts,
}
use braza_sso.Run.Combine.{runs, >>=-Runs, pure-Runs}
use braza_sso.TokenStore
use braza_sso.TokenStore.Keys
use braza_sso.TokenStore.Keys.{IsApart}
use braza_sso.Login.{refresh_token_ttl}
use braza_sso.User
use braza_sso.World.{World, now, set_cookie, Cookie, send_mail, post, Mail, deliver}

module _ (S : Services) (n : ℕ) where
  -- A computation that leaves Redis and the accounts alone.
  pub calm :
      {E A : Type 0} (m : M (World S) E A)
      → ((w : World S)
          → ((m w).1.redis ≡ w.redis)
            × ((m w).1.users ≡ w.users)
            × ((m w).1.users_by_email ≡ w.users_by_email)
            × (w.tick ≤ (m w).1.tick))
      → Runs S n m
  unfolding Runs
  calm m h w le =
      let (redis, users, emails, tick) = h w in next here (elapse w (m w).1 redis users emails tick)

  pub now-Runs : (E : Type 0) → Runs S n (now S {E = E})
  unfolding now
  now-Runs E = calm _ (λ w. ground arith)

  pub send_mail-Runs : (E : Type 0) (m : Mail) → Runs S n (send_mail S {E = E} m)
  unfolding send_mail
  send_mail-Runs E m = calm _ (λ w. ground arith)

  pub post-Runs : (E : Type 0) (uri token : Text) → Runs S n (post S {E = E} uri token)
  unfolding post
  post-Runs E uri token = calm _ (λ w. ground arith)

  pub set_cookie-Runs : (E : Type 0) (k : Cookie) → Runs S n (set_cookie S {E = E} k)
  unfolding set_cookie
  set_cookie-Runs E k = calm _ (λ w. ground arith)

  pub hash_password-Runs :
      (E : Type 0) (password pepper : Text) → Runs S n (hash_password S {E = E} password pepper)
  unfolding hash_password
  hash_password-Runs E password pepper = calm _ (λ w. ground arith)

  pub issue_access_token-Runs :
      (c : Config) (uid email : Text) (verified : Bool) (aud : Text)
      → Runs S n (issue_access_token S c uid email verified aud)
  unfolding issue_access_token
  issue_access_token-Runs c uid email verified aud = calm _ (λ w. ground arith)

  pub verify_access_token-Runs : (token : Text) → Runs S n (verify_access_token S token)
  unfolding verify_access_token
  verify_access_token-Runs token = calm _ (λ w. ground arith)

  pub find_by_id-Runs : (id : Uuid) → Runs S n (User.find_by_id S id)
  unfolding User.find_by_id deliver
  find_by_id-Runs id = calm _ (λ w. ground arith)

  lookup_email-Runs : (email : Text) → Runs S n (User.lookup_email S email)
  unfolding User.lookup_email deliver
  lookup_email-Runs email = calm _ (λ w. ground arith)

  pub find_by_email-Runs : (email : Text) → Runs S n (User.find_by_email S email)
  unfolding User.find_by_email
  find_by_email-Runs email = search (runs, lookup_email-Runs, find_by_id-Runs)

  pub store_refresh_token-Runs :
      (i : ℕ) (uid : Text)
      → n ≤ i
      → Runs S n (TokenStore.store_refresh_token S (drawn S i 32) uid refresh_token_ttl)
  unfolding Runs
  store_refresh_token-Runs i uid later w le = next here (store i uid w later)

  pub consume_refresh_token-Runs : (t : Text) → Runs S n (TokenStore.consume_refresh_token S t)
  unfolding Runs
  consume_refresh_token-Runs t w le = next here (consume t w)

  pub revoke_all_user_sessions-Runs :
      (uid : Text) → Runs S n (TokenStore.revoke_all_user_sessions S uid)
  unfolding Runs
  revoke_all_user_sessions-Runs uid w le = next here (revoke uid w)

  pub set_key-Runs :
      (key value : Text) (ttl : ℕ) → Written S n key → Runs S n (TokenStore.set_key S key value ttl)
  unfolding Runs
  set_key-Runs key value ttl written w le = next here (set_other key value ttl w written)

  pub get_del-Runs : (key : Text) → IsApart key → Runs S n (TokenStore.get_del S key)
  unfolding Runs
  get_del-Runs key apart w le = next here (get_del_other key w apart)

  pub del_key-Runs : (key : Text) → IsApart key → Runs S n (TokenStore.del_key S key)
  unfolding Runs
  del_key-Runs key apart w le = next here (del_other key w apart)

  pub incr_expire-Runs :
      (key : Text) (window : ℕ) → Counter key → Runs S n (TokenStore.incr_expire S key window)
  unfolding Runs
  incr_expire-Runs key window counter w le = next here (incr_other key window w counter)

  pub update_user-Runs :
      (id : Uuid) (f : Model.User → Model.User)
      → ((u : Model.User) → (f u).email ≡ u.email)
      → Runs S n (User.update_user S id f)
  unfolding Runs
  update_user-Runs id f same w le = next here (update id f w same)

  pub store_session_token-Runs :
      (i : ℕ) (uid : Text) → n ≤ i → Runs S n (TokenStore.store_session_token S (drawn S i 32) uid)
  unfolding TokenStore.store_session_token
  store_session_token-Runs i uid later = set_key-Runs _ _ _ (of_session i later)

  pub lookup_session_token-Runs : (t : Text) → Runs S n (TokenStore.lookup_session_token S t)
  unfolding TokenStore.lookup_session_token deliver
  lookup_session_token-Runs t = calm _ (λ w. ground arith)

  pub revoke_session_token-Runs : (t : Text) → Runs S n (TokenStore.revoke_session_token S t)
  unfolding TokenStore.revoke_session_token
  revoke_session_token-Runs t = del_key-Runs _ (Keys.session_key-IsApart t)

  pub store_mfa_session-Runs :
      (i : ℕ) (uid : Text) (ttl : ℕ)
      → n ≤ i
      → Runs S n (TokenStore.store_mfa_session S (drawn S i 32) uid ttl)
  unfolding TokenStore.store_mfa_session
  store_mfa_session-Runs i uid ttl later = set_key-Runs _ _ _ (of_mfa i later)

  pub consume_mfa_session-Runs : (t : Text) → Runs S n (TokenStore.consume_mfa_session S t)
  unfolding TokenStore.consume_mfa_session
  consume_mfa_session-Runs t = get_del-Runs _ (Keys.mfa_session_key-IsApart t)

  pub set_state-Runs :
      (i : ℕ) (to : Text) → n ≤ i → Runs S n (TokenStore.set_state S (drawn S i 16) to)
  unfolding TokenStore.set_state
  set_state-Runs i to later = set_key-Runs _ _ _ (of_state i later)

  pub consume_state-Runs : (t : Text) → Runs S n (TokenStore.consume_state S t)
  unfolding TokenStore.consume_state
  consume_state-Runs t = get_del-Runs _ (Keys.state_key-IsApart t)

  pub incr_login_attempts-Runs : (uid : Text) → Runs S n (TokenStore.incr_login_attempts S uid)
  unfolding TokenStore.incr_login_attempts
  incr_login_attempts-Runs uid = incr_expire-Runs _ _ (of_attempts uid)

  pub reset_login_attempts-Runs : (uid : Text) → Runs S n (TokenStore.reset_login_attempts S uid)
  unfolding TokenStore.reset_login_attempts
  reset_login_attempts-Runs uid = del_key-Runs _ (Keys.login_attempts_key-IsApart uid)

  pub create_email_verification_token-Runs :
      (uid : Text) (ttl : ℕ) → Runs S n (TokenStore.create_email_verification_token S uid ttl)
  unfolding TokenStore.create_email_verification_token
  create_email_verification_token-Runs uid ttl = search (runs, set_key-Runs, of_email)

  pub consume_email_verification_token-Runs :
      (t : Text) → Runs S n (TokenStore.consume_email_verification_token S t)
  unfolding TokenStore.consume_email_verification_token
  consume_email_verification_token-Runs t = get_del-Runs _ (Keys.email_verify_key-IsApart t)

  pub create_password_reset_token-Runs :
      (uid : Text) (ttl : ℕ) → Runs S n (TokenStore.create_password_reset_token S uid ttl)
  unfolding TokenStore.create_password_reset_token
  create_password_reset_token-Runs uid ttl = search (runs, set_key-Runs, of_reset)

  pub consume_password_reset_token-Runs :
      (t : Text) → Runs S n (TokenStore.consume_password_reset_token S t)
  unfolding TokenStore.consume_password_reset_token
  consume_password_reset_token-Runs t = get_del-Runs _ (Keys.password_reset_key-IsApart t)

  pub set_email_verified-Runs : (id : Uuid) → Runs S n (User.set_email_verified S id)
  unfolding User.set_email_verified
  set_email_verified-Runs id =
      update_user-Runs id (λ u. record u { email_verified = true }) (λ u. refl)

  pub update_failed_attempts-Runs :
      (id : Uuid) (count : ℕ) (until : Option ℕ)
      → Runs S n (User.update_failed_attempts S id count until)
  unfolding User.update_failed_attempts
  update_failed_attempts-Runs id count until =
      update_user-Runs id (λ u. record u { failed_attempts = count; locked_until = until })
        (λ u. refl)

  pub update_failed_attempts_reset-Runs :
      (id : Uuid) → Runs S n (User.update_failed_attempts_reset S id)
  unfolding User.update_failed_attempts_reset
  update_failed_attempts_reset-Runs id =
      update_user-Runs id (λ u. record u { failed_attempts = 0; locked_until = none }) (λ u. refl)

  pub update_password-Runs : (id : Uuid) (hash : Text) → Runs S n (User.update_password S id hash)
  unfolding User.update_password
  update_password-Runs id hash =
      update_user-Runs id
        (λ u. record u { password_hash = hash; failed_attempts = 0; locked_until = none })
        (λ u. refl)

  pub update_totp-Runs :
      (id : Uuid) (secret : Text) (enabled : Bool) → Runs S n (User.update_totp S id secret enabled)
  unfolding User.update_totp
  update_totp-Runs id secret enabled =
      update_user-Runs id (λ u. record u { totp_secret = secret; totp_enabled = enabled })
        (λ u. refl)

pub ruleset calls = (
  runs, now-Runs, send_mail-Runs, post-Runs, set_cookie-Runs, hash_password-Runs,
  issue_access_token-Runs, verify_access_token-Runs, find_by_id-Runs, find_by_email-Runs,
  store_refresh_token-Runs, consume_refresh_token-Runs, revoke_all_user_sessions-Runs, set_key-Runs,
  get_del-Runs, del_key-Runs, incr_expire-Runs, update_user-Runs, store_session_token-Runs,
  lookup_session_token-Runs, revoke_session_token-Runs, store_mfa_session-Runs,
  consume_mfa_session-Runs, set_state-Runs, consume_state-Runs, incr_login_attempts-Runs,
  reset_login_attempts-Runs, create_email_verification_token-Runs,
  consume_email_verification_token-Runs, create_password_reset_token-Runs,
  consume_password_reset_token-Runs, set_email_verified-Runs, update_failed_attempts-Runs,
  update_failed_attempts_reset-Runs, update_password-Runs, update_totp-Runs,
)
