-- ===== src/TokenStore/Lifetime.antt =====
-- A token from its creation to its use: it is good once, until its time is over. And the counter
-- of failed attempts.
use braza_sso.Prelude.{
  ℕ, suc, ◌==◌, ◌||◌, ◌+◌, ◌≤◌, ◌≡◌, ◌≢◌, Text, text_eq_refl, ltb, if◌then◌else◌, ok, stop, arith,
}
use braza_sso.Env.Services.{Services, ServiceLaws, delivered}
use braza_sso.World.{World, deliver, token_not_found}
use braza_sso.Go.Base64
use braza_sso.TokenStore.{
  get_del, set_key, create_password_reset_token, consume_password_reset_token, consume_mfa_session,
  incr_login_attempts, login_attempts_key, login_attempt_window, password_reset_key,
}
use braza_sso.TokenStore.Consume.{get_del_again}

module _ (S : Services) (L : ServiceLaws S) where
  pub set_key-get_del :
      (key value : Text) (ttl : ℕ) (w w' : World S)
      → S.fault w.tick ≡ delivered
      → w'.redis ≡ (set_key S key value ttl w).1.redis
      → w.tick ≤ w'.tick
      → S.fault w'.tick ≡ delivered
      → (get_del S key w').0 ≡ (
          if ttl == 0 || ltb (S.clock w'.tick) (S.clock w.tick + ttl)
          then ok value
          else stop token_not_found)
  unfolding set_key get_del deliver
  set_key-get_del key value ttl w w' fate same later fate' = ground (
    arith,
    text_eq_refl key,
    L.clock_mono w.tick w'.tick,
    L.redis.value-set (S.clock w.tick) key value ttl w.redis (S.clock w'.tick) key,
  )

  -- A password reset token whose creation and use both reach Redis, with nothing written between,
  -- gives the user it was made for until its time to live is over, and is unknown from then on; a
  -- time to live of 0 is never over.
  pub create-consume_password_reset_token :
      (uid : Text) (ttl : ℕ) (w w' : World S)
      → S.fault (suc w.tick) ≡ delivered
      → w'.redis ≡ (create_password_reset_token S uid ttl w).1.redis
      → suc w.tick ≤ w'.tick
      → S.fault w'.tick ≡ delivered
      → let token = Base64.encode Base64.url (S.random w.tick 32) in
        ((create_password_reset_token S uid ttl w).0 ≡ ok token)
        × ((consume_password_reset_token S token w').0 ≡ (
            if ttl == 0 || ltb (S.clock w'.tick) (S.clock (suc w.tick) + ttl)
            then ok uid
            else stop token_not_found))
  unfolding create_password_reset_token consume_password_reset_token deliver
  create-consume_password_reset_token uid ttl w w' fate same later fate' =
      let token = Base64.encode Base64.url (S.random w.tick 32) in
      ground (
        arith,
        set_key-get_del (password_reset_key token) uid ttl (record w { tick = suc w.tick }) w',
      )

  -- A password reset token is accepted once: after a use that succeeded no second use does,
  -- whatever fails, while nothing is written between.
  pub consume_password_reset_token-once :
      (token : Text) (w w' : World S) {v : Text} (v' : Text)
      → (consume_password_reset_token S token w).0 ≡ ok v
      → w'.redis ≡ (consume_password_reset_token S token w).1.redis
      → (consume_password_reset_token S token w').0 ≢ ok v'
  unfolding consume_password_reset_token
  consume_password_reset_token-once token w w' v' h e = get_del_again S L.redis _ w w' h e v'

  -- A second-factor session is accepted once: after a use that succeeded no second use does,
  -- whatever fails, while nothing is written between.
  pub consume_mfa_session-once :
      (token : Text) (w w' : World S) {v : Text} (v' : Text)
      → (consume_mfa_session S token w).0 ≡ ok v
      → w'.redis ≡ (consume_mfa_session S token w).1.redis
      → (consume_mfa_session S token w').0 ≢ ok v'
  unfolding consume_mfa_session
  consume_mfa_session-once token w w' v' h e = get_del_again S L.redis _ w w' h e v'

  -- Counting a failure, if it succeeds, gives one more than the live count, and the new count
  -- lasts a window from this call on and is 0 after it.
  pub incr_login_attempts_lem :
      (uid : Text) (w : World S) {n : ℕ} (u : ℕ)
      → (incr_login_attempts S uid w).0 ≡ ok n
      → S.clock w.tick ≤ u
      → let key = login_attempts_key uid in
        (n ≡ suc (S.redis.count w.redis (S.clock w.tick) key))
        × (S.redis.count (incr_login_attempts S uid w).1.redis u key
            ≡ (if ltb u (S.clock w.tick + login_attempt_window) then n else 0))
  unfolding incr_login_attempts deliver
  incr_login_attempts_lem uid w u h le =
      let key = login_attempts_key uid in
      let now = S.clock w.tick in
      ground (
        arith,
        L.redis.count-incr now key w.redis,
        L.redis.count-expire now key login_attempt_window (S.redis.incr now key w.redis) u,
      )
