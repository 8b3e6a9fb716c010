-- ===== src/Run/Tracked.antt =====
-- The sessions of a user, and POST /auth/logout/all, under runs of the service in which no call
-- fails.
use braza_sso.Prelude.{ℕ, suc, ◌≤◌, ◌≡◌, ◌∙◌, ◌≢◌, Text, ok, some, arith}
use braza_sso.Env.Services.{Services, ServiceLaws, delivered}
use braza_sso.Jwt.{Config}
use braza_sso.Logout.{revoke_all}
use braza_sso.Run.{
  drawn, Act, Run, here, next, store, consume, revoke, set_other, get_del_other, del_other,
  incr_other, enlist, update, elapse,
}
use braza_sso.Run.Ticks.{create-apart, update_user-apart}
use braza_sso.Run.Keys.{Written-IsApart, Counter-IsApart}
use braza_sso.Run.Requests.{Served, Served-Run}
use braza_sso.TokenStore.{
  store_refresh_token, consume_refresh_token, revoke_all_user_sessions, read_sessions,
  delete_sessions,
}
use braza_sso.TokenStore.Reach.{Step, Reach, revoke-after-Reach}
use braza_sso.TokenStore.Revocation.{IsTracked}
use braza_sso.World.{World, deliver, set_cookie}

module _ (S : Services) where
  store_refresh_token_ok :
      (t uid : Text) (ttl : ℕ) (w : World S)
      → ((i : ℕ) → S.fault i ≡ delivered)
      → (store_refresh_token S t uid ttl w).0 ≡ ok tt
  unfolding store_refresh_token deliver
  store_refresh_token_ok t uid ttl w reliable =
      ground (arith, reliable w.tick, reliable (suc w.tick))

  Act-Step :
      {n : ℕ} {w w' : World S} → ((i : ℕ) → S.fault i ≡ delivered) → Act S n w w' → Step S w w'
  Act-Step reliable (store i uid w le) =
      Step.store (drawn S i 32) uid _ w (store_refresh_token_ok (drawn S i 32) uid _ w reliable)
  Act-Step reliable (consume t w) = Step.consume t w
  Act-Step reliable (revoke uid w) = Step.revoke uid w
  Act-Step {n} reliable (set_other key value ttl w written) =
      Step.set_other key value ttl w (Written-IsApart S n written)
  Act-Step reliable (get_del_other key w apart) = Step.get_del_other key w apart
  Act-Step reliable (del_other key w apart) = Step.del_other key w apart
  Act-Step reliable (incr_other key window w counter) =
      Step.incr_other key window w (Counter-IsApart counter)
  Act-Step reliable (enlist f w same) =
      let (redis, le) = create-apart S (f (S.new_uuid w.tick)) (record w { tick = suc w.tick }) in
      Step.elapse w _ redis (omega arith)
  Act-Step reliable (update id f w same) =
      let (redis, le) = update_user-apart S id f w in Step.elapse w _ redis le
  Act-Step reliable (elapse w w' redis users emails le) = Step.elapse w w' redis le

  Run-Reach :
      {n : ℕ} {w w' : World S} → ((i : ℕ) → S.fault i ≡ delivered) → Run S n w w' → Reach S w w'
  Run-Reach reliable here = Reach.here
  Run-Reach reliable (next r a) = Reach.next (Run-Reach reliable r) (Act-Step reliable a)

  revoke_all_user_sessions_ok :
      (uid : Text) (w : World S)
      → ((i : ℕ) → S.fault i ≡ delivered)
      → (revoke_all_user_sessions S uid w).0 ≡ ok tt
  unfolding revoke_all_user_sessions read_sessions delete_sessions deliver
  revoke_all_user_sessions_ok uid w reliable =
      ground (arith, reliable w.tick, reliable (suc w.tick))

  revoke_all-redis :
      (c : Config) (uid : Text) (w : World S)
      → (revoke_all S c (some uid) w).1.redis ≡ (revoke_all_user_sessions S uid w).1.redis
  unfolding revoke_all set_cookie
  revoke_all-redis c uid w = ground arith

  pub revoke_all-tick :
      (c : Config) (uid : Text) (w : World S) → w.tick ≤ (revoke_all S c (some uid) w).1.tick
  unfolding revoke_all revoke_all_user_sessions read_sessions delete_sessions set_cookie
  revoke_all-tick c uid w = ground arith

  -- From a state in which every live refresh token is in its user's set, after any requests to the
  -- service, with any data and in any order, of which no call fails: once POST /auth/logout/all has
  -- run for a user, no refresh token is accepted as that user's, at any later time, while nothing
  -- else is written.
  pub revoke_all-Served :
      (L : ServiceLaws S) (c : Config) (uid t : Text) {start w : World S} (w' : World S)
      → ((i : ℕ) → S.fault i ≡ delivered)
      → IsTracked S start
      → Served S c start w
      → w'.redis ≡ (revoke_all S c (some uid) w).1.redis
      → w.tick ≤ w'.tick
      → (consume_refresh_token S t w').0 ≢ ok uid
  revoke_all-Served L c uid t {start} {w} w' reliable tracked served same later =
      revoke-after-Reach S L uid t w' tracked
        (Run-Reach reliable (Served-Run S c 0 (omega arith) served))
        (revoke_all_user_sessions_ok uid w reliable) (same ∙ revoke_all-redis c uid w) later
