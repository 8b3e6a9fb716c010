-- ===== src/Run/Over.antt =====
-- One key of Redis under the calls that the service makes: when it is sure to be unset.
pub mod Steps
use braza_sso.Prelude.{
  ℕ, suc, ◌+◌, ◌≤◌, ◌≡◌, ◌∙◌, ◌≢◌, false, none, Text, Result, ok, stop, arith, >>=-inv, pure, ◌>>◌,
  Option-cases, inl, inr, ne_of_text_eq, List, map, [], ◌∷◌, text_eq,
}
use braza_sso.Env.Redis.{Redis}
use braza_sso.Env.Services.{Services, ServiceLaws, Fault, delivered, lost, late}
use braza_sso.TokenStore.{
  set_key, get_del, del_key, incr_expire, store_refresh_token, consume_refresh_token, del_all,
  revoke_all_user_sessions, read_sessions, delete_sessions, forget_session, refresh_key,
  user_sessions_key,
}
use braza_sso.World.{World, Error, token_not_found, deliver, redis_call}

-- The key, and how long from now on it may still be set.
module _ (S : Services) (L : ServiceLaws S) (K : Text) (slack : ℕ)
    (apart_sessions : (uid : Text) → K ≢ user_sessions_key uid) where
  abbrev R : Redis
  R = S.redis

  abbrev pub IsOverFrom : ℕ → R.Db → Type 0
  IsOverFrom now d = (u : ℕ) → now + slack ≤ u → R.value d u K ≡ none

  abbrev pub IsOver : World S → Type 0
  IsOver w = IsOverFrom (S.clock w.tick) w.redis

  -- From a time on, the key is unset in the second state where it is in the first.
  abbrev pub IsFewer : ℕ → R.Db → R.Db → Type 0
  IsFewer now d d' = (u : ℕ) → now ≤ u → R.value d u K ≡ none → R.value d' u K ≡ none

  pub fewer-IsOver :
      (w w' : World S)
      → IsFewer (S.clock w.tick) w.redis w'.redis
      → w.tick ≤ w'.tick
      → IsOver w
      → IsOver w'
  fewer-IsOver w w' fewer le h u after =
      let le' = L.clock_mono w.tick w'.tick le in fewer u (omega arith) (h u (omega arith))

  -- What a call leaves that writes nothing, or what `f` does.
  deliver-IsFewer :
      {A : Type 0} (f : Fault) (now : ℕ) (d : R.Db) (r : Result Error A × R.Db)
      → IsFewer now d r.1
      → IsFewer now d (deliver f d r).1
  unfolding deliver
  deliver-IsFewer delivered now d r h = h
  deliver-IsFewer lost now d r h = λ u le gone. gone
  deliver-IsFewer late now d r h = h

  -- A call leaves what it finds, or what `r` says.
  pub call-IsOver :
      {A : Type 0} (r : Result Error A × R.Db) (w : World S)
      → IsFewer (S.clock w.tick) w.redis r.1
      → IsOver w
      → IsOverFrom (S.clock (suc w.tick)) (deliver (S.fault w.tick) w.redis r).1
  call-IsOver r w fewer h u after =
      let le = L.clock_mono w.tick (suc w.tick) (omega arith) in
      deliver-IsFewer (S.fault w.tick) (S.clock w.tick) w.redis r fewer u (omega arith)
        (h u (omega arith))

  del-IsFewer : (now : ℕ) (key : Text) (d : R.Db) → IsFewer now d (R.del key d)
  del-IsFewer now key d u le h = ground (arith, L.redis.value-del key d u K)

  del_all-IsFewer : (now : ℕ) (keys : List Text) (d : R.Db) → IsFewer now d (del_all R keys d)
  unfolding del_all
  del_all-IsFewer now [] d u le h = h
  del_all-IsFewer now (k ∷ keys) d u le h =
      del_all-IsFewer now keys (R.del k d) u le (del-IsFewer now k d u le h)

  pub set_key-IsOver :
      (key value : Text) (ttl : ℕ) (w : World S)
      → text_eq K key ≡ false
      → IsOver w
      → IsOver (set_key S key value ttl w).1
  unfolding set_key
  set_key-IsOver key value ttl w apart =
      call-IsOver {A = Unit {0}} (ok tt, R.set (S.clock w.tick) key value ttl w.redis) w
        (λ u le h.
          ground (arith, L.redis.value-set (S.clock w.tick) key value ttl w.redis u K, apart))

  pub get_del-IsOver : (key : Text) (w : World S) → IsOver w → IsOver (get_del S key w).1
  unfolding get_del
  get_del-IsOver key w h = elim (Option-cases (R.value w.redis (S.clock w.tick) key)) [
    | inl e ↦ rw e (call-IsOver {A = Text} (stop token_not_found, w.redis) w (λ u le gone. gone) h)
    | inr (v, e) ↦ rw e (
        call-IsOver {A = Text} (ok v, R.del key w.redis) w
          (del-IsFewer (S.clock w.tick) key w.redis) h)
  ]

  pub del_key-IsOver : (key : Text) (w : World S) → IsOver w → IsOver (del_key S key w).1
  unfolding del_key
  del_key-IsOver key w =
      call-IsOver {A = Unit {0}} (ok tt, R.del key w.redis) w
        (del-IsFewer (S.clock w.tick) key w.redis)

  pub incr_expire-IsOver :
      (key : Text) (window : ℕ) (w : World S)
      → text_eq K key ≡ false
      → IsOver w
      → IsOver (incr_expire S key window w).1
  unfolding incr_expire
  incr_expire-IsOver key window w apart =
      let now = S.clock w.tick in
      let d = R.incr now key w.redis in
      call-IsOver {A = ℕ} (ok (R.count d now key), R.expire now key window d) w
        (λ u le h.
          let apart' = ne_of_text_eq _ _ apart in
          L.redis.value-expire now key window (R.incr now key w.redis) u K apart'
          ∙ (L.redis.value-incr now key w.redis u K apart' ∙ h))

  forget_session-IsOver :
      (t uid : Text) (w : World S) → IsOver w → IsOver (forget_session S t uid w).1
  unfolding forget_session
  forget_session-IsOver m uid w =
      call-IsOver {A = Unit {0}} (ok tt, R.srem (user_sessions_key uid) m w.redis) w
        (λ u le h.
          L.redis.value-srem (user_sessions_key uid) m w.redis u K (apart_sessions uid) ∙ h)

  pub consume-IsOver : (t : Text) (w : World S) → IsOver w → IsOver (consume_refresh_token S t w).1
  unfolding consume_refresh_token
  consume-IsOver t w h =
      let h' = get_del-IsOver (refresh_key t) w h in
      >>=-inv IsOver (get_del S (refresh_key t)) (λ uid. do forget_session S t uid; pure uid) w h'
        (λ uid e. forget_session-IsOver t uid (get_del S (refresh_key t) w).1 h')

  read_sessions-IsOver : (uid : Text) (w : World S) → IsOver w → IsOver (read_sessions S uid w).1
  unfolding read_sessions
  read_sessions-IsOver uid w =
      call-IsOver {A = List Text} (ok (R.elements w.redis (user_sessions_key uid)), w.redis) w
        (λ u le h. h)

  delete_sessions-IsOver :
      (uid : Text) (l : List Text) (w : World S) → IsOver w → IsOver (delete_sessions S uid l w).1
  unfolding delete_sessions
  delete_sessions-IsOver uid l w =
      let now = S.clock w.tick in
      let d = R.del (user_sessions_key uid) (del_all R (map refresh_key l) w.redis) in
      call-IsOver {A = Unit {0}} (ok tt, d) w
        (λ u le h.
          del-IsFewer now (user_sessions_key uid) (del_all R (map refresh_key l) w.redis) u le
            (del_all-IsFewer now (map refresh_key l) w.redis u le h))

  pub revoke-IsOver :
      (uid : Text) (w : World S) → IsOver w → IsOver (revoke_all_user_sessions S uid w).1
  unfolding revoke_all_user_sessions
  revoke-IsOver uid w h =
      let h' = read_sessions-IsOver uid w h in
      >>=-inv IsOver (read_sessions S uid) (delete_sessions S uid) w h'
        (λ l e. delete_sessions-IsOver uid l (read_sessions S uid w).1 h')

  -- Storing a refresh token does what its first command does.
  pub store-IsOver :
      (tok uid : Text) (ttl : ℕ) (w : World S)
      → IsOver (set_key S (refresh_key tok) uid ttl w).1
      → IsOver (store_refresh_token S tok uid ttl w).1
  unfolding store_refresh_token
  store-IsOver tok uid ttl w h =
      let w' = (set_key S (refresh_key tok) uid ttl w).1 in
      >>=-inv IsOver (set_key S (refresh_key tok) uid ttl)
        (λ _. redis_call S (λ now d. (ok tt, R.sadd (user_sessions_key uid) tok d))) w h
        (λ x e.
          call-IsOver {A = Unit {0}} (ok tt, R.sadd (user_sessions_key uid) tok w'.redis) w'
            (λ u le gone.
              L.redis.value-sadd (user_sessions_key uid) tok w'.redis u K (apart_sessions uid)
              ∙ gone)
            h)
