-- ===== src/TokenStore/Reach.antt =====
-- The sessions under any sequence of operations of the token store, each with any fate of its
-- calls, and whatever else happens meanwhile.
use braza_sso.Prelude.{
  ℕ, suc, ◌≤◌, ◌≡◌, ◌≢◌, sym, Text, ne_of_text_eq, Option-cases, inl, inr, ok, stop, arith, subst,
}
use braza_sso.Env.Redis.{Redis}
use braza_sso.Env.Services.{Services, ServiceLaws}
use braza_sso.World.{World, token_not_found}
use braza_sso.TokenStore.{
  set_key, get_del, del_key, incr_expire, store_refresh_token, consume_refresh_token,
  revoke_all_user_sessions, refresh_key, user_sessions_key,
}
use braza_sso.TokenStore.Keys.{IsApart}
use braza_sso.TokenStore.Sessions.{IsTrackedFrom, frame-tracked, tracked_later}
use braza_sso.TokenStore.Revocation.{
  IsTracked, call-IsTracked, store_refresh_token-IsTracked, consume_refresh_token-IsTracked,
  revoke_all_user_sessions-IsTracked, revoke_all_user_sessions-none,
}

-- One operation. `elapse` is whatever leaves Redis alone: other calls, and time.
pub data Step (S : Services) : World S → World S → Type 0 where
  store :
      (t uid : Text) (ttl : ℕ) (w : World S)
      → (store_refresh_token S t uid ttl w).0 ≡ ok tt
      → Step S w (store_refresh_token S t uid ttl w).1
  consume : (t : Text) (w : World S) → Step S w (consume_refresh_token S t w).1
  revoke : (uid : Text) (w : World S) → Step S w (revoke_all_user_sessions S uid w).1
  set_other :
      (key value : Text) (ttl : ℕ) (w : World S)
      → IsApart key
      → Step S w (set_key S key value ttl w).1
  get_del_other : (key : Text) (w : World S) → IsApart key → Step S w (get_del S key w).1
  del_other : (key : Text) (w : World S) → IsApart key → Step S w (del_key S key w).1
  incr_other :
      (key : Text) (window : ℕ) (w : World S)
      → IsApart key
      → Step S w (incr_expire S key window w).1
  elapse : (w w' : World S) → w'.redis ≡ w.redis → w.tick ≤ w'.tick → Step S w w'

pub data Reach (S : Services) (w : World S) : World S → Type 0 where
  here : Reach S w w
  next : {u v : World S} → Reach S w u → Step S u v → Reach S w v

module _ (S : Services) (L : ServiceLaws S) where
  abbrev R : Redis
  R = S.redis

  -- What a command at a key of another family leaves.
  framed :
      (w : World S) (d : R.Db)
      → ((t : Text) (u : ℕ)
          → S.clock w.tick ≤ u
          → R.value d u (refresh_key t) ≡ R.value w.redis u (refresh_key t))
      → ((v : Text) → R.elements d (user_sessions_key v) ≡ R.elements w.redis (user_sessions_key v))
      → IsTracked S w
      → IsTrackedFrom R (S.clock (suc w.tick)) d
  framed w d values sets h =
      let le = L.clock_mono w.tick (suc w.tick) (omega arith) in
      tracked_later R L.redis (S.clock w.tick) _ d le (
        frame-tracked R L.redis (S.clock w.tick) (S.clock w.tick) w.redis d (omega arith) values
          sets h)

  set_key-IsTracked :
      (key value : Text) (ttl : ℕ) (w : World S)
      → IsApart key
      → IsTracked S w
      → IsTracked S (set_key S key value ttl w).1
  unfolding set_key
  set_key-IsTracked key value ttl w apart h =
      let d = R.set (S.clock w.tick) key value ttl w.redis in
      call-IsTracked S L {A = Unit {0}} (ok tt, d) w h
        (framed w d
          (λ t u le. ground (
            arith,
            L.redis.value-set (S.clock w.tick) key value ttl w.redis u (refresh_key t),
            apart.not_refresh t,
          ))
          (λ v.
            L.redis.elements-set (S.clock w.tick) key value ttl w.redis (user_sessions_key v)
              (ne_of_text_eq _ _ (apart.not_sessions v)))
          h)

  del-framed :
      (key : Text) (w : World S)
      → IsApart key
      → IsTracked S w
      → IsTrackedFrom R (S.clock (suc w.tick)) (R.del key w.redis)
  del-framed key w apart h =
      framed w (R.del key w.redis)
        (λ t u le.
          ground (arith, L.redis.value-del key w.redis u (refresh_key t), apart.not_refresh t))
        (λ v.
          ground
            (arith, L.redis.elements-del key w.redis (user_sessions_key v), apart.not_sessions v))
        h

  del_key-IsTracked :
      (key : Text) (w : World S) → IsApart key → IsTracked S w → IsTracked S (del_key S key w).1
  unfolding del_key
  del_key-IsTracked key w apart h =
      call-IsTracked S L {A = Unit {0}} (ok tt, R.del key w.redis) w h (del-framed key w apart h)

  get_del_other-IsTracked :
      (key : Text) (w : World S) → IsApart key → IsTracked S w → IsTracked S (get_del S key w).1
  unfolding get_del
  get_del_other-IsTracked key w apart h =
      elim (Option-cases (R.value w.redis (S.clock w.tick) key)) [
        | inl e ↦ rw e (
            call-IsTracked S L {A = Text} (stop token_not_found, w.redis) w h
              (tracked_later R L.redis (S.clock w.tick) _ w.redis (L.clock_mono _ _ (omega arith))
                h))
        | inr (v, e) ↦
            rw e (
              call-IsTracked S L {A = Text} (ok v, R.del key w.redis) w h
                (del-framed key w apart h))
      ]

  incr_expire-IsTracked :
      (key : Text) (window : ℕ) (w : World S)
      → IsApart key
      → IsTracked S w
      → IsTracked S (incr_expire S key window w).1
  unfolding incr_expire
  incr_expire-IsTracked key window w apart h =
      let now = S.clock w.tick in
      let d = R.incr now key w.redis in
      call-IsTracked S L {A = ℕ} (ok (R.count d now key), R.expire now key window d) w h
        (framed w (R.expire now key window d)
          (λ t u le.
            rw
              (L.redis.value-expire now key window d u (refresh_key t)
                (ne_of_text_eq _ _ (apart.not_refresh t)))
              (L.redis.value-incr now key w.redis u (refresh_key t)
                (ne_of_text_eq _ _ (apart.not_refresh t))))
          (λ v.
            rw
              (L.redis.elements-expire now key window d (user_sessions_key v)
                (ne_of_text_eq _ _ (apart.not_sessions v)))
              (L.redis.elements-incr now key w.redis (user_sessions_key v)
                (ne_of_text_eq _ _ (apart.not_sessions v))))
          h)

  elapse-IsTracked :
      (w w' : World S) → w'.redis ≡ w.redis → w.tick ≤ w'.tick → IsTracked S w → IsTracked S w'
  elapse-IsTracked w w' same le h =
      subst (λ d. IsTrackedFrom R (S.clock w'.tick) d) (sym same)
        (tracked_later R L.redis (S.clock w.tick) _ w.redis (L.clock_mono _ _ le) h)

  pub Step-IsTracked : {w w' : World S} → Step S w w' → IsTracked S w → IsTracked S w'
  Step-IsTracked (store t uid ttl w done) h = store_refresh_token-IsTracked S L t uid ttl w done h
  Step-IsTracked (consume t w) h = consume_refresh_token-IsTracked S L t w h
  Step-IsTracked (revoke uid w) h = revoke_all_user_sessions-IsTracked S L uid w h
  Step-IsTracked (set_other key value ttl w apart) h = set_key-IsTracked key value ttl w apart h
  Step-IsTracked (get_del_other key w apart) h = get_del_other-IsTracked key w apart h
  Step-IsTracked (del_other key w apart) h = del_key-IsTracked key w apart h
  Step-IsTracked (incr_other key window w apart) h = incr_expire-IsTracked key window w apart h
  Step-IsTracked (elapse w w' same le) h = elapse-IsTracked w w' same le h

  pub Reach-IsTracked : {w w' : World S} → Reach S w w' → IsTracked S w → IsTracked S w'
  Reach-IsTracked here h = h
  Reach-IsTracked (next r s) h = Step-IsTracked s (Reach-IsTracked r h)

  -- From a state in which every live refresh token is in its user's set, after any sequence of
  -- operations on Redis in which each storing of a refresh token succeeds, whatever else fails:
  -- once a revocation for a user has succeeded, no refresh token is accepted as that user's, at
  -- any later time, while nothing else is written.
  pub revoke-after-Reach :
      (uid t : Text) {start w : World S} (w' : World S)
      → IsTracked S start
      → Reach S start w
      → (revoke_all_user_sessions S uid w).0 ≡ ok tt
      → w'.redis ≡ (revoke_all_user_sessions S uid w).1.redis
      → w.tick ≤ w'.tick
      → (consume_refresh_token S t w').0 ≢ ok uid
  revoke-after-Reach uid t {w} w' tracked reached done same later =
      revoke_all_user_sessions-none S L uid t w w' (Reach-IsTracked reached tracked) done same later
