-- ===== src/Login/Pair.antt =====
-- What an issued pair of tokens is worth.
use braza_sso.Prelude.{
  ℕ, suc, ◌+◌, ◌*◌, ◌≡◌, ◌≤◌, ◌<◌, some, none, [], ◌∷◌, ◌++◌, Text, ok, arith, text_eq,
  text_eq_refl, ltb, if◌then◌else◌, append_assoc,
}
use braza_sso.Model.{User}
use braza_sso.Env.Services.{Services, ServiceLaws, delivered}
use braza_sso.Go.Base64
use braza_sso.Jwt.{Config, issue_access_token}
use braza_sso.Login.{issue_token_pair, refresh_token_ttl}
use braza_sso.TokenStore.{
  random_token, store_refresh_token, store_session_token, refresh_key, session_key, day,
  user_sessions_key, consume_refresh_token, forget_session, get_del, lookup_session_token,
}
use braza_sso.TokenStore.Keys.{refresh_key-eq, refresh-ne-user_sessions, session_key-IsApart}
use braza_sso.TokenStore.Revocation.{store_refresh_token_state}
use braza_sso.World.{World, Response, set_refresh, set_session, set_cookie, deliver}

module _ (S : Services) (c : Config) where
  issue_access_token-frame :
      (uid email : Text) (verified : _) (aud : Text) (w : World S)
      → let w' = (issue_access_token S c uid email verified aud w).1 in
        (w'.redis ≡ w.redis) × (w'.cookies ≡ w.cookies) × (w'.tick ≡ suc (suc w.tick))
  unfolding issue_access_token
  issue_access_token-frame uid email verified aud w = ground arith

  -- The two tokens drawn in a state, each from randomness of its own.
  abbrev pub new_refresh : World S → Text
  new_refresh w = Base64.encode Base64.url (S.random (2 + w.tick) 32)

  abbrev pub new_session : World S → Text
  new_session w = Base64.encode Base64.url (S.random (5 + w.tick) 32)

  -- Redis after the pair is stored for a user.
  abbrev pub with_pair : Text → World S → S.redis.Db
  with_pair uid w = S.redis.set (S.clock (6 + w.tick)) (session_key (new_session w)) uid (7 * day) (
      S.redis.sadd (user_sessions_key uid) (new_refresh w) (
        S.redis.set (S.clock (3 + w.tick)) (refresh_key (new_refresh w)) uid refresh_token_ttl
          w.redis))

  store_session_token_state :
      (t uid : Text) (w : World S)
      → (store_session_token S t uid w).0 ≡ ok tt
      → (store_session_token S t uid w).1 ≡ record w {
        redis = S.redis.set (S.clock w.tick) (session_key t) uid (7 * day) w.redis;
        tick = suc w.tick;
      }
  unfolding store_session_token deliver
  store_session_token_state t uid w h = ground arith

  store_refresh_token-cookies :
      (t uid : Text) (ttl : ℕ) (w : World S)
      → (store_refresh_token S t uid ttl w).1.cookies ≡ w.cookies
  unfolding store_refresh_token
  store_refresh_token-cookies t uid ttl w = ground arith

  module _ (L : ServiceLaws S) where
    pub issue_token_pair_state :
        (u : User) (w : World S) {r : Response}
        → (issue_token_pair S c u w).0 ≡ ok r
        → let w' = (issue_token_pair S c u w).1 in
          (w'.redis ≡ with_pair (S.uuid_text u.id) w)
          × (w'.cookies
              ≡ w.cookies ++ (set_refresh (new_refresh w) ∷ set_session (new_session w) ∷ []))
          × (w'.tick ≡ 7 + w.tick)
    unfolding issue_token_pair random_token set_cookie
    issue_token_pair_state u w h =
        let uid = S.uuid_text u.id in
        let w1 = (issue_access_token S c uid u.email u.email_verified c.issuer w).1 in
        let w2 : World S = record w1 { tick = suc w1.tick } in
        let stored =
          store_refresh_token S (Base64.encode Base64.url (S.random w1.tick 32)) uid
            refresh_token_ttl w2 in
        let w3 = stored.1 in
        let w4 : World S = record w3 {
          cookies =
              w3.cookies ++ (set_refresh (Base64.encode Base64.url (S.random w1.tick 32)) ∷ []);
          tick = suc w3.tick;
        } in
        let frame = issue_access_token-frame uid u.email u.email_verified c.issuer w in
        let e : stored.0 ≡ ok tt = ground arith in
        ground (
          arith,
          frame,
          e,
          store_refresh_token_state S L (Base64.encode Base64.url (S.random w1.tick 32)) uid
              refresh_token_ttl w2 e,
          store_refresh_token-cookies (Base64.encode Base64.url (S.random w1.tick 32)) uid
              refresh_token_ttl w2,
          store_session_token_state (Base64.encode Base64.url (S.random w3.tick 32)) uid w4,
          append_assoc w.cookies (set_refresh (new_refresh w) ∷ [])
              (set_session (new_session w) ∷ []),
        )

    pub value-with_pair :
        (uid t : Text) (w : World S) (u : ℕ)
        → S.clock (6 + w.tick) ≤ u
        → S.redis.value (with_pair uid w) u (refresh_key t) ≡ (
            if text_eq t (new_refresh w)
            then (if ltb u (S.clock (3 + w.tick) + refresh_token_ttl) then some uid else none)
            else S.redis.value w.redis u (refresh_key t))
    value-with_pair uid t w u le =
        let d =
          S.redis.set (S.clock (3 + w.tick)) (refresh_key (new_refresh w)) uid refresh_token_ttl
            w.redis in
        let d' = S.redis.sadd (user_sessions_key uid) (new_refresh w) d in
        ground (
          arith,
          L.redis.value-set (S.clock (6 + w.tick)) (session_key (new_session w)) uid (7 * day) d' u
              (refresh_key t),
          (session_key-IsApart (new_session w)).not_refresh t,
          L.redis.value-sadd (user_sessions_key uid) (new_refresh w) d u (refresh_key t)
              (refresh-ne-user_sessions t uid),
          L.redis.value-set (S.clock (3 + w.tick)) (refresh_key (new_refresh w)) uid
              refresh_token_ttl w.redis u (refresh_key t),
          refresh_key-eq t (new_refresh w),
          L.clock_mono (3 + w.tick) (6 + w.tick) (omega arith),
        )

    consume_refresh_token-live :
        (t uid : Text) (w : World S)
        → S.fault w.tick ≡ delivered
        → S.redis.value w.redis (S.clock w.tick) (refresh_key t) ≡ some uid
        → (consume_refresh_token S t w).0 ≡ ok uid
    unfolding consume_refresh_token get_del forget_session deliver
    consume_refresh_token-live t uid w fate live = ground arith

    lookup_session_token-live :
        (t uid : Text) (w : World S)
        → S.fault w.tick ≡ delivered
        → S.redis.value w.redis (S.clock w.tick) (session_key t) ≡ some uid
        → (lookup_session_token S t w).0 ≡ ok uid
    unfolding lookup_session_token deliver
    lookup_session_token-live t uid w fate live = ground arith

    -- The cookies of an issued pair are good: while nothing else is written to Redis and the time
    -- to live is not over, a call that is answered takes the refresh token as the user's, and one
    -- that is answered takes the session token as the user's.
    pub issue_token_pair-live :
        (u : User) (w w' : World S) {r : Response}
        → (issue_token_pair S c u w).0 ≡ ok r
        → w'.redis ≡ (issue_token_pair S c u w).1.redis
        → 7 + w.tick ≤ w'.tick
        → S.clock w'.tick < S.clock (3 + w.tick) + refresh_token_ttl
        → S.fault w'.tick ≡ delivered
        → ((issue_token_pair S c u w).1.cookies
            ≡ w.cookies ++ (set_refresh (new_refresh w) ∷ set_session (new_session w) ∷ []))
          × ((consume_refresh_token S (new_refresh w) w').0 ≡ ok (S.uuid_text u.id))
          × ((lookup_session_token S (new_session w) w').0 ≡ ok (S.uuid_text u.id))
    issue_token_pair-live u w w' h same later soon fate =
        let uid = S.uuid_text u.id in
        let (stored, cookies, _) = issue_token_pair_state u w h in
        let le = L.clock_mono (6 + w.tick) w'.tick (omega arith) in
        let d =
          S.redis.set (S.clock (3 + w.tick)) (refresh_key (new_refresh w)) uid refresh_token_ttl
            w.redis in
        let d' = S.redis.sadd (user_sessions_key uid) (new_refresh w) d in
        (
          cookies,
          consume_refresh_token-live (new_refresh w) uid w' fate (
              ground (
                arith,
                value-with_pair uid (new_refresh w) w (S.clock w'.tick) le,
                text_eq_refl (new_refresh w),
                same,
                stored,
              )),
          lookup_session_token-live (new_session w) uid w' fate (
              ground (
                arith,
                same,
                stored,
                L.redis.value-set (S.clock (6 + w.tick)) (session_key (new_session w)) uid (7 * day)
                    d' (S.clock w'.tick) (session_key (new_session w)),
                text_eq_refl (session_key (new_session w)),
                L.clock_mono (3 + w.tick) (6 + w.tick) (omega arith),
              )),
        )
