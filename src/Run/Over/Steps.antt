-- ===== src/Run/Over/Steps.antt =====
-- One key of Redis under every run of the service.
use braza_sso.Prelude.{ℕ, suc, ◌≤◌, ◌≡◌, ◌∙◌, ◌≢◌, ap, false, Text, arith, text_eq}
use braza_sso.Env.Services.{Services, ServiceLaws}
use braza_sso.Login.{refresh_token_ttl}
use braza_sso.Run.{
  drawn, Written, Counter, Act, Run, here, next, store, consume, revoke, set_other, get_del_other,
  del_other, incr_other, enlist, update, elapse,
}
use braza_sso.Run.Over.{
  IsOver, fewer-IsOver, set_key-IsOver, get_del-IsOver, del_key-IsOver, incr_expire-IsOver,
  consume-IsOver, revoke-IsOver,
}
use braza_sso.Run.Ticks.{create-apart, update_user-apart}
use braza_sso.TokenStore.{store_refresh_token, user_sessions_key}
use braza_sso.User.{create, update_user}
use braza_sso.World.{World}

-- A key that the service neither sets from tick n on, but maybe as a refresh token, nor counts in,
-- nor uses for a set of sessions.
pub record IsUnwritten (S : Services) (n : ℕ) (key : Text) : Type 0 where
  pub written : (k : Text) → Written S n k → text_eq key k ≡ false
  pub counted : (k : Text) → Counter k → text_eq key k ≡ false
  pub sessions : (uid : Text) → key ≢ user_sessions_key uid

module _ (S : Services) (L : ServiceLaws S) (n : ℕ) (K : Text) (slack : ℕ)
    (unwritten : IsUnwritten S n K) where
  abbrev pub Over : World S → Type 0
  Over w = IsOver S L K slack unwritten.sessions w

  -- What the storing of a refresh token must leave.
  abbrev pub IsStable : Type 0
  IsStable =
      (i : ℕ) (uid : Text) (w : World S)
      → n ≤ i
      → Over w
      → Over (store_refresh_token S (drawn S i 32) uid refresh_token_ttl w).1

  still-Over : (w w' : World S) → w'.redis ≡ w.redis → w.tick ≤ w'.tick → Over w → Over w'
  still-Over w w' redis le =
      fewer-IsOver S L K slack unwritten.sessions w w'
        (λ u le h. ap (λ d. S.redis.value d u K) redis ∙ h) le

  Act-Over : {w w' : World S} → IsStable → Act S n w w' → Over w → Over w'
  Act-Over stable (store i uid w le) h = stable i uid w le h
  Act-Over stable (consume t w) h = consume-IsOver S L K slack unwritten.sessions t w h
  Act-Over stable (revoke uid w) h = revoke-IsOver S L K slack unwritten.sessions uid w h
  Act-Over stable (set_other key value ttl w written) h =
      set_key-IsOver S L K slack unwritten.sessions key value ttl w (unwritten.written key written)
        h
  Act-Over stable (get_del_other key w apart) h =
      get_del-IsOver S L K slack unwritten.sessions key w h
  Act-Over stable (del_other key w apart) h = del_key-IsOver S L K slack unwritten.sessions key w h
  Act-Over stable (incr_other key window w counter) h =
      incr_expire-IsOver S L K slack unwritten.sessions key window w (unwritten.counted key counter)
        h
  Act-Over stable (enlist f w same) h =
      let w1 : World S = record w { tick = suc w.tick } in
      let (redis, le) = create-apart S (f (S.new_uuid w.tick)) w1 in
      still-Over w (create S (f (S.new_uuid w.tick)) w1).1 redis (omega arith) h
  Act-Over stable (update id f w same) h =
      let (redis, le) = update_user-apart S id f w in
      still-Over w (update_user S id f w).1 redis le h
  Act-Over stable (elapse w w' redis users emails le) h = still-Over w w' redis le h

  pub Run-Over : {w w' : World S} → IsStable → Run S n w w' → Over w → Over w'
  Run-Over stable here h = h
  Run-Over stable (next r a) h = Act-Over stable a (Run-Over stable r h)
