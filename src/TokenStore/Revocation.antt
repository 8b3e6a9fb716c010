-- ===== src/TokenStore/Revocation.antt =====
-- The sessions of a user under every operation of the store and every failure of a call: the
-- invariant that each live refresh token is tracked, and what a revocation achieves by it.
use braza_sso.Prelude.{
  ℕ, suc, ◌≤◌, ◌≡◌, refl, ◌≢◌, ◌∙◌, sym, false, inl, inr, none, some, List, Text, text_eq_refl,
  contains, Result, ok, stop, arith, Option-cases, >>=-inv, >>=-eq-ok, subst, ◌>>◌, pure,
}
use mathlib.Core.Path.{subst₂}
use braza_sso.Env.Redis.{Redis}
use braza_sso.Env.Services.{Services, ServiceLaws, Fault, delivered, lost, late}
use braza_sso.World.{World, Error, token_not_found, deliver}
use braza_sso.TokenStore.{
  get_del, forget_session, store_refresh_token, consume_refresh_token, revoke_all_user_sessions,
  read_sessions, delete_sessions, refresh_key, user_sessions_key,
}
use braza_sso.TokenStore.Consume.{get_del_ok}
use braza_sso.TokenStore.Sessions.{
  IsTrackedFrom, set-sadd-tracked, tracked_later, del-tracked, srem-tracked, revoked,
  revoked-tracked, revoked-none, value-revoked,
}

abbrev pub IsTracked : (S : Services) → World S → Type 0
IsTracked S w = IsTrackedFrom S.redis (S.clock w.tick) w.redis

module _ (S : Services) (L : ServiceLaws S) where
  abbrev R : Redis
  R = S.redis

  IsTracked-at :
      (w : World S) (d : R.Db) (n : ℕ)
      → w.redis ≡ d
      → w.tick ≡ n
      → IsTrackedFrom R (S.clock n) d
      → IsTracked S w
  IsTracked-at w d n e f h = subst₂ (λ x y. IsTrackedFrom R (S.clock y) x) (sym e) (sym f) h

  pub store_refresh_token_state :
      (tok uid : Text) (ttl : ℕ) (w : World S)
      → (store_refresh_token S tok uid ttl w).0 ≡ ok tt
      → let w' = (store_refresh_token S tok uid ttl w).1 in
        (w'.redis
          ≡ R.sadd
              (user_sessions_key uid)
              tok
              (R.set (S.clock w.tick) (refresh_key tok) uid ttl w.redis))
        × (w'.tick ≡ suc (suc w.tick))
  unfolding store_refresh_token deliver
  store_refresh_token_state tok uid ttl w h = ground arith

  -- Storing a refresh token keeps the invariant, if it succeeds.
  pub store_refresh_token-IsTracked :
      (tok uid : Text) (ttl : ℕ) (w : World S)
      → (store_refresh_token S tok uid ttl w).0 ≡ ok tt
      → IsTracked S w
      → IsTracked S (store_refresh_token S tok uid ttl w).1
  store_refresh_token-IsTracked tok uid ttl w h tracked =
      let (e, f) = store_refresh_token_state tok uid ttl w h in
      IsTracked-at (store_refresh_token S tok uid ttl w).1 _ _ e f (
        set-sadd-tracked R L.redis (S.clock w.tick) _ tok uid ttl w.redis
          (L.clock_mono _ _ (omega arith)) tracked)

  deliver-tracked :
      {A : Type 0} (f : Fault) (d : R.Db) (r : Result Error A × R.Db) (later : ℕ)
      → IsTrackedFrom R later d
      → IsTrackedFrom R later r.1
      → IsTrackedFrom R later (deliver f d r).1
  unfolding deliver
  deliver-tracked delivered d r later old new = new
  deliver-tracked lost d r later old new = old
  deliver-tracked late d r later old new = new

  -- A call keeps the invariant if what the server does keeps it.
  pub call-IsTracked :
      {A : Type 0} (r : Result Error A × R.Db) (w : World S)
      → IsTracked S w
      → IsTrackedFrom R (S.clock (suc w.tick)) r.1
      → IsTrackedFrom R (S.clock (suc w.tick)) (deliver (S.fault w.tick) w.redis r).1
  call-IsTracked r w tracked after =
      deliver-tracked (S.fault w.tick) w.redis r _
        (tracked_later R L.redis (S.clock w.tick) _ w.redis (L.clock_mono _ _ (omega arith))
          tracked)
        after

  forget_session-IsTracked :
      (tok uid : Text) (w : World S)
      → ((u : ℕ) → R.value w.redis u (refresh_key tok) ≡ none)
      → IsTracked S w
      → IsTracked S (forget_session S tok uid w).1
  unfolding forget_session
  forget_session-IsTracked tok uid w dead tracked =
      call-IsTracked {A = Unit {0}} (ok tt, R.srem (user_sessions_key uid) tok w.redis) w tracked
        (srem-tracked R L.redis (S.clock w.tick) _ tok uid w.redis (L.clock_mono _ _ (omega arith))
          dead tracked)

  get_del-IsTracked :
      (tok : Text) (w : World S) → IsTracked S w → IsTracked S (get_del S (refresh_key tok) w).1
  unfolding get_del
  get_del-IsTracked tok w tracked =
      let keep =
        tracked_later R L.redis (S.clock w.tick) (S.clock (suc w.tick)) w.redis
          (L.clock_mono _ _ (omega arith)) tracked in
      let gone =
        del-tracked R L.redis (S.clock w.tick) (S.clock (suc w.tick)) tok w.redis
          (L.clock_mono _ _ (omega arith)) tracked in
      elim (Option-cases (R.value w.redis (S.clock w.tick) (refresh_key tok))) [
        | inl e ↦ rw e (call-IsTracked {A = Text} (stop token_not_found, w.redis) w tracked keep)
        | inr (v, e) ↦
            rw e (call-IsTracked {A = Text} (ok v, R.del (refresh_key tok) w.redis) w tracked gone)
      ]

  get_del-dead :
      (key : Text) (w : World S) {v : Text}
      → (get_del S key w).0 ≡ ok v
      → (u : ℕ) → R.value (get_del S key w).1.redis u key ≡ none
  get_del-dead key w h u =
      rw (get_del_ok S L.redis key w h).1 (L.redis.value-del key w.redis u key ∙ rw text_eq_refl)

  forget_session_ok : (t uid : Text) (w : World S) → (forget_session S t uid w).0 ≡ ok tt
  unfolding forget_session
  forget_session_ok t uid w = refl

  -- Consuming a refresh token keeps the invariant, whatever fails.
  pub consume_refresh_token-IsTracked :
      (tok : Text) (w : World S) → IsTracked S w → IsTracked S (consume_refresh_token S tok w).1
  unfolding consume_refresh_token
  consume_refresh_token-IsTracked tok w tracked =
      >>=-inv (IsTracked S) (get_del S (refresh_key tok))
        (λ uid. do forget_session S tok uid; pure uid) w (get_del-IsTracked tok w tracked)
        (λ uid e.
          forget_session-IsTracked tok uid (get_del S (refresh_key tok) w).1 (get_del-dead _ w e)
            (get_del-IsTracked tok w tracked))

  read_sessions-IsTracked :
      (uid : Text) (w : World S) → IsTracked S w → IsTracked S (read_sessions S uid w).1
  unfolding read_sessions
  read_sessions-IsTracked uid w tracked =
      call-IsTracked {A = List Text} (ok (R.elements w.redis (user_sessions_key uid)), w.redis) w
        tracked
        (tracked_later R L.redis (S.clock w.tick) _ w.redis (L.clock_mono _ _ (omega arith))
          tracked)

  read_sessions-ok :
      (uid : Text) (w : World S) {l : List Text}
      → (read_sessions S uid w).0 ≡ ok l
      → ((read_sessions S uid w).1.redis ≡ w.redis)
        × (l ≡ R.elements (read_sessions S uid w).1.redis (user_sessions_key uid))
  unfolding read_sessions deliver
  read_sessions-ok uid w h = ground arith

  delete_sessions-IsTracked :
      (uid : Text) (w : World S)
      → IsTracked S w
      → IsTracked S (delete_sessions S uid (R.elements w.redis (user_sessions_key uid)) w).1
  unfolding delete_sessions
  delete_sessions-IsTracked uid w tracked =
      call-IsTracked {A = Unit {0}}
        (ok tt, revoked R L.redis uid (R.elements w.redis (user_sessions_key uid)) w.redis) w
        tracked
        (revoked-tracked R L.redis (S.clock w.tick) _ uid w.redis (L.clock_mono _ _ (omega arith))
          tracked)

  -- Revoking keeps the invariant, whatever fails.
  pub revoke_all_user_sessions-IsTracked :
      (uid : Text) (w : World S) → IsTracked S w → IsTracked S (revoke_all_user_sessions S uid w).1
  unfolding revoke_all_user_sessions
  revoke_all_user_sessions-IsTracked uid w tracked =
      let after = read_sessions-IsTracked uid w tracked in
      >>=-inv (IsTracked S) (read_sessions S uid) (delete_sessions S uid) w after (λ l e.
        rw (read_sessions-ok uid w e).1
          (delete_sessions-IsTracked uid (read_sessions S uid w).1 after))

  pub revoke_all_user_sessions_state :
      (uid : Text) (w : World S)
      → (revoke_all_user_sessions S uid w).0 ≡ ok tt
      → (revoke_all_user_sessions S uid w).1.redis
        ≡ revoked R L.redis uid (R.elements w.redis (user_sessions_key uid)) w.redis
  unfolding revoke_all_user_sessions deliver
  revoke_all_user_sessions_state uid w h = ground arith

  pub consume_refresh_token_value :
      (t : Text) (w : World S) {uid : Text}
      → (consume_refresh_token S t w).0 ≡ ok uid
      → R.value w.redis (S.clock w.tick) (refresh_key t) ≡ some uid
  unfolding consume_refresh_token
  consume_refresh_token_value t w h =
      let (v, e, q) =
        >>=-eq-ok (get_del S (refresh_key t)) (λ uid. do forget_session S t uid; pure uid) w h in
      let (found, _) = get_del_ok S L.redis (refresh_key t) w e in
      ground (arith, forget_session_ok t v (get_del S (refresh_key t) w).1)

  -- After a successful revocation no refresh token of the user is accepted, at any later time.
  pub revoke_all_user_sessions-none :
      (uid t : Text) (w w' : World S)
      → IsTracked S w
      → (revoke_all_user_sessions S uid w).0 ≡ ok tt
      → w'.redis ≡ (revoke_all_user_sessions S uid w).1.redis
      → w.tick ≤ w'.tick
      → (consume_refresh_token S t w').0 ≢ ok uid
  revoke_all_user_sessions-none uid t w w' tracked h same later accepted =
      revoked-none R L.redis (S.clock w.tick) uid w.redis tracked t (S.clock w'.tick)
        (L.clock_mono _ _ later)
        (subst (λ d. R.value d (S.clock w'.tick) (refresh_key t) ≡ some uid)
          (same ∙ revoke_all_user_sessions_state uid w h)
          (consume_refresh_token_value t w' accepted))

  -- A successful revocation for a user leaves every refresh token that is not in the user's set as
  -- it was.
  pub revoke_all_user_sessions-others :
      (uid t : Text) (w : World S) (u : ℕ)
      → (revoke_all_user_sessions S uid w).0 ≡ ok tt
      → contains (R.elements w.redis (user_sessions_key uid)) t ≡ false
      → R.value (revoke_all_user_sessions S uid w).1.redis u (refresh_key t)
        ≡ R.value w.redis u (refresh_key t)
  revoke_all_user_sessions-others uid t w u h other = rw (revoke_all_user_sessions_state uid w h) (
      value-revoked R L.redis uid (R.elements w.redis (user_sessions_key uid)) w.redis u t
      ∙ rw other)
