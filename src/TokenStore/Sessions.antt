-- ===== src/TokenStore/Sessions.antt =====
-- The refresh tokens of a user: every live one stands in the user's set, so that revoking by the
-- set leaves none.
use braza_sso.Prelude.{
  ℕ, ◌≤◌, ◌≡◌, refl, ◌≢◌, ◌∙◌, sym, true, none, some, List, [], ◌∷◌, map, Text, text_eq_iff,
  contains, if◌then◌else◌, arith,
}
use braza_sso.Env.Redis.{Redis, RedisLaws}
use braza_sso.TokenStore.{refresh_key, user_sessions_key, del_all}
use braza_sso.TokenStore.Keys.{
  refresh_key-eq, user_sessions_key-eq, refresh-ne-user_sessions, refresh-eq-user_sessions,
  user_sessions-eq-refresh, contains-map-refresh_key,
}

-- At every time from `now` on, each live refresh token of a user is a member of the user's set.
abbrev pub IsTrackedFrom : (R : Redis) → ℕ → R.Db → Type 0
IsTrackedFrom R now d =
    (t uid : Text) (u : ℕ)
    → now ≤ u
    → R.value d u (refresh_key t) ≡ some uid
    → contains (R.elements d (user_sessions_key uid)) t ≡ true

module _ (R : Redis) (L : RedisLaws R) where
  pub set-sadd-tracked :
      (now later : ℕ) (tok uid : Text) (ttl : ℕ) (d : R.Db)
      → now ≤ later
      → IsTrackedFrom R now d
      → IsTrackedFrom R later
          (R.sadd (user_sessions_key uid) tok (R.set now (refresh_key tok) uid ttl d))
  set-sadd-tracked now later tok uid ttl d le h t v u lu e =
      let d1 = R.set now (refresh_key tok) uid ttl d in
      ground (
        arith,
        h t v u,
        L.value-sadd (user_sessions_key uid) tok d1 u (refresh_key t)
            (refresh-ne-user_sessions t uid),
        L.value-set now (refresh_key tok) uid ttl d u (refresh_key t),
        L.elements-sadd (user_sessions_key uid) tok d1 (user_sessions_key v) t,
        L.elements-set now (refresh_key tok) uid ttl d (user_sessions_key v)
            (λ q. refresh-ne-user_sessions tok v (sym q)),
        refresh_key-eq t tok,
        user_sessions_key-eq v uid,
        text_eq_iff t tok,
        text_eq_iff tok t,
        text_eq_iff v uid,
      )

  -- A later start of the times only weakens the invariant.
  pub tracked_later :
      (now later : ℕ) (d : R.Db) → now ≤ later → IsTrackedFrom R now d → IsTrackedFrom R later d
  tracked_later now later d le h t v u lu e = h t v u (omega arith) e

  pub del-tracked :
      (now later : ℕ) (tok : Text) (d : R.Db)
      → now ≤ later
      → IsTrackedFrom R now d
      → IsTrackedFrom R later (R.del (refresh_key tok) d)
  del-tracked now later tok d le h t v u lu e = ground (
    arith,
    h t v u,
    L.value-del (refresh_key tok) d u (refresh_key t),
    L.elements-del (refresh_key tok) d (user_sessions_key v),
    user_sessions-eq-refresh v tok,
  )

  -- The token that leaves the set is no longer live.
  pub srem-tracked :
      (now later : ℕ) (tok uid : Text) (d : R.Db)
      → now ≤ later
      → ((u : ℕ) → R.value d u (refresh_key tok) ≡ none)
      → IsTrackedFrom R now d
      → IsTrackedFrom R later (R.srem (user_sessions_key uid) tok d)
  srem-tracked now later tok uid d le dead h t v u lu e = ground (
    arith,
    h t v u,
    dead u,
    L.value-srem (user_sessions_key uid) tok d u (refresh_key t) (refresh-ne-user_sessions t uid),
    L.elements-srem (user_sessions_key uid) tok d (user_sessions_key v) t,
    user_sessions_key-eq v uid,
    text_eq_iff tok t,
    text_eq_iff v uid,
  )

  value-del_all :
      (ks : List Text) (d : R.Db) (u : ℕ) (k : Text)
      → R.value (del_all R ks d) u k ≡ (if contains ks k then none else R.value d u k)
  unfolding del_all contains
  value-del_all [] d u k = refl
  value-del_all (j ∷ ks) d u k = ground (
    arith,
    value-del_all ks (R.del j d) u k,
    L.value-del j d u k,
    text_eq_iff k j,
    text_eq_iff j k,
  )

  elements-del_all :
      (l : List Text) (d : R.Db) (v : Text)
      → R.elements (del_all R (map refresh_key l) d) (user_sessions_key v)
        ≡ R.elements d (user_sessions_key v)
  unfolding del_all
  elements-del_all [] d v = refl
  elements-del_all (t ∷ l) d v = ground (
    arith,
    elements-del_all l (R.del (refresh_key t) d) v,
    L.elements-del (refresh_key t) d (user_sessions_key v),
    user_sessions-eq-refresh v t,
  )

  -- The pipeline of a revocation, on the members that the set had.
  abbrev pub revoked : Text → List Text → R.Db → R.Db
  revoked uid l d = R.del (user_sessions_key uid) (del_all R (map refresh_key l) d)

  pub value-revoked :
      (uid : Text) (l : List Text) (d : R.Db) (u : ℕ) (t : Text)
      → R.value (revoked uid l d) u (refresh_key t)
        ≡ (if contains l t then none else R.value d u (refresh_key t))
  value-revoked uid l d u t = ground (
    arith,
    L.value-del (user_sessions_key uid) (del_all R (map refresh_key l) d) u (refresh_key t),
    refresh-eq-user_sessions t uid,
    value-del_all (map refresh_key l) d u (refresh_key t),
    contains-map-refresh_key l t,
  )

  pub revoked-tracked :
      (now later : ℕ) (uid : Text) (d : R.Db)
      → now ≤ later
      → IsTrackedFrom R now d
      → IsTrackedFrom R later (revoked uid (R.elements d (user_sessions_key uid)) d)
  revoked-tracked now later uid d le h t v u lu e =
      let l = R.elements d (user_sessions_key uid) in
      ground (
        arith,
        h t v u,
        value-revoked uid l d u t,
        L.elements-del (user_sessions_key uid) (del_all R (map refresh_key l) d)
            (user_sessions_key v),
        elements-del_all l d v,
        user_sessions_key-eq v uid,
        text_eq_iff v uid,
      )

  -- No live token of the user is left.
  pub revoked-none :
      (now : ℕ) (uid : Text) (d : R.Db)
      → IsTrackedFrom R now d
      → (t : Text) (u : ℕ) → now ≤ u
      → R.value (revoked uid (R.elements d (user_sessions_key uid)) d) u (refresh_key t) ≢ some uid
  revoked-none now uid d h t u le e =
      let l = R.elements d (user_sessions_key uid) in
      ground (arith, h t uid u, value-revoked uid l d u t)

  -- What happens at a key of another family changes nothing.
  pub frame-tracked :
      (now later : ℕ) (d d' : R.Db)
      → now ≤ later
      → ((t : Text) (u : ℕ)
          → later ≤ u
          → R.value d' u (refresh_key t) ≡ R.value d u (refresh_key t))
      → ((v : Text) → R.elements d' (user_sessions_key v) ≡ R.elements d (user_sessions_key v))
      → IsTrackedFrom R now d
      → IsTrackedFrom R later d'
  frame-tracked now later d d' le same_values same_sets h t v u lu e =
      rw (same_sets v) (h t v u (omega arith) (sym (same_values t u lu) ∙ e))
