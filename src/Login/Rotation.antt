-- ===== src/Login/Rotation.antt =====
-- The exchange of a refresh token for a new pair.
use braza_sso.Prelude.{
  ℕ, suc, ◌+◌, ◌≡◌, ◌≤◌, ◌≢◌, false, some, none, Text, ok, arith, text_eq, text_eq_refl,
  Result-cases, Option-cases, inl, inr,
}
use braza_sso.Model.{Uuid, User}
use braza_sso.Env.Services.{Services, ServiceLaws}
use braza_sso.Go.Base64
use braza_sso.Jwt.{Config}
use braza_sso.Login.{issue_token_pair, refresh}
use braza_sso.TokenStore.{
  refresh_key, user_sessions_key, consume_refresh_token, forget_session, get_del,
}
use braza_sso.TokenStore.Keys.{refresh-ne-user_sessions}
use braza_sso.TokenStore.Revocation.{consume_refresh_token_value}
use braza_sso.User.{find_by_id}
use braza_sso.World.{World, Response, deliver}
use braza_sso.Login.Pair.{issue_token_pair_state, value-with_pair}

module _ (S : Services) (L : ServiceLaws S) where
  pub consume_refresh_token-gone :
      (t : Text) (w : World S) {v : Text} (u : ℕ)
      → (consume_refresh_token S t w).0 ≡ ok v
      → (S.redis.value (consume_refresh_token S t w).1.redis u (refresh_key t) ≡ none)
        × ((consume_refresh_token S t w).1.tick ≡ 2 + w.tick)
  unfolding consume_refresh_token get_del forget_session deliver
  consume_refresh_token-gone t w {v} u h = ground (
    arith,
    L.redis.value-del (refresh_key t) w.redis u (refresh_key t),
    text_eq_refl (refresh_key t),
    L.redis.value-srem (user_sessions_key v) t (S.redis.del (refresh_key t) w.redis) u
        (refresh_key t) (refresh-ne-user_sessions t v),
  )

module _ (S : Services) (c : Config) (L : ServiceLaws S) where
  find_by_id-frame :
      (id : Uuid) (w : World S)
      → ((find_by_id S id w).1.redis ≡ w.redis) × ((find_by_id S id w).1.tick ≡ suc w.tick)
  unfolding find_by_id
  find_by_id-frame id w = ground arith

  -- The steps of a refresh that succeeds.
  pub refresh_steps :
      (t : Text) (w : World S) {r : Response}
      → (refresh S c (some t) w).0 ≡ ok r
      → (uid : Text) × (u : User) × (v : World S) × ((consume_refresh_token S t w).0 ≡ ok uid)
        × (v.redis ≡ (consume_refresh_token S t w).1.redis)
        × (v.tick ≡ suc (consume_refresh_token S t w).1.tick)
        × ((issue_token_pair S c u v).0 ≡ ok r)
        × ((refresh S c (some t) w).1 ≡ (issue_token_pair S c u v).1)
  unfolding refresh
  refresh_steps t w h =
      let w1 = (consume_refresh_token S t w).1 in
      elim (Result-cases (consume_refresh_token S t w).0) [
        | inr (e, gone) ↦ absurd (ground arith)
        | inl (uid, taken) ↦ elim (Option-cases (S.uuid_parse uid)) [
          | inl bad ↦ absurd (ground arith)
          | inr (id, parsed) ↦ elim (Result-cases (find_by_id S id w1).0) [
            | inr (e, missing) ↦ absurd (ground arith)
            | inl (u, found) ↦
                let (same, next) = find_by_id-frame id w1 in
                (uid, u, (find_by_id S id w1).1, taken, same, next, ground arith, ground arith)
          ]
        ]
      ]

  -- A refresh token is rotated: after a refresh that succeeded, the token it was made with is
  -- never accepted again, while nothing else is written to Redis and if the token differs from
  -- the random ones drawn since.
  pub refresh-rotates :
      (t : Text) (w w' : World S) {r : Response} (v : Text)
      → ((i : ℕ) → w.tick ≤ i → text_eq t (Base64.encode Base64.url (S.random i 32)) ≡ false)
      → (refresh S c (some t) w).0 ≡ ok r
      → w'.redis ≡ (refresh S c (some t) w).1.redis
      → (refresh S c (some t) w).1.tick ≤ w'.tick
      → (consume_refresh_token S t w').0 ≢ ok v
  refresh-rotates t w w' v fresh h same later again =
      let (uid, u, w1, taken, redis, tick, issued, all) = refresh_steps t w h in
      let (stored, _, ticks) = issue_token_pair_state S c L u w1 issued in
      let (_, next) = consume_refresh_token-gone S L t w 0 taken in
      let now = S.clock w'.tick in
      ground (
        arith,
        consume_refresh_token_value S L t w' again,
        value-with_pair S c L (S.uuid_text u.id) t w1 now
            (L.clock_mono (6 + w1.tick) w'.tick (ground arith)),
        (consume_refresh_token-gone S L t w now taken).0,
        fresh (2 + w1.tick) (ground arith),
      )
