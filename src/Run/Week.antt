-- ===== src/Run/Week.antt =====
-- The time to live of the refresh tokens under every run of the service.
use braza_sso.Prelude.{ℕ, suc, ◌+◌, ◌≤◌, ◌≡◌, none, Text, arith}
use braza_sso.Env.Services.{Services, ServiceLaws}
use braza_sso.Jwt.{Config}
use braza_sso.Login.{refresh_token_ttl}
use braza_sso.Run.{drawn}
use braza_sso.Run.Keys.{Written-IsApart, Counter-IsApart}
use braza_sso.Run.Over.{IsOver, store-IsOver}
use braza_sso.Run.Over.Steps.{IsUnwritten, IsStable, Run-Over}
use braza_sso.Run.Requests.{Served, Served-Run}
use braza_sso.TokenStore.{set_key, refresh_key}
use braza_sso.TokenStore.Keys.{refresh-ne-user_sessions}
use braza_sso.World.{World, deliver}

-- No refresh token is there a week after the present.
abbrev pub IsBrief : (S : Services) → World S → Type 0
IsBrief S w =
    (t : Text) (u : ℕ)
    → S.clock w.tick + refresh_token_ttl ≤ u
    → S.redis.value w.redis u (refresh_key t) ≡ none

-- The keys of refresh tokens are written as such alone.
pub refresh_key-IsUnwritten : (S : Services) (n : ℕ) (t : Text) → IsUnwritten S n (refresh_key t)
refresh_key-IsUnwritten S n t = record {
  written = λ k written. (Written-IsApart S n written).not_refresh t;
  counted = λ k counter. (Counter-IsApart counter).not_refresh t;
  sessions = λ uid. refresh-ne-user_sessions t uid;
}

module _ (S : Services) (L : ServiceLaws S) where
  -- The refresh token itself, with a week to live.
  set_refresh-IsOver :
      (t tok uid : Text) (w : World S)
      → IsOver S L (refresh_key t) refresh_token_ttl (refresh-ne-user_sessions t) w
      → IsOver S L
          (refresh_key t)
          refresh_token_ttl
          (refresh-ne-user_sessions t)
          (set_key S (refresh_key tok) uid refresh_token_ttl w).1
  unfolding set_key deliver
  set_refresh-IsOver t tok uid w h u after =
      let now = S.clock w.tick in
      let le = L.clock_mono w.tick (suc w.tick) (omega arith) in
      let old = h u (omega arith) in
      let new =
        L.redis.value-set now (refresh_key tok) uid refresh_token_ttl w.redis u (refresh_key t)
          (omega arith) in
      ground (arith, old, new)

  refresh_key-IsStable :
      (t : Text) → IsStable S L 0 (refresh_key t) refresh_token_ttl (refresh_key-IsUnwritten S 0 t)
  refresh_key-IsStable t i uid w le h =
      store-IsOver S L (refresh_key t) refresh_token_ttl (refresh-ne-user_sessions t) (drawn S i 32)
        uid refresh_token_ttl w (set_refresh-IsOver t (drawn S i 32) uid w h)

  -- From a state in which no refresh token outlives a week, after any requests to the service,
  -- with any data, in any order, and whatever calls fail: a week from now no refresh token that is
  -- in Redis now is there.
  pub refresh_token_ttl-Served :
      (c : Config) (t : Text) (u : ℕ) {start w : World S}
      → IsBrief S start
      → Served S c start w
      → S.clock w.tick + refresh_token_ttl ≤ u
      → S.redis.value w.redis u (refresh_key t) ≡ none
  refresh_token_ttl-Served c t u brief served after =
      Run-Over S L 0 (refresh_key t) refresh_token_ttl (refresh_key-IsUnwritten S 0 t)
        (refresh_key-IsStable t) (Served-Run S c 0 (omega arith) served) (brief t) u after
