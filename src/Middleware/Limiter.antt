-- ===== src/Middleware/Limiter.antt =====
-- The limiter over a run of requests for one key.
use braza_sso.Prelude.{ℕ, suc, ◌+◌, ◌≡◌, ◌≤◌, ◌<◌, Text, ok, arith, leb, ltb, if◌then◌else◌}
use braza_sso.Env.Services.{Services, ServiceLaws, delivered}
use braza_sso.Middleware.{allow}
use braza_sso.TokenStore.{incr_expire}
use braza_sso.World.{World, Response, deliver}

-- `Steady S key window n t w`: the last `n` requests for the key have reached Redis, the last one
-- with the call of tick `t`, after a time without any, and no two of them were a window apart.
pub data Steady (S : Services) (key : Text) (limit window : ℕ) : ℕ → ℕ → World S → Type 0 where
  first :
      (w : World S)
      → S.fault w.tick ≡ delivered
      → S.redis.count w.redis (S.clock w.tick) key ≡ 0
      → Steady S key limit window 1 w.tick (allow S {E = Response} key limit window w).1
  again :
      {n t : ℕ} {w : World S} (w' : World S)
      → Steady S key limit window n t w
      → w'.redis ≡ w.redis
      → t ≤ w'.tick
      → S.clock w'.tick < S.clock t + window
      → S.fault w'.tick ≡ delivered
      → Steady S key limit window (suc n) w'.tick (allow S {E = Response} key limit window w').1

module _ (S : Services) (L : ServiceLaws S) where
  allow_lem :
      (key : Text) (limit window : ℕ) (w : World S)
      → S.fault w.tick ≡ delivered
      → let n = suc (S.redis.count w.redis (S.clock w.tick) key) in
        ((allow S {E = Response} key limit window w).0 ≡ ok (leb n limit, n))
        × ((u : ℕ)
            → S.clock w.tick ≤ u
            → S.redis.count (allow S {E = Response} key limit window w).1.redis u key
              ≡ (if ltb u (S.clock w.tick + window) then n else 0))
  unfolding allow incr_expire deliver
  allow_lem key limit window w fate =
      let now = S.clock w.tick in
      (
        ground (arith, L.redis.count-incr now key w.redis),
        λ u le. ground (
          arith,
          L.redis.count-incr now key w.redis,
          L.redis.count-expire now key window (S.redis.incr now key w.redis) u,
        ),
      )

  Steady-count :
      {key : Text} {limit window n t : ℕ} {w : World S}
      → Steady S key limit window n t w
      → (u : ℕ) → S.clock t ≤ u
      → S.redis.count w.redis u key ≡ (if ltb u (S.clock t + window) then n else 0)
  Steady-count {key} {limit} {window} (first w fate none_yet) u le =
      ground (arith, (allow_lem key limit window w fate).1 u le)
  Steady-count {key} {limit} {window} (again {n} {t} {w} w' before same later soon fate) u le =
      ground (
        arith,
        (allow_lem key limit window w' fate).1 u le,
        Steady-count before (S.clock w'.tick) (L.clock_mono t w'.tick later),
      )

  -- The limiter counts every request since the last pause of a whole window, however long ago the
  -- first of them was: after `n` requests, with no two of them a window apart and all of them
  -- counted, one more that is counted is let through exactly if `n + 1` is within the limit.
  pub allow-Steady :
      {n t : ℕ} {w : World S} (key : Text) (limit window : ℕ) (w' : World S)
      → Steady S key limit window n t w
      → w'.redis ≡ w.redis
      → t ≤ w'.tick
      → S.clock w'.tick < S.clock t + window
      → S.fault w'.tick ≡ delivered
      → (allow S {E = Response} key limit window w').0 ≡ ok (leb (suc n) limit, suc n)
  allow-Steady {n} {t} {w} key limit window w' before same later soon fate = ground (
    arith,
    (allow_lem key limit window w' fate).0,
    Steady-count before (S.clock w'.tick) (L.clock_mono t w'.tick later),
  )
