-- ===== src/Run/Once/Refresh.antt =====
-- A refresh token after the refresh that it was used for.
use braza_sso.Prelude.{◌≤◌, ◌≡◌, ◌∙◌, ◌≢◌, ap, some, Text, ok, arith}
use braza_sso.Env.Services.{Services, ServiceLaws}
use braza_sso.Jwt.{Config}
use braza_sso.Login.{refresh}
use braza_sso.Login.Rotation.{refresh_steps, consume_refresh_token-gone}
use braza_sso.Run.{Runs}
use braza_sso.Run.Once.{IsFresh, refresh_stable, Over-Served}
use braza_sso.Run.Over.Steps.{Over, Run-Over}
use braza_sso.Run.Requests.{Served}
use braza_sso.Run.SignIn.{issue_token_pair-Runs}
use braza_sso.Run.Ticks.{Run-tick}
use braza_sso.Run.Week.{refresh_key-IsUnwritten}
use braza_sso.TokenStore.{refresh_key}
use braza_sso.TokenStore.Revocation.{consume_refresh_token_value}
use braza_sso.World.{World, Response}

module _ (S : Services) (L : ServiceLaws S) (c : Config) where
  -- After a refresh that succeeded, its token's key is unset, and time has gone on.
  refresh-Over :
      (t : Text) (w : World S) {r : Response}
      → IsFresh S w.tick 32 t
      → (refresh S c (some t) w).0 ≡ ok r
      → Over S L w.tick
          (refresh_key t)
          0
          (refresh_key-IsUnwritten S w.tick t)
          (refresh S c (some t) w).1
        × (w.tick ≤ (refresh S c (some t) w).1.tick)
  unfolding Runs
  refresh-Over t w fresh h =
      let (uid, u, v, taken, redis, tick, issued, final) = refresh_steps S c L t w h in
      let later = (consume_refresh_token-gone S L t w 0 taken).1 in
      let run = issue_token_pair-Runs S w.tick c u v (omega arith) in
      let ticks = Run-tick S run in
      let gone : Over S L w.tick (refresh_key t) 0 (refresh_key-IsUnwritten S w.tick t) v =
        λ time le.
          ap (λ d. S.redis.value d time (refresh_key t)) redis
          ∙ (consume_refresh_token-gone S L t w time taken).0 in
      rw final (
        Run-Over S L w.tick (refresh_key t) 0 (refresh_key-IsUnwritten S w.tick t)
            (refresh_stable S L w.tick t fresh) run gone,
        omega arith,
      )

  -- A refresh token is rotated for good: after a refresh that succeeded, and then any requests to
  -- the service, with any data, in any order, and whatever calls fail, no refresh with the same
  -- token succeeds, if the token differs from every one drawn since.
  pub refresh-Served :
      (t : Text) (w w' : World S) {r : Response} (r' : Response)
      → IsFresh S w.tick 32 t
      → (refresh S c (some t) w).0 ≡ ok r
      → Served S c (refresh S c (some t) w).1 w'
      → (refresh S c (some t) w').0 ≢ ok r'
  refresh-Served t w w' r' fresh h served again =
      let (over, ticks) = refresh-Over t w fresh h in
      let (uid, u, v, taken, _, _, _, _) = refresh_steps S c L t w' again in
      Over-Served S L w.tick c (refresh_key t) (refresh_key-IsUnwritten S w.tick t) uid
        (refresh_stable S L w.tick t fresh) ticks over served
        (consume_refresh_token_value S L t w' taken)
