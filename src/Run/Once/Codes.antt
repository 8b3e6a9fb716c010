-- ===== src/Run/Once/Codes.antt =====
-- An authorization code after its exchange.
use braza_sso.Prelude.{◌≡◌, ◌∙◌, ◌≢◌, ap, subst, ok, arith}
use braza_sso.Env.Services.{Services, ServiceLaws}
use braza_sso.Jwt.{Config}
use braza_sso.Oauth.Exchange.{handle_auth_code_ok, handle_auth_code-redis}
use braza_sso.Oauth.Handlers.{TokenForm, handle_auth_code, auth_code_key}
use braza_sso.Run.{Runs}
use braza_sso.Run.Once.{
  IsFresh, auth_code_key-IsUnwritten, auth_code_key-not_refresh, stable, get_del-unset, Over-Served,
}
use braza_sso.Run.Over.Steps.{Over}
use braza_sso.Run.Partners.{handle_auth_code-Runs}
use braza_sso.Run.Requests.{Served}
use braza_sso.Run.Ticks.{Run-tick}
use braza_sso.TokenStore.{get_del}
use braza_sso.TokenStore.Consume.{get_del_ok}
use braza_sso.World.{World, Response}

module _ (S : Services) (L : ServiceLaws S) (c : Config) where
  -- An authorization code is good once: after an exchange that succeeded, and then any
  -- requests to the service, with any data, in any order, and whatever calls fail, no exchange
  -- with the same code succeeds, if the code differs from every one drawn since.
  pub handle_auth_code-Served :
      (form form' : TokenForm) (w w' : World S) {r : Response} (r' : Response)
      → form'.code ≡ form.code
      → IsFresh S w.tick 24 form.code
      → (handle_auth_code S c form w).0 ≡ ok r
      → Served S c (handle_auth_code S c form w).1 w'
      → (handle_auth_code S c form' w').0 ≢ ok r'
  unfolding Runs
  handle_auth_code-Served form form' w w' r' same fresh first served second =
      let K = auth_code_key form.code in
      let unwritten = auth_code_key-IsUnwritten S w.tick form.code fresh in
      let (v, _, e, _, _) = handle_auth_code_ok S c form w first in
      let (v', _, e', _, _) = handle_auth_code_ok S c form' w' second in
      let ticks = Run-tick S (handle_auth_code-Runs S w.tick c form w (omega arith)) in
      let over : Over S L w.tick K 0 unwritten (handle_auth_code S c form w).1 = λ u le.
        ap (λ d. S.redis.value d u K) (handle_auth_code-redis S c form w)
        ∙ get_del-unset S L w.tick K w u e in
      Over-Served S L w.tick c K unwritten v'
        (stable S L w.tick K unwritten (λ i le. auth_code_key-not_refresh S w.tick form.code _))
        ticks over served
        (get_del_ok S L.redis K w'
          (subst (λ code. (get_del S (auth_code_key code) w').0 ≡ ok v') same e')).0
