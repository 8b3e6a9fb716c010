-- ===== src/Run/Requests.antt =====
-- A request to the service, as a run, and any number of them.
use braza_sso.Prelude.{
  ℕ, zero, suc, ◌+◌, ◌≤◌, refl, Bool, true, false, Option, List, [], ◌∷◌, ◌++◌, Text, arith,
  if◌then◌else◌,
}
use braza_sso.Env.Services.{Services}
use braza_sso.Http.{serve}
use braza_sso.Jwt.{Config}
use braza_sso.Run.{Run, Runs, here, next, elapse}
use braza_sso.Run.Account
use braza_sso.Run.Calls.{calls}
use braza_sso.Run.Combine.{Run-trans}
use braza_sso.Run.Guards
use braza_sso.Run.Partners
use braza_sso.Run.SignIn
use braza_sso.Logout.{receive_logout}
use braza_sso.Run.Ticks.{Run-tick}
use braza_sso.Server.{
  Route, routes, account_routes, oauth_routes, logout_routes, google_routes, run_at, handle, Router,
}
use braza_sso.Server.Requests.{Request}
use braza_sso.World.{World, Response}

ruleset handlers = (
  calls, SignIn.login-Runs, SignIn.refresh-Runs, Account.register-Runs, Account.verify_email-Runs,
  Account.resend_verification-Runs, Account.reset_request-Runs, Account.reset-Runs,
  Account.enroll-Runs, Account.confirm-Runs, Account.verify-Runs, Account.recovery-Runs,
  Partners.google_redirect-Runs, Partners.google_callback-Runs, Partners.authorize-Runs,
  Partners.consent-Runs, Partners.token-Runs, Partners.user_info-Runs, Partners.logout-Runs,
  Partners.revoke_all-Runs, Guards.optional_session_auth-Runs, Guards.require_session_auth-Runs,
  Guards.require_auth-Runs, Guards.per_ip-Runs, Guards.per_email_silent-Runs,
)

module _ (S : Services) (n : ℕ) (c : Config) where
  -- Every route of a table runs.
  abbrev AllRun : List (Route S c) → Type 0
  AllRun [] = Unit {0}
  AllRun (route ∷ rest) = ((req : Request) → Runs S n (route.run req)) × AllRun rest

  append-AllRun : (l l' : List (Route S c)) → AllRun l → AllRun l' → AllRun (l ++ l')
  append-AllRun [] l' h h' = h'
  append-AllRun (route ∷ l) l' (r, h) h' = (r, append-AllRun l l' h h')

  account_routes-AllRun : AllRun (account_routes S c)
  unfolding account_routes
  account_routes-AllRun = search handlers parts 12

  oauth_routes-AllRun : AllRun (oauth_routes S c)
  unfolding oauth_routes
  oauth_routes-AllRun = search handlers parts 12

  receive_logout-Runs : (body : Option Text) → Runs S n (receive_logout {W = World S} body)
  unfolding receive_logout
  receive_logout-Runs body = search calls

  logout_routes-AllRun : AllRun (logout_routes S c)
  unfolding logout_routes
  logout_routes-AllRun = search (handlers, receive_logout-Runs) parts 12

  google_routes-AllRun : AllRun (google_routes S c)
  unfolding google_routes
  google_routes-AllRun = search handlers parts 12

  if-AllRun : (b : Bool) (l : List (Route S c)) → AllRun l → AllRun (if b then l else [])
  if-AllRun true l h = h
  if-AllRun false l h = tt

  routes-AllRun : (with_google : Bool) → AllRun (routes S c with_google)
  unfolding routes
  routes-AllRun with_google = (
    λ req. search calls,
    (
      λ req. search calls,
      append-AllRun (account_routes S c) _ account_routes-AllRun (
          append-AllRun (oauth_routes S c) _ oauth_routes-AllRun (
            append-AllRun (logout_routes S c) _ logout_routes-AllRun
              (if-AllRun with_google (google_routes S c) google_routes-AllRun))),
    ),
  )

  run_at-Runs :
      (unrouted : Request → Response) (l : List (Route S c)) (place : ℕ) (req : Request)
      → AllRun l
      → Runs S n (run_at S c unrouted l place req)
  unfolding run_at
  run_at-Runs unrouted [] place req h = search calls
  run_at-Runs unrouted (route ∷ l) zero req (r, h) = r req
  run_at-Runs unrouted (route ∷ l) (suc place) req (r, h) = run_at-Runs unrouted l place req h

  pub handle-Runs :
      (router : Router) (with_google : Bool) (req : Request)
      → Runs S n (handle S c router with_google req)
  unfolding handle
  handle-Runs router with_google req =
      let picked : (place : ℕ)
          → Runs S n (run_at S c router.unrouted (routes S c with_google) place req) =
        λ place.
          run_at-Runs router.unrouted (routes S c with_google) place req
            (routes-AllRun with_google) in
      search (calls, picked) depth 10 fits 3000

  pub serve-Runs :
      (router : Router) (with_google : Bool) (req : Request) (w : World S)
      → n ≤ w.tick
      → Run S n w (serve S (handle S c router with_google req) w).1
  unfolding serve Runs
  serve-Runs router with_google req w le =
      Run-trans S n (next here (elapse w (record w { cookies = [] }) refl refl refl (omega arith)))
        (handle-Runs router with_google req (record w { cookies = [] }) le)

-- Every request to the service, whatever its data and whatever fails, is a run of the abstract
-- steps on Redis and on the accounts, in which each token that is stored was drawn since the
-- request came.
pub serve-Run :
    (S : Services) (c : Config) (router : Router) (with_google : Bool) (req : Request) (w : World S)
    → Run S w.tick w (serve S (handle S c router with_google req) w).1
serve-Run S c router with_google req w =
    serve-Runs S w.tick c router with_google req w (omega arith)

-- The states after any number of requests, with pauses between them.
pub data Served (S : Services) (c : Config) (start : World S) : World S → Type 0 where
  begin : Served S c start start
  request :
      (router : Router) (with_google : Bool) (req : Request) {w : World S}
      → Served S c start w
      → Served S c start (serve S (handle S c router with_google req) w).1
  pause :
      (pauses : ℕ) {w : World S}
      → Served S c start w
      → Served S c start (record w { tick = pauses + w.tick })

pub Served-Run :
    (S : Services) (c : Config) (n : ℕ) {start w : World S}
    → n ≤ start.tick
    → Served S c start w
    → Run S n start w
Served-Run S c n le begin = here
Served-Run S c n le (request router with_google req h) =
    let before = Served-Run S c n le h in
    let ticks = Run-tick S before in
    Run-trans S n before (serve-Runs S n c router with_google req _ (omega arith))
Served-Run S c n le (pause pauses {w} h) =
    next (Served-Run S c n le h) (elapse w _ refl refl refl (omega arith))
