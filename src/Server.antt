-- ===== src/Server.antt =====
-- cmd/api/main.go: the routes, in the order of their registration.
pub mod Browser
pub mod Outside
pub mod Requests
pub mod Routes
pub mod Shutdown
pub mod Start
pub mod Wiring
use braza_sso.Prelude.{
  ℕ, zero, suc, ◌*◌, Bool, map, on_option, true, false, not, Option, none, some, List, [], ◌∷◌,
  ◌++◌, Text, codes, text_eq, M, leave, pure, choose, if◌then◌else◌, String,
}
use braza_sso.Env.Services.{Services}
use braza_sso.Federation.{google_redirect, google_callback}
use braza_sso.Http.{respond}
use braza_sso.Jwt.{Config}
use braza_sso.Login.{login, refresh}
use braza_sso.Logout.{logout, revoke_all, receive_logout}
use braza_sso.Middleware.{
  real_ip, per_ip, per_email_silent, optional_session_auth, require_session_auth, require_auth,
}
use braza_sso.Oauth.Handlers.{authorize, consent, token, user_info, discovery}
use braza_sso.Oauth.Keys.{jwks_handler}
use braza_sso.PasswordReset.{reset_request, reset}
use braza_sso.Register.{register, verify_email, resend_verification}
use braza_sso.Server.Requests.{
  Request, login_request, register_request, email_of, reset_body, code_of, verify_request,
  recovery_request, logout_token_of, authorize_request, consent_form, token_form,
}
use braza_sso.Totp.{enroll, confirm, verify, recovery}
use braza_sso.World.{Response, Handler, text, document, empty}

-- chi: the place of the route that serves a method and a path among those registered, and the
-- answer where there is none.
pub record Router : Type 0 where
  pub pick : List (Text × Text) → Text → Text → Option ℕ
  pub unrouted : Request → Response

module _ (S : Services) (c : Config) where
  pub record Route : Type 0 where
    pub method : Text
    pub path : Text
    pub run : Request → Handler S Response

  abbrev get : String → (Request → Handler S Response) → Route
  get path run = record { method = codes "GET"; path = codes path; run = run }

  abbrev post : String → (Request → Handler S Response) → Route
  post path run = record { method = codes "POST"; path = codes path; run = run }

  -- `rl.PerIP(limit, window)` and `rl.PerEmailSilent`, for a route
  abbrev limited : ℕ → ℕ → (Request → Handler S Response) → Request → Handler S Response
  limited limit window run req =
      per_ip S req.path (real_ip req.x_real_ip req.remote_addr) limit window (run req)

  abbrev limited_silently : ℕ → ℕ → (Request → Handler S Response) → Request → Handler S Response
  limited_silently limit window run req =
      per_email_silent S req.path (real_ip req.x_real_ip req.remote_addr) limit window (run req)

  unfoldable pub account_routes : List Route
  account_routes =
      post "/auth/register" (limited 5 (10 * 60) (λ req. register S c (register_request req)))
      ∷ get "/auth/verify-email" (λ req. verify_email S c (req.query (codes "token")))
      ∷ post "/auth/resend-verification" (λ req. resend_verification S c (email_of req))
      ∷ post "/auth/login" (limited 20 60 (λ req. login S c (login_request req)))
      ∷ post "/auth/token/refresh" (λ req. refresh S c req.refresh_cookie)
      ∷ post "/auth/password/reset-request"
          (limited_silently 3 (15 * 60) (λ req. reset_request S c (email_of req)))
      ∷ post "/auth/password/reset" (λ req. reset S c (reset_body req))
      ∷ post "/auth/2fa/verify" (λ req. verify S c (verify_request req))
      ∷ post "/auth/2fa/recovery" (λ req. recovery S c (recovery_request req))
      ∷ []

  unfoldable pub oauth_routes : List Route
  oauth_routes =
      get "/.well-known/openid-configuration" (λ req. pure (respond 200 (document (discovery S c))))
      ∷ post "/oauth/token" (λ req. token S c (token_form req))
      ∷ get "/oauth/authorize" (λ req.
        optional_session_auth S req.session_cookie (authorize S c (authorize_request req)))
      ∷ post "/oauth/consent"
          (λ req. require_session_auth S req.session_cookie (consent S c (consent_form req)))
      ∷ get "/oauth/userinfo" (λ req. require_auth S req.authorization (user_info S c))
      ∷ []

  -- The last three are in a group behind the bearer check.
  unfoldable pub logout_routes : List Route
  logout_routes =
      post "/auth/logout" (λ req. logout S c req.refresh_cookie req.session_cookie)
      ∷ post "/auth/backchannel-logout" (λ req. receive_logout (logout_token_of req))
      ∷ post "/auth/logout/all" (λ req. require_auth S req.authorization (revoke_all S c))
      ∷ post "/account/2fa/enroll" (λ req. require_auth S req.authorization (enroll S c))
      ∷ post "/account/2fa/confirm"
          (λ req. require_auth S req.authorization (λ context. confirm S c context (code_of req)))
      ∷ []

  -- Only with a client of Google's.
  unfoldable pub google_routes : List Route
  google_routes =
      get "/auth/federation/google" (λ req. google_redirect S c (req.query (codes "return_to")))
      ∷ get "/auth/federation/google/callback"
          (λ req. google_callback S c (req.query (codes "state")) (req.query (codes "code")))
      ∷ []

  unfoldable pub routes : Bool → List Route
  routes with_google =
      get "/healthz" (λ req. pure (respond 200 (text (codes "ok"))))
      ∷ get "/oauth/jwks.json" (λ req. jwks_handler S c)
      ∷ (account_routes
          ++ (oauth_routes ++ (logout_routes ++ (if with_google then google_routes else []))))

  -- The handler of a route by its place in the table.
  unfoldable pub run_at : (Request → Response) → List Route → ℕ → Request → Handler S Response
  run_at unrouted [] n req = leave (unrouted req)
  run_at unrouted (route ∷ rest) zero req = route.run req
  run_at unrouted (route ∷ rest) (suc n) req = run_at unrouted rest n req

  unfoldable pub handle : Router → Bool → Request → Handler S Response
  unfolding run_at routes
  handle router with_google req =
      let table = routes with_google in
      on_option (router.pick (map (λ route. (route.method, route.path)) table) req.method req.path)
        (leave (router.unrouted req)) (λ n. run_at router.unrouted table n req)
