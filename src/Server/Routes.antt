-- ===== src/Server/Routes.antt =====
-- Which requests reach which handlers, and behind which check, with a router that picks the first
-- route of the request's method and path.
use braza_sso.Prelude.{
  ℕ, zero, suc, ◌≡◌, ◌∙◌, ap, refl, sym, Bool, ◌&&◌, Option, none, some, List, [], ◌∷◌, map, Text,
  codes, text_eq, ok, if◌then◌else◌, String,
}
use braza_sso.Env.Services.{Services}
use braza_sso.Go.Strings.{strip_prefix}
use braza_sso.Jwt.{Config, verify_access_token}
use braza_sso.Logout.{revoke_all}
use braza_sso.Middleware.{require_auth, require_session_auth, session_token}
use braza_sso.Middleware.Guards.{require_auth_ok, require_session_auth_ok}
use braza_sso.Model.{Claims}
use braza_sso.Oauth.Handlers.{user_info, consent}
use braza_sso.Server.{Router, routes, account_routes, oauth_routes, logout_routes, run_at, handle}
use braza_sso.Server.Requests.{Request, code_of, consent_form}
use braza_sso.TokenStore.{lookup_session_token}
use braza_sso.Totp.{enroll, confirm}
use braza_sso.World.{World, Response, Handler}

-- The place of the first route of a method and a path.
unfoldable pub index_of : Text → Text → List (Text × Text) → Option ℕ
index_of method path [] = none
index_of method path (route ∷ rest) =
    let later = index_of method path rest in
    if text_eq route.0 method && text_eq route.1 path
    then some zero
    else elim later [ none ↦ none | some n ↦ some (suc n) ]

-- What chi documents for routes without patterns.
abbrev pub IsExact : Router → Type 0
IsExact router =
    (table : List (Text × Text)) (method path : Text)
    → router.pick table method path ≡ index_of method path table

module _ (S : Services) (c : Config) where
  abbrev pub table : Bool → List (Text × Text)
  table with_google = map (λ route. (route.method, route.path)) (routes S c with_google)

  pub handle-at :
      (router : Router) (with_google : Bool) (req : Request) (w : World S) (n : ℕ)
      → IsExact router
      → index_of req.method req.path (table with_google) ≡ some n
      → handle S c router with_google req w
        ≡ run_at S c router.unrouted (routes S c with_google) n req w
  unfolding handle
  handle-at router with_google req w n exact found =
      rw (exact (table with_google) req.method req.path) (rw found refl)

  unfoldable pub IsAt : Request → String → String → Type 0
  IsAt req method path = (req.method ≡ codes method) × (req.path ≡ codes path)

  -- The handlers behind the bearer check, by their routes.
  pub data IsGuarded (req : Request) : (Option Text → Handler S Response) → Type 0 where
    logout_all : IsAt req "POST" "/auth/logout/all" → IsGuarded req (revoke_all S c)
    enrolment : IsAt req "POST" "/account/2fa/enroll" → IsGuarded req (enroll S c)
    confirmation :
        IsAt req "POST" "/account/2fa/confirm"
        → IsGuarded req (λ context. confirm S c context (code_of req))
    info : IsAt req "GET" "/oauth/userinfo" → IsGuarded req (user_info S c)

  -- The place of a route, for every table of routes.
  pub found_at :
      (with_google : Bool) (req : Request) (method path : String) (n : ℕ)
      → IsAt req method path
      → index_of (codes method) (codes path) (table with_google) ≡ some n
      → index_of req.method req.path (table with_google) ≡ some n
  unfolding IsAt
  found_at with_google req method path n (m, p) found = rw m (rw p found)

  bearer-at :
      (router : Router) (with_google : Bool) (req : Request) (w : World S)
      {next : Option Text → Handler S Response}
      → IsExact router
      → IsGuarded req next
      → handle S c router with_google req w ≡ require_auth S req.authorization next w
  unfolding index_of text_eq routes account_routes oauth_routes logout_routes run_at
  bearer-at router with_google req w exact (logout_all at) =
      handle-at router with_google req w 18 exact (found_at with_google req _ _ 18 at refl)
  bearer-at router with_google req w exact (enrolment at) =
      handle-at router with_google req w 19 exact (found_at with_google req _ _ 19 at refl)
  bearer-at router with_google req w exact (confirmation at) =
      handle-at router with_google req w 20 exact (found_at with_google req _ _ 20 at refl)
  bearer-at router with_google req w exact (info at) =
      handle-at router with_google req w 15 exact (found_at with_google req _ _ 15 at refl)

  -- With a router that picks the first route of the method and path: POST /auth/logout/all,
  -- /account/2fa/enroll and /account/2fa/confirm and GET /oauth/userinfo succeed only for a header
  -- `Bearer ` with a token that verifies, and each then runs its handler as the token's subject.
  pub bearer_routes_ok :
      (router : Router) (with_google : Bool) (req : Request) (w : World S)
      {next : Option Text → Handler S Response} {r : Response}
      → IsExact router
      → IsGuarded req next
      → (handle S c router with_google req w).0 ≡ ok r
      → (token : Text) × (claims : Claims) × (strip_prefix (codes "Bearer ") req.authorization
          ≡ some token)
        × ((verify_access_token S token w).0 ≡ ok claims)
        × (handle S c router with_google req w
            ≡ next (some claims.subject) (verify_access_token S token w).1)
  bearer_routes_ok router with_google req w {next} exact at h =
      let same = bearer-at router with_google req w exact at in
      let (token, claims, given, verified, run) =
        require_auth_ok S req.authorization next w (ap (λ x. x.0) (sym same) ∙ h) in
      (token, claims, given, verified, same ∙ run)

  consent-at :
      (router : Router) (with_google : Bool) (req : Request) (w : World S)
      → IsExact router
      → IsAt req "POST" "/oauth/consent"
      → handle S c router with_google req w
        ≡ require_session_auth S req.session_cookie (consent S c (consent_form req)) w
  unfolding index_of text_eq routes account_routes oauth_routes run_at
  consent-at router with_google req w exact at =
      handle-at router with_google req w 14 exact (found_at with_google req _ _ 14 at refl)

  -- With such a router, POST /oauth/consent succeeds only for a session cookie that is not empty
  -- and that Redis knows, and the consent is then that session's user's.
  pub consent_route_ok :
      (router : Router) (with_google : Bool) (req : Request) (w : World S) {r : Response}
      → IsExact router
      → IsAt req "POST" "/oauth/consent"
      → (handle S c router with_google req w).0 ≡ ok r
      → (token : Text) × (uid : Text) × (session_token req.session_cookie ≡ some token)
        × ((lookup_session_token S token w).0 ≡ ok uid)
        × (handle S c router with_google req w
            ≡ consent S c (consent_form req) (some uid) (lookup_session_token S token w).1)
  consent_route_ok router with_google req w exact at h =
      let same = consent-at router with_google req w exact at in
      let (token, uid, given, known, run) =
        require_session_auth_ok S req.session_cookie (consent S c (consent_form req)) w
          (ap (λ x. x.0) (sym same) ∙ h) in
      (token, uid, given, known, same ∙ run)
