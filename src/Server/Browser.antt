-- ===== src/Server/Browser.antt =====
-- The refresh cookie in a browser, and the routes that it reaches.
use braza_sso.Prelude.{
  ℕ, ◌≡◌, ◌++◌, Bool, true, false, Bool-cases, inl, inr, Option, none, some, List, [], ◌∷◌, Text,
  codes, text_eq, text_eq_iff, ◌||◌, ◌&&◌, Option-cases, arith, refl, if◌then◌else◌,
}
use braza_sso.Cookies.{http_cookie, sent, IsPathRule}
use braza_sso.Env.Services.{Services, ServiceLaws}
use braza_sso.Go.Strings.{strip_prefix}
use braza_sso.Jwt.{Config}
use braza_sso.Logout.{logout, end_refresh, end_session}
use braza_sso.Middleware.{session_token}
use braza_sso.Server.{
  Router, Route, handle, routes, account_routes, oauth_routes, logout_routes, google_routes, run_at,
}
use braza_sso.Server.Requests.{Request}
use braza_sso.Server.Routes.{IsExact, IsAt, handle-at, found_at, index_of}
use braza_sso.TokenStore.{revoke_session_token, del_key, refresh_key, session_key}
use braza_sso.TokenStore.Keys.{session_key-IsApart}
use braza_sso.World.{World, Response, set_cookie, set_refresh, deliver}

-- A text that follows a prefix is found by it.
strip_prefix-append : (p rest : Text) → strip_prefix p (p ++ rest) ≡ some rest
unfolding strip_prefix
strip_prefix-append [] rest = refl
strip_prefix-append (b ∷ p) rest = ground (arith, strip_prefix-append p rest)

abbrev refresh_path : Text
refresh_path = codes "/auth/token/refresh"

-- Of the routes of a list, the refresh cookie with a token is sent to that of the refresh, and to no
-- other.
abbrev pub IsConfined :
    (Text → Text → Bool) → Text → {S : Services} {c : Config} → List (Route S c) → Type 0
IsConfined covers token [] = Unit {0}
IsConfined covers token (route ∷ l) =
    (sent covers (http_cookie (set_refresh token)) route.path
      ≡ (if text_eq route.path (codes "/auth/token/refresh") then some token else none))
    × IsConfined covers token l

-- Every route of a list has the path of the refresh, or one that does not begin with it.
abbrev are_apart : {S : Services} {c : Config} → List (Route S c) → Bool
are_apart [] = true
are_apart (route ∷ l) =
    (text_eq route.path refresh_path
      || elim (strip_prefix refresh_path route.path) [ none ↦ true | some rest ↦ false ])
    && are_apart l

module _ (covers : Text → Text → Bool) (rule : IsPathRule covers) where
  not_covered :
      (path : Text) → strip_prefix refresh_path path ≡ none → covers refresh_path path ≡ false
  not_covered path apart = elim (Bool-cases (covers refresh_path path)) [
    | inl covered ↦
        let (rest, e) = rule.begins refresh_path path covered in
        absurd (ground (arith, strip_prefix-append refresh_path rest))
    | inr other ↦ other
  ]

  confined :
      (S : Services) (c : Config) (token : Text) (l : List (Route S c))
      → are_apart l ≡ true
      → IsConfined covers token l
  unfolding http_cookie
  confined S c token [] h = tt
  confined S c token (route ∷ l) h = elim (Option-cases (strip_prefix refresh_path route.path)) [
    | inl differs ↦ (
      ground (
        arith,
        not_covered route.path differs,
        text_eq_iff route.path refresh_path,
        rule.same refresh_path,
      ),
      confined S c token l (ground arith),
    )
    | inr (rest, e) ↦ (
      ground (arith, text_eq_iff route.path refresh_path, rule.same refresh_path),
      confined S c token l (ground arith),
    )
  ]

  module _ (S : Services) (L : ServiceLaws S) (c : Config) where
    end_session-keeps :
        (cookie : Option Text) (w : World S) (t : Text) (u : ℕ)
        → (S.redis.value (end_session S c {E = Response} cookie w).1.redis u (refresh_key t)
            ≡ S.redis.value w.redis u (refresh_key t))
          × ((end_session S c {E = Response} cookie w).1.posts ≡ w.posts)
    unfolding end_session revoke_session_token del_key deliver
    end_session-keeps none w t u = (refl, refl)
    end_session-keeps (some k) w t u = ground (
      arith,
      L.redis.value-del (session_key k) w.redis u (refresh_key t),
      (session_key-IsApart k).not_refresh t,
    )

    logout-keeps :
        (cookie : Option Text) (w : World S) (t : Text) (u : ℕ)
        → (S.redis.value (logout S c none cookie w).1.redis u (refresh_key t)
            ≡ S.redis.value w.redis u (refresh_key t))
          × ((logout S c none cookie w).1.posts ≡ w.posts)
    unfolding logout end_refresh set_cookie
    logout-keeps cookie w t u = ground (arith, end_session-keeps (session_token cookie) w t u)

    -- The refresh cookie reaches the refresh alone: with a browser that keeps to the rule on paths,
    -- the cookie that the service sets with a token is sent, with that token, to
    -- /auth/token/refresh, and it is sent to no other route of the service.
    pub routes-IsConfined :
        (with_google : Bool) (token : Text) → IsConfined covers token (routes S c with_google)
    unfolding routes account_routes oauth_routes logout_routes google_routes strip_prefix text_eq
    routes-IsConfined true token = confined S c token (routes S c true) refl
    routes-IsConfined false token = confined S c token (routes S c false) refl

    -- A browser's logout leaves every refresh token: with a browser that keeps to the
    -- rule on paths, and whatever refresh cookie the service gave it, a
    -- request to log out changes no refresh token in Redis and posts no logout token to a relying
    -- party.
    pub logout-Browser :
        (router : Router) (with_google : Bool) (req : Request) (held t : Text) (w : World S) (u : ℕ)
        → IsExact router
        → IsAt S c req "POST" "/auth/logout"
        → req.refresh_cookie ≡ sent covers (http_cookie (set_refresh held)) req.path
        → (S.redis.value (handle S c router with_google req w).1.redis u (refresh_key t)
            ≡ S.redis.value w.redis u (refresh_key t))
          × ((handle S c router with_google req w).1.posts ≡ w.posts)
    unfolding IsAt index_of text_eq routes account_routes oauth_routes logout_routes run_at
        http_cookie strip_prefix
    logout-Browser router with_google req held t w u exact (method, path) cookie =
        let at : IsAt S c req "POST" "/auth/logout" = (method, path) in
        let none_sent : req.refresh_cookie ≡ none =
          ground (arith, not_covered (codes "/auth/logout") refl) in
        rw
          (handle-at S c router with_google req w 16 exact
            (found_at S c with_google req "POST" "/auth/logout" 16 at refl))
          (rw none_sent (logout-keeps req.session_cookie w t u))
