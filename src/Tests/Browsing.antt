-- ===== src/Tests/Browsing.antt =====
-- The theorems on a browser's requests, applied.
use braza_sso.Prelude.{
  ◌≡◌, ◌++◌, Bool, true, false, none, some, [], ◌∷◌, Text, codes, refl, arith, Option-cases, inl,
  inr,
}
use braza_sso.Cookies.{IsPathRule}
use braza_sso.Go.Strings.{strip_prefix}
use braza_sso.Server.{handle, routes}
use braza_sso.Server.Requests.{Request}
use braza_sso.Server.Browser
use braza_sso.Tests.{services, laws, config}
use braza_sso.Tests.Service.{router, sign_in}
use braza_sso.TokenStore.{store_refresh_token, refresh_key}
use braza_sso.Tests.{with_alice}
use braza_sso.World.{World}

-- A browser that sends a cookie to every path that begins with the cookie's.
unfoldable begins_with : Text → Text → Bool
begins_with cookie_path path = elim (strip_prefix cookie_path path) [
  | none ↦ false
  | some rest ↦ true
]

begins_with-same : (path : Text) → begins_with path path ≡ true
unfolding begins_with strip_prefix
begins_with-same [] = refl
begins_with-same (b ∷ path) = ground (arith, begins_with-same path)

strip_prefix-inv : (p s rest : Text) → strip_prefix p s ≡ some rest → s ≡ p ++ rest
unfolding strip_prefix
strip_prefix-inv [] s rest h = ground arith
strip_prefix-inv (b ∷ p) [] rest h = absurd (ground arith)
strip_prefix-inv (b ∷ p) (a ∷ s) rest h = ground (arith, strip_prefix-inv p s rest)

begins_with-begins :
    (cookie_path path : Text)
    → begins_with cookie_path path ≡ true
    → (rest : Text) × (path ≡ cookie_path ++ rest)
unfolding begins_with
begins_with-begins cookie_path path h = elim (Option-cases (strip_prefix cookie_path path)) [
  | inl apart ↦ absurd (ground arith)
  | inr (rest, e) ↦ (rest, strip_prefix-inv cookie_path path rest e)
]

begins_with-IsPathRule : IsPathRule begins_with
begins_with-IsPathRule = record { same = begins_with-same; begins = begins_with-begins }

abbrev logout_request : Request
logout_request = record sign_in { path = codes "/auth/logout" }

abbrev signed_in : World services
signed_in = (store_refresh_token services (codes "t") (5 ∷ []) 60 with_alice).1

routes-IsConfined_example : Browser.IsConfined begins_with (codes "t") (routes services config true)
routes-IsConfined_example =
    Browser.routes-IsConfined begins_with begins_with-IsPathRule services laws config true
      (codes "t")

logout-Browser_example :
    (services.redis.value
        (handle services config router false logout_request signed_in).1.redis
        7
        (refresh_key (codes "t"))
      ≡ services.redis.value signed_in.redis 7 (refresh_key (codes "t")))
    × ((handle services config router false logout_request signed_in).1.posts ≡ signed_in.posts)
unfolding begins_with strip_prefix braza_sso.Server.Routes.IsAt braza_sso.Cookies.http_cookie
logout-Browser_example =
    Browser.logout-Browser begins_with begins_with-IsPathRule services laws config router false
      logout_request (codes "t") (codes "t") signed_in 7 (λ l m p. refl) (refl, refl) refl
