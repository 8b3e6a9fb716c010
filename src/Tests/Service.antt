-- ===== src/Tests/Service.antt =====
-- The theorems on the service as a whole, applied.
use braza_sso.Prelude.{
  Result, stop, ◌+◌, ◌≡◌, ◌≢◌, refl, none, some, [], ◌∷◌, Text, codes, text_eq, text_eq_iff, ok,
  arith, if◌then◌else◌, false,
}
use braza_sso.Go.Strings.{strip_prefix}
use braza_sso.Http.{serve, write_header}
use braza_sso.Jwt.{verify_access_token}
use braza_sso.Login.{refresh_token_ttl, LoginRequest, login, is_locked, normalize_email}
use braza_sso.Password.{verify_password}
use braza_sso.Logout.{revoke_all}
use braza_sso.Model.{Claims}
use braza_sso.Run.{Run}
use braza_sso.Run.Linked
use braza_sso.Run.Links.{IsLinked}
use braza_sso.Run.Requests
use braza_sso.Run.Requests.{Served, begin, request}
use braza_sso.Run.Tracked
use braza_sso.Run.Week
use braza_sso.Server.{Router, handle}
use braza_sso.Server.Requests.{Request}
use braza_sso.Server.Routes
use braza_sso.Server.Routes.{index_of, logout_all}
use braza_sso.Tests.{services, laws, config, start, with_alice, alice, address, secret}
use braza_sso.TokenStore.Revocation.{IsTracked}
use braza_sso.TokenStore.{consume_refresh_token, refresh_key}
use braza_sso.User.{find_by_email}
use braza_sso.World.{Response, World, Mail, verification}

abbrev pub router : Router
router = record {
  pick = λ table method path. index_of method path table;
  unrouted = λ req. write_header 404;
}

abbrev pub fields_of_login : Text → Text
fields_of_login name = if text_eq name (codes "email") then address else secret

abbrev pub sign_in : Request
sign_in = record {
  method = codes "POST";
  path = codes "/auth/login";
  remote_addr = codes "10.0.0.1";
  x_real_ip = [];
  authorization = [];
  session_cookie = none;
  refresh_cookie = none;
  raw_query = [];
  query = λ name. [];
  form = none;
  json = λ names. some fields_of_login;
}

abbrev logout_request : Request
logout_request = record sign_in {
  path = codes "/auth/logout/all";
  authorization = codes "Bearer t";
}

-- The account of `with_alice`, with an identifier that was drawn.
abbrev later : World services
later = record with_alice { tick = 6 }

abbrev logged_in : World services
logged_in = (serve services (handle services config router false sign_in) later).1

serve-Run_example :
    Run services later.tick later
      (serve services (handle services config router false sign_in) later).1
serve-Run_example = Requests.serve-Run services config router false sign_in later

later-IsLinked : IsLinked services later
later-IsLinked email id e =
    (alice, 5, refl, ground (arith, text_eq_iff email address), ground arith, omega arith)

served : Served services config later logged_in
served = request router false sign_in begin

find_by_email-Served_example : alice.email ≡ address
unfolding find_by_email braza_sso.World.deliver text_eq serve handle index_of
    braza_sso.Server.account_routes braza_sso.Middleware.per_ip braza_sso.Middleware.allow
    braza_sso.TokenStore.incr_expire braza_sso.Login.login braza_sso.Server.Requests.login_request
    braza_sso.Login.normalize_email braza_sso.Login.is_locked braza_sso.Login.check_credentials
    braza_sso.Password.verify_password braza_sso.Password.encode_hash braza_sso.Login.authenticated
    braza_sso.Login.reset_attempts braza_sso.Login.issue_token_pair
    braza_sso.TokenStore.store_refresh_token braza_sso.TokenStore.store_session_token
    braza_sso.TokenStore.random_token braza_sso.World.set_cookie braza_sso.Jwt.issue_access_token
    braza_sso.User.update_failed_attempts_reset braza_sso.TokenStore.reset_login_attempts
find_by_email-Served_example =
    Linked.find_by_email-Served services laws config address {start = later} {w = logged_in}
      {u = alice} (λ i j lt le. ground arith) later-IsLinked served refl

-- The same request once more.
abbrev again : LoginRequest
again = record { email = address; password = secret }

abbrev answer_of : Result Response Response → Response
answer_of (ok r) = r
answer_of (stop r) = r

abbrev answer : Response
answer = answer_of (login services config (some again) logged_in).0

later-IsTracked : IsTracked services later
later-IsTracked t uid u le e = absurd (ground arith)

revoke_all-Served_example :
    (consume_refresh_token services
      (codes "t")
      (revoke_all services config (some (5 ∷ [])) logged_in).1).0
    ≢ ok (5 ∷ [])
revoke_all-Served_example =
    Tracked.revoke_all-Served services laws config (5 ∷ []) (codes "t") {start = later}
      {w = logged_in} (revoke_all services config (some (5 ∷ [])) logged_in).1 (λ i. refl)
      later-IsTracked served refl (Tracked.revoke_all-tick services config (5 ∷ []) logged_in)

refresh_token_ttl-Served_example :
    services.redis.value logged_in.redis
      (services.clock logged_in.tick + refresh_token_ttl)
      (refresh_key (codes "t"))
    ≡ none
refresh_token_ttl-Served_example =
    Week.refresh_token_ttl-Served services laws config (codes "t")
      (services.clock logged_in.tick + refresh_token_ttl) {start = later} {w = logged_in}
      (λ t u le. refl) served (omega arith)

bearer_routes_ok_example :
    (token : Text) × (claims : Claims) × (strip_prefix (codes "Bearer ") (codes "Bearer t")
      ≡ some token)
    × ((verify_access_token services token start).0 ≡ ok claims)
    × (handle services config router false logout_request start
        ≡ revoke_all services config
            (some claims.subject)
            (verify_access_token services token start).1)
unfolding Routes.IsAt handle index_of text_eq braza_sso.Server.account_routes
    braza_sso.Server.oauth_routes braza_sso.Server.logout_routes braza_sso.Middleware.require_auth
    strip_prefix verify_access_token revoke_all braza_sso.World.set_cookie
bearer_routes_ok_example =
    Routes.bearer_routes_ok services config router false logout_request start
      {next = revoke_all services config} {r = write_header 200} (λ l m p. refl)
      (logout_all (refl, refl)) refl
