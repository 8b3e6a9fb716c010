-- ===== src/Cookies.antt =====
-- internal/auth/cookie.go: the attributes of the cookies, and where a browser sends them back.
pub mod Kept
pub mod SignIns
use braza_sso.Prelude.{
  ℕ, ◌*◌, ◌≡◌, ◌++◌, Bool, true, Option, none, some, [], Text, codes, if◌then◌else◌,
}
use braza_sso.Login.{refresh_token_ttl}
use braza_sso.World.{Cookie, set_refresh, set_session, clear_refresh, clear_session}

pub data SameSite : Type 0 where
  lax strict : SameSite

-- `Max-Age`: seconds, or a negative number, which expires the cookie at once.
pub data MaxAge : Type 0 where
  seconds : ℕ → MaxAge
  expired : MaxAge

pub record HttpCookie : Type 0 where
  pub name : Text
  pub value : Text
  pub path : Text
  pub max_age : MaxAge
  pub http_only : Bool
  pub secure : Bool
  pub same_site : SameSite

abbrev session_cookie : Text → MaxAge → HttpCookie
session_cookie value max_age = record {
  name = codes "sso_session";
  value = value;
  path = codes "/";
  max_age = max_age;
  http_only = true;
  secure = true;
  same_site = lax;
}

abbrev refresh_cookie : Text → MaxAge → HttpCookie
refresh_cookie value max_age = record {
  name = codes "refresh_token";
  value = value;
  path = codes "/auth/token/refresh";
  max_age = max_age;
  http_only = true;
  secure = true;
  same_site = strict;
}

unfoldable pub http_cookie : Cookie → HttpCookie
http_cookie (set_session token) = session_cookie token (seconds (7 * 24 * 60 * 60))
http_cookie clear_session = session_cookie [] expired
http_cookie (set_refresh token) = refresh_cookie token (seconds refresh_token_ttl)
http_cookie clear_refresh = refresh_cookie [] expired

-- What a browser sends of a cookie to a path: its value, if the browser's rule says that the
-- cookie's path covers that of the request.
abbrev pub sent : (Text → Text → Bool) → HttpCookie → Text → Option Text
sent covers cookie path = if covers cookie.path path then some cookie.value else none

-- What RFC 6265, section 5.1.4, says of that rule: a path covers itself, and only paths that begin
-- with it.
pub record IsPathRule (covers : Text → Text → Bool) : Type 0 where
  pub same : (path : Text) → covers path path ≡ true
  pub begins :
      (cookie_path path : Text)
      → covers cookie_path path ≡ true
      → (rest : Text) × (path ≡ cookie_path ++ rest)
