-- ===== src/Middleware.antt =====
-- internal/middleware: the session and bearer checks of auth.go and the limiter of ratelimit.go.
-- A middleware takes the next handler as a function of the user in the request's context.
pub mod Guards
pub mod Limiter
use braza_sso.Prelude.{
  ℕ, Bool, true, false, not, Option, none, some, [], ◌∷◌, ◌++◌, Text, codes, leb, if◌then◌else◌,
  Result, ok, stop, M, pure, leave, stop_if, on_result, on_option, attempt, ◌>>=◌, ◌>>◌,
}
use braza_sso.Context.{key_user_id, key_email, background, with_value, user_id_from_context}
use braza_sso.Env.Services.{Services}
use braza_sso.Go.Strings.{strip_prefix}
use braza_sso.Http.{respond, http_error, write_header}
use braza_sso.Jwt.{verify_access_token}
use braza_sso.TokenStore.{lookup_session_token, incr_expire}
use braza_sso.World.{World, Error, Response, Handler, Call, too_many_requests}

-- `SessionTokenFromCookie`: an empty cookie counts as none.
abbrev pub session_token : Option Text → Option Text
session_token none = none
session_token (some []) = none
session_token (some (b ∷ token)) = some (b ∷ token)

-- `realIP`, from the header X-Real-IP (empty if absent) and the remote address.
abbrev pub real_ip : Text → Text → Text
real_ip [] remote = remote
real_ip (b ∷ ip) remote = b ∷ ip

module _ (S : Services) where
  -- The user of a session, if the lookup succeeds.
  unfoldable pub session_user : {E : Type 0} → Option Text → M (World S) E (Option Text)
  session_user none = pure (user_id_from_context background)
  session_user (some token) = do
    found ← attempt (lookup_session_token S token)
    on_result found
        (λ user_id. pure (user_id_from_context (with_value key_user_id user_id background)))
        (λ _. pure (user_id_from_context background))

  unfoldable pub optional_session_auth :
      Option Text → (Option Text → Handler S Response) → Handler S Response
  optional_session_auth cookie next = do user_id ← session_user (session_token cookie); next user_id

  unfoldable pub require_session_auth :
      Option Text → (Option Text → Handler S Response) → Handler S Response
  require_session_auth cookie next =
      on_option (session_token cookie)
        (leave (http_error 401 "{\"error\":\"authorization required\"}"))
        (λ token. do
          found ← attempt (lookup_session_token S token)
          on_result found
              (λ user_id. next (user_id_from_context (with_value key_user_id user_id background)))
              (λ _. leave (http_error 401 "{\"error\":\"invalid or expired session\"}")))

  -- The argument is the Authorization header, empty if absent.
  unfoldable pub require_auth : Text → (Option Text → Handler S Response) → Handler S Response
  require_auth header next =
      on_option (strip_prefix (codes "Bearer ") header)
        (leave (http_error 401 "{\"error\":\"authorization required\"}"))
        (λ token. do
          verified ← attempt (verify_access_token S token)
          on_result verified
              (λ claims.
                let context = with_value key_user_id claims.subject background in
                next (user_id_from_context (with_value key_email claims.email context)))
              (λ _. leave (http_error 401 "{\"error\":\"invalid or expired token\"}")))

  -- `Allow`: whether the request is within the limit, and the count. It fails open.
  unfoldable pub allow : {E : Type 0} → Text → ℕ → ℕ → M (World S) E (Bool × ℕ)
  allow key limit window = do
    counted ← attempt (incr_expire S key window)
    on_result counted (λ count. pure (leb count limit, count)) (λ _. pure (true, 0))

  unfoldable pub per_ip : Text → Text → ℕ → ℕ → Handler S Response → Handler S Response
  per_ip path ip limit window next = do
    allowed ← allow (codes "rl:ip:" ++ (path ++ (codes ":" ++ ip))) limit window
    stop_if (not allowed.0) (respond 429 (too_many_requests window))
    next

  unfoldable pub per_email_silent : Text → Text → ℕ → ℕ → Handler S Response → Handler S Response
  per_email_silent path ip limit window next = do
    allowed ← allow (codes "rl:email_ip:" ++ (path ++ (codes ":" ++ ip))) limit window
    stop_if (not allowed.0) (write_header 200)
    next
