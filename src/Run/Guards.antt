-- ===== src/Run/Guards.antt =====
-- The middleware, around a handler, as runs.
use braza_sso.Prelude.{ℕ, Option, none, some, Text}
use braza_sso.Env.Services.{Services}
use braza_sso.Middleware
use braza_sso.Run.{Runs, Counter, of_limiter}
use braza_sso.Run.Calls.{calls}
use braza_sso.World.{Response, Handler}

module _ (S : Services) (n : ℕ) where
  session_user-Runs :
      (E : Type 0) (o : Option Text) → Runs S n (Middleware.session_user S {E = E} o)
  unfolding Middleware.session_user
  session_user-Runs E none = search calls
  session_user-Runs E (some token) = search calls depth 20 fits 3000

  pub optional_session_auth-Runs :
      (cookie : Option Text) (k : Option Text → Handler S Response)
      → ((context : Option Text) → Runs S n (k context))
      → Runs S n (Middleware.optional_session_auth S cookie k)
  unfolding Middleware.optional_session_auth
  optional_session_auth-Runs cookie k h = search (calls, session_user-Runs, h) depth 20 fits 3000

  pub require_session_auth-Runs :
      (cookie : Option Text) (k : Option Text → Handler S Response)
      → ((context : Option Text) → Runs S n (k context))
      → Runs S n (Middleware.require_session_auth S cookie k)
  unfolding Middleware.require_session_auth
  require_session_auth-Runs cookie k h = search (calls, h) depth 20 fits 3000

  pub require_auth-Runs :
      (header : Text) (k : Option Text → Handler S Response)
      → ((context : Option Text) → Runs S n (k context))
      → Runs S n (Middleware.require_auth S header k)
  unfolding Middleware.require_auth
  require_auth-Runs header k h = search (calls, h) depth 20 fits 3000

  allow-Runs :
      (E : Type 0) (key : Text) (limit window : ℕ)
      → Counter key
      → Runs S n (Middleware.allow S {E = E} key limit window)
  unfolding Middleware.allow
  allow-Runs E key limit window counter = search calls depth 20 fits 3000

  pub per_ip-Runs :
      (path ip : Text) (limit window : ℕ) (k : Handler S Response)
      → Runs S n k
      → Runs S n (Middleware.per_ip S path ip limit window k)
  unfolding Middleware.per_ip
  per_ip-Runs path ip limit window k h =
      search (calls, allow-Runs, of_limiter, h) depth 20 fits 3000

  pub per_email_silent-Runs :
      (path ip : Text) (limit window : ℕ) (k : Handler S Response)
      → Runs S n k
      → Runs S n (Middleware.per_email_silent S path ip limit window k)
  unfolding Middleware.per_email_silent
  per_email_silent-Runs path ip limit window k h =
      search (calls, allow-Runs, of_limiter, h) depth 20 fits 3000
