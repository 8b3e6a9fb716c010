-- ===== src/Http.antt =====
-- Responses: `writeError` and `writeJSON` of internal/auth/register.go, `http.Error` and
-- `http.Redirect`, and the run of a handler on a request.
pub mod Documents
use braza_sso.Prelude.{ℕ, [], Text, Result, ok, stop, M, String, codes}
use braza_sso.Env.Services.{Services}
use braza_sso.World.{World, Response, Body, empty, error_body, message_body, plain_error, redirect}

abbrev pub respond : ℕ → Body → Response
respond status body = record { status = status; body = body }

abbrev pub write_error : ℕ → String → Response
write_error status message = respond status (error_body (codes message))

abbrev pub write_message : String → Response
write_message message = respond 200 (message_body (codes message))

abbrev pub http_error : ℕ → String → Response
http_error status message = respond status (plain_error (codes message))

abbrev pub write_header : ℕ → Response
write_header status = respond status empty

abbrev pub redirect_to : Text → Response
redirect_to url = respond 302 (redirect url)

abbrev pub response : Result Response Response → Response
response (ok r) = r
response (stop r) = r

-- A handler answers one request, with no cookie set yet.
unfoldable pub serve : (S : Services) → M (World S) Response Response → World S → Response × World S
serve S h w = let (r, w') = h (record w { cookies = [] }) in (response r, w')
