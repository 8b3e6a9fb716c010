-- ===== src/Middleware/Guards.antt =====
-- What a guarded handler can rely on.
use braza_sso.Prelude.{
  ◌≡◌, Option, some, Text, codes, ok, arith, Result-cases, Option-cases, inl, inr,
}
use braza_sso.Env.Services.{Services}
use braza_sso.Middleware.{require_session_auth, require_auth, session_token}
use braza_sso.Model.{Claims}
use braza_sso.Go.Strings.{strip_prefix}
use braza_sso.Jwt.{verify_access_token}
use braza_sso.TokenStore.{lookup_session_token}
use braza_sso.World.{World, Response, Handler}

module _ (S : Services) where
  -- A handler behind the session check succeeds only for a request with a session cookie that is
  -- not empty and that Redis knows, and it runs as the user of that session.
  pub require_session_auth_ok :
      (cookie : Option Text) (next : Option Text → Handler S Response) (w : World S) {r : Response}
      → (require_session_auth S cookie next w).0 ≡ ok r
      → (token : Text) × (uid : Text) × (session_token cookie ≡ some token)
        × ((lookup_session_token S token w).0 ≡ ok uid)
        × (require_session_auth S cookie next w
            ≡ next (some uid) (lookup_session_token S token w).1)
  unfolding require_session_auth
  require_session_auth_ok cookie next w h = elim (Option-cases (session_token cookie)) [
    | inl missing ↦ absurd (ground arith)
    | inr (token, given) ↦ elim (Result-cases (lookup_session_token S token w).0) [
      | inl (uid, known) ↦ (token, uid, given, known, ground arith)
      | inr (e, unknown) ↦ absurd (ground arith)
    ]
  ]

  -- A handler behind the bearer check succeeds only for a header `Bearer ` with a token that
  -- verifies, and it runs as the subject of that token.
  pub require_auth_ok :
      (header : Text) (next : Option Text → Handler S Response) (w : World S) {r : Response}
      → (require_auth S header next w).0 ≡ ok r
      → (token : Text) × (claims : Claims) × (strip_prefix (codes "Bearer ") header ≡ some token)
        × ((verify_access_token S token w).0 ≡ ok claims)
        × (require_auth S header next w
            ≡ next (some claims.subject) (verify_access_token S token w).1)
  unfolding require_auth
  require_auth_ok header next w h = elim (Option-cases (strip_prefix (codes "Bearer ") header)) [
    | inl missing ↦ absurd (ground arith)
    | inr (token, given) ↦ elim (Result-cases (verify_access_token S token w).0) [
      | inl (claims, known) ↦ (token, claims, given, known, ground arith)
      | inr (e, unknown) ↦ absurd (ground arith)
    ]
  ]
