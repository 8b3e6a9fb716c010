-- ===== src/Totp.antt =====
-- internal/auth/totp.go: enrolment of a second factor, sign-in with it and with recovery codes.
pub mod SecondFactor
use braza_sso.Prelude.{
  ℕ, zero, suc, ◌*◌, Bool, true, false, ◌||◌, Option, none, some, List, [], ◌∷◌, Text, codes,
  text_eq, not, Result, ok, stop, M, pure, leave, stop_if, or_stop, or_else, attempt, ◌>>=◌, ◌>>◌,
}
use braza_sso.Model.{Uuid, User, RecoveryCode}
use braza_sso.Env.Services.{Services}
use braza_sso.Http.{respond, write_error, write_message}
use braza_sso.Jwt.{Config, issue_access_token}
use braza_sso.Login.{refresh_token_ttl}
use braza_sso.Password.{hash_password, verify_password}
use braza_sso.RecoveryCodes.{replace_all, list_unused, mark_used}
use braza_sso.TokenStore.{random_token, store_refresh_token, consume_mfa_session}
use braza_sso.User.{find_by_id, update_totp}
use braza_sso.World.{
  World, Response, Handler, now, set_cookie, set_refresh, login_response, enrolled, recovered,
}

abbrev pub totp_issuer : Text
totp_issuer = codes "Braza SSO"

abbrev pub recovery_code_count : ℕ
recovery_code_count = 8

pub record VerifyRequest : Type 0 where
  pub mfa_session_id : Text
  pub code : Text

module _ (S : Services) (c : Config) where
  -- `totp.Validate` reads the clock.
  unfoldable pub validate_code : {E : Type 0} → Text → Text → M (World S) E Bool
  validate_code code secret = do t ← now S; pure (S.totp_validate t code secret)

  -- `n` plaintext codes, and their hashes.
  unfoldable pub plain_codes : {E : Type 0} → ℕ → M (World S) E (List Text)
  plain_codes zero = pure []
  plain_codes (suc n) = do code ← random_token S 10; rest ← plain_codes n; pure (code ∷ rest)

  unfoldable pub hash_codes : {E : Type 0} → List Text → M (World S) E (List Text)
  hash_codes [] = pure []
  hash_codes (code ∷ codes) = do
    hash ← hash_password S code c.pepper
    rest ← hash_codes codes
    pure (hash ∷ rest)

  -- The key is drawn from randomness, at a tick of its own.
  unfoldable pub generate_key : Text → Handler S (Text × Text)
  generate_key email w = elim (S.totp_generate w.tick totp_issuer email) [
    | none ↦ (stop (write_error 500 "failed to generate TOTP key"), record w { tick = suc w.tick })
    | some key ↦ (ok key, record w { tick = suc w.tick })
  ]

  -- The argument is the user of the request's context.
  unfoldable pub enroll : Option Text → Handler S Response
  enroll context = do
    user_id_text ← or_stop context (write_error 401 "unauthorized")
    user_id ← or_stop (S.uuid_parse user_id_text) (write_error 400 "invalid user id")
    u ← or_else (find_by_id S user_id) (write_error 404 "user not found")
    key ← generate_key u.email
    or_else (update_totp S user_id key.0 false) (write_error 500 "failed to store TOTP secret")
    plain ← plain_codes recovery_code_count
    hashed ← hash_codes plain
    or_else (replace_all S user_id hashed) (write_error 500 "failed to store recovery codes")
    pure (respond 200 (enrolled key.0 key.1 plain))

  -- The code of the body, if it could be decoded.
  unfoldable pub confirm : Option Text → Option Text → Handler S Response
  confirm context body = do
    user_id_text ← or_stop context (write_error 401 "unauthorized")
    user_id ← or_stop (S.uuid_parse user_id_text) (write_error 400 "invalid user id")
    code ← or_stop body (write_error 400 "code is required")
    stop_if (text_eq code []) (write_error 400 "code is required")
    u ← or_else (find_by_id S user_id) (write_error 404 "user not found")
    valid ← validate_code code u.totp_secret
    stop_if (not valid) (write_error 401 "invalid TOTP code")
    or_else (update_totp S user_id u.totp_secret true) (write_error 500 "failed to enable 2FA")
    pure (write_message "2FA enabled")

  unfoldable pub issue_token_pair_for_user : User → Handler S Response
  issue_token_pair_for_user u = do
    access_token ←
        or_else (issue_access_token S c (S.uuid_text u.id) u.email u.email_verified c.issuer)
          (write_error 500 "failed to issue access token")
    refresh_token ← random_token S 32
    or_else (store_refresh_token S refresh_token (S.uuid_text u.id) refresh_token_ttl)
        (write_error 500 "failed to store refresh token")
    set_cookie S (set_refresh refresh_token)
    pure (respond 200 (login_response access_token))

  -- The start that `Verify` and `Recovery` share: the session is consumed before the code is
  -- looked at.
  unfoldable pub open_mfa_session : Text → Handler S Uuid
  open_mfa_session session = do
    user_id_text ←
        or_else (consume_mfa_session S session) (write_error 401 "mfa session not found or expired")
    or_stop (S.uuid_parse user_id_text) (write_error 500 "malformed session data")

  unfoldable pub verify : Option VerifyRequest → Handler S Response
  verify body = do
    req ← or_stop body (write_error 400 "invalid request body")
    stop_if (text_eq req.mfa_session_id [] || text_eq req.code [])
        (write_error 400 "mfa_session_id and code are required")
    user_id ← open_mfa_session req.mfa_session_id
    u ← or_else (find_by_id S user_id) (write_error 401 "user not found")
    valid ← validate_code req.code u.totp_secret
    stop_if (not valid) (write_error 401 "invalid TOTP code")
    issue_token_pair_for_user u

  -- The first unused code whose hash fits.
  unfoldable pub matching_code : Text → List RecoveryCode → Option Uuid
  matching_code code [] = none
  matching_code code (entry ∷ rest) = elim (verify_password S code c.pepper entry.code_hash) [
    | ok _ ↦ some entry.code_id
    | stop _ ↦ matching_code code rest
  ]

  unfoldable pub recovery : Option VerifyRequest → Handler S Response
  recovery body = do
    req ← or_stop body (write_error 400 "invalid request body")
    stop_if (text_eq req.mfa_session_id [] || text_eq req.code [])
        (write_error 400 "mfa_session_id and recovery_code are required")
    user_id ← open_mfa_session req.mfa_session_id
    unused ← or_else (list_unused S user_id) (write_error 500 "failed to read recovery codes")
    code_id ← or_stop (matching_code req.code unused) (write_error 401 "invalid recovery code")
    or_else (mark_used S user_id code_id) (write_error 500 "failed to invalidate recovery code")
    u ← or_else (find_by_id S user_id) (write_error 500 "user not found")
    attempt (update_totp S user_id u.totp_secret false)
    access_token ←
        or_else (issue_access_token S c (S.uuid_text user_id) u.email u.email_verified c.issuer)
          (write_error 500 "failed to issue access token")
    refresh_token ← random_token S 32
    or_else (store_refresh_token S refresh_token (S.uuid_text user_id) refresh_token_ttl)
        (write_error 500 "failed to store refresh token")
    set_cookie S (set_refresh refresh_token)
    pure (respond 200 (recovered access_token))
