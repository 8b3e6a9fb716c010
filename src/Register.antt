-- ===== src/Register.antt =====
-- internal/auth/register.go: sign-up and the verification of the address.
pub mod Uniform
use braza_sso.Prelude.{
  ℕ, ◌*◌, Bool, false, Option, none, some, List, [], ◌∷◌, ◌++◌, map, Text, codes, text_eq, Result,
  ok, stop, M, pure, leave, stop_if, or_stop, or_else, attempt, ◌>>=◌, ◌>>◌,
}
use braza_sso.Model.{Uuid, User, zero_user}
use braza_sso.Env.Services.{Services}
use braza_sso.Http.{respond, write_error, write_message, write_header}
use braza_sso.Jwt.{Config}
use braza_sso.Login.{normalize_email}
use braza_sso.Password.{PolicyViolation, validate_password_policy, hash_password}
use braza_sso.TokenStore.{day, create_email_verification_token, consume_email_verification_token}
use braza_sso.User.{find_by_email, create, set_email_verified}
use braza_sso.World.{
  World, Error, email_taken, Response, Handler, new_uuid, send_mail, verification, weak_password,
}

abbrev pub email_verify_ttl : ℕ
email_verify_ttl = 24 * 3600

pub record RegisterRequest : Type 0 where
  pub email : Text
  pub password : Text

-- The messages of the violations, if there are any.
abbrev pub reject_weak : {W : Type 0} → List PolicyViolation → M W Response (Unit {0})
reject_weak [] w = (ok tt, w)
reject_weak (v ∷ vs) w = (stop (respond 422 (weak_password (map (λ p. p.message) (v ∷ vs)))), w)

-- `if err == user.ErrEmailTaken { 201 } …; 500`
abbrev creation_error : Error → Response
creation_error email_taken = write_header 201
creation_error _ = write_error 500 "failed to create account"

module _ (S : Services) (c : Config) where
  -- A token for the address, and the mail with its link; without a token there is no mail.
  unfoldable pub send_verification : User → Response → Handler S Response
  send_verification u r = do
    token ← or_else (create_email_verification_token S (S.uuid_text u.id) email_verify_ttl) r
    send_mail S (verification u.email (c.base_url ++ (codes "/auth/verify-email?token=" ++ token)))
    pure r

  unfoldable pub after_creation : User → Result Error (Unit {0}) → Handler S Response
  after_creation u (stop e) = leave (creation_error e)
  after_creation u (ok _) = send_verification u (write_header 201)

  unfoldable pub register : Option RegisterRequest → Handler S Response
  register body = do
    req ← or_stop body (write_error 400 "invalid request body")
    let email = normalize_email req.email
    stop_if (text_eq email []) (write_error 400 "email is required")
    reject_weak (validate_password_policy S req.password)
    hash ← hash_password S req.password c.pepper
    id ← new_uuid S
    let u = record (zero_user id) { email = email; password_hash = hash }
    created ← attempt (create S u)
    after_creation u created

  -- The argument is the query's token, empty if there is none.
  unfoldable pub verify_email : Text → Handler S Response
  verify_email token = do
    stop_if (text_eq token []) (write_error 400 "token is required")
    user_id_text ←
        or_else (consume_email_verification_token S token)
          (write_error 400 "token not found or expired")
    user_id ← or_stop (S.uuid_parse user_id_text) (write_error 500 "invalid stored user id")
    or_else (set_email_verified S user_id) (write_error 500 "failed to verify email")
    pure (write_message "email verified")

  unfoldable pub resend_verification : Option Text → Handler S Response
  resend_verification body = do
    email ← or_stop body (write_error 400 "invalid request body")
    u ← or_else (find_by_email S (normalize_email email)) (write_header 200)
    stop_if u.email_verified (write_header 200)
    send_verification u (write_header 200)
