-- ===== src/PasswordReset.antt =====
-- internal/auth/password_reset.go: asking for a reset link, and setting a new password with it.
pub mod Outcomes
use braza_sso.Prelude.{
  ℕ, ◌*◌, Option, [], ◌++◌, Text, codes, text_eq, M, pure, stop_if, or_stop, or_else, attempt,
  ◌>>=◌, ◌>>◌,
}
use braza_sso.Model.{Uuid}
use braza_sso.Env.Services.{Services}
use braza_sso.Http.{write_error, write_message, write_header}
use braza_sso.Jwt.{Config}
use braza_sso.Login.{normalize_email}
use braza_sso.Password.{validate_password_policy, hash_password}
use braza_sso.Register.{reject_weak}
use braza_sso.TokenStore.{
  hour, create_password_reset_token, consume_password_reset_token, revoke_all_user_sessions,
}
use braza_sso.User.{find_by_email, update_password}
use braza_sso.World.{Response, Handler, send_mail, password_reset}

abbrev pub password_reset_ttl : ℕ
password_reset_ttl = 1 * hour

pub record ResetBody : Type 0 where
  pub token : Text
  pub password : Text

module _ (S : Services) (c : Config) where
  unfoldable pub reset_request : Option Text → Handler S Response
  reset_request body = do
    email ← or_stop body (write_header 200)
    u ← or_else (find_by_email S (normalize_email email)) (write_header 200)
    token ←
        or_else (create_password_reset_token S (S.uuid_text u.id) password_reset_ttl)
          (write_header 200)
    send_mail S
        (password_reset u.email (c.base_url ++ (codes "/auth/password/reset?token=" ++ token)))
    pure (write_header 200)

  unfoldable pub reset : Option ResetBody → Handler S Response
  reset body = do
    req ← or_stop body (write_error 400 "invalid request body")
    stop_if (text_eq req.token []) (write_error 400 "token is required")
    reject_weak (validate_password_policy S req.password)
    user_id_text ←
        or_else (consume_password_reset_token S req.token)
          (write_error 400 "token not found or expired")
    user_id ← or_stop (S.uuid_parse user_id_text) (write_error 500 "invalid stored user id")
    hash ← hash_password S req.password c.pepper
    or_else (update_password S user_id hash) (write_error 500 "failed to update password")
    attempt (revoke_all_user_sessions S user_id_text)
    pure (write_message "password updated")
