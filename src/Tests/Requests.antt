-- ===== src/Tests/Requests.antt =====
-- The theorems on the other requests of an account, applied.
use braza_sso.Prelude.{
  ℕ, Text, codes, none, some, ◌&&◌, ◌==◌, not, List, [], ◌∷◌, ok, refl, ◌≡◌, ◌≢◌, false, arith,
  text_eq,
}
use braza_sso.Cookies.SignIns
use braza_sso.Jwt.{verify_access_token}
use braza_sso.Go.Utf8
use braza_sso.Http.{serve, respond, write_message}
use braza_sso.Middleware
use braza_sso.Middleware.Limiter
use braza_sso.Model
use braza_sso.Model.{RecoveryCode, Claims, IdClaims}
use braza_sso.Federation
use braza_sso.Federation.Accounts
use braza_sso.Federation.Callback
use braza_sso.User
use braza_sso.Password
use braza_sso.Password.Policy
use braza_sso.PasswordReset
use braza_sso.PasswordReset.Outcomes
use braza_sso.RecoveryCodes
use braza_sso.RecoveryCodes.Use.{is_open}
use braza_sso.Register
use braza_sso.Register.Uniform
use braza_sso.TokenStore
use braza_sso.Totp
use braza_sso.Totp.SecondFactor
use braza_sso.Tests.Hashes.{hash_laws}
use braza_sso.Tests.{services, laws, config, with_alice, start, address}
use braza_sso.User.{find_by_email, update_password}
use braza_sso.World.{set_refresh, World, Response, Handler, Error, login_response, recovered}

-- The violations of a password of one digit.
validate_password_policy_lem_example :
    Password.validate_password_policy services (codes "7")
    ≡ Password.too_short ∷ Password.no_uppercase ∷ Password.no_lowercase ∷ Password.no_special ∷ []
unfolding Utf8.runes
validate_password_policy_lem_example = Policy.validate_password_policy_lem services (codes "7")

abbrev reset_token : Text
reset_token = codes "t"

abbrev resettable : World services
resettable = record with_alice {
  redis =
      (TokenStore.set_key services (TokenStore.password_reset_key reset_token) (5 ∷ []) 60
        start).1.redis;
}

abbrev reset_body : PasswordReset.ResetBody
reset_body = record { token = reset_token; password = codes "Another-98765" }

reset_ok_example :
    (Password.validate_password_policy services (codes "Another-98765") ≡ [])
    × ((text : Text) × (id : ℕ) × (row : Model.User) × ((TokenStore.consume_password_reset_token
            services reset_token resettable).0
          ≡ ok text)
        × (services.uuid_parse text ≡ some id)
        × (services.users.row
              (PasswordReset.reset services config (some reset_body) resettable).1.users
              id
            ≡ some row)
        × (Password.verify_password services (codes "Another-98765") config.pepper row.password_hash
            ≡ ok tt)
        × (row.locked_until ≡ none))
unfolding PasswordReset.reset TokenStore.set_key text_eq Password.validate_password_policy
    TokenStore.consume_password_reset_token braza_sso.World.deliver TokenStore.password_reset_key
    Password.hash_password update_password
reset_ok_example =
    Outcomes.reset_ok services config laws hash_laws reset_body resettable
      {r = write_message "password updated"} refl

abbrev sign_up : Register.RegisterRequest
sign_up = record { email = address; password = codes "Another-98765" }

abbrev session : World services
session = (TokenStore.store_session_token services (codes "s") (5 ∷ []) start).1

abbrev one_request : World services
one_request = (Middleware.allow services {E = Response} (codes "k") 1 60 start).1

allow-Steady_example :
    (Middleware.allow services {E = Response} (codes "k") 1 60 one_request).0 ≡ ok (false, 2)
unfolding Middleware.allow braza_sso.TokenStore.incr_expire braza_sso.World.deliver
allow-Steady_example =
    Limiter.allow-Steady services laws {n = 1} {t = 0} {w = one_request} (codes "k") 1 60
      one_request (Limiter.first start refl refl) refl (ground arith) (ground arith) refl

abbrev second_step : World services
second_step = record with_alice {
  redis = (TokenStore.store_mfa_session services (codes "m") (5 ∷ []) 300 start).1.redis;
}

abbrev code_request : Totp.VerifyRequest
code_request = record { mfa_session_id = codes "m"; code = codes "123456" }

abbrev recovery_request : Totp.VerifyRequest
recovery_request = record { mfa_session_id = codes "m"; code = codes "rc" }

recovery_ok_example :
    (text : Text) × (id : ℕ) × (l : List RecoveryCode) × (row : RecoveryCode)
    × ((TokenStore.consume_mfa_session services (codes "m") second_step).0 ≡ ok text)
    × (services.uuid_parse text ≡ some id)
    × ((RecoveryCodes.list_unused services id
          (Totp.open_mfa_session services config (codes "m") second_step).1).0
        ≡ ok l)
    × SecondFactor.IsRow l row
    × (Password.verify_password services (codes "rc") config.pepper row.code_hash ≡ ok tt)
    × (is_open 9 (
          RecoveryCodes.rows (
            services.recovery_codes.row
              (Totp.recovery services config (some recovery_request) second_step).1.recovery_codes
              id))
        ≡ (not (9 == row.code_id)
            && is_open 9
                (RecoveryCodes.rows (services.recovery_codes.row second_step.recovery_codes id))))
unfolding Totp.recovery text_eq Totp.open_mfa_session TokenStore.consume_mfa_session
    braza_sso.World.deliver TokenStore.store_mfa_session TokenStore.mfa_session_key
    RecoveryCodes.list_unused Totp.matching_code Password.verify_password Password.encode_hash
    RecoveryCodes.mark_used braza_sso.User.find_by_id braza_sso.Jwt.issue_access_token
    TokenStore.random_token TokenStore.store_refresh_token braza_sso.World.set_cookie
recovery_ok_example =
    SecondFactor.recovery_ok services config laws recovery_request second_step 9
      {r = respond 200 (recovered (5 ∷ codes "https://sso"))} refl

abbrev from_google : World services
from_google = record start {
  redis = (TokenStore.set_state services (codes "st") (codes "/") start).1.redis;
}

google_callback_ok_example :
    (return_to : Text) × (raw : Text) × (claims : IdClaims) × (u : Model.User) × (a : Claims)
    × (t : Text) × ((TokenStore.consume_state services (codes "st") from_google).0 ≡ ok return_to)
    × (services.exchange 1 (codes "g@h") ≡ some raw)
    × (services.verify_id_token 2 raw ≡ some (some claims))
    × (claims.email ≢ [])
    × Accounts.IsAccountOf services config claims
        (Callback.checked services config (codes "st") from_google)
        u
    × (respond 200 (login_response (4 ∷ codes "https://sso")) ≡ respond 200 (login_response t))
    × (services.sign a ≡ some t)
    × (a.subject ≡ services.uuid_text u.id)
unfolding Federation.google_callback TokenStore.consume_state braza_sso.World.deliver
    TokenStore.set_state text_eq TokenStore.state_key Federation.ask Federation.find_or_create_user
    find_by_email braza_sso.World.new_uuid Federation.after_create User.create
    braza_sso.Jwt.issue_access_token TokenStore.random_token TokenStore.store_refresh_token
    braza_sso.World.set_cookie Federation.refetch
google_callback_ok_example =
    Callback.google_callback_ok services config laws (codes "st") (codes "g@h") from_google
      {r = respond 200 (login_response (4 ∷ codes "https://sso"))} refl

OtherSignIn-cookies_example :
    (t : Text) × ((serve services
        (Totp.verify services config (some code_request))
        second_step).1.cookies
      ≡ set_refresh t ∷ [])
unfolding Totp.verify text_eq Totp.open_mfa_session TokenStore.consume_mfa_session
    braza_sso.World.deliver TokenStore.store_mfa_session TokenStore.mfa_session_key User.find_by_id
    Totp.validate_code braza_sso.World.now Totp.issue_token_pair_for_user
    braza_sso.Jwt.issue_access_token TokenStore.random_token TokenStore.store_refresh_token
    braza_sso.World.set_cookie
OtherSignIn-cookies_example =
    SignIns.OtherSignIn-cookies services config second_step
      {r = respond 200 (login_response (5 ∷ codes "https://sso"))}
      (SignIns.with_code (some code_request)) refl
