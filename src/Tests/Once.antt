-- ===== src/Tests/Once.antt =====
-- The theorems on tokens that are good once, applied.
use braza_sso.Prelude.{ℕ, arith, Text, codes, some, [], ◌∷◌, ok, refl, ◌≡◌, ◌≢◌, false, text_eq}
use braza_sso.Go.Base64
use braza_sso.Http.{serve, respond, write_message}
use braza_sso.Login.{refresh, refresh_token_ttl}
use braza_sso.Oauth.Handlers.{TokenForm, handle_auth_code, auth_code_key}
use braza_sso.PasswordReset.{ResetBody, reset}
use braza_sso.Run.{drawn}
use braza_sso.Run.Once.{IsFresh}
use braza_sso.Run.Once.Codes
use braza_sso.Run.Once.Refresh
use braza_sso.Run.Once.Reset
use braza_sso.Run.Once.SecondFactor
use braza_sso.Run.Once.SecondFactor.{by_code, by_recovery, step}
use braza_sso.Run.Requests.{begin, request}
use braza_sso.Server.{handle}
use braza_sso.Tests.{services, laws, config, with_alice, start}
use braza_sso.Tests.Service.{router, sign_in}
use braza_sso.TokenStore.{
  consume_refresh_token, set_key, store_refresh_token, password_reset_key, mfa_session_key,
}
use braza_sso.Totp.{VerifyRequest}
use braza_sso.World.{World, Response, login_response, token_response}

-- A text of one character is no longer one.
longer_differs : (a p q : ℕ) (l : Text) → text_eq (a ∷ []) (p ∷ q ∷ l) ≡ false
unfolding text_eq
longer_differs a p q l = ground arith

t-IsFresh : (n : ℕ) → IsFresh services n 32 (codes "t")
unfolding drawn Base64.encode
t-IsFresh n i le = longer_differs _ _ _ _

k-IsFresh : (n : ℕ) → IsFresh services n 24 (codes "k")
unfolding drawn Base64.encode
k-IsFresh n i le = longer_differs _ _ _ _

-- The state after a sign-in.
abbrev then_sign_in : World services → World services
then_sign_in w = (serve services (handle services config router false sign_in) w).1

abbrev signed_in : World services
signed_in = (store_refresh_token services (codes "t") (5 ∷ []) 60 with_alice).1

refresh-Served_example :
    (refresh services config
      (some (codes "t"))
      (then_sign_in (refresh services config (some (codes "t")) signed_in).1)).0
    ≢ ok (respond 200 (login_response []))
unfolding refresh braza_sso.TokenStore.consume_refresh_token braza_sso.World.deliver
    store_refresh_token text_eq braza_sso.TokenStore.refresh_key braza_sso.User.find_by_id
    braza_sso.Login.issue_token_pair braza_sso.Jwt.issue_access_token
    braza_sso.TokenStore.random_token braza_sso.World.set_cookie
    braza_sso.TokenStore.store_session_token
refresh-Served_example =
    Refresh.refresh-Served services laws config (codes "t") signed_in
      (then_sign_in (refresh services config (some (codes "t")) signed_in).1)
      {r = respond 200 (login_response (5 ∷ codes "https://sso"))} (respond 200 (login_response []))
      (t-IsFresh _) refl (request router false sign_in begin)

abbrev form : TokenForm
form = record {
  grant_type = codes "authorization_code";
  code = codes "k";
  redirect_uri = codes "https://app/cb";
  client_id = codes "app";
  code_verifier = [];
  client_secret = codes "abc";
}

abbrev with_code : World services
with_code = record with_alice {
  redis = (set_key services (auth_code_key (codes "k")) (codes "app") 60 start).1.redis;
}

handle_auth_code-Served_example :
    (handle_auth_code services config form
      (then_sign_in (handle_auth_code services config form with_code).1)).0
    ≢ ok (respond 200 (token_response [] []))
unfolding handle_auth_code braza_sso.TokenStore.get_del braza_sso.World.deliver set_key text_eq
    auth_code_key braza_sso.Oauth.Handlers.grant_fits braza_sso.User.find_by_id
    braza_sso.Jwt.issue_access_token
handle_auth_code-Served_example =
    Codes.handle_auth_code-Served services laws config form form with_code
      (then_sign_in (handle_auth_code services config form with_code).1)
      {r = respond 200 (token_response (1 ∷ codes "app") (1 ∷ codes "app"))}
      (respond 200 (token_response [] [])) refl (k-IsFresh _) refl
      (request router false sign_in begin)

abbrev resettable : World services
resettable = record with_alice {
  redis = (set_key services (password_reset_key (codes "t")) (5 ∷ []) 60 start).1.redis;
}

abbrev body : ResetBody
body = record { token = codes "t"; password = codes "Another-98765" }

reset-Served_example :
    (reset services config
      (some body)
      (then_sign_in (reset services config (some body) resettable).1)).0
    ≢ ok (write_message "password updated")
unfolding reset text_eq braza_sso.Password.validate_password_policy
    braza_sso.TokenStore.consume_password_reset_token braza_sso.World.deliver set_key
    password_reset_key
reset-Served_example =
    Reset.reset-Served services laws config body body resettable
      (then_sign_in (reset services config (some body) resettable).1) {text = 5 ∷ []}
      (write_message "password updated") refl (t-IsFresh _) refl refl refl
      (request router false sign_in begin)

abbrev second_step : World services
second_step = record with_alice {
  redis = (set_key services (mfa_session_key (codes "t")) (5 ∷ []) 300 start).1.redis;
}

-- A wrong code, and then a right one.
abbrev wrong : VerifyRequest
wrong = record { mfa_session_id = codes "t"; code = codes "000000" }

abbrev right : VerifyRequest
right = record { mfa_session_id = codes "t"; code = codes "123456" }

step-Served_example :
    (step services config by_code right
      (then_sign_in (step services config by_code wrong second_step).1)).0
    ≢ ok (respond 200 (login_response (5 ∷ codes "https://sso")))
unfolding text_eq braza_sso.TokenStore.consume_mfa_session braza_sso.World.deliver set_key
    mfa_session_key
step-Served_example =
    SecondFactor.step-Served services laws config by_code by_code wrong right second_step
      (then_sign_in (step services config by_code wrong second_step).1) {text = 5 ∷ []}
      (respond 200 (login_response (5 ∷ codes "https://sso"))) refl (t-IsFresh _) refl refl
      (request router false sign_in begin)
