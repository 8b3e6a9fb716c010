-- ===== src/Tests/SignIn.antt =====
-- The theorems on sign-in, applied.
use braza_sso.Prelude.{
  ℕ, suc, Text, codes, none, some, Option, List, [], ◌∷◌, ◌++◌, ◌+◌, inl, inr, ok, stop, refl, ◌≡◌,
  ◌≢◌, ◌≤◌, ◌<◌, true, false, arith, if◌then◌else◌, ltb, Result, text_eq,
}
use braza_sso.Http.{respond, write_error}
use braza_sso.Http.Documents.{value_of, json, number}
use braza_sso.Login
use braza_sso.Login.Access
use braza_sso.Login.Expiry
use braza_sso.Login.Inversion
use braza_sso.Login.Lockout
use braza_sso.Login.Pair
use braza_sso.Model.{User, Claims}
use braza_sso.Password.{verify_password}
use braza_sso.TokenStore.{
  store_refresh_token, consume_refresh_token, lookup_session_token, incr_login_attempts,
  login_attempts_key,
}
use braza_sso.Tests.{services, laws, config, with_alice, start, alice, address, secret}
use braza_sso.User.{find_by_email}
use braza_sso.World.{
  string, World, Response, Error, failure, hash_mismatch, login_response, mfa_required, set_refresh,
  set_session, Mail, account_locked,
}

abbrev request : Login.LoginRequest
request = record { email = address; password = secret }

abbrev wrong : Login.LoginRequest
wrong = record { email = address; password = codes "x" }

-- The answer to the request, whose token the toy signer makes of the subject and the audience.
abbrev answer : Response
answer = respond 200 (login_response (5 ∷ codes "https://sso"))

login_ok_example :
    (u : User) × ((find_by_email services address with_alice).0 ≡ ok u)
    × ((Login.is_locked services config {E = Response} u.locked_until
          (find_by_email services address with_alice).1).0
        ≡ ok false)
    × (verify_password services secret config.pepper u.password_hash ≡ ok tt)
    × Inversion.FitsSecondFactor u answer
unfolding Login.login braza_sso.Prelude.text_eq Login.normalize_email find_by_email
    braza_sso.World.deliver Login.is_locked Login.check_credentials verify_password
    braza_sso.Password.encode_hash Login.authenticated Login.reset_attempts Login.issue_token_pair
    braza_sso.Jwt.issue_access_token braza_sso.TokenStore.random_token store_refresh_token
    braza_sso.World.set_cookie braza_sso.TokenStore.store_session_token
login_ok_example = Inversion.login_ok services config request with_alice answer refl

issue_token_pair-live_example :
    ((Login.issue_token_pair services config alice start).1.cookies
      ≡ set_refresh (Pair.new_refresh services config start)
        ∷ set_session (Pair.new_session services config start)
        ∷ [])
    × ((consume_refresh_token services
          (Pair.new_refresh services config start)
          (Login.issue_token_pair services config alice start).1).0
        ≡ ok (5 ∷ []))
    × ((lookup_session_token services
          (Pair.new_session services config start)
          (Login.issue_token_pair services config alice start).1).0
        ≡ ok (5 ∷ []))
unfolding Login.issue_token_pair braza_sso.Jwt.issue_access_token braza_sso.TokenStore.random_token
    store_refresh_token braza_sso.World.deliver braza_sso.World.set_cookie
    braza_sso.TokenStore.store_session_token
issue_token_pair-live_example =
    Pair.issue_token_pair-live services config laws alice start
      (Login.issue_token_pair services config alice start).1 {r = answer} refl refl (ground arith)
      (ground arith) refl

login-refused_example :
    ((Login.login services config (some wrong) with_alice).0
      ≡ stop (write_error 401 "invalid credentials"))
    × ((Login.login services config (some wrong) with_alice).1.cookies ≡ [])
unfolding Login.normalize_email find_by_email braza_sso.Prelude.text_eq braza_sso.World.deliver
    Login.is_locked verify_password braza_sso.Password.encode_hash
login-refused_example =
    Access.login-refused services config wrong with_alice refl refl
      (inr (alice, hash_mismatch, refl, refl, refl))

-- Four failures have been counted.
abbrev fourth : World services
fourth = record with_alice { redis = record with_alice.redis { counts = λ k. (4, none) } }

lockout_example :
    (Login.login services config
      (some request)
      (Login.check_credentials services config alice (codes "x") fourth).1).0
    ≡ stop (write_error 403 "account is temporarily locked")
unfolding Login.normalize_email find_by_email Login.check_credentials verify_password
    braza_sso.Password.encode_hash braza_sso.Prelude.text_eq Login.refuse
    Login.handle_failed_attempt incr_login_attempts braza_sso.World.deliver Login.lock_for
    login_attempts_key braza_sso.World.now braza_sso.World.send_mail
    braza_sso.User.update_failed_attempts
lockout_example =
    Lockout.lockout services config laws (λ _. refl) alice (codes "x") {e = hash_mismatch} request
      fourth (Login.check_credentials services config alice (codes "x") fourth).1 refl
      (ground arith) refl refl refl refl (ground arith)

issue_token_pair-expires_in_example :
    (claims : Claims) × (t : Text) × (services.sign claims ≡ some t)
    × (claims.issued_at ≡ 0)
    × (claims.expires_at ≡ 900)
    × (value_of "access_token" answer.body ≡ some (json (string t)))
    × (value_of "expires_in" answer.body ≡ some (number 900))
unfolding Login.issue_token_pair braza_sso.Jwt.issue_access_token braza_sso.TokenStore.random_token
    store_refresh_token braza_sso.World.deliver braza_sso.World.set_cookie
    braza_sso.TokenStore.store_session_token
issue_token_pair-expires_in_example =
    Expiry.issue_token_pair-expires_in services config alice start {r = answer} refl
