-- ===== src/Federation.antt =====
-- internal/auth/federation.go: sign-in with Google, and internal/user/federated_identity.go.
pub mod Accounts
pub mod Callback
use braza_sso.Prelude.{
  Bool, true, false, M, choose, ℕ, suc, Option, none, some, [], Text, codes, text_eq, Result, ok,
  stop, pure, leave, stop_if, or_stop, or_else, attempt, on_result, ◌>>=◌, ◌>>◌,
}
use braza_sso.Model.{Uuid, User, IdClaims, zero_user}
use braza_sso.Env.Services.{Services}
use braza_sso.Http.{respond, http_error, redirect_to}
use braza_sso.Jwt.{Config, issue_access_token}
use braza_sso.Login.{refresh_token_ttl}
use braza_sso.TokenStore.{random_token, set_state, consume_state, store_refresh_token}
use braza_sso.User.{find_by_email, create}
use braza_sso.World.{
  World, Error, email_taken, Response, Handler, Call, identities_call, now, new_uuid, set_cookie,
  set_refresh, login_response,
}

abbrev pub random_state_token : (S : Services) {E : Type 0} → M (World S) E Text
random_state_token S = random_token S 16

-- `err == user.ErrEmailTaken`
abbrev pub is_taken : Error → Bool
is_taken email_taken = true
is_taken _ = false

module _ (S : Services) (c : Config) where
  unfoldable pub upsert_identity : Uuid → Text → Text → Text → Call S (Unit {0})
  upsert_identity user_id provider provider_user_id email = do
    t ← now S
    identities_call S (λ _ d. (
      ok tt,
      S.identities.upsert (user_id, provider)
          (λ _. record { provider_user_id = provider_user_id; email = email; linked_at = t }) d,
    ))

  -- The account to go on with once it was created or its address was taken meanwhile: the re-fetch
  -- tests the error of the first lookup, which is never `ErrEmailTaken`.
  unfoldable pub refetch : User → Error → Call S User
  refetch u err = choose (is_taken err) (find_by_email S u.email) (pure u)

  unfoldable pub after_create : User → Error → Result Error (Unit {0}) → Call S User
  after_create u err created =
      on_result created (λ _. refetch u err) (λ e. choose (is_taken e) (refetch u err) (leave e))

  unfoldable pub find_or_create_user : IdClaims → Call S User
  find_or_create_user claims = do
    existing ← attempt (find_by_email S claims.email)
    on_result existing (λ u. pure u)
        (λ err. do
          id ← new_uuid S
          let u = record (zero_user id) {
            email = claims.email;
            email_verified = claims.email_verified;
          }
          created ← attempt (create S u)
          after_create u err created)

  unfoldable pub google_redirect : Text → Handler S Response
  google_redirect return_to = do
    state ← random_state_token S
    or_else (set_state S state return_to) (http_error 500 "{\"error\":\"internal error\"}")
    pure (redirect_to (S.auth_code_url state))

  -- The exchange with Google, and the check of the ID token, each at a tick of its own.
  unfoldable pub ask : {A : Type 0} → (ℕ → Option A) → Response → Handler S A
  ask f r w = elim (f w.tick) [
    | none ↦ (stop r, record w { tick = suc w.tick })
    | some a ↦ (ok a, record w { tick = suc w.tick })
  ]

  unfoldable pub google_callback : Text → Text → Handler S Response
  google_callback state code = do
    or_else (consume_state S state) (http_error 400 "{\"error\":\"invalid state\"}")
    raw_id_token ←
        ask (λ t. S.exchange t code) (http_error 400 "{\"error\":\"code exchange failed\"}")
    stop_if (text_eq raw_id_token [])
        (http_error 400 "{\"error\":\"id_token missing from response\"}")
    id_token ←
        ask (λ t. S.verify_id_token t raw_id_token)
          (http_error 401 "{\"error\":\"id_token verification failed\"}")
    claims ← or_stop id_token (http_error 500 "{\"error\":\"failed to parse id_token claims\"}")
    stop_if (text_eq claims.email []) (http_error 400 "{\"error\":\"email missing from id_token\"}")
    u ←
        or_else (find_or_create_user claims)
          (http_error 500 "{\"error\":\"account creation failed\"}")
    attempt (upsert_identity u.id (codes "google") claims.sub claims.email)
    access_token ←
        or_else (issue_access_token S c (S.uuid_text u.id) u.email u.email_verified c.issuer)
          (http_error 500 "{\"error\":\"token issuance failed\"}")
    refresh_token ← random_token S 32
    or_else (store_refresh_token S refresh_token (S.uuid_text u.id) refresh_token_ttl)
        (http_error 500 "{\"error\":\"failed to store session\"}")
    set_cookie S (set_refresh refresh_token)
    pure (respond 200 (login_response access_token))
