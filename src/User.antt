-- ===== src/User.antt =====
-- internal/user/repository.go: accounts in the table `users`, and the lookup table
-- `users_by_email`. INSERT and UPDATE assign columns; an UPDATE of a missing row makes one.
pub mod Lookup
use braza_sso.Prelude.{
  ℕ, Bool, true, Option, none, some, Text, ok, stop, leave, on_result, attempt, ◌>>=◌, ◌>>◌,
}
use braza_sso.Model.{Uuid, Time, User, zero_user}
use braza_sso.Env.Services.{Services}
use braza_sso.World.{user_not_found, email_taken, Call, users_call, users_by_email_call, now}

-- The row that an UPDATE starts from.
abbrev pub row_of : Uuid → Option User → User
row_of id none = zero_user id
row_of id (some u) = u

module _ (S : Services) where
  unfoldable pub find_by_id : Uuid → Call S User
  unfolding users_call
  find_by_id id = users_call S λ t d. elim (S.users.row d id) [
    | none ↦ (stop user_not_found, d)
    | some u ↦ (ok (record u { id = id }), d)
  ]

  unfoldable pub lookup_email : Text → Call S Uuid
  unfolding users_by_email_call
  lookup_email email = users_by_email_call S λ d. elim (S.users_by_email.row d email) [
    | none ↦ (stop user_not_found, d)
    | some id ↦ (ok id, d)
  ]

  unfoldable pub find_by_email : Text → Call S User
  unfolding lookup_email find_by_id
  find_by_email email = do id ← lookup_email email; find_by_id id

  unfoldable pub insert_user : User → Call S (Unit {0})
  unfolding users_call
  insert_user u = users_call S (λ t d. (ok tt, S.users.upsert u.id (λ _. u) d))

  unfoldable pub insert_email : Text → Uuid → Call S (Unit {0})
  unfolding users_by_email_call
  insert_email email id =
      users_by_email_call S (λ d. (ok tt, S.users_by_email.upsert email (λ _. id) d))

  -- Any error of the lookup, and not only `ErrNotFound`, lets the insert go ahead.
  unfoldable pub create : User → Call S (Unit {0})
  unfolding find_by_email now insert_user insert_email
  create u = do
    existing ← attempt (find_by_email u.email)
    on_result existing (λ _. leave email_taken)
        (λ _. do
          t ← now S
          insert_user (record u { created_at = t; updated_at = t })
          insert_email u.email u.id)

  -- `UPDATE users SET …, updated_at = now WHERE user_id = id`
  unfoldable pub update_user : Uuid → (User → User) → Call S (Unit {0})
  unfolding now users_call
  update_user id f = do
    t ← now S
    users_call S
        (λ _ d. (ok tt, S.users.upsert id (λ r. record (f (row_of id r)) { updated_at = t }) d))

  unfoldable pub set_email_verified : Uuid → Call S (Unit {0})
  unfolding update_user
  set_email_verified id = update_user id (λ u. record u { email_verified = true })

  unfoldable pub update_failed_attempts : Uuid → ℕ → Option Time → Call S (Unit {0})
  unfolding update_user
  update_failed_attempts id attempts locked_until =
      update_user id (λ u. record u { failed_attempts = attempts; locked_until = locked_until })

  unfoldable pub update_failed_attempts_reset : Uuid → Call S (Unit {0})
  unfolding update_user
  update_failed_attempts_reset id =
      update_user id (λ u. record u { failed_attempts = 0; locked_until = none })

  unfoldable pub update_password : Uuid → Text → Call S (Unit {0})
  unfolding update_user
  update_password id hash =
      update_user id
        (λ u. record u { password_hash = hash; failed_attempts = 0; locked_until = none })

  unfoldable pub update_totp : Uuid → Text → Bool → Call S (Unit {0})
  unfolding update_user
  update_totp id secret enabled =
      update_user id (λ u. record u { totp_secret = secret; totp_enabled = enabled })
