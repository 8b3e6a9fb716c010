-- ===== src/RecoveryCodes.antt =====
-- internal/user/recovery_codes.go: the hashed recovery codes of a user, one partition of the table
-- `user_recovery_codes`.
pub mod Use
use braza_sso.Prelude.{
  ℕ, suc, Bool, true, false, not, Option, none, some, List, [], ◌∷◌, ◌++◌, Text, Result, ok, stop,
  M, pure, ◌==◌, if◌then◌else◌, ◌>>=◌, ◌>>◌,
}
use braza_sso.Model.{Uuid, RecoveryCode}
use braza_sso.Env.Services.{Services}
use braza_sso.World.{World, Call, recovery_codes_call, new_uuid, now}

abbrev pub rows : Option (List RecoveryCode) → List RecoveryCode
rows none = []
rows (some codes) = codes

-- `WHERE used = false`
unfoldable pub unused : List RecoveryCode → List RecoveryCode
unused [] = []
unused (row ∷ rest) = if row.used then unused rest else row ∷ unused rest

-- `UPDATE … SET used = true` on the row of a code.
unfoldable pub use_code : Uuid → List RecoveryCode → List RecoveryCode
use_code id [] = record { code_id = id; code_hash = []; used = true } ∷ []
use_code id (row ∷ rest) =
    if row.code_id == id then record row { used = true } ∷ rest else row ∷ use_code id rest

module _ (S : Services) where
  unfoldable pub delete_codes : Uuid → Call S (Unit {0})
  unfolding recovery_codes_call
  delete_codes user_id =
      recovery_codes_call S (λ d. (ok tt, S.recovery_codes.upsert user_id (λ _. []) d))

  unfoldable pub insert_code : Uuid → RecoveryCode → Call S (Unit {0})
  unfolding recovery_codes_call
  insert_code user_id row =
      recovery_codes_call S
        (λ d. (ok tt, S.recovery_codes.upsert user_id (λ codes. rows codes ++ (row ∷ [])) d))

  -- The loop over the hashes; it ends at the first failure.
  unfoldable pub insert_codes : Uuid → List Text → Call S (Unit {0})
  unfolding new_uuid insert_code
  insert_codes user_id [] = pure tt
  insert_codes user_id (hash ∷ hashes) = do
    code_id ← new_uuid S
    insert_code user_id (record { code_id = code_id; code_hash = hash; used = false })
    insert_codes user_id hashes

  unfoldable pub replace_all : Uuid → List Text → Call S (Unit {0})
  unfolding delete_codes now insert_codes
  replace_all user_id hashes = do delete_codes user_id; now S; insert_codes user_id hashes

  unfoldable pub list_unused : Uuid → Call S (List RecoveryCode)
  unfolding recovery_codes_call unused
  list_unused user_id =
      recovery_codes_call S (λ d. (ok (unused (rows (S.recovery_codes.row d user_id))), d))

  unfoldable pub mark_used : Uuid → Uuid → Call S (Unit {0})
  unfolding recovery_codes_call use_code
  mark_used user_id code_id =
      recovery_codes_call S
        (λ d. (ok tt, S.recovery_codes.upsert user_id (λ codes. use_code code_id (rows codes)) d))
