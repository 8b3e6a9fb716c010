-- ===== src/RecoveryCodes/Use.antt =====
-- A recovery code that was used is not listed again.
use braza_sso.Prelude.{
  ◌≡◌, refl, Bool, false, ◌||◌, ◌&&◌, not, List, [], ◌∷◌, ok, arith, ◌==◌, if◌then◌else◌,
}
use braza_sso.Env.Services.{Services, ServiceLaws, delivered}
use braza_sso.Model.{Uuid, RecoveryCode}
use braza_sso.RecoveryCodes.{unused, use_code, rows, list_unused, mark_used}
use braza_sso.World.{World, deliver}

-- The rows without those of a code.
abbrev pub without_code : Uuid → List RecoveryCode → List RecoveryCode
without_code id [] = []
without_code id (row ∷ l) =
    let rest = without_code id l in if row.code_id == id then rest else row ∷ rest

-- Whether a code has a row.
abbrev pub has_row : Uuid → List RecoveryCode → Bool
has_row id [] = false
has_row id (row ∷ l) = row.code_id == id || has_row id l

-- No code has two rows.
abbrev pub IsKeyed : List RecoveryCode → Type 0
IsKeyed [] = Unit {0}
IsKeyed (row ∷ l) = (has_row row.code_id l ≡ false) × IsKeyed l

without_absent :
    (id : Uuid) (l : List RecoveryCode)
    → has_row id l ≡ false
    → without_code id (unused l) ≡ unused l
unfolding unused
without_absent id [] h = refl
without_absent id (row ∷ l) h = ground (arith, without_absent id l)

unused-use_code :
    (id : Uuid) (l : List RecoveryCode)
    → IsKeyed l
    → unused (use_code id l) ≡ without_code id (unused l)
unfolding unused use_code
unused-use_code id [] k = refl
unused-use_code id (row ∷ l) (fresh, k) =
    ground (arith, unused-use_code id l k, without_absent id l)

-- Whether the row of a code is there and not used.
abbrev pub is_open : Uuid → List RecoveryCode → Bool
is_open id [] = false
is_open id (row ∷ l) = let rest = is_open id l in if row.code_id == id then not row.used else rest

is_open-use_code :
    (other id : Uuid) (l : List RecoveryCode)
    → is_open other (use_code id l) ≡ (not (other == id) && is_open other l)
unfolding use_code
is_open-use_code other id [] = ground arith
is_open-use_code other id (row ∷ l) = ground (arith, is_open-use_code other id l)

module _ (S : Services) (L : ServiceLaws S) where
  -- After a code is marked as used with success, where no code has two rows, the list of unused
  -- codes, once a call for it is answered, is what it was less that code.
  pub mark_used-list_unused :
      (user id : Uuid) (w w' : World S) {l : List RecoveryCode}
      → IsKeyed (rows (S.recovery_codes.row w.recovery_codes user))
      → (mark_used S user id w).0 ≡ ok tt
      → (list_unused S user w).0 ≡ ok l
      → w'.recovery_codes ≡ (mark_used S user id w).1.recovery_codes
      → S.fault w'.tick ≡ delivered
      → (list_unused S user w').0 ≡ ok (without_code id l)
  unfolding mark_used list_unused deliver
  mark_used-list_unused user id w w' keyed done listed same fate = ground (
    arith,
    L.recovery_codes.row-upsert user (λ codes. use_code id (rows codes)) w.recovery_codes,
    unused-use_code id (rows (S.recovery_codes.row w.recovery_codes user)) keyed,
  )

  -- A mark that succeeds closes the code, and leaves the others as they were.
  pub mark_used-is_open :
      (user id other : Uuid) (w : World S)
      → (mark_used S user id w).0 ≡ ok tt
      → is_open other (rows (S.recovery_codes.row (mark_used S user id w).1.recovery_codes user))
        ≡ (not (other == id) && is_open other (rows (S.recovery_codes.row w.recovery_codes user)))
  unfolding mark_used deliver
  mark_used-is_open user id other w h = ground (
    arith,
    L.recovery_codes.row-upsert user (λ codes. use_code id (rows codes)) w.recovery_codes,
    is_open-use_code other id (rows (S.recovery_codes.row w.recovery_codes user)),
  )
