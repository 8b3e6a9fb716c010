-- ===== src/Totp/SecondFactor.antt =====
-- What a sign-in with a second factor has checked, and what one attempt costs.
use braza_sso.Prelude.{
  ◌≡◌, ◌∙◌, ◌&&◌, ◌==◌, not, Bool, refl, true, some, List, [], ◌∷◌, Text, Result, ok, arith,
  Result-cases, Option-cases, inl, inr, ◌⊎◌,
}
use braza_sso.Env.Services.{Services, ServiceLaws}
use braza_sso.Jwt.{Config, issue_access_token}
use braza_sso.Model.{Uuid, User, RecoveryCode}
use braza_sso.Password.{verify_password}
use braza_sso.RecoveryCodes.{list_unused, mark_used, rows}
use braza_sso.RecoveryCodes.Use.{is_open, mark_used-is_open}
use braza_sso.TokenStore.{consume_mfa_session, get_del, random_token, store_refresh_token}
use braza_sso.Totp.{VerifyRequest, verify, recovery, open_mfa_session, validate_code, matching_code}
use braza_sso.User.{find_by_id, update_totp, update_user}
use braza_sso.World.{World, Response, Error, now, set_cookie, deliver}

-- A code of the list, by its row.
abbrev pub IsRow : List RecoveryCode → RecoveryCode → Type 0
IsRow [] row = ⊥
IsRow (r ∷ l) row = (r ≡ row) ⊎ IsRow l row

module _ (S : Services) (c : Config) where
  pub open_mfa_session_ok :
      (session : Text) (w : World S) {id : Uuid}
      → (open_mfa_session S c session w).0 ≡ ok id
      → (text : Text) × ((consume_mfa_session S session w).0 ≡ ok text)
        × (S.uuid_parse text ≡ some id)
  unfolding open_mfa_session
  open_mfa_session_ok session w h = elim (Result-cases (consume_mfa_session S session w).0) [
    | inr (e, gone) ↦ absurd (ground arith)
    | inl (text, taken) ↦ (text, taken, ground arith)
  ]

  -- The account that is read after the session is opened.
  abbrev pub account : VerifyRequest → Uuid → World S → Result Error User × World S
  account req id w = find_by_id S id (open_mfa_session S c req.mfa_session_id w).1

  -- A second-factor sign-in succeeds only if its session was in Redis, for a user whose secret
  -- fits the code at the time when it is checked.
  pub verify_ok :
      (req : VerifyRequest) (w : World S) {r : Response}
      → (verify S c (some req) w).0 ≡ ok r
      → (text : Text) × (id : Uuid) × (u : User) × ((consume_mfa_session S req.mfa_session_id w).0
          ≡ ok text)
        × (S.uuid_parse text ≡ some id)
        × ((account req id w).0 ≡ ok u)
        × (S.totp_validate (S.clock (account req id w).1.tick) req.code u.totp_secret ≡ true)
  unfolding verify validate_code now
  verify_ok req w h = elim (Result-cases (open_mfa_session S c req.mfa_session_id w).0) [
    | inr (e, shut) ↦ absurd (ground arith)
    | inl (id, opened) ↦ elim (Result-cases (account req id w).0) [
      | inr (e, missing) ↦ absurd (ground arith)
      | inl (u, found) ↦
          let (text, taken, parsed) = open_mfa_session_ok req.mfa_session_id w opened in
          (text, id, u, taken, parsed, found, ground arith)
    ]
  ]

  -- A code that is found is the first of the list whose hash the given one fits.
  pub matching_code_ok :
      (code : Text) (l : List RecoveryCode) {id : Uuid}
      → matching_code S c code l ≡ some id
      → (row : RecoveryCode) × IsRow l row
        × (row.code_id ≡ id)
        × (verify_password S code c.pepper row.code_hash ≡ ok tt)
  unfolding matching_code
  matching_code_ok code [] h = absurd (ground arith)
  matching_code_ok code (row ∷ l) h =
      elim (Result-cases (verify_password S code c.pepper row.code_hash)) [
        | inl (_, fits) ↦ (row, inl refl, ground arith, ground arith)
        | inr (e, differs) ↦
            let (row', inside, named, fits) = matching_code_ok code l (ground arith) in
            (row', inr inside, named, fits)
      ]

  open_mfa_session-recovery_codes :
      (session : Text) (w : World S)
      → (open_mfa_session S c session w).1.recovery_codes ≡ w.recovery_codes
  unfolding open_mfa_session consume_mfa_session get_del deliver
  open_mfa_session-recovery_codes session w = ground arith

  -- The steps of a sign-in with a recovery code that succeeds.
  pub recovery_steps :
      (req : VerifyRequest) (w : World S) {r : Response}
      → (recovery S c (some req) w).0 ≡ ok r
      → (text : Text) × (id : Uuid) × (l : List RecoveryCode) × (row : RecoveryCode)
        × ((consume_mfa_session S req.mfa_session_id w).0 ≡ ok text)
        × (S.uuid_parse text ≡ some id)
        × (let w1 = (open_mfa_session S c req.mfa_session_id w).1 in
            let w2 = (list_unused S id w1).1 in
            ((list_unused S id w1).0 ≡ ok l)
            × IsRow l row
            × (verify_password S req.code c.pepper row.code_hash ≡ ok tt)
            × ((mark_used S id row.code_id w2).0 ≡ ok tt)
            × ((recovery S c (some req) w).1.recovery_codes
                ≡ (mark_used S id row.code_id w2).1.recovery_codes))
  unfolding recovery find_by_id update_totp update_user now issue_access_token random_token
      store_refresh_token set_cookie deliver
  recovery_steps req w h =
      let w1 = (open_mfa_session S c req.mfa_session_id w).1 in
      elim (Result-cases (open_mfa_session S c req.mfa_session_id w).0) [
        | inr (e, shut) ↦ absurd (ground arith)
        | inl (id, opened) ↦ elim (Result-cases (list_unused S id w1).0) [
          | inr (e, failed) ↦ absurd (ground arith)
          | inl (l, listed) ↦ elim (Option-cases (matching_code S c req.code l)) [
            | inl unknown ↦ absurd (ground arith)
            | inr (code_id, matched) ↦
                let (text, taken, parsed) = open_mfa_session_ok req.mfa_session_id w opened in
                let (row, inside, named, fits) = matching_code_ok req.code l matched in
                (
                  text,
                  id,
                  l,
                  row,
                  taken,
                  parsed,
                  (listed, inside, fits, ground arith, ground arith),
                )
          ]
        ]
      ]

  list_unused-recovery_codes :
      (user : Uuid) (w : World S) → (list_unused S user w).1.recovery_codes ≡ w.recovery_codes
  unfolding list_unused deliver
  list_unused-recovery_codes user w = ground arith

  module _ (L : ServiceLaws S) where
    -- A sign-in with a recovery code succeeds only if its session was in Redis, for a user one of
    -- whose unused codes the given one fits. In the state after it the row of that code is not
    -- unused any more, and every other code of the user is unused exactly if it was before.
    pub recovery_ok :
        (req : VerifyRequest) (w : World S) (other : Uuid) {r : Response}
        → (recovery S c (some req) w).0 ≡ ok r
        → (text : Text) × (id : Uuid) × (l : List RecoveryCode) × (row : RecoveryCode)
          × ((consume_mfa_session S req.mfa_session_id w).0 ≡ ok text)
          × (S.uuid_parse text ≡ some id)
          × ((list_unused S id (open_mfa_session S c req.mfa_session_id w).1).0 ≡ ok l)
          × IsRow l row
          × (verify_password S req.code c.pepper row.code_hash ≡ ok tt)
          × (is_open other
                (rows (S.recovery_codes.row (recovery S c (some req) w).1.recovery_codes id))
              ≡ (not (other == row.code_id)
                  && is_open other (rows (S.recovery_codes.row w.recovery_codes id))))
    recovery_ok req w other h =
        let (text, id, l, row, taken, parsed, (listed, inside, fits, marked, kept)) =
          recovery_steps req w h in
        let w1 = (open_mfa_session S c req.mfa_session_id w).1 in
        let left : World S → Bool =
          λ v. is_open other (rows (S.recovery_codes.row v.recovery_codes id)) in
        let same =
          list_unused-recovery_codes id w1 ∙ open_mfa_session-recovery_codes req.mfa_session_id w in
        (
          text,
          id,
          l,
          row,
          taken,
          parsed,
          listed,
          inside,
          fits,
          ground (
            arith,
            kept,
            same,
            mark_used-is_open S L id row.code_id other (list_unused S id w1).1 marked,
          ),
        )
