-- ===== src/PasswordReset/Outcomes.antt =====
-- What the answers of the password reset say.
use braza_sso.Prelude.{
  refl, ◌≡◌, ◌∙◌, ap, Option, none, some, [], Text, Result, ok, arith, Result-cases, Option-cases,
  inl, inr,
}
use braza_sso.Model.{Uuid, User}
use braza_sso.Env.Services.{Services, ServiceLaws}
use braza_sso.Http.{write_header, response}
use braza_sso.Jwt.{Config}
use braza_sso.Login.{normalize_email}
use braza_sso.Password.{validate_password_policy, hash_password, verify_password}
use braza_sso.Password.RoundTrip.{HashLaws, hash_password-verify_password}
use braza_sso.PasswordReset.{ResetBody, reset, reset_request, password_reset_ttl}
use braza_sso.TokenStore.{consume_password_reset_token, create_password_reset_token}
use braza_sso.Run.Frames.{revoke-IsFramed}
use braza_sso.User.{update_password, update_user, row_of, find_by_email}
use braza_sso.World.{World, Response, send_mail, now, deliver}

module _ (S : Services) (c : Config) where
  -- Asking for a reset link is answered alike for every body, known address or not, whatever fails.
  pub reset_request_uniform :
      (body : Option Text) (w : World S) → response (reset_request S c body w).0 ≡ write_header 200
  unfolding reset_request send_mail
  reset_request_uniform none w = ground arith
  reset_request_uniform (some email) w =
      let found = find_by_email S (normalize_email email) w in
      elim (Result-cases found.0) [
        | inr (e, unknown) ↦ ground arith
        | inl (u, known) ↦
            elim (Result-cases
              (create_password_reset_token S (S.uuid_text u.id) password_reset_ttl found.1).0) [
                | inr (e, failed) ↦ ground arith
                | inl (token, made) ↦ ground arith
              ]
      ]

  -- The state in which the token of a request is consumed, and those of the next two steps.
  abbrev consumed : ResetBody → World S → World S
  consumed req w = (consume_password_reset_token S req.token w).1

  abbrev hashed : ResetBody → World S → Result Response Text × World S
  hashed req w = hash_password S {E = Response} req.password c.pepper (consumed req w)

  -- The steps of a reset that succeeds.
  pub reset_steps :
      (req : ResetBody) (w : World S) {r : Response}
      → (reset S c (some req) w).0 ≡ ok r
      → (validate_password_policy S req.password ≡ [])
        × ((text : Text) × (id : Uuid) × (hash : Text) × ((consume_password_reset_token S req.token
                w).0
              ≡ ok text)
            × (S.uuid_parse text ≡ some id)
            × ((hashed req w).0 ≡ ok hash)
            × ((update_password S id hash (hashed req w).1).0 ≡ ok tt)
            × ((reset S c (some req) w).1.users
                ≡ (update_password S id hash (hashed req w).1).1.users))
  unfolding reset
  reset_steps req w h =
      let strong : validate_password_policy S req.password ≡ [] = ground arith in
      elim (Result-cases (consume_password_reset_token S req.token w).0) [
        | inr (e, gone) ↦ absurd (ground arith)
        | inl (text, taken) ↦ elim (Option-cases (S.uuid_parse text)) [
          | inl bad ↦ absurd (ground arith)
          | inr (id, parsed) ↦ elim (Result-cases (hashed req w).0) [
            | inr (e, failed) ↦ absurd (ground arith)
            | inl (hash, made) ↦
                let updated = update_password S id hash (hashed req w).1 in
                (
                  strong,
                  (
                    text,
                    id,
                    hash,
                    taken,
                    parsed,
                    made,
                    ground arith,
                    ground (arith, revoke-IsFramed S text updated.1),
                  ),
                )
          ]
        ]
      ]

  module _ (L : ServiceLaws S) (H : HashLaws S) where
    -- An update of a password that succeeds writes its hash, and unlocks the account.
    update_password_row :
        (id : Uuid) (hash : Text) (w : World S)
        → (update_password S id hash w).0 ≡ ok tt
        → (row : User) × (S.users.row (update_password S id hash w).1.users id ≡ some row)
          × (row.password_hash ≡ hash)
          × (row.locked_until ≡ none)
    unfolding update_password update_user now deliver
    update_password_row id hash w h =
        let change : User → User = λ u. record u {
          password_hash = hash;
          failed_attempts = 0;
          locked_until = none;
          updated_at = S.clock w.tick;
        } in
        (
          change (row_of id (S.users.row w.users id)),
          ground (arith, L.users.row-upsert id (λ r. change (row_of id r)) w.users),
          refl,
          refl,
        )

    -- A password is reset with success only with a password that meets the policy and a token that
    -- Redis had. Then the account whom the token names has a hash that the new password verifies
    -- against, and is not locked.
    pub reset_ok :
        (req : ResetBody) (w : World S) {r : Response}
        → (reset S c (some req) w).0 ≡ ok r
        → (validate_password_policy S req.password ≡ [])
          × ((text : Text) × (id : Uuid) × (row : User) × ((consume_password_reset_token S req.token
                  w).0
                ≡ ok text)
              × (S.uuid_parse text ≡ some id)
              × (S.users.row (reset S c (some req) w).1.users id ≡ some row)
              × (verify_password S req.password c.pepper row.password_hash ≡ ok tt)
              × (row.locked_until ≡ none))
    reset_ok req w h =
        let (strong, (text, id, hash, taken, parsed, made, updated, users)) = reset_steps req w h in
        let (row, written, same, free) = update_password_row id hash (hashed req w).1 updated in
        let fits =
          (hash_password-verify_password S H req.password req.password c.pepper (consumed req w)
            made).0 in
        (
          strong,
          (
            text,
            id,
            row,
            taken,
            parsed,
            ap (λ d. S.users.row d id) users ∙ written,
            ap (λ stored. verify_password S req.password c.pepper stored) same ∙ fits,
            free,
          ),
        )
