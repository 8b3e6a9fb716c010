-- ===== src/Run/Account.antt =====
-- The handlers of register.go, password_reset.go and totp.go, as runs.
use braza_sso.Prelude.{
  ℕ, zero, suc, ◌≡◌, arith, Option, List, [], ◌∷◌, Text, M, Result, ok, stop, attempt, ◌>>=◌,
}
use braza_sso.Env.Services.{Services}
use braza_sso.Jwt.{Config}
use braza_sso.Model.{Uuid, User, RecoveryCode}
use braza_sso.Password.{PolicyViolation}
use braza_sso.PasswordReset
use braza_sso.RecoveryCodes
use braza_sso.Register
use braza_sso.Run.{Runs, here, next, enlist}
use braza_sso.Run.Combine.{Run-trans}
use braza_sso.Run.Calls.{calls, calm}
use braza_sso.Run.Ticks.{Run-tick}
use braza_sso.Totp
use braza_sso.User.{create}
use braza_sso.World.{World, Response, Error, new_uuid}

module _ (S : Services) (n : ℕ) where
  -- An identifier is drawn and an account created with it.
  pub enlist-Runs :
      {E A : Type 0} (f : Uuid → User) (k : Uuid → Result Error (Unit {0}) → M (World S) E A)
      → ((id : Uuid) → (f id).id ≡ id)
      → ((id : Uuid) (r : Result Error (Unit {0})) → Runs S n (k id r))
      → Runs S n (new_uuid S >>= λ id. (attempt (create S (f id)) >>= k id))
  unfolding Runs new_uuid
  enlist-Runs f k same h w le =
      let enlisted = next here (enlist f w same) in
      let ticks = Run-tick S enlisted in
      Run-trans S n enlisted (
        h (S.new_uuid w.tick) (create S (f (S.new_uuid w.tick)) (record w { tick = suc w.tick })).0
          _ (omega arith))

  reject_weak-Runs : (vs : List PolicyViolation) → Runs S n (Register.reject_weak {W = World S} vs)
  unfolding Runs
  reject_weak-Runs [] w le = here
  reject_weak-Runs (v ∷ vs) w le = here

  module _ (c : Config) where
    send_verification-Runs :
        (u : User) (r : Response) → Runs S n (Register.send_verification S c u r)
    unfolding Register.send_verification
    send_verification-Runs u r = search calls depth 20 fits 3000

    after_creation-Runs :
        (u : User) (r : Result Error (Unit {0})) → Runs S n (Register.after_creation S c u r)
    unfolding Register.after_creation
    after_creation-Runs u (ok tt) = search (calls, send_verification-Runs)
    after_creation-Runs u (stop e) = search calls

    pub register-Runs :
        (body : Option Register.RegisterRequest) → Runs S n (Register.register S c body)
    unfolding Register.register
    register-Runs body =
        search (calls, reject_weak-Runs, enlist-Runs, after_creation-Runs) depth 30 fits 3000

    pub verify_email-Runs : (token : Text) → Runs S n (Register.verify_email S c token)
    unfolding Register.verify_email
    verify_email-Runs token = search calls depth 30 fits 3000

    pub resend_verification-Runs :
        (body : Option Text) → Runs S n (Register.resend_verification S c body)
    unfolding Register.resend_verification
    resend_verification-Runs body = search (calls, send_verification-Runs) depth 30 fits 3000

    pub reset_request-Runs : (body : Option Text) → Runs S n (PasswordReset.reset_request S c body)
    unfolding PasswordReset.reset_request
    reset_request-Runs body = search calls depth 30 fits 3000

    pub reset-Runs :
        (body : Option PasswordReset.ResetBody) → Runs S n (PasswordReset.reset S c body)
    unfolding PasswordReset.reset
    reset-Runs body = search (calls, reject_weak-Runs) depth 30 fits 3000

    pub validate_code-Runs :
        (E : Type 0) (code secret : Text) → Runs S n (Totp.validate_code S c {E = E} code secret)
    unfolding Totp.validate_code
    validate_code-Runs E code secret = search calls

    plain_codes-Runs : (E : Type 0) (left : ℕ) → Runs S n (Totp.plain_codes S c {E = E} left)
    unfolding Totp.plain_codes
    plain_codes-Runs E zero = search calls
    plain_codes-Runs E (suc left) = search (calls, plain_codes-Runs E left) depth 20 fits 3000

    hash_codes-Runs : (E : Type 0) (l : List Text) → Runs S n (Totp.hash_codes S c {E = E} l)
    unfolding Totp.hash_codes
    hash_codes-Runs E [] = search calls
    hash_codes-Runs E (code ∷ l) = search (calls, hash_codes-Runs E l) depth 20 fits 3000

    generate_key-Runs : (email : Text) → Runs S n (Totp.generate_key S c email)
    unfolding Totp.generate_key
    generate_key-Runs email = calm S n _ (λ w. ground arith)

    delete_codes-Runs : (id : Uuid) → Runs S n (RecoveryCodes.delete_codes S id)
    unfolding RecoveryCodes.delete_codes
    delete_codes-Runs id = calm S n _ (λ w. ground arith)

    insert_code-Runs :
        (id : Uuid) (row : RecoveryCode) → Runs S n (RecoveryCodes.insert_code S id row)
    unfolding RecoveryCodes.insert_code
    insert_code-Runs id row = calm S n _ (λ w. ground arith)

    new_uuid-Runs : (E : Type 0) → Runs S n (new_uuid S {E = E})
    unfolding new_uuid
    new_uuid-Runs E = calm S n _ (λ w. ground arith)

    insert_codes-Runs : (id : Uuid) (l : List Text) → Runs S n (RecoveryCodes.insert_codes S id l)
    unfolding RecoveryCodes.insert_codes
    insert_codes-Runs id [] = search calls
    insert_codes-Runs id (hash ∷ l) =
        search (calls, new_uuid-Runs, insert_code-Runs, insert_codes-Runs id l) depth 20 fits 3000

    replace_all-Runs : (id : Uuid) (l : List Text) → Runs S n (RecoveryCodes.replace_all S id l)
    unfolding RecoveryCodes.replace_all
    replace_all-Runs id l = search (calls, delete_codes-Runs, insert_codes-Runs) depth 20 fits 3000

    pub list_unused-Runs : (id : Uuid) → Runs S n (RecoveryCodes.list_unused S id)
    unfolding RecoveryCodes.list_unused
    list_unused-Runs id = calm S n _ (λ w. ground arith)

    pub mark_used-Runs : (id code_id : Uuid) → Runs S n (RecoveryCodes.mark_used S id code_id)
    unfolding RecoveryCodes.mark_used
    mark_used-Runs id code_id = calm S n _ (λ w. ground arith)

    pub enroll-Runs : (context : Option Text) → Runs S n (Totp.enroll S c context)
    unfolding Totp.enroll
    enroll-Runs context =
        search (calls, generate_key-Runs, plain_codes-Runs, hash_codes-Runs, replace_all-Runs) depth
          40 fits 3000

    pub confirm-Runs : (context body : Option Text) → Runs S n (Totp.confirm S c context body)
    unfolding Totp.confirm
    confirm-Runs context body = search (calls, validate_code-Runs) depth 40 fits 3000

    pub issue_token_pair_for_user-Runs :
        (u : User) → Runs S n (Totp.issue_token_pair_for_user S c u)
    unfolding Totp.issue_token_pair_for_user
    issue_token_pair_for_user-Runs u = search calls depth 30 fits 3000

    pub open_mfa_session-Runs : (session : Text) → Runs S n (Totp.open_mfa_session S c session)
    unfolding Totp.open_mfa_session
    open_mfa_session-Runs session = search calls depth 20 fits 3000

    pub verify-Runs : (body : Option Totp.VerifyRequest) → Runs S n (Totp.verify S c body)
    unfolding Totp.verify
    verify-Runs body =
        search (calls, open_mfa_session-Runs, validate_code-Runs, issue_token_pair_for_user-Runs)
          depth 30 fits 3000

    pub recovery-Runs : (body : Option Totp.VerifyRequest) → Runs S n (Totp.recovery S c body)
    unfolding Totp.recovery
    recovery-Runs body =
        search (calls, open_mfa_session-Runs, list_unused-Runs, mark_used-Runs) depth 40 fits 3000
