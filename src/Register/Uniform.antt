-- ===== src/Register/Uniform.antt =====
-- Sign-up does not tell whether an address has an account, and does not touch the account.
use braza_sso.Prelude.{suc, ◌≡◌, some, Text, arith, Result-cases, inl, inr}
use braza_sso.Env.Services.{Services}
use braza_sso.Http.{write_header, response}
use braza_sso.Jwt.{Config}
use braza_sso.Login.{normalize_email}
use braza_sso.Model.{User}
use braza_sso.Register.{resend_verification, send_verification, email_verify_ttl}
use braza_sso.TokenStore.{create_email_verification_token}
use braza_sso.User.{find_by_email}
use braza_sso.World.{World, send_mail}

module _ (S : Services) (c : Config) where
  -- The state in which sign-up looks for the address.
  abbrev ready : World S → World S
  ready w = record w { tick = suc (suc w.tick) }

  -- Asking for the verification mail again is answered with 200 for every address, known or not,
  -- verified or not, whatever fails.
  pub resend_verification_uniform :
      (email : Text) (w : World S)
      → response (resend_verification S c (some email) w).0 ≡ write_header 200
  unfolding resend_verification send_verification send_mail
  resend_verification_uniform email w =
      let found = find_by_email S (normalize_email email) w in
      elim (Result-cases found.0) [
        | inr (e, unknown) ↦ ground arith
        | inl (u, known) ↦
            elim (Result-cases
              (create_email_verification_token S (S.uuid_text u.id) email_verify_ttl found.1).0) [
                | inr (e, failed) ↦ ground arith
                | inl (token, made) ↦ ground arith
              ]
      ]
