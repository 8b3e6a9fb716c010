-- ===== src/Password/Format.antt =====
-- Stored hashes of another scheme than Argon2id, as cmd/register-client makes them with bcrypt.
use braza_sso.Prelude.{◌≡◌, refl, false, List, [], ◌∷◌, ◌++◌, Text, codes, text_eq, stop, arith}
use braza_sso.Env.Services.{Services}
use braza_sso.Go.Strings
use braza_sso.Password.{verify_password, check_parts}
use braza_sso.World.{invalid_hash}

module _ (S : Services) where
  check_parts-scheme :
      (input first name : Text) (rest : List Text)
      → text_eq name (codes "argon2id") ≡ false
      → check_parts S input (first ∷ name ∷ rest) ≡ stop invalid_hash
  unfolding check_parts
  check_parts-scheme input first name [] other = refl
  check_parts-scheme input first name (a ∷ []) other = refl
  check_parts-scheme input first name (a ∷ b ∷ []) other = refl
  check_parts-scheme input first name (a ∷ b ∷ d ∷ []) other = refl
  check_parts-scheme input first name (a ∷ b ∷ d ∷ e ∷ []) other = ground arith
  check_parts-scheme input first name (a ∷ b ∷ d ∷ e ∷ f ∷ l) other = refl

  -- No password verifies against a bcrypt hash, `$2a$10$` and then whatever follows: its form is
  -- refused before anything is compared.
  pub verify_password-bcrypt :
      (password pepper s : Text)
      → verify_password S password pepper (codes "$2a$10$" ++ s) ≡ stop invalid_hash
  unfolding verify_password Strings.split_n text_eq
  verify_password-bcrypt password pepper s =
      check_parts-scheme (password ++ pepper) [] (codes "2a")
        (Strings.split_n 4 b'$' (codes "10$" ++ s)) refl
