-- ===== src/Password/Policy.antt =====
-- The password policy, described without its loop.
use braza_sso.Prelude.{
  ℕ, ◌≡◌, Bool, true, false, not, ◌&&◌, ◌||◌, List, [], ◌∷◌, ◌++◌, Text, length, arith, ltb,
}
use braza_sso.Env.Services.{Services}
use braza_sso.Go.Utf8
use braza_sso.Password.{
  Seen, nothing_seen, see, see_all, validate_password_policy, PolicyViolation, too_short,
  no_uppercase, no_lowercase, no_digit, no_special,
}

abbrev pub any : (ℕ → Bool) → List ℕ → Bool
any p [] = false
any p (r ∷ rs) = p r || any p rs

-- A violation, where it applies.
abbrev pub only_if : Bool → PolicyViolation → List PolicyViolation
only_if true v = v ∷ []
only_if false v = []

module _ (S : Services) where
  -- A rune counts for the first class it is in.
  abbrev pub counts_lower : ℕ → Bool
  counts_lower r = S.is_lower r && not (S.is_upper r)

  abbrev pub counts_digit : ℕ → Bool
  counts_digit r = S.is_digit r && not (S.is_upper r || S.is_lower r)

  abbrev pub counts_special : ℕ → Bool
  counts_special r = not (S.is_upper r || (S.is_lower r || (S.is_digit r || S.is_letter r)))

  see_all_lem :
      (s : Seen) (rs : List ℕ)
      → see_all S s rs ≡ record {
        upper = s.upper || any S.is_upper rs;
        lower = s.lower || any counts_lower rs;
        digit = s.digit || any counts_digit rs;
        special = s.special || any counts_special rs;
      }
  unfolding see_all
  see_all_lem s [] = ground arith
  see_all_lem s (r ∷ rs) = ground (arith, see_all_lem (see S s r) rs)

  -- The violations are the unmet criteria, in the order of the messages: twelve bytes (not
  -- characters, as the message says), and a rune that counts for each of the four classes.
  pub validate_password_policy_lem :
      (password : Text)
      → let rs = Utf8.runes password in
        validate_password_policy S password
        ≡ only_if (ltb (length password) 12) too_short
          ++ (only_if (not (any S.is_upper rs)) no_uppercase
              ++ (only_if (not (any counts_lower rs)) no_lowercase
                  ++ (only_if (not (any counts_digit rs)) no_digit
                      ++ only_if (not (any counts_special rs)) no_special)))
  unfolding validate_password_policy
  validate_password_policy_lem password =
      ground (arith, see_all_lem nothing_seen (Utf8.runes password))
