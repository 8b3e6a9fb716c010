-- ===== src/Password.antt =====
-- internal/auth/password.go: the password policy, and Argon2id hashes in their encoded form.
pub mod Policy
pub mod Format
pub mod RoundTrip
use braza_sso.Prelude.{
  ℕ, ◌+◌, ◌%◌, ◌^◌, Bool, true, false, not, ◌&&◌, ◌||◌, Option, none, some, List, [], ◌∷◌, ◌++◌,
  Text, codes, length, text_eq, ltb, ◌==◌, if◌then◌else◌, Result, ok, stop, M, pure, ◌>>=◌,
}
use braza_sso.Env.Services.{Services}
use braza_sso.Go.Base64
use braza_sso.Go.Fmt
use braza_sso.Go.Strings
use braza_sso.Go.Utf8
use braza_sso.World.{World, Error, invalid_hash, hash_mismatch, random_bytes}

pub record PolicyViolation : Type 0 where
  pub rule : Text
  pub message : Text

abbrev pub too_short : PolicyViolation
too_short = record { rule = codes "min_length"; message = codes "minimum 12 characters required" }

abbrev pub no_uppercase : PolicyViolation
no_uppercase = record {
  rule = codes "uppercase";
  message = codes "at least one uppercase letter required";
}

abbrev pub no_lowercase : PolicyViolation
no_lowercase = record {
  rule = codes "lowercase";
  message = codes "at least one lowercase letter required";
}

abbrev pub no_digit : PolicyViolation
no_digit = record { rule = codes "digit"; message = codes "at least one digit required" }

abbrev pub no_special : PolicyViolation
no_special = record {
  rule = codes "special";
  message = codes "at least one special character required";
}

-- The four flags of the loop.
pub record Seen : Type 0 where
  pub upper : Bool
  pub lower : Bool
  pub digit : Bool
  pub special : Bool

abbrev pub nothing_seen : Seen
nothing_seen = record { upper = false; lower = false; digit = false; special = false }

abbrev append_if : Bool → PolicyViolation → List PolicyViolation → List PolicyViolation
append_if b v vs = if b then vs ++ (v ∷ []) else vs

-- The parameters of the hash.
abbrev pub argon_memory : ℕ
argon_memory = 65536

abbrev pub argon_time : ℕ
argon_time = 3

abbrev pub argon_threads : ℕ
argon_threads = 4

abbrev pub argon_key_len : ℕ
argon_key_len = 32

abbrev pub argon_salt_len : ℕ
argon_salt_len = 16

-- `argon2.Version` of golang.org/x/crypto, which is 0x13.
abbrev pub argon_version : ℕ
argon_version = 19

-- `$argon2id$v=19$m=65536,t=3,p=4$<salt>$<hash>`
unfoldable pub encode_hash : Text → Text → Text
unfolding Fmt.decimal Base64.encode
encode_hash salt hash =
    codes "$argon2id$v="
    ++ (Fmt.decimal argon_version
        ++ (codes "$m="
            ++ (Fmt.decimal argon_memory
                ++ (codes ",t="
                    ++ (Fmt.decimal argon_time
                        ++ (codes ",p="
                            ++ (Fmt.decimal argon_threads
                                ++ (codes "$"
                                    ++ (Base64.encode Base64.std salt
                                        ++ (codes "$" ++ Base64.encode Base64.std hash))))))))))

-- A literal, then `%d`.
scan_field : Text → Text → Option (ℕ × Text)
unfolding Strings.strip_prefix Fmt.scan_uint32
scan_field literal s = elim (Strings.strip_prefix literal s) [
  | none ↦ none
  | some rest ↦ Fmt.scan_uint32 rest
]

-- `Sscanf(s, "v=%d", &version)` succeeds.
unfoldable pub scans_version : Text → Bool
unfolding scan_field
scans_version s = elim (scan_field (codes "v=") s) [ none ↦ false | some _ ↦ true ]

-- `Sscanf(s, "m=%d,t=%d,p=%d", &memory, &timeCost, &threads)`
unfoldable pub scan_costs : Text → Option (ℕ × ℕ × ℕ)
unfolding scan_field
scan_costs s = elim (scan_field (codes "m=") s) [
  | none ↦ none
  | some (m, r) ↦ elim (scan_field (codes ",t=") r) [
    | none ↦ none
    | some (t, r') ↦ elim (scan_field (codes ",p=") r') [
      | none ↦ none
      | some (p, _) ↦ some (m, t, p)
    ]
  ]
]

module _ (S : Services) where
  -- One turn of the loop: the first case of the `switch` that fits.
  unfoldable pub see : Seen → ℕ → Seen
  see seen r =
      if S.is_upper r
      then record seen { upper = true }
      else if S.is_lower r
      then record seen { lower = true }
      else if S.is_digit r
      then record seen { digit = true }
      else if not (S.is_letter r) && not (S.is_digit r)
      then record seen { special = true }
      else seen

  unfoldable pub see_all : Seen → List ℕ → Seen
  unfolding see
  see_all seen [] = seen
  see_all seen (r ∷ rs) = see_all (see seen r) rs

  unfoldable pub validate_password_policy : Text → List PolicyViolation
  unfolding see_all Utf8.runes
  validate_password_policy password =
      let seen = see_all nothing_seen (Utf8.runes password) in
      append_if (not seen.special) no_special (
        append_if (not seen.digit) no_digit (
          append_if (not seen.lower) no_lowercase (
            append_if (not seen.upper) no_uppercase
              (append_if (ltb (length password) 12) too_short []))))

  unfoldable pub hash_password : {E : Type 0} → Text → Text → M (World S) E Text
  unfolding random_bytes encode_hash
  hash_password password pepper = do
    salt ← random_bytes S argon_salt_len
    pure (
        encode_hash salt (
          S.argon2_id_key (password ++ pepper) salt argon_time argon_memory argon_threads
            argon_key_len))

  -- The last step: recompute with the parameters of the stored hash and compare.
  compare_hash : Text → ℕ × ℕ × ℕ → Text → Text → Result Error (Unit {0})
  compare_hash input (memory, time_cost, threads) salt expected =
      if text_eq
        (S.argon2_id_key input salt time_cost memory (threads % 256) (length expected % 2 ^ 32))
        expected
      then ok tt
      else stop hash_mismatch

  -- The checks on the parts between the dollar signs, in the code's order.
  unfoldable pub check_parts : Text → List Text → Result Error (Unit {0})
  unfolding scans_version scan_costs Base64.decode compare_hash
  check_parts input (empty ∷ name ∷ version ∷ costs ∷ salt ∷ hash ∷ []) =
      if not (text_eq empty []) || not (text_eq name (codes "argon2id"))
      then stop invalid_hash
      else if not (scans_version version)
      then stop invalid_hash
      else elim (scan_costs costs) [
        | none ↦ stop invalid_hash
        | some cost ↦ elim (Base64.decode Base64.std salt) [
          | none ↦ stop invalid_hash
          | some s ↦ elim (Base64.decode Base64.std hash) [
            | none ↦ stop invalid_hash
            | some expected ↦ compare_hash input cost s expected
          ]
        ]
      ]
  check_parts input _ = stop invalid_hash

  unfoldable pub verify_password : Text → Text → Text → Result Error (Unit {0})
  unfolding check_parts Strings.split_n
  verify_password password pepper encoded_hash =
      check_parts (password ++ pepper) (Strings.split_n 6 b'$' encoded_hash)
