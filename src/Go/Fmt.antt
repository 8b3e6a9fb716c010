-- ===== src/Go/Fmt.antt =====
-- Package fmt: `%d` in `Sprintf` and in `Sscanf` for a `uint32`, and encoding/hex.
pub mod Decimal
use braza_sso.Prelude.{
  ℕ, zero, suc, ◌+◌, ◌-◌, ◌*◌, ◌/◌, ◌%◌, ◌^◌, Bool, ◌&&◌, ◌||◌, Option, none, some, [], ◌∷◌, Text,
  ltb, leb, ◌==◌, if◌then◌else◌,
}

-- The decimal digits of a number, most significant first, before those in `acc`.
unfoldable pub digits_onto : ℕ → ℕ → Text → Text
digits_onto zero n acc = acc
digits_onto (suc fuel) n acc =
    let more = digits_onto fuel (n / 10) ((n % 10 + 48) ∷ acc) in
    if ltb n 10 then (n + 48) ∷ acc else more

-- `%d`. A number has at most as many digits as its value plus one.
unfoldable pub decimal : ℕ → Text
unfolding digits_onto
decimal n = digits_onto (suc n) n []

abbrev is_digit : ℕ → Bool
is_digit c = leb 48 c && leb c 57

-- The digits at the front, onto the number read so far.
unfoldable pub scan_digits : ℕ → Text → ℕ × Text
scan_digits acc [] = (acc, [])
scan_digits acc (c ∷ s) =
    let rest = scan_digits (acc * 10 + (c - 48)) s in if is_digit c then rest else (acc, c ∷ s)

-- Spaces before a number are skipped, a newline is not.
unfoldable pub skip_space : Text → Text
skip_space [] = []
skip_space (c ∷ s) = if c == 32 || c == 9 || (leb 11 c && leb c 13) then skip_space s else c ∷ s

scan_number : Text → Option (ℕ × Text)
unfolding scan_digits
scan_number [] = none
scan_number (c ∷ s) =
    if is_digit c
    then (let (n, rest) = scan_digits 0 (c ∷ s) in if ltb n (2 ^ 32) then some (n, rest) else none)
    else none

-- `%d` into a `uint32`: at least one digit, and an error where the number does not fit.
unfoldable pub scan_uint32 : Text → Option (ℕ × Text)
unfolding skip_space scan_number
scan_uint32 s = scan_number (skip_space s)

abbrev hex_digit : ℕ → ℕ
hex_digit v = if ltb v 10 then v + 48 else v + 87

-- `hex.EncodeToString`
unfoldable pub hex : Text → Text
hex [] = []
hex (b ∷ s) = hex_digit (b / 16) ∷ hex_digit (b % 16) ∷ hex s
