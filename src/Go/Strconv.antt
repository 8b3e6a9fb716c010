-- ===== src/Go/Strconv.antt =====
-- Package strconv: `Atoi` on 64 bits with its error ignored. It then gives 0 for a text that is no
-- number, and the nearest integer there is for a number out of range.
pub mod Decimal
use braza_sso.Prelude.{
  ℕ, zero, suc, ◌+◌, ◌-◌, ◌*◌, ◌^◌, Bool, ◌&&◌, Option, none, some, [], ◌∷◌, Text, ltb, leb, ◌==◌,
  if◌then◌else◌,
}

-- pos n is n and negsuc n is -(n + 1).
pub data ℤ : Type 0 where
  pos negsuc : ℕ → ℤ

-- `ParseUint`: it stops at the first digit with which the number is out of range.
digits_from : ℕ → Text → Option ℕ
digits_from n [] = some n
digits_from n (c ∷ s) =
    let m = n * 10 + (c - 48) in
    let rest = digits_from m s in
    if leb 48 c && leb c 57 then (if ltb m (2 ^ 64) then rest else some (2 ^ 64 - 1)) else none

-- At least one digit.
unfoldable pub parse_uint : Text → Option ℕ
unfolding digits_from
parse_uint [] = none
parse_uint (c ∷ s) = digits_from 0 (c ∷ s)

unfoldable pub positive : Option ℕ → ℤ
positive none = pos 0
positive (some n) = if ltb n (2 ^ 63) then pos n else pos (2 ^ 63 - 1)

unfoldable pub negative : Option ℕ → ℤ
negative none = pos 0
negative (some zero) = pos 0
negative (some (suc n)) = if ltb n (2 ^ 63) then negsuc n else negsuc (2 ^ 63 - 1)

unfoldable pub atoi : Text → ℤ
unfolding parse_uint positive negative
atoi [] = pos 0
atoi (c ∷ s) =
    if c == b'-'
    then negative (parse_uint s)
    else if c == b'+'
    then positive (parse_uint s)
    else positive (parse_uint (c ∷ s))
