-- ===== src/Go/Strconv/Decimal.antt =====
-- The digits of a number, as `Atoi` reads them.
use braza_sso.Prelude.{
  ℕ, zero, suc, ◌+◌, ◌/◌, ◌%◌, ◌^◌, ◌<◌, ◌≡◌, some, [], ◌∷◌, Text, arith, ltb, Bool-cases, inl, inr,
}
use braza_sso.Go.Fmt.{digits_onto, decimal}
use braza_sso.Go.Fmt.Decimal.{decimal-head}
use braza_sso.Go.Strconv.{pos, digits_from, parse_uint, positive, atoi}

digits_from-digits_onto :
    (fuel n : ℕ) (tail : Text)
    → n < fuel
    → n < 2 ^ 64
    → digits_from 0 (digits_onto fuel n tail) ≡ digits_from n tail
unfolding digits_onto digits_from
digits_from-digits_onto zero n tail h fits = absurd (omega arith)
digits_from-digits_onto (suc fuel) n tail h fits = elim (Bool-cases (ltb n 10)) [
  | inl small ↦ ground arith
  | inr large ↦
      let le : n / 10 < fuel = ground arith in
      let le' : n / 10 < 2 ^ 64 = omega arith in
      let again = digits_from-digits_onto fuel (n / 10) ((n % 10 + 48) ∷ tail) le le' in
      ground (arith, again)
]

digits_from-decimal : (n : ℕ) → n < 2 ^ 64 → digits_from 0 (decimal n) ≡ some n
unfolding decimal digits_from
digits_from-decimal n fits = digits_from-digits_onto (suc n) n [] (omega arith) fits

-- A number that fits is what is read of its digits.
pub atoi-decimal : (n : ℕ) → n < 2 ^ 63 → atoi (decimal n) ≡ pos n
unfolding atoi parse_uint positive
atoi-decimal n fits =
    let (d, rest, e, lo, hi) = decimal-head n in
    let read = digits_from-decimal n (omega arith) in ground (arith, e, read)
