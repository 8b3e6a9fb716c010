-- ===== src/Go/Fmt/Decimal.antt =====
-- The digits of a number, and the reading of them in `Sscanf`.
use braza_sso.Prelude.{
  ℕ, zero, suc, ◌+◌, ◌/◌, ◌%◌, ◌≤◌, ◌<◌, ◌≡◌, [], ◌∷◌, Text, arith, ltb, Bool-cases, inl, inr,
}
use braza_sso.Go.Fmt.{digits_onto, decimal, scan_digits}

-- The fuel that `decimal` gives is enough: any more digits would only be zeros.
digits_onto-head :
    (fuel n : ℕ) (tail : Text)
    → n < fuel
    → (d : ℕ) × (rest : Text) × (digits_onto fuel n tail ≡ d ∷ rest) × (48 ≤ d) × (d ≤ 57)
unfolding digits_onto
digits_onto-head zero n tail h = absurd (omega arith)
digits_onto-head (suc fuel) n tail h = elim (Bool-cases (ltb n 10)) [
  | inl small ↦ (n + 48, tail, ground arith, omega arith, ground arith)
  | inr large ↦
      let le : n / 10 < fuel = ground arith in
      let (d, rest, e, lo, hi) = digits_onto-head fuel (n / 10) ((n % 10 + 48) ∷ tail) le in
      (d, rest, ground (arith, e), lo, hi)
]

pub decimal-head : (n : ℕ) → (d : ℕ) × (rest : Text) × (decimal n ≡ d ∷ rest) × (48 ≤ d) × (d ≤ 57)
unfolding decimal
decimal-head n = digits_onto-head (suc n) n [] (omega arith)

scan_digits-digits_onto :
    (fuel n : ℕ) (tail : Text)
    → n < fuel
    → scan_digits 0 (digits_onto fuel n tail) ≡ scan_digits n tail
unfolding digits_onto scan_digits
scan_digits-digits_onto zero n tail h = absurd (omega arith)
scan_digits-digits_onto (suc fuel) n tail h = elim (Bool-cases (ltb n 10)) [
  | inl small ↦ ground arith
  | inr large ↦
      let le : n / 10 < fuel = ground arith in
      let again = scan_digits-digits_onto fuel (n / 10) ((n % 10 + 48) ∷ tail) le in
      ground (arith, again)
]

pub scan_digits-decimal : (n : ℕ) → scan_digits 0 (decimal n) ≡ (n, [])
unfolding decimal scan_digits
scan_digits-decimal n = scan_digits-digits_onto (suc n) n [] (omega arith)
