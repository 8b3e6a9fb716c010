-- ===== src/Go/Base64/RoundTrip.antt =====
-- Decoding what was encoded, in the standard alphabet.
use braza_sso.Prelude.{
  ℕ, ◌+◌, ◌*◌, ◌/◌, ◌%◌, ◌≡◌, ◌<◌, refl, some, [], ◌∷◌, Text, arith, map, subst, sym, ◌==◌, false,
}
use braza_sso.Go.Base64.{std, char_of, value_of, encode, values, bytes_of, decode}

-- Every code is a byte.
abbrev pub IsBytes : Text → Type 0
IsBytes [] = Unit {0}
IsBytes (b ∷ s) = (b < 256) × IsBytes s

-- The six-bit values of a text.
abbrev sextets : Text → Text
sextets [] = []
sextets (a ∷ []) = (a / 4) ∷ (a % 4 * 16) ∷ []
sextets (a ∷ b ∷ []) = (a / 4) ∷ (a % 4 * 16 + b / 16) ∷ (b % 16 * 4) ∷ []
sextets (a ∷ b ∷ c ∷ s) =
    (a / 4) ∷ (a % 4 * 16 + b / 16) ∷ (b % 16 * 4 + c / 64) ∷ (c % 64) ∷ sextets s

char_of_lem :
    (v : ℕ)
    → v < 64
    → (value_of std (char_of std v) ≡ some v)
      × ((char_of std v == 10) ≡ false)
      × ((char_of std v == 13) ≡ false)
      × ((char_of std v == b'$') ≡ false)
unfolding char_of value_of
char_of_lem v small = ground arith

-- Every code is a value of six bits.
abbrev IsSextets : Text → Type 0
IsSextets [] = Unit {0}
IsSextets (v ∷ vs) = (v < 64) × IsSextets vs

sextets-IsSextets : (s : Text) → IsBytes s → IsSextets (sextets s)
sextets-IsSextets [] h = tt
sextets-IsSextets (a ∷ []) (ha, _) = (omega arith, (omega arith, tt))
sextets-IsSextets (a ∷ b ∷ []) (ha, (hb, _)) = (omega arith, (omega arith, (omega arith, tt)))
sextets-IsSextets (a ∷ b ∷ c ∷ s) (ha, (hb, (hc, h))) =
    (omega arith, (omega arith, (omega arith, (omega arith, sextets-IsSextets s h))))

encode_lem : (s : Text) → encode std s ≡ map (char_of std) (sextets s)
unfolding encode
encode_lem [] = refl
encode_lem (a ∷ []) = refl
encode_lem (a ∷ b ∷ []) = refl
encode_lem (a ∷ b ∷ c ∷ s) = ground (arith, encode_lem s)

values-map : (vs : Text) → IsSextets vs → values std (map (char_of std) vs) ≡ some vs
unfolding values
values-map [] h = refl
values-map (v ∷ vs) (small, h) = ground (arith, char_of_lem v small, values-map vs h)

bytes_of-sextets : (s : Text) → IsBytes s → bytes_of (sextets s) ≡ some s
unfolding bytes_of
bytes_of-sextets [] h = refl
bytes_of-sextets (a ∷ []) (ha, _) = ground arith
bytes_of-sextets (a ∷ b ∷ []) (ha, (hb, _)) = ground arith
bytes_of-sextets (a ∷ b ∷ c ∷ s) (ha, (hb, (hc, h))) = ground (arith, bytes_of-sextets s h)

pub decode-encode : (s : Text) → IsBytes s → decode std (encode std s) ≡ some s
unfolding decode
decode-encode s h =
    ground
      (arith, encode_lem s, values-map (sextets s) (sextets-IsSextets s h), bytes_of-sextets s h)

-- The text does not have the character.
abbrev pub HasNone : ℕ → Text → Type 0
HasNone sep [] = Unit {0}
HasNone sep (b ∷ s) = ((b == sep) ≡ false) × HasNone sep s

map-HasNone : (vs : Text) → IsSextets vs → HasNone b'$' (map (char_of std) vs)
map-HasNone [] h = tt
map-HasNone (v ∷ vs) (small, h) = ((char_of_lem v small).3, map-HasNone vs h)

pub encode-HasNone : (s : Text) → IsBytes s → HasNone b'$' (encode std s)
encode-HasNone s h =
    subst (HasNone b'$') (sym (encode_lem s)) (map-HasNone (sextets s) (sextets-IsSextets s h))
