-- ===== src/Go/Base64.antt =====
-- Package encoding/base64 without padding: `RawStdEncoding` and `RawURLEncoding`, which differ in
-- the last two characters of the alphabet.
pub mod RoundTrip
use braza_sso.Prelude.{
  ℕ, ◌+◌, ◌-◌, ◌*◌, ◌/◌, ◌%◌, ◌&&◌, ◌||◌, Option, none, some, [], ◌∷◌, Text, ltb, leb, ◌==◌,
  if◌then◌else◌,
}

pub record Alphabet : Type 0 where
  pub char62 : ℕ
  pub char63 : ℕ

abbrev pub std : Alphabet
std = record { char62 = b'+'; char63 = b'/' }

abbrev pub url : Alphabet
url = record { char62 = b'-'; char63 = b'_' }

module _ (α : Alphabet) where
  -- The character of a six-bit value, and back.
  unfoldable pub char_of : ℕ → ℕ
  char_of v =
      if ltb v 26
      then v + 65
      else if ltb v 52
      then v + 71
      else if ltb v 62
      then v - 4
      else if v == 62
      then α.char62
      else α.char63

  unfoldable pub value_of : ℕ → Option ℕ
  value_of c =
      if leb 65 c && leb c 90
      then some (c - 65)
      else if leb 97 c && leb c 122
      then some (c - 71)
      else if leb 48 c && leb c 57
      then some (c + 4)
      else if c == α.char62
      then some 62
      else if c == α.char63
      then some 63
      else none

  -- Three bytes are four characters; one or two bytes left over are two or three.
  unfoldable pub encode : Text → Text
  unfolding char_of
  encode [] = []
  encode (a ∷ []) = char_of (a / 4) ∷ char_of (a % 4 * 16) ∷ []
  encode (a ∷ b ∷ []) = char_of (a / 4) ∷ char_of (a % 4 * 16 + b / 16) ∷ char_of (b % 16 * 4) ∷ []
  encode (a ∷ b ∷ c ∷ rest) =
      char_of (a / 4)
      ∷ char_of (a % 4 * 16 + b / 16)
      ∷ char_of (b % 16 * 4 + c / 64)
      ∷ char_of (c % 64)
      ∷ encode rest

  -- The values of all characters; the decoder skips line ends.
  unfoldable pub values : Text → Option Text
  unfolding value_of
  values [] = some []
  values (c ∷ s) =
      let rest = values s in
      if c == 10 || c == 13 then rest else elim (value_of c) [
        | none ↦ none
        | some v ↦ elim rest [ none ↦ none | some vs ↦ some (v ∷ vs) ]
      ]

abbrev prepend : ℕ → ℕ → ℕ → Option Text → Option Text
prepend a b c none = none
prepend a b c (some r) = some (a ∷ b ∷ c ∷ r)

-- Four values are three bytes. A single value left over is an error; trailing bits are dropped.
unfoldable pub bytes_of : Text → Option Text
bytes_of [] = some []
bytes_of (p ∷ []) = none
bytes_of (p ∷ q ∷ []) = some ((p * 4 + q / 16) ∷ [])
bytes_of (p ∷ q ∷ r ∷ []) = some ((p * 4 + q / 16) ∷ (q % 16 * 16 + r / 4) ∷ [])
bytes_of (p ∷ q ∷ r ∷ s ∷ rest) =
    prepend (p * 4 + q / 16) (q % 16 * 16 + r / 4) (r % 4 * 64 + s) (bytes_of rest)

unfoldable pub decode : Alphabet → Text → Option Text
unfolding values bytes_of
decode α s = elim (values α s) [ none ↦ none | some vs ↦ bytes_of vs ]
