-- ===== src/Go/Utf8.antt =====
-- `for _, r := range s`: the runes of a string of bytes. A byte that begins no well-formed UTF-8
-- sequence is the rune U+FFFD of width 1.
use braza_sso.Prelude.{
  ℕ, zero, suc, ◌+◌, ◌-◌, ◌*◌, ◌%◌, Bool, ◌&&◌, List, [], ◌∷◌, Text, ltb, leb, ◌==◌, if◌then◌else◌,
}

abbrev within : ℕ → ℕ → ℕ → Bool
within lo hi b = leb lo b && leb b hi

abbrev bad : ℕ × ℕ
bad = (0xfffd, 1)

two : ℕ → Text → ℕ × ℕ
two a [] = bad
two a (b ∷ s) = if within 0x80 0xbf b then (a % 32 * 64 + b % 64, 2) else bad

three : ℕ → ℕ → ℕ → Text → ℕ × ℕ
three a lo hi (b ∷ c ∷ s) =
    if within lo hi b && within 0x80 0xbf c then (a % 16 * 4096 + b % 64 * 64 + c % 64, 3) else bad
three a lo hi _ = bad

four : ℕ → ℕ → ℕ → Text → ℕ × ℕ
four a lo hi (b ∷ c ∷ d ∷ s) =
    if within lo hi b && within 0x80 0xbf c && within 0x80 0xbf d
    then (a % 8 * 262144 + b % 64 * 4096 + c % 64 * 64 + d % 64, 4)
    else bad
four a lo hi _ = bad

-- `utf8.DecodeRune` at a byte and what follows it: the rune and its width.
unfoldable pub decode_rune : ℕ → Text → ℕ × ℕ
unfolding two three four
decode_rune a s =
    if ltb a 0x80
    then (a, 1)
    else if within 0xc2 0xdf a
    then two a s
    else if a == 0xe0
    then three a 0xa0 0xbf s
    else if a == 0xed
    then three a 0x80 0x9f s
    else if within 0xe1 0xef a
    then three a 0x80 0xbf s
    else if a == 0xf0
    then four a 0x90 0xbf s
    else if a == 0xf4
    then four a 0x80 0x8f s
    else if within 0xf1 0xf3 a
    then four a 0x80 0xbf s
    else bad

-- `skip` bytes belong to the rune before.
runes_from : ℕ → Text → List ℕ
unfolding decode_rune
runes_from skip [] = []
runes_from zero (a ∷ s) = let (r, width) = decode_rune a s in r ∷ runes_from (width - 1) s
runes_from (suc skip) (a ∷ s) = runes_from skip s

unfoldable pub runes : Text → List ℕ
unfolding runes_from
runes = runes_from 0
