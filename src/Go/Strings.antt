-- ===== src/Go/Strings.antt =====
-- Package strings, on the bytes of a string: `ToLower` and `TrimSpace` for ASCII text, `Split`, `SplitN`,
-- `HasPrefix`, `TrimPrefix` and `Fields`.
use braza_sso.Prelude.{
  ℕ, zero, suc, ◌+◌, Bool, ◌&&◌, ◌||◌, Option, none, some, List, [], ◌∷◌, ◌++◌, map, Text, leb,
  ◌==◌, if◌then◌else◌,
}
use mathlib.Core.List.{reverse}

-- `unicode.IsSpace` in the ASCII range.
unfoldable pub is_space : ℕ → Bool
is_space c = c == 32 || (leb 9 c && leb c 13)

unfoldable pub trim_left : Text → Text
unfolding is_space
trim_left [] = []
trim_left (c ∷ s) = if is_space c then trim_left s else c ∷ s

unfoldable pub trim_space : Text → Text
unfolding trim_left
trim_space s = reverse (trim_left (reverse (trim_left s)))

unfoldable pub lower : ℕ → ℕ
lower c = if leb 65 c && leb c 90 then c + 32 else c

unfoldable pub to_lower : Text → Text
unfolding lower
to_lower = map lower

-- `HasPrefix` and `TrimPrefix` in one: the rest after the prefix.
unfoldable pub strip_prefix : Text → Text → Option Text
strip_prefix [] s = some s
strip_prefix (p ∷ ps) [] = none
strip_prefix (p ∷ ps) (c ∷ s) = if p == c then strip_prefix ps s else none

-- The part before the first separator, and what follows it, if there is one.
unfoldable pub cut : ℕ → Text → Text × Option Text
cut sep [] = ([], none)
cut sep (c ∷ s) =
    let (before, after) = cut sep s in if c == sep then ([], some s) else (c ∷ before, after)

-- `SplitN(s, sep, n)`: at most n parts, the last one unsplit.
unfoldable pub split_n : ℕ → ℕ → Text → List Text
unfolding cut
split_n zero sep s = []
split_n (suc zero) sep s = s ∷ []
split_n (suc (suc n)) sep s =
    let (before, after) = cut sep s in
    elim after [ none ↦ before ∷ [] | some rest ↦ before ∷ split_n (suc n) sep rest ]

-- A character before the first part.
abbrev put_front : ℕ → List Text → List Text
put_front c [] = (c ∷ []) ∷ []
put_front c (part ∷ parts) = (c ∷ part) ∷ parts

-- `Split` at a separator of one byte.
unfoldable pub split : ℕ → Text → List Text
split sep [] = [] ∷ []
split sep (c ∷ s) = let parts = split sep s in if c == sep then [] ∷ parts else put_front c parts

-- A finished run of characters, if it is not empty.
abbrev add_word : Text → List Text → List Text
add_word [] words = words
add_word (c ∷ word) words = (c ∷ word) ∷ words

-- `Fields`: the maximal runs of characters that are no spaces. `word` is the run so far.
fields_from : Text → Text → List Text
unfolding is_space
fields_from word [] = add_word word []
fields_from word (c ∷ s) =
    let ended = fields_from [] s in
    let longer = fields_from (word ++ (c ∷ [])) s in
    if is_space c then add_word word ended else longer

unfoldable pub fields : Text → List Text
unfolding fields_from
fields = fields_from []
