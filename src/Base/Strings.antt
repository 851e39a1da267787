-- ===== src/Base/Strings.antt =====
-- What the program uses of Go's package `strings`, over the bytes of a string.
-- `trim_space` removes every Unicode space in its UTF-8 form; `to_lower` maps ASCII letters, and
-- the two letters outside ASCII that have one of ASCII as their lower case.
use Prim.Native.Char.{code}
use Prim.Native.String.{String}
use small_x.Base.{
  ℕ, zero, suc, ◌+◌, ◌≡◌, refl, Bool, false, ◌&&◌, ◌||◌, Option, none, some, List, [], ◌∷◌, ◌++◌,
  length, leb, nat_eq, if◌then◌else◌, Text, any, drop, get_or,
}
use mathlib.Core.List.{reverse}

-- The bytes of a literal in ASCII.
abbrev pub codes : String → Text
codes String.[] = []
codes (String.◌∷◌ c s) = code c ∷ codes s

abbrev pub lower_byte : ℕ → ℕ
lower_byte c = if leb b'A' c && leb c b'Z' then c + 32 else c

-- A byte in front of a text and of its lower case: U+212A, the Kelvin sign, gives `k`, and U+0130, the
-- capital I with a dot, gives `i`. Other letters outside ASCII stay: their lower case is outside ASCII
-- as well, so that a comparison with a name in ASCII has the same result.
abbrev pub lower_onto : ℕ → Text → Text → Text
lower_onto c s lower =
    if nat_eq c 0xe2 && nat_eq (get_or s 0 0) 0x84 && nat_eq (get_or s 1 0) 0xaa
    then b'k' ∷ drop 2 lower
    else if nat_eq c 0xc4 && nat_eq (get_or s 0 0) 0xb0
    then b'i' ∷ drop 1 lower
    else lower_byte c ∷ lower

unfoldable pub to_lower : Text → Text
to_lower [] = []
to_lower (c ∷ s) = lower_onto c s (to_lower s)

to_lower_test :
    to_lower (codes "AES" ++ 0xe2 ∷ 0x84 ∷ 0xaa ∷ 0xc4 ∷ 0xb0 ∷ 0xc3 ∷ 0x89 ∷ codes "Z")
    ≡ codes "aeski" ++ 0xc3 ∷ 0x89 ∷ codes "z"
unfolding to_lower
to_lower_test = refl

pub is_space : ℕ → Bool
is_space c = (leb 9 c && leb c 13) || nat_eq c 32

-- U+0085, U+00A0.
pub is_space2 : ℕ → ℕ → Bool
is_space2 a b = nat_eq a 0xc2 && (nat_eq b 0x85 || nat_eq b 0xa0)

-- U+1680, U+2000 to U+200A, U+2028, U+2029, U+202F, U+205F, U+3000.
pub is_space3 : ℕ → ℕ → ℕ → Bool
is_space3 a b c =
    (nat_eq a 0xe1 && nat_eq b 0x9a && nat_eq c 0x80)
    || (nat_eq a 0xe2
        && nat_eq b 0x80
        && ((leb 0x80 c && leb c 0x8a) || nat_eq c 0xa8 || nat_eq c 0xa9 || nat_eq c 0xaf))
    || (nat_eq a 0xe2 && nat_eq b 0x81 && nat_eq c 0x9f)
    || (nat_eq a 0xe3 && nat_eq b 0x80 && nat_eq c 0x80)

-- The bytes of the space that a text begins with, 0 if it begins with none.
unfoldable pub leading_space : Text → ℕ
unfolding is_space is_space2 is_space3
leading_space [] = 0
leading_space (a ∷ []) = if is_space a then 1 else 0
leading_space (a ∷ b ∷ []) = if is_space a then 1 else if is_space2 a b then 2 else 0
leading_space (a ∷ b ∷ c ∷ s) =
    if is_space a then 1 else if is_space2 a b then 2 else if is_space3 a b c then 3 else 0

-- The same for a text read backwards.
unfoldable pub trailing_space : Text → ℕ
unfolding is_space is_space2 is_space3
trailing_space [] = 0
trailing_space (a ∷ []) = if is_space a then 1 else 0
trailing_space (a ∷ b ∷ []) = if is_space a then 1 else if is_space2 b a then 2 else 0
trailing_space (a ∷ b ∷ c ∷ s) =
    if is_space a then 1 else if is_space2 b a then 2 else if is_space3 c b a then 3 else 0

-- Removes spaces while `width` finds one; a text has at most `length s` of them.
unfoldable pub strip : (Text → ℕ) → ℕ → Text → Text
strip width zero s = s
strip width (suc n) s = elim (width s) [ zero ↦ s | suc k ↦ strip width n (drop (suc k) s) ]

unfoldable pub trim_space : Text → Text
unfolding strip leading_space trailing_space
trim_space s =
    let front = strip leading_space (length s) s in
    reverse (strip trailing_space (length front) (reverse front))

unfoldable pub contains_byte : ℕ → Text → Bool
contains_byte c s = any (nat_eq c) s

unfoldable pub has_prefix_byte : ℕ → Text → Bool
has_prefix_byte c [] = false
has_prefix_byte c (a ∷ s) = nat_eq a c

-- `strings.Cut(s, sep)` at a separator of one byte.
unfoldable pub cut : ℕ → Text → Option (Text × Text)
cut c [] = none
cut c (a ∷ s) =
    let rest = cut c s in
    if nat_eq a c
    then some ([], s)
    else elim rest [ none ↦ none | some (key, value) ↦ some (a ∷ key, value) ]

-- `strings.Split(s, sep)` at a separator of one byte: never empty.
unfoldable pub split_first : ℕ → Text → Text × List Text
split_first c [] = ([], [])
split_first c (a ∷ s) =
    let (part, parts) = split_first c s in
    if nat_eq a c then ([], part ∷ parts) else (a ∷ part, parts)

unfoldable pub split : ℕ → Text → List Text
unfolding split_first
split c s = let (part, parts) = split_first c s in part ∷ parts

trim_space_test :
    trim_space (0xc2 ∷ 0xa0 ∷ codes " a b " ++ 0xe2 ∷ 0x80 ∷ 0x8a ∷ 10 ∷ []) ≡ codes "a b"
unfolding trim_space
trim_space_test = refl
