-- ===== src/Text.antt =====
-- Go strings and the functions of package strings that the program calls.
-- A string is the list of the characters that `range` steps through: a code point for a valid UTF-8
-- sequence, and 1114112 + b for a byte b that begins none. So no string of bytes is left out, every
-- separator of the program (all are ASCII) is one element, and `size` gives back the byte count.
pub mod Laws
pub mod Splits
use Prim.Native.Char.{code}
use Prim.Native.String.{String}
use proxyctl.Prelude.{
  ℕ, ◌+◌, ◌-◌, ◌/◌, ◌%◌, Bool, true, false, not, ◌&&◌, ◌||◌, List, [], ◌∷◌, ◌++◌, map, Option, none,
  some, ltb, leb, ◌==◌, if◌then◌else◌, all, length, drop,
}

abbrev pub Text : Type 0
Text = List ℕ

abbrev pub codes : String → Text
codes String.[] = []
codes (String.◌∷◌ c s) = code c ∷ codes s

-- The bytes that one character takes up in the string.
unfoldable pub width : ℕ → ℕ
width c =
    if ltb c 128
    then 1
    else if ltb c 2048
    then 2
    else if ltb c 65536
    then 3
    else if ltb c 1114112
    then 4
    else 1

-- `len(s)`
unfoldable pub size : Text → ℕ
unfolding width
size [] = 0
size (c ∷ s) = width c + size s

-- `utf8.ValidString`
unfoldable pub valid_string : Text → Bool
valid_string = all (λ c. ltb c 1114112)

-- `s == t`
unfoldable pub equal : Text → Text → Bool
equal [] [] = true
equal (x ∷ xs) (y ∷ ys) = x == y && equal xs ys
equal _ _ = false

unfoldable pub has_prefix : Text → Text → Bool
has_prefix s [] = true
has_prefix [] (c ∷ p) = false
has_prefix (x ∷ s) (c ∷ p) = x == c && has_prefix s p

abbrev pub cons_front : ℕ → Option (Text × Text) → Option (Text × Text)
cons_front c none = none
cons_front c (some (a, b)) = some (c ∷ a, b)

-- `strings.Cut` of `s` at the first `sub`: what stands before it and behind it.
unfoldable pub cut : Text → Text → Option (Text × Text)
unfolding has_prefix
cut sub [] = if has_prefix [] sub then some ([], []) else none
cut sub (c ∷ s) =
    if has_prefix (c ∷ s) sub
    then some ([], drop (length sub) (c ∷ s))
    else cons_front c (cut sub s)

unfoldable pub contains : Text → Text → Bool
unfolding has_prefix
contains [] sub = has_prefix [] sub
contains (c ∷ s) sub = has_prefix (c ∷ s) sub || contains s sub

-- `strings.Split` at a one-byte separator: never the empty list.
unfoldable pub split : ℕ → Text → List Text
split sep [] = [] ∷ []
split sep (c ∷ s) =
    let rest = split sep s in
    if c == sep then [] ∷ rest else elim rest [ [] ↦ (c ∷ []) ∷ [] | p ∷ ps ↦ (c ∷ p) ∷ ps ]

-- `strings.Join`
unfoldable pub join : Text → List Text → Text
join sep [] = []
join sep (p ∷ []) = p
join sep (p ∷ q ∷ ps) = p ++ (sep ++ join sep (q ∷ ps))

-- `strings.TrimLeft`, `strings.TrimRight` and `strings.Trim` with the cut set as a test.
unfoldable pub trim_left : (ℕ → Bool) → Text → Text
trim_left p [] = []
trim_left p (c ∷ s) = if p c then trim_left p s else c ∷ s

unfoldable pub trim_right : (ℕ → Bool) → Text → Text
trim_right p [] = []
trim_right p (c ∷ s) =
    let rest = trim_right p s in elim rest [ [] ↦ if p c then [] else c ∷ [] | x ∷ xs ↦ c ∷ x ∷ xs ]

unfoldable pub trim : (ℕ → Bool) → Text → Text
unfolding trim_left trim_right
trim p s = trim_left p (trim_right p s)

-- `unicode.IsSpace`
unfoldable pub is_space : ℕ → Bool
is_space c =
    leb 9 c && leb c 13
    || c == 32
    || c == 133
    || c == 160
    || c == 5760
    || leb 8192 c && leb c 8202
    || c == 8232
    || c == 8233
    || c == 8239
    || c == 8287
    || c == 12288

-- `strings.TrimSpace`
unfoldable pub trim_space : Text → Text
unfolding trim is_space
trim_space = trim is_space

-- `strings.HasSuffix` at one byte
unfoldable pub ends_with : Text → ℕ → Bool
ends_with [] c = false
ends_with (x ∷ []) c = x == c
ends_with (x ∷ y ∷ s) c = ends_with (y ∷ s) c

-- `s[:len(s)-1]`
unfoldable pub init : Text → Text
init [] = []
init (x ∷ []) = []
init (x ∷ y ∷ s) = x ∷ init (y ∷ s)

unfoldable pub is_digit : ℕ → Bool
is_digit c = leb b'0' c && leb c b'9'

unfoldable pub is_lower : ℕ → Bool
is_lower c = leb b'a' c && leb c b'z'

unfoldable pub is_upper : ℕ → Bool
is_upper c = leb b'A' c && leb c b'Z'

-- `strings.TrimPrefix` and `strings.TrimSuffix` at one byte.
unfoldable pub trim_prefix : ℕ → Text → Text
trim_prefix b [] = []
trim_prefix b (c ∷ s) = if c == b then s else c ∷ s

unfoldable pub trim_suffix : ℕ → Text → Text
unfolding ends_with init
trim_suffix b s = if ends_with s b then init s else s

-- Membership in a list of texts.
unfoldable pub member : Text → List Text → Bool
unfolding equal
member t [] = false
member t (x ∷ xs) = equal x t || member t xs

-- The bytes of one character.
unfoldable pub encode_one : ℕ → List ℕ
encode_one c =
    if ltb c 128
    then c ∷ []
    else if ltb c 2048
    then (192 + c / 64) ∷ (128 + c % 64) ∷ []
    else if ltb c 65536
    then (224 + c / 4096) ∷ (128 + c / 64 % 64) ∷ (128 + c % 64) ∷ []
    else if ltb c 1114112
    then (240 + c / 262144) ∷ (128 + c / 4096 % 64) ∷ (128 + c / 64 % 64) ∷ (128 + c % 64) ∷ []
    else (c - 1114112) ∷ []

-- `[]byte(s)`
unfoldable pub encode : Text → List ℕ
unfolding encode_one
encode [] = []
encode (c ∷ s) = encode_one c ++ encode s
