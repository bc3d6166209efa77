-- ===== src/Yaml.antt =====
-- internal/render/yaml_scalar.go: the emission of one value as a YAML scalar.
pub mod Read
pub mod Value
pub mod Emit
pub mod Emitted
use proxyctl.Prelude.{
  ℕ, ◌+◌, ◌/◌, ◌%◌, Bool, ◌&&◌, ◌||◌, [], ◌∷◌, ◌++◌, ltb, ◌==◌, if◌then◌else◌, any,
}
use proxyctl.Text.{Text, valid_string, contains, codes}

-- `const hex = "0123456789abcdef"`, indexed
unfoldable pub hex_digit : ℕ → ℕ
hex_digit d = if ltb d 10 then b'0' + d else 87 + d

-- What `range` yields for one character: a byte outside every valid sequence reads as U+FFFD.
unfoldable pub rune : ℕ → ℕ
rune c = if ltb c 1114112 then c else 65533

-- The default branch of the switch. `>>` is a division and `& 0xf` a remainder.
unfoldable pub quote_default : ℕ → Text
quote_default r =
    if r == 0x2028 || r == 0x2029
    then b'\\'
      ∷ b'u'
      ∷ hex_digit (r / 4096 % 16)
      ∷ hex_digit (r / 256 % 16)
      ∷ hex_digit (r / 16 % 16)
      ∷ hex_digit (r % 16)
      ∷ []
    else if ltb r 0x20 || r == 0x7f || r == 0x85
    then b'\\' ∷ b'x' ∷ hex_digit (r / 16 % 16) ∷ hex_digit (r % 16) ∷ []
    else r ∷ []

-- The switch inside the loop of `quoteYAML`.
unfoldable pub quote_rune : ℕ → Text
quote_rune r =
    if r == b'"'
    then b'\\' ∷ b'"' ∷ []
    else if r == b'\\'
    then b'\\' ∷ b'\\' ∷ []
    else if r == b'\n'
    then b'\\' ∷ b'n' ∷ []
    else if r == b'\r'
    then b'\\' ∷ b'r' ∷ []
    else if r == b'\t'
    then b'\\' ∷ b't' ∷ []
    else quote_default r

unfoldable pub quote_body : Text → Text
quote_body [] = []
quote_body (c ∷ v) = quote_rune (rune c) ++ quote_body v

-- `quoteYAML`
unfoldable pub quote_yaml : Text → Text
unfolding quote_body quote_rune quote_default rune hex_digit
quote_yaml v = b'"' ∷ (quote_body v ++ b'"' ∷ [])

-- `isYAMLControl`
unfoldable pub is_yaml_control : ℕ → Bool
is_yaml_control r = ltb r 0x20 || r == 0x7f || r == 0x85 || r == 0x2028 || r == 0x2029

-- `containsPlaceholderFragment`
unfoldable pub contains_placeholder_fragment : Text → Bool
contains_placeholder_fragment v = contains v (b'$' ∷ b'{' ∷ [])
