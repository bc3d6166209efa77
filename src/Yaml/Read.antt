-- ===== src/Yaml/Read.antt =====
-- A reader of YAML 1.2 double-quoted scalars that knows nothing of the printer, and the round trip.
-- It reads the escapes that YAML gives for a quote, a backslash, LF, CR, TAB, \xHH and \uHHHH, and
-- refuses a raw line break or control character.
use proxyctl.Prelude.{
  ℕ, zero, suc, ◌+◌, ◌-◌, ◌*◌, ◌/◌, ◌%◌, ◌<◌, ◌≡◌, ◌≢◌, ap, refl, ◌∙◌, Bool, true, false, ◌||◌,
  ◌&&◌, [], ◌∷◌, ◌++◌, map, Option, none, some, arith, ltb, leb, ◌==◌, if◌then◌else◌, all,
  all-append, not, Bool-cases, inl, inr,
}
use mathlib.Core.List.{append_assoc}
use proxyctl.Text.{Text, valid_string}
use proxyctl.Yaml.{
  hex_digit, rune, quote_default, quote_rune, quote_body, quote_yaml, is_yaml_control,
}

pub data Mode : Type 0 where
  plain escape : Mode
  hex : ℕ → ℕ → Mode

pub data Step : Type 0 where
  finish : Step
  goto : Mode → Step
  emit : ℕ → Step

unfoldable pub hex_value : ℕ → Option ℕ
hex_value c =
    if leb b'0' c && leb c b'9'
    then some (c - b'0')
    else if leb b'a' c && leb c b'f'
    then some (c - 87)
    else none

-- `hex n acc` reads n + 1 more digits.
unfoldable pub read_step : Mode → ℕ → Option Step
unfolding hex_value is_yaml_control
read_step plain c =
    if c == b'"'
    then some finish
    else if c == b'\\'
    then some (goto escape)
    else if is_yaml_control c
    then none
    else some (emit c)
read_step escape c =
    if c == b'"' || c == b'\\'
    then some (emit c)
    else if c == b'n'
    then some (emit b'\n')
    else if c == b'r'
    then some (emit b'\r')
    else if c == b't'
    then some (emit b'\t')
    else if c == b'x'
    then some (goto (hex 1 0))
    else if c == b'u'
    then some (goto (hex 3 0))
    else none
read_step (hex zero acc) c = elim (hex_value c) [
  | none ↦ none
  | some d ↦ some (emit (acc * 16 + d))
]
read_step (hex (suc n) acc) c = elim (hex_value c) [
  | none ↦ none
  | some d ↦ some (goto (hex n (acc * 16 + d)))
]

abbrev pub prepend : ℕ → Option (Text × Text) → Option (Text × Text)
prepend c none = none
prepend c (some (v, rest)) = some (c ∷ v, rest)

unfoldable pub read_in : Mode → Text → Option (Text × Text)
read_in m [] = none
read_in m (c ∷ s) = elim (read_step m c) [
  | none ↦ none
  | some finish ↦ some ([], s)
  | some (goto m') ↦ read_in m' s
  | some (emit r) ↦ prepend r (read_in plain s)
]

-- A whole scalar from its opening quote: the value, and what stands behind the closing quote.
unfoldable pub read_scalar : Text → Option (Text × Text)
unfolding read_in read_step
read_scalar [] = none
read_scalar (c ∷ s) = elim (c == b'"') [ true ↦ read_in plain s | false ↦ none ]

hex_value-hex_digit : (d : ℕ) → d < 16 → hex_value (hex_digit d) ≡ some d
unfolding hex_value hex_digit
hex_value-hex_digit d h = ground arith

read_in-hex_two :
    (a b : ℕ) (s : Text)
    → a < 16
    → b < 16
    → read_in (hex 1 0) (hex_digit a ∷ hex_digit b ∷ s) ≡ prepend (a * 16 + b) (read_in plain s)
unfolding read_in read_step hex_value
read_in-hex_two a b s ha hb = ground (arith, hex_value-hex_digit a, hex_value-hex_digit b)

read_in-hex_four :
    (a b c d : ℕ) (s : Text)
    → a < 16
    → b < 16
    → c < 16
    → d < 16
    → read_in (hex 3 0) (hex_digit a ∷ hex_digit b ∷ hex_digit c ∷ hex_digit d ∷ s)
      ≡ prepend (((a * 16 + b) * 16 + c) * 16 + d) (read_in plain s)
unfolding read_in read_step hex_value
read_in-hex_four a b c d s ha hb hc hd = ground (
  arith,
  hex_value-hex_digit a,
  hex_value-hex_digit b,
  hex_value-hex_digit c,
  hex_value-hex_digit d,
)

-- The two escapes by number, and the characters that stand for themselves.
read_in-quote_default :
    (r : ℕ) (s : Text)
    → r ≢ b'"'
    → r ≢ b'\\'
    → read_in plain (quote_default r ++ s) ≡ prepend r (read_in plain s)
unfolding quote_default
read_in-quote_default r s q b = elim (Bool-cases (r == 0x2028 || r == 0x2029)) [
  | inl u ↦ rw u (
      unfold read_in read_step in
      read_in-hex_four (r / 4096 % 16) (r / 256 % 16) (r / 16 % 16) (r % 16) s (omega arith)
        (omega arith) (omega arith) (omega arith)
      ∙ ap (λ n. prepend n (read_in plain s)) (ground arith))
  | inr nu ↦ elim (Bool-cases (ltb r 0x20 || r == 0x7f || r == 0x85)) [
    | inl x ↦
        rw (nu, x)
          (unfold read_in read_step in
            read_in-hex_two (r / 16 % 16) (r % 16) s (omega arith) (omega arith)
            ∙ ap (λ n. prepend n (read_in plain s)) (ground arith))
    | inr nx ↦ rw (nu, nx) (unfold read_in read_step in ground arith)
  ]
]

read_in-quote_rune :
    (r : ℕ) (s : Text) → read_in plain (quote_rune r ++ s) ≡ prepend r (read_in plain s)
unfolding read_in read_step quote_rune
read_in-quote_rune r s = ground (arith, read_in-quote_default r s)

read_in-quote_body : (v s : Text) → read_in plain (quote_body v ++ b'"' ∷ s) ≡ some (map rune v, s)
unfolding quote_body
read_in-quote_body [] s = unfold read_in read_step in refl
read_in-quote_body (c ∷ v) s = rw append_assoc (rw read_in-quote_rune (rw (read_in-quote_body v s)))

map-rune : (v : Text) → valid_string v ≡ true → map rune v ≡ v
unfolding valid_string rune
map-rune [] h = refl
map-rune (c ∷ v) h = ground (arith, map-rune v)

-- For every value that is valid UTF-8 and every text behind it, a reader that meets the quoted value
-- reads exactly the value back and goes on exactly behind the closing quote.
pub read_scalar-quote_yaml :
    (v rest : Text) → valid_string v ≡ true → read_scalar (quote_yaml v ++ rest) ≡ some (v, rest)
unfolding read_scalar quote_yaml
read_scalar-quote_yaml v rest h =
    rw append_assoc (read_in-quote_body v rest ∙ ap (λ (w : Text). some (w, rest)) (map-rune v h))

-- No character below a blank, DEL, NEL, LINE SEPARATOR or PARAGRAPH SEPARATOR.
abbrev pub printable : ℕ → Bool
printable c = not (ltb c 0x20 || c == 0x7f || c == 0x85 || c == 0x2028 || c == 0x2029)

printable-quote_rune : (r : ℕ) → all printable (quote_rune r) ≡ true
unfolding quote_rune quote_default is_yaml_control hex_digit
printable-quote_rune r = elim (Bool-cases (r == 0x2028 || r == 0x2029)) [
  | inl u ↦ ground arith
  | inr nu ↦ ground arith
]

printable-quote_body : (v : Text) → all printable (quote_body v) ≡ true
unfolding quote_body
printable-quote_body [] = refl
printable-quote_body (c ∷ v) =
    all-append printable (quote_rune (rune c)) (quote_body v)
    ∙ rw (printable-quote_rune (rune c)) (printable-quote_body v)

-- Whatever the value holds, the quoted scalar holds none of the characters below U+0020, among
-- them tab, LF and CR, and none of U+007F, U+0085, U+2028 and U+2029. The other characters from
-- U+0080 to U+009F are written as they are.
pub all-printable-quote_yaml : (v : Text) → all printable (quote_yaml v) ≡ true
unfolding quote_yaml is_yaml_control
all-printable-quote_yaml v =
    all-append printable (quote_body v) (b'"' ∷ []) ∙ rw (printable-quote_body v)
