-- ===== src/Preflight/Fields.antt =====
-- An address field of a socket table, as the kernel of a little-endian host prints it, is read back.
use proxyctl.Prelude.{
  ℕ, ◌+◌, ◌*◌, ◌/◌, ◌%◌, ◌^◌, ◌<◌, ◌≡◌, refl, ap, ◌∙◌, arith, Bool, true, false, not, ◌&&◌, List,
  [], ◌∷◌, ◌++◌, Option, some, ltb, ◌==◌, All, all, length, if◌then◌else◌,
}
use proxyctl.Text.{Text, codes, cut, size, width, has_prefix, is_digit}
use proxyctl.Net.Ip.{Addr, hex_value}
use proxyctl.Preflight.Tables.{
  decode_hex, hex_uint_on, parse_hex_uint, big_endian, put_little_endian, swap_words, addr_of,
  parse_proc_net_local_addr,
}

-- One digit of `%X`.
unfoldable pub hex_char : ℕ → ℕ
hex_char d = if ltb d 10 then b'0' + d else 55 + d

unfoldable pub print_bytes : List ℕ → Text
print_bytes [] = []
print_bytes (b ∷ bytes) = hex_char (b / 16) ∷ hex_char (b % 16) ∷ print_bytes bytes

-- Each word of four bytes from the last byte to the first: the order of `%08X` of the word.
unfoldable pub turned : List ℕ → List ℕ
turned (a ∷ b ∷ c ∷ d ∷ bytes) = d ∷ c ∷ b ∷ a ∷ turned bytes
turned _ = []

unfoldable pub print_port : ℕ → Text
print_port p = print_bytes (p / 256 ∷ p % 256 ∷ [])

unfoldable pub print_field : List ℕ → ℕ → Text
print_field ip p = print_bytes (turned ip) ++ (b':' ∷ print_port p)

hex_value-hex_char : (d : ℕ) → d < 16 → hex_value (hex_char d) ≡ some d
unfolding hex_value hex_char is_digit
hex_value-hex_char d h = ground arith

abbrev pub Byte : ℕ → Type 0
Byte b = b < 256

decode_step :
    (a b x y : ℕ) (s : Text) (bytes : List ℕ)
    → hex_value a ≡ some x
    → hex_value b ≡ some y
    → decode_hex s ≡ some bytes
    → decode_hex (a ∷ b ∷ s) ≡ some ((x * 16 + y) ∷ bytes)
unfolding decode_hex
decode_step a b x y s bytes e f g = rw (e, f, g, decode_hex) refl

decode_hex-print_bytes :
    (bytes : List ℕ) → All Byte bytes → decode_hex (print_bytes bytes) ≡ some bytes
unfolding decode_hex print_bytes
decode_hex-print_bytes [] h = refl
decode_hex-print_bytes (b ∷ bytes) h =
    decode_step (hex_char (b / 16)) (hex_char (b % 16)) (b / 16) (b % 16) (print_bytes bytes) bytes
      (hex_value-hex_char (b / 16) (omega arith)) (hex_value-hex_char (b % 16) (omega arith))
      (decode_hex-print_bytes bytes h.1)
    ∙ ap (λ (x : ℕ). some (x ∷ bytes)) (omega arith)

-- A list of whole words.
unfoldable pub whole : List ℕ → Bool
whole [] = true
whole (_ ∷ _ ∷ _ ∷ _ ∷ bytes) = whole bytes
whole _ = false

four :
    {a b c d x y z w : ℕ} → x ≡ a → y ≡ b → z ≡ c → w ≡ d → x ∷ y ∷ z ∷ w ∷ [] ≡ a ∷ b ∷ c ∷ d ∷ []
four e f g h = cc

word_back :
    (a b c d : ℕ)
    → Byte a
    → Byte b
    → Byte c
    → Byte d
    → put_little_endian (big_endian d c b a) ≡ a ∷ b ∷ c ∷ d ∷ []
unfolding put_little_endian big_endian
word_back a b c d ha hb hc hd = four (omega arith) (omega arith) (omega arith) (omega arith)

swap_words-turned : (ip : List ℕ) → whole ip ≡ true → All Byte ip → swap_words (turned ip) ≡ ip
unfolding swap_words turned whole
swap_words-turned [] w h = refl
swap_words-turned (a ∷ []) w h = cc
swap_words-turned (a ∷ b ∷ []) w h = cc
swap_words-turned (a ∷ b ∷ c ∷ []) w h = cc
swap_words-turned (a ∷ b ∷ c ∷ d ∷ ip) w h =
    rw (word_back a b c d h.0 h.1.0 h.1.1.0 h.1.1.1.0, swap_words-turned ip w h.1.1.1.1) refl

-- What is printed is digits.
abbrev digit : ℕ → Bool
digit c = ltb c 128 && not (c == b':')

digit-hex_char : (d : ℕ) → d < 16 → digit (hex_char d) ≡ true
unfolding hex_char
digit-hex_char d h = ground arith

digits-print_bytes : (bytes : List ℕ) → All Byte bytes → all digit (print_bytes bytes) ≡ true
unfolding print_bytes
digits-print_bytes [] h = refl
digits-print_bytes (b ∷ bytes) h =
    rw (digit-hex_char (b / 16) (omega arith), digit-hex_char (b % 16) (omega arith))
      (digits-print_bytes bytes h.1)

size-digits : (s : Text) → all digit s ≡ true → size s ≡ length s
unfolding size width
size-digits [] h = refl
size-digits (c ∷ s) h = ground (arith, size-digits s)

cut-digits : (s t : Text) → all digit s ≡ true → cut (codes ":") (s ++ (b':' ∷ t)) ≡ some (s, t)
unfolding cut has_prefix
cut-digits [] t h = refl
cut-digits (c ∷ s) t h = let rest = cut-digits s t (ground arith) in ground arith

length-print_bytes : (bytes : List ℕ) → length (print_bytes bytes) ≡ 2 * length bytes
unfolding print_bytes
length-print_bytes [] = refl
length-print_bytes (b ∷ bytes) = omega (arith, length-print_bytes bytes)

turned-Byte : (ip : List ℕ) → All Byte ip → All Byte (turned ip)
unfolding turned
turned-Byte [] h = tt
turned-Byte (a ∷ []) h = tt
turned-Byte (a ∷ b ∷ []) h = tt
turned-Byte (a ∷ b ∷ c ∷ []) h = tt
turned-Byte (a ∷ b ∷ c ∷ d ∷ ip) h =
    (h.1.1.1.0, (h.1.1.0, (h.1.0, (h.0, turned-Byte ip h.1.1.1.1))))

length-turned : (ip : List ℕ) → whole ip ≡ true → length (turned ip) ≡ length ip
unfolding turned whole
length-turned [] w = refl
length-turned (a ∷ []) w = cc
length-turned (a ∷ b ∷ []) w = cc
length-turned (a ∷ b ∷ c ∷ []) w = cc
length-turned (a ∷ b ∷ c ∷ d ∷ ip) w = omega (arith, length-turned ip w)

hex_uint_four :
    (w x y z a b c d : ℕ)
    → hex_value w ≡ some a
    → hex_value x ≡ some b
    → hex_value y ≡ some c
    → hex_value z ≡ some d
    → hex_uint_on 0 (w ∷ x ∷ y ∷ z ∷ [])
      ≡ some (((((0 * 16) % 2 ^ 64 + a) * 16 % 2 ^ 64 + b) * 16 % 2 ^ 64 + c) * 16 % 2 ^ 64 + d)
unfolding hex_uint_on
hex_uint_four w x y z a b c d e f g h = rw (e, f, g, h, hex_uint_on) refl

some_equal : {x y : ℕ} → x ≡ y → some x ≡ some y
some_equal e = cc

mod_free :
    (a b c d : ℕ)
    → a < 16
    → b < 16
    → c < 16
    → d < 16
    → ((((0 * 16) % 2 ^ 64 + a) * 16 % 2 ^ 64 + b) * 16 % 2 ^ 64 + c) * 16 % 2 ^ 64 + d
      ≡ ((a * 16 + b) * 16 + c) * 16 + d
mod_free a b c d ha hb hc hd = omega arith

parse_hex_uint-four :
    (a b c d : ℕ)
    → a < 16
    → b < 16
    → c < 16
    → d < 16
    → parse_hex_uint (hex_char a ∷ hex_char b ∷ hex_char c ∷ hex_char d ∷ [])
      ≡ some (((a * 16 + b) * 16 + c) * 16 + d)
unfolding parse_hex_uint
parse_hex_uint-four a b c d ha hb hc hd =
    hex_uint_four (hex_char a) (hex_char b) (hex_char c) (hex_char d) a b c d
      (hex_value-hex_char a ha) (hex_value-hex_char b hb) (hex_value-hex_char c hc)
      (hex_value-hex_char d hd)
    ∙ some_equal (mod_free a b c d ha hb hc hd)

parse_hex_uint-print_port : (p : ℕ) → p < 65536 → parse_hex_uint (print_port p) ≡ some p
unfolding print_port print_bytes
parse_hex_uint-print_port p h =
    parse_hex_uint-four (p / 256 / 16) (p / 256 % 16) (p % 256 / 16) (p % 256 % 16) (omega arith)
      (omega arith) (omega arith) (omega arith)
    ∙ some_equal (omega arith)

ap2_some :
    (f : List ℕ → Addr) {x y : List ℕ} {p q : ℕ}
    → x ≡ y
    → p ≡ q
    → ◌≡◌ {A = Option (Addr × ℕ)} (some (f x, p)) (some (f y, q))
ap2_some f e g = cc

read_field :
    (is6 : Bool) (field s t : Text) (raw : List ℕ) (p : ℕ)
    → cut (codes ":") field ≡ some (s, t)
    → size s ≡ (if is6 then 32 else 8)
    → size t ≡ 4
    → decode_hex s ≡ some raw
    → parse_hex_uint t ≡ some p
    → parse_proc_net_local_addr field is6 ≡ some (addr_of is6 (swap_words raw), p % 2 ^ 16)
unfolding parse_proc_net_local_addr
read_field true field s t raw p e f g h k = rw (e, f, g, h, k, parse_proc_net_local_addr) refl
read_field false field s t raw p e f g h k = rw (e, f, g, h, k, parse_proc_net_local_addr) refl

whole_mod : (ip : List ℕ) → length ip % 4 ≡ 0 → whole ip ≡ true
unfolding whole
whole_mod [] e = refl
whole_mod (a ∷ []) e = ground arith
whole_mod (a ∷ b ∷ []) e = ground arith
whole_mod (a ∷ b ∷ c ∷ []) e = ground arith
whole_mod (a ∷ b ∷ c ∷ d ∷ ip) e = whole_mod ip (omega arith)

whole_words : (is6 : Bool) (ip : List ℕ) → length ip ≡ (if is6 then 16 else 4) → whole ip ≡ true
unfolding whole
whole_words is6 ip l = whole_mod ip (ground arith)

printed_size :
    (is6 : Bool) (ip : List ℕ)
    → length ip ≡ (if is6 then 16 else 4)
    → All Byte ip
    → size (print_bytes (turned ip)) ≡ (if is6 then 32 else 8)
printed_size is6 ip l h =
    let digits =
      size-digits (print_bytes (turned ip)) (digits-print_bytes (turned ip) (turned-Byte ip h)) in
    let doubled = length-print_bytes (turned ip) in
    let kept = length-turned ip (whole_words is6 ip l) in ground arith

-- An address of one word for IPv4 and of four for IPv6, of which each word is printed as
-- hexadecimal digits from its last byte to its first, with a port of four digits behind a
-- colon, is read back with its bytes in order and its port.
pub parse_proc_net_local_addr-print_field :
    (is6 : Bool) (ip : List ℕ) (p : ℕ)
    → length ip ≡ (if is6 then 16 else 4)
    → All Byte ip
    → p < 65536
    → parse_proc_net_local_addr (print_field ip p) is6 ≡ some (addr_of is6 ip, p)
unfolding print_field print_port
parse_proc_net_local_addr-print_field is6 ip p l h q =
    let port : All Byte (p / 256 ∷ p % 256 ∷ []) = (omega arith, (omega arith, tt)) in
    read_field is6 (print_field ip p) (print_bytes (turned ip)) (print_port p) (turned ip) p
      (cut-digits (print_bytes (turned ip)) (print_port p)
        (digits-print_bytes (turned ip) (turned-Byte ip h)))
      (printed_size is6 ip l h)
      (size-digits (print_port p) (digits-print_bytes (p / 256 ∷ p % 256 ∷ []) port)
        ∙ length-print_bytes (p / 256 ∷ p % 256 ∷ []))
      (decode_hex-print_bytes (turned ip) (turned-Byte ip h)) (parse_hex_uint-print_port p q)
    ∙ ap2_some (addr_of is6) (swap_words-turned ip (whole_words is6 ip l) h) (omega arith)
