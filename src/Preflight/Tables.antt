-- ===== src/Preflight/Tables.antt =====
-- internal/preflight/procnet.go: the tables of sockets below /proc/net. `none` is an error.
-- `print_addr` stands for `Addr.String` of net/netip.
use proxyctl.Prelude.{
  ℕ, ◌+◌, ◌*◌, ◌/◌, ◌%◌, ◌^◌, Bool, true, false, not, ◌&&◌, List, [], ◌∷◌, ◌++◌, Option, none, some,
  ◌==◌, if◌then◌else◌,
}
use proxyctl.Text.{Text, codes, size, equal, cut, split, is_space, trim_space}
use proxyctl.Net.Ip.{Addr, v4, v6, hex_value}
use proxyctl.Preflight.Probe.{Listener}

-- A word that has ended is kept if it is not empty.
abbrev pub keep_word : Text → List Text → List Text
keep_word [] words = words
keep_word (c ∷ w) words = (c ∷ w) ∷ words

-- The word at the front, and the words behind it.
unfoldable pub words_on : Text → Text × List Text
unfolding is_space
words_on [] = ([], [])
words_on (c ∷ s) =
    let (word, words) = words_on s in
    if is_space c then ([], keep_word word words) else (c ∷ word, words)

-- `strings.Fields`
unfoldable pub fields : Text → List Text
unfolding words_on
fields s = let (word, words) = words_on s in keep_word word words

-- `hex.DecodeString`
unfoldable pub decode_hex : Text → Option (List ℕ)
unfolding hex_value
decode_hex [] = some []
decode_hex (a ∷ []) = none
decode_hex (a ∷ b ∷ s) = elim (hex_value a) [
  | none ↦ none
  | some x ↦ elim (hex_value b) [
    | none ↦ none
    | some y ↦ elim (decode_hex s) [ none ↦ none | some bytes ↦ some ((x * 16 + y) ∷ bytes) ]
  ]
]

-- The loop of `parseHexUint`, in 64 bits.
unfoldable pub hex_uint_on : ℕ → Text → Option ℕ
unfolding hex_value
hex_uint_on acc [] = some acc
hex_uint_on acc (c ∷ s) = elim (hex_value c) [
  | none ↦ none
  | some d ↦ hex_uint_on ((acc * 16) % 2 ^ 64 + d) s
]

unfoldable pub parse_hex_uint : Text → Option ℕ
unfolding hex_uint_on
parse_hex_uint = hex_uint_on 0

-- `binary.BigEndian.Uint32` and `binary.LittleEndian.PutUint32`
unfoldable pub big_endian : ℕ → ℕ → ℕ → ℕ → ℕ
big_endian a b c d = ((a * 256 + b) * 256 + c) * 256 + d

unfoldable pub put_little_endian : ℕ → List ℕ
put_little_endian n = n % 256 ∷ n / 256 % 256 ∷ n / 65536 % 256 ∷ n / 16777216 % 256 ∷ []

-- The bytes of the address, word by word.
unfoldable pub swap_words : List ℕ → List ℕ
swap_words (a ∷ b ∷ c ∷ d ∷ raw) = put_little_endian (big_endian a b c d) ++ swap_words raw
swap_words _ = []

-- `netip.AddrFrom16` and `netip.AddrFrom4`
abbrev pub addr_of : Bool → List ℕ → Addr
addr_of true bytes = v6 bytes []
addr_of false bytes = v4 bytes

unfoldable pub parse_proc_net_local_addr : Text → Bool → Option (Addr × ℕ)
parse_proc_net_local_addr field is6 = elim (cut (codes ":") field) [
  | none ↦ none
  | some (hex_addr, hex_port) ↦
      if not (size hex_addr == (if is6 then 32 else 8))
      then none
      else if not (size hex_port == 4)
      then none
      else elim (decode_hex hex_addr) [
        | none ↦ none
        | some raw ↦ elim (parse_hex_uint hex_port) [
          | none ↦ none
          | some p ↦ some (addr_of is6 (swap_words raw), p % 2 ^ 16)
        ]
      ]
]

abbrev pub tcp_state_listen : Text
tcp_state_listen = codes "0A"

module _ (print_addr : Addr → Text) where
  -- The tests on the fields of a row: an error, or the listener, if the row is one.
  unfoldable pub row_of : Text → Bool → List Text → Option (Option Listener)
  row_of proto is6 (_ ∷ local ∷ _ ∷ state ∷ _) = elim (parse_proc_net_local_addr local is6) [
    | none ↦ none
    | some (addr, port) ↦
        if equal proto (codes "tcp") && not (equal state tcp_state_listen)
        then some none
        else some (some (record { protocol = proto; address = print_addr addr; port = port }))
  ]
  row_of proto is6 _ = none

  unfoldable pub parse_proc_net_line : Text → Text → Bool → Option (Option Listener)
  parse_proc_net_line line proto is6 = row_of proto is6 (fields line)

  -- The loop over the rows behind the header.
  unfoldable pub rows_on : Text → Bool → List Text → Option (List Listener)
  rows_on proto is6 [] = some []
  rows_on proto is6 (line ∷ lines) =
      let rest = rows_on proto is6 lines in
      if equal (trim_space line) [] then rest else elim (parse_proc_net_line line proto is6) [
        | none ↦ none
        | some none ↦ rest
        | some (some l) ↦ elim rest [ none ↦ none | some ls ↦ some (l ∷ ls) ]
      ]

  unfoldable pub parse_proc_net : Text → Text → Bool → Option (List Listener)
  parse_proc_net text proto is6 = elim (split b'\n' text) [
    | [] ↦ some []
    | header ∷ rows ↦ rows_on proto is6 rows
  ]
