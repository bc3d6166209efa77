-- ===== src/Net/Ip.antt =====
-- `netip.ParseAddr`: IPv4 in dotted decimal, and IPv6 in groups with an ellipsis and a zone.
use proxyctl.Prelude.{
  ℕ, zero, suc, ◌+◌, ◌-◌, ◌*◌, ◌/◌, ◌%◌, Bool, true, false, not, ◌&&◌, ◌||◌, List, [], ◌∷◌, ◌++◌,
  Option, none, some, ltb, leb, ◌==◌, length, replicate, take, drop, if◌then◌else◌, all,
}
use proxyctl.Text.{Text, is_digit}

-- The bytes of an address, and the zone of an IPv6 address (empty if it has none).
pub data Addr : Type 0 where
  v4 : List ℕ → Addr
  v6 : List ℕ → Text → Addr

-- `parseIPv4Fields`: `fields` are done, and the digits of the field at hand number `digits` and make
-- `val`.
parse_fields : List ℕ → ℕ → ℕ → Text → Option (List ℕ)
parse_fields fields digits val [] =
    if length fields == 3 && not (digits == 0) then some (fields ++ val ∷ []) else none
parse_fields fields digits val (c ∷ s) =
    let more = parse_fields fields (digits + 1) (val * 10 + (c - b'0')) s in
    let next = parse_fields (fields ++ val ∷ []) 0 0 s in
    if is_digit c
    then if digits == 1 && val == 0 || ltb 255 (val * 10 + (c - b'0')) then none else more
    else if c == b'.' && not (digits == 0) && not (length fields == 3)
    then next
    else none

unfoldable pub parse_ipv4 : Text → Option (List ℕ)
unfolding parse_fields is_digit
parse_ipv4 = parse_fields [] 0 0

unfoldable pub hex_value : ℕ → Option ℕ
unfolding is_digit
hex_value c =
    if is_digit c
    then some (c - b'0')
    else if leb b'a' c && leb c b'f'
    then some (c - 87)
    else if leb b'A' c && leb c b'F'
    then some (c - 55)
    else none

-- The hexadecimal digits at the front: how many, their value, and what follows.
hex_run : ℕ → ℕ → Text → ℕ × ℕ × Text
hex_run n acc [] = (n, acc, [])
hex_run n acc (c ∷ s) = elim (hex_value c) [
  | none ↦ (n, acc, c ∷ s)
  | some d ↦ hex_run (n + 1) (acc * 16 + d) s
]

-- The bytes read, and where the ellipsis stands among them.
abbrev Groups : Type 0
Groups = List ℕ × Option ℕ

-- What follows a group: the end, a colon and a further group, or an ellipsis that may be the end.
after_group : (List ℕ → Option ℕ → Text → Option Groups) → List ℕ → Option ℕ → Text → Option Groups
after_group next ip at [] = some (ip, at)
after_group next ip at (c ∷ []) = none
after_group next ip at (c ∷ d ∷ s) =
    if not (c == b':')
    then none
    else if d == b':'
    then elim at [
      | some _ ↦ none
      | none ↦ elim s [
        | [] ↦ some (ip, some (length ip))
        | x ∷ xs ↦ next ip (some (length ip)) (x ∷ xs)
      ]
    ]
    else next ip at (d ∷ s)

-- A trailing IPv4 address: `s` is the text from the group at hand on.
trailing_ipv4 : List ℕ → Option ℕ → Text → Option Groups
trailing_ipv4 ip at s =
    if elim at [ none ↦ not (length ip == 12) | some _ ↦ false ] || ltb 16 (length ip + 4)
    then none
    else elim (parse_ipv4 s) [ none ↦ none | some four ↦ some (ip ++ four, at) ]

-- The loop of `parseIPv6`: it runs while fewer than sixteen bytes are read, two at least a round, so
-- nine units of fuel are enough. A text left over when the bytes are full is an error.
parse_groups : ℕ → List ℕ → Option ℕ → Text → Option Groups
parse_groups zero ip at s = none
parse_groups (suc fuel) ip at s =
    let (n, acc, rest) = hex_run 0 0 s in
    let chunk = ip ++ (acc / 256) ∷ (acc % 256) ∷ [] in
    let later = after_group (parse_groups fuel) chunk at rest in
    if leb 16 (length ip)
    then none
    else if n == 0 || ltb 4 n
    then none
    else elim rest [ [] ↦ later | c ∷ _ ↦ if c == b'.' then trailing_ipv4 ip at s else later ]

-- "If didn't parse enough, expand ellipsis", which must stand for one group at least.
expand : Groups → Option (List ℕ)
expand (ip, none) = if length ip == 16 then some ip else none
expand (ip, some at) =
    if ltb (length ip) 16
    then some (take at ip ++ (replicate (16 - length ip) 0 ++ drop at ip))
    else none

parse_ellipsis : Text → Option (List ℕ)
parse_ellipsis [] = some (replicate 16 0)
parse_ellipsis (c ∷ s) = elim (parse_groups 9 [] (some 0) (c ∷ s)) [
  | none ↦ none
  | some g ↦ expand g
]

-- `parseIPv6` without its zone
unfoldable pub parse_ipv6 : Text → Option (List ℕ)
unfolding hex_value hex_run after_group trailing_ipv4 parse_groups expand parse_ellipsis parse_ipv4
parse_ipv6 (c ∷ d ∷ s) =
    if c == b':' && d == b':'
    then parse_ellipsis s
    else elim (parse_groups 9 [] none (c ∷ d ∷ s)) [ none ↦ none | some g ↦ expand g ]
parse_ipv6 _ = none

-- The zone: what stands behind the first '%', which may not be empty.
split_zone : Text → Option (Text × Text)
split_zone [] = some ([], [])
split_zone (c ∷ s) =
    let rest = split_zone s in
    if c == b'%'
    then elim s [ [] ↦ none | x ∷ xs ↦ some ([], x ∷ xs) ]
    else elim rest [ none ↦ none | some (a, z) ↦ some (c ∷ a, z) ]

pub data Form : Type 0 where
  dotted colons neither : Form

-- Which of '.', ':' and '%' comes first.
form : Text → Form
form [] = neither
form (c ∷ s) =
    let rest = form s in
    if c == b'.' then dotted else if c == b':' then colons else if c == b'%' then neither else rest

parse_form : Form → Text → Option Addr
parse_form dotted s = elim (parse_ipv4 s) [ none ↦ none | some ip ↦ some (v4 ip) ]
parse_form neither s = none
parse_form colons s = elim (split_zone s) [
  | none ↦ none
  | some (a, z) ↦ elim (parse_ipv6 a) [ none ↦ none | some ip ↦ some (v6 ip z) ]
]

-- `netip.ParseAddr`; `none` is an error
unfoldable pub parse_addr : Text → Option Addr
unfolding form split_zone parse_form parse_ipv4 parse_ipv6
parse_addr s = parse_form (form s) s

unfoldable pub zone : Addr → Text
zone (v4 ip) = []
zone (v6 ip z) = z

-- `net.ParseIP(s) != nil`: an address with no zone
unfoldable pub parses_ip : Text → Bool
unfolding parse_addr zone
parses_ip s = elim (parse_addr s) [
  | none ↦ false
  | some a ↦ elim (zone a) [ [] ↦ true | _ ↦ false ]
]

first : List ℕ → ℕ
first [] = 0
first (a ∷ _) = a

all_zero : List ℕ → Bool
all_zero = all (λ b. b == 0)

-- The four bytes of an IPv4-mapped IPv6 address, ::ffff:a.b.c.d.
unmap : List ℕ → Option (List ℕ)
unmap ip = elim (drop 10 ip) [
  | a ∷ b ∷ four ↦ if all_zero (take 10 ip) && a == 255 && b == 255 then some four else none
  | _ ↦ none
]

-- `Addr.IsLoopback`: 127.0.0.0/8, also IPv4-mapped, and ::1
unfoldable pub is_loopback : Addr → Bool
unfolding first all_zero unmap
is_loopback (v4 ip) = first ip == 127
is_loopback (v6 ip _) = elim (unmap ip) [
  | some four ↦ first four == 127
  | none ↦ all_zero (take 15 ip) && first (drop 15 ip) == 1
]

-- `Addr.IsUnspecified`: 0.0.0.0, and :: with no zone
unfoldable pub is_unspecified : Addr → Bool
unfolding all_zero
is_unspecified (v4 ip) = all_zero ip
is_unspecified (v6 ip z) = all_zero ip && elim z [ [] ↦ true | _ ↦ false ]

-- `Addr.IsMulticast`: 224.0.0.0/4, also IPv4-mapped, and ff00::/8
unfoldable pub is_multicast : Addr → Bool
unfolding first all_zero unmap
is_multicast (v4 ip) = first ip / 16 == 14
is_multicast (v6 ip _) = elim (unmap ip) [
  | some four ↦ first four / 16 == 14
  | none ↦ first ip == 255
]
