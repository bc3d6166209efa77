-- ===== src/Yaml/Value.antt =====
-- internal/render/yaml_scalar.go: the tests on values.
use proxyctl.Prelude.{
  ℕ, ◌+◌, ◌-◌, ◌*◌, ◌^◌, Bool, true, false, not, ◌&&◌, ◌||◌, [], ◌∷◌, Option, none, some, ltb, leb,
  ◌==◌, if◌then◌else◌, all, any, length,
}
use proxyctl.Text.{Text, size, split, trim, valid_string, is_digit, is_lower, is_upper, ends_with}
use proxyctl.Net.{split_host_port}
use proxyctl.Net.Ip.{parses_ip}
use proxyctl.Safex.Codes.{Result, config_rejected, reject_if, ◌>>◌}
use proxyctl.Yaml.{is_yaml_control, contains_placeholder_fragment}

-- `isUnsignedDecimal`
unfoldable pub is_unsigned_decimal : Text → Bool
unfolding is_digit
is_unsigned_decimal [] = false
is_unsigned_decimal (c ∷ v) = all is_digit (c ∷ v)

unfoldable pub decimal : ℕ → Text → ℕ
decimal n [] = n
decimal n (c ∷ v) = decimal (n * 10 + (c - b'0')) v

-- `strconv.ParseUint(v, 10, 32)`; `none` is an error
unfoldable pub parse_uint32 : Text → Option ℕ
unfolding is_unsigned_decimal decimal
parse_uint32 v =
    if is_unsigned_decimal v && ltb (decimal 0 v) (2 ^ 32) then some (decimal 0 v) else none

-- `portInRange`
unfoldable pub port_in_range : Text → Bool
port_in_range p = elim (parse_uint32 p) [ none ↦ false | some n ↦ leb 1 n && leb n 65535 ]

starts_with : ℕ → Text → Bool
starts_with b [] = false
starts_with b (c ∷ s) = c == b

-- The tests on one label in `isDNSHostname`.
unfoldable pub is_dns_label : Text → Bool
unfolding starts_with ends_with is_digit is_lower is_upper
is_dns_label [] = false
is_dns_label (c ∷ s) =
    not (ltb 63 (size (c ∷ s)))
    && not (c == b'-' || ends_with (c ∷ s) b'-')
    && all (λ b. b == b'-' || is_digit b || is_lower b || is_upper b) (c ∷ s)

-- `isDNSHostname`
unfoldable pub is_dns_hostname : Text → Bool
unfolding is_dns_label
is_dns_hostname [] = false
is_dns_hostname (c ∷ v) =
    let labels = split b'.' (c ∷ v) in
    not (ltb 253 (size (c ∷ v)))
    && all is_dns_label labels
    && not (length labels == 4 && all (all is_digit) labels)

-- `isValidAddress`
unfoldable pub is_valid_address : Text → Bool
is_valid_address [] = false
is_valid_address (c ∷ s) =
    let v = c ∷ s in
    if ltb 253 (size v) then false else if parses_ip v then true else elim (split_host_port v) [
      | some (h, p) ↦
          if not (is_unsigned_decimal p) || not (port_in_range p)
          then false
          else parses_ip (trim (λ b. b == b'[' || b == b']') h)
      | none ↦ if any (λ b. b == b':') v then false else is_dns_hostname v
    ]

-- `rejectUnsafeValue`
unfoldable pub reject_unsafe_value : Text → Result (Unit {0})
reject_unsafe_value v = do
  reject_if (not (valid_string v)) config_rejected "substitution value is not valid UTF-8"
  reject_if (any (λ c. c == b'\r' || c == b'\n') v || any is_yaml_control v) config_rejected
      "substitution value contains a line break or control character"
  reject_if (contains_placeholder_fragment v) config_rejected
      "substitution value contains a placeholder fragment"
