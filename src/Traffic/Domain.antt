-- ===== src/Traffic/Domain.antt =====
-- engine/mihomo/overlay/tunnel/statistic/domain_accounting.go: `accountingDomain`.
-- `to_ascii` stands for idna.Lookup.ToASCII, `none` being its error, and `to_lower` for
-- strings.ToLower.
use proxyctl.Prelude.{
  Bool, false, not, ◌&&◌, ◌||◌, List, [], ◌∷◌, Option, none, some, ltb, all, if◌then◌else◌, ◌==◌,
}
use proxyctl.Text.{Text, codes, size, split, trim, trim_suffix, ends_with, is_digit, is_lower}
use proxyctl.Net.Ip.{parses_ip}

-- One label of a host name.
unfoldable pub is_label : Text → Bool
unfolding size ends_with is_digit is_lower
is_label [] = false
is_label (c ∷ s) =
    not (ltb 63 (size (c ∷ s)) || c == b'-' || ends_with (c ∷ s) b'-')
    && all (λ b. is_lower b || is_digit b || b == b'-') (c ∷ s)

-- The tests on one host behind the conversions.
unfoldable pub is_host : Text → Bool
unfolding size is_label split
is_host [] = false
is_host (c ∷ s) = not (ltb 253 (size (c ∷ s))) && all is_label (split b'.' (c ∷ s))

module _ (to_ascii : Text → Option Text) (to_lower : Text → Text) where
  -- One round of the loop: the host, if it counts under its name.
  unfoldable pub host_of : Text → Option Text
  unfolding trim_suffix trim parses_ip is_host
  host_of value =
      let v = trim_suffix b'.' value in
      if parses_ip (trim (λ c. c == b'[' || c == b']') v) then none else elim (to_ascii v) [
        | none ↦ none
        | some ascii ↦ let host = to_lower ascii in if is_host host then some host else none
      ]

  unfoldable pub first_host : List Text → Option Text
  unfolding host_of
  first_host [] = none
  first_host (v ∷ vs) =
      let rest = first_host vs in elim (host_of v) [ some host ↦ some host | none ↦ rest ]

  -- `accountingDomain`, of Host, SniffHost and whether DstIP is valid
  unfoldable pub accounting_domain : Text → Text → Bool → Text
  unfolding first_host
  accounting_domain host sniff_host ip_valid = elim (first_host (host ∷ sniff_host ∷ [])) [
    | some domain ↦ domain
    | none ↦ if ip_valid then codes "[ip-only]" else codes "[unknown-domain]"
  ]
