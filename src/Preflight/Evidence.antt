-- ===== src/Preflight/Evidence.antt =====
-- internal/preflight/netprobe.go: the evaluation of DNS and certificate evidence.
use Prim.Native.String.{String}
use proxyctl.Prelude.{
  ℕ, ◌+◌, ◌-◌, ◌*◌, ◌^◌, Bool, true, false, not, ◌&&◌, ◌||◌, List, [], ◌∷◌, Option, none, some, ltb,
  ◌==◌, if◌then◌else◌, all, length,
}
use proxyctl.Text.{Text, size, equal, split, trim_space, ends_with, is_digit, is_lower, is_upper}
use proxyctl.Net.{cut_first}
use proxyctl.Net.Ip.{Addr, parse_addr, zone, is_loopback, is_unspecified, is_multicast}
use proxyctl.Preflight.Probe.{
  Check, NetProbe, Target, TargetSpec, DnsFacts, CertificateFacts, Call, pass, fail, fail_if,
  otherwise, dns_call, certificate_call, same_target, spec, role_targets,
}

-- 14 days in nanoseconds
abbrev pub cert_renewal_margin : ℕ
cert_renewal_margin = 14 * 24 * 3600 * 10 ^ 9

abbrev pub max_probe_names : ℕ
max_probe_names = 64

unfoldable pub ascii_lower_byte : ℕ → ℕ
unfolding is_upper
ascii_lower_byte c = if is_upper c then c + 32 else c

-- The loop of `asciiEqualFold`.
unfoldable pub equal_folded : Text → Text → Bool
unfolding ascii_lower_byte
equal_folded [] [] = true
equal_folded (x ∷ a) (y ∷ b) = ascii_lower_byte x == ascii_lower_byte y && equal_folded a b
equal_folded _ _ = false

unfoldable pub ascii_equal_fold : Text → Text → Bool
unfolding size equal_folded
ascii_equal_fold a b = size a == size b && equal_folded a b

unfoldable pub has_expected_label : Text → Text → Bool
unfolding cut_first ascii_equal_fold
has_expected_label name want = elim (cut_first b'.' name) [
  | none ↦ false
  | some (label, _) ↦ ascii_equal_fold label want
]

-- One label in the loop of `isSafeProbeName`.
unfoldable pub is_safe_label : Text → Bool
unfolding size ends_with is_digit is_lower is_upper
is_safe_label [] = false
is_safe_label (c ∷ s) =
    not (ltb 63 (size (c ∷ s)) || c == b'-' || ends_with (c ∷ s) b'-')
    && all (λ b. is_digit b || is_lower b || is_upper b || b == b'-') (c ∷ s)

unfoldable pub is_safe_probe_name : Text → Bool
unfolding size ends_with split is_safe_label
is_safe_probe_name [] = false
is_safe_probe_name (c ∷ s) =
    not (ltb 253 (size (c ∷ s)) || ends_with (c ∷ s) b'.' || c == b'.')
    && not (ltb (length (split b'.' (c ∷ s))) 2)
    && all is_safe_label (split b'.' (c ∷ s))

unfoldable pub san_matches_label : List Text → Text → Bool
san_matches_label [] want = false
san_matches_label (s ∷ sans) want =
    let rest = san_matches_label sans want in
    if not (is_safe_probe_name s) then rest else if has_expected_label s want then true else rest

unfoldable pub parse_probe_addr : Text → Option Addr
unfolding equal trim_space parse_addr zone
parse_probe_addr s = if not (equal s (trim_space s)) then none else elim (parse_addr s) [
  | none ↦ none
  | some addr ↦ if equal (zone addr) [] then some addr else none
]

-- The loop over the addresses of a record.
unfoldable pub judge_addresses : List Text → Option String
judge_addresses [] = none
judge_addresses (a ∷ rest) =
    let later = judge_addresses rest in
    elim (parse_probe_addr a) [
      | none ↦ some "DNS record carries a malformed address"
      | some addr ↦
          fail_if (is_loopback addr || is_unspecified addr || is_multicast addr)
            "DNS record points at a loopback, unspecified or multicast address" later
    ]

-- The tests of `checkDNS` on the facts of one target.
unfoldable pub judge_dns : Target → TargetSpec → DnsFacts → Option String
judge_dns t s facts =
    fail_if (not (same_target facts.target t))
      "DNS evidence does not correspond to the requested target"
      (fail_if (not facts.resolved) "no DNS record observed for a required role entry point" (
        fail_if (not (is_safe_probe_name facts.name)) "observed DNS name is malformed or unsafe" (
          fail_if (not (has_expected_label facts.name s.label))
            "observed DNS name does not match the expected role entry-point label"
            (fail_if (length facts.addresses == 0) "DNS record carries no address" (
              fail_if (ltb max_probe_names (length facts.addresses))
                "DNS record carries an implausible number of addresses"
                (judge_addresses facts.addresses))))))

-- The loop over the targets.
unfoldable pub dns_on : NetProbe → List Target → List Call → Option String × List Call
dns_on p [] calls = (none, calls)
dns_on p (t ∷ ts) calls = elim (spec t) [
  | none ↦ (some "DNS target is not in the allowlist", calls)
  | some s ↦ elim (p.dns t calls) [
    | none ↦ (some "DNS evidence unavailable (details withheld)", dns_call t ∷ calls)
    | some facts ↦ elim (judge_dns t s facts) [
      | some d ↦ (some d, dns_call t ∷ calls)
      | none ↦ dns_on p ts (dns_call t ∷ calls)
    ]
  ]
]

unfoldable pub check_dns : Text → NetProbe → List Call → Check × List Call
check_dns role p calls = elim (role_targets role) [
  | [] ↦ (fail "no DNS targets declared for this role", calls)
  | t ∷ ts ↦
      let (found, made) = dns_on p (t ∷ ts) calls in
      (
        otherwise
            (pass
              "observed DNS evidence matches the role's expected entry-point labels (evidence only, not certificate proof; asserts nothing about host or domain readiness)")
            found,
        made,
      )
]

-- `Time.Sub` for a later minus an earlier time: a duration has 64 bits with its sign.
abbrev pub max_duration : ℕ
max_duration = 2 ^ 63 - 1

unfoldable pub sub : ℕ → ℕ → ℕ
sub later earlier = let d = later - earlier in if ltb max_duration d then max_duration else d

-- The tests of `checkCertificate` on the facts of one target.
unfoldable pub judge_certificate : ℕ → Target → TargetSpec → CertificateFacts → Option String
judge_certificate now t s facts =
    fail_if (not (same_target facts.target t))
      "certificate evidence does not correspond to the requested target"
      (fail_if (not facts.present)
        "no certificate evidence observed for a required role entry point"
        (fail_if (not facts.trusted) "certificate chain is untrusted or could not be verified" (
          fail_if (facts.not_before == 0 || facts.not_after == 0)
            "certificate validity window is missing"
            (fail_if (not (ltb facts.not_before facts.not_after))
              "certificate validity window is invalid"
              (fail_if (ltb now facts.not_before) "certificate is not yet valid" (
                fail_if (not (ltb now facts.not_after)) "certificate has expired" (
                  fail_if (ltb (sub facts.not_after now) cert_renewal_margin)
                    "certificate expires inside the required renewal margin"
                    (fail_if (length facts.dns_names == 0)
                      "certificate carries no subject alternative name"
                      (fail_if (ltb max_probe_names (length facts.dns_names))
                        "certificate carries an implausible number of subject alternative names"
                        (fail_if (not (san_matches_label facts.dns_names s.label))
                          "no certificate subject alternative name matches the expected role entry-point label"
                          none))))))))))

unfoldable pub certificates_on : ℕ → NetProbe → List Target → List Call → Option String × List Call
certificates_on now p [] calls = (none, calls)
certificates_on now p (t ∷ ts) calls = elim (spec t) [
  | none ↦ (some "certificate target is not in the allowlist", calls)
  | some s ↦ elim (p.certificate t calls) [
    | none ↦
        (some "certificate evidence unavailable (details withheld)", certificate_call t ∷ calls)
    | some facts ↦ elim (judge_certificate now t s facts) [
      | some d ↦ (some d, certificate_call t ∷ calls)
      | none ↦ certificates_on now p ts (certificate_call t ∷ calls)
    ]
  ]
]

unfoldable pub check_certificate : Text → NetProbe → ℕ → List Call → Check × List Call
check_certificate role p now calls = elim (role_targets role) [
  | [] ↦ (fail "no certificate targets declared for this role", calls)
  | t ∷ ts ↦
      let (found, made) = certificates_on now p (t ∷ ts) calls in
      (
        otherwise
            (pass
              "observed certificate evidence is trusted, in date and name-matched for the role's entry points (evidence only; asserts nothing about host or domain readiness)")
            found,
        made,
      )
]
