-- ===== src/Preflight/Observed.antt =====
-- What names and certificates that pass their checks are.
use Prim.Native.String.{String}
use proxyctl.Prelude.{
  ℕ, ◌+◌, ◌≤◌, ◌≡◌, ◌≢◌, ◌⊎◌, inl, inr, refl, arith, true, false, ◌&&◌, ◌||◌, List, [], ◌∷◌, Option,
  none, some, All, any, Option-cases,
}
use proxyctl.Text.{Text}
use proxyctl.Net.Ip.{Addr, is_loopback, is_unspecified, is_multicast}
use proxyctl.Preflight.Probe.{
  NetProbe, Target, TargetSpec, DnsFacts, CertificateFacts, Call, not_failed, otherwise, dns_call,
  certificate_call, same_target, spec, role_targets, pass,
}
use proxyctl.Preflight.Judged.{fail_if-none}
use proxyctl.Preflight.Evidence.{
  parse_probe_addr, judge_addresses, judge_dns, dns_on, check_dns, sub, judge_certificate,
  certificates_on, check_certificate, san_matches_label, is_safe_probe_name, has_expected_label,
  cert_renewal_margin,
}

-- An address that a public entry point may have.
unfoldable pub Usable : Text → Type 0
Usable a =
    (addr : Addr) × (parse_probe_addr a ≡ some addr)
    × (is_loopback addr ≡ false)
    × (is_unspecified addr ≡ false)
    × (is_multicast addr ≡ false)

judge_addresses-Usable : (rest : List Text) → judge_addresses rest ≡ none → All Usable rest
unfolding judge_addresses Usable
judge_addresses-Usable [] h = tt
judge_addresses-Usable (a ∷ rest) h = elim (Option-cases (parse_probe_addr a)) [
  | inl e ↦ ground arith
  | inr (addr, e) ↦
      let (good, later) =
        fail_if-none (is_loopback addr || is_unspecified addr || is_multicast addr) _
          (judge_addresses rest) (rw (e, judge_addresses) at h) in
      ((addr, e, ground arith, ground arith, ground arith), judge_addresses-Usable rest later)
]

-- The facts are about the target, under a safe name with its label, and every address is usable.
unfoldable pub Resolves : Target → TargetSpec → DnsFacts → Type 0
Resolves t s facts =
    (same_target facts.target t ≡ true)
    × (is_safe_probe_name facts.name ≡ true)
    × (has_expected_label facts.name s.label ≡ true)
    × (facts.addresses ≢ [])
    × All Usable facts.addresses

judge_dns-Resolves :
    (t : Target) (s : TargetSpec) (facts : DnsFacts)
    → judge_dns t s facts ≡ none
    → Resolves t s facts
unfolding judge_dns Resolves
judge_dns-Resolves t s facts h =
    let addresses = judge_addresses-Usable facts.addresses in ground arith

-- The certificate is about the target, trusted, in force now and for 14 days more, and one of its
-- names is safe and has the target's label.
unfoldable pub InForce : ℕ → Target → TargetSpec → CertificateFacts → Type 0
InForce now t s facts =
    (same_target facts.target t ≡ true)
    × (facts.trusted ≡ true)
    × (facts.not_before ≤ now)
    × (now + cert_renewal_margin ≤ facts.not_after)
    × (any (λ name. is_safe_probe_name name && has_expected_label name s.label) facts.dns_names
        ≡ true)

san_matches_label-any :
    (sans : List Text) (want : Text)
    → san_matches_label sans want
      ≡ any (λ name. is_safe_probe_name name && has_expected_label name want) sans
unfolding san_matches_label
san_matches_label-any [] want = refl
san_matches_label-any (s ∷ sans) want = ground (arith, san_matches_label-any sans want)

judge_certificate-InForce :
    (now : ℕ) (t : Target) (s : TargetSpec) (facts : CertificateFacts)
    → judge_certificate now t s facts ≡ none
    → InForce now t s facts
unfolding judge_certificate InForce sub
judge_certificate-InForce now t s facts h =
    ground (arith, san_matches_label-any facts.dns_names s.label)

some_is_none {ℓ} : {A : Type ℓ} {a : A} → some a ≡ none → ⊥
some_is_none h = cc

failed_is_passed : false ≡ true → ⊥
failed_is_passed h = cc

pub none_of :
    (d : String) (found : Option String)
    → not_failed (otherwise (pass d) found) ≡ true
    → found ≡ none
none_of d none h = refl
none_of d (some e) h = cc

List-cases : (ts : List Target) → (ts ≡ []) ⊎ ((t : Target) × (us : List Target) × (ts ≡ t ∷ us))
List-cases [] = inl refl
List-cases (t ∷ us) = inr (t, us, refl)

-- What the probe answered for each target, call after call.
unfoldable pub DnsEvidence : NetProbe → List Target → List Call → Type 0
DnsEvidence p [] calls = Unit
DnsEvidence p (t ∷ ts) calls =
    ((s : TargetSpec) × (facts : DnsFacts) × (spec t ≡ some s)
      × (p.dns t calls ≡ some facts)
      × Resolves t s facts)
    × DnsEvidence p ts (dns_call t ∷ calls)

unfoldable pub CertificateEvidence : ℕ → NetProbe → List Target → List Call → Type 0
CertificateEvidence now p [] calls = Unit
CertificateEvidence now p (t ∷ ts) calls =
    ((s : TargetSpec) × (facts : CertificateFacts) × (spec t ≡ some s)
      × (p.certificate t calls ≡ some facts)
      × InForce now t s facts)
    × CertificateEvidence now p ts (certificate_call t ∷ calls)

dns_on-DnsEvidence :
    (p : NetProbe) (ts : List Target) (calls : List Call)
    → (dns_on p ts calls).0 ≡ none
    → DnsEvidence p ts calls
unfolding dns_on DnsEvidence
dns_on-DnsEvidence p [] calls h = tt
dns_on-DnsEvidence p (t ∷ ts) calls h = elim (Option-cases (spec t)) [
  | inl e ↦ elim (some_is_none (rw (e, dns_on) at h)) [ ]
  | inr (s, e) ↦ elim (Option-cases (p.dns t calls)) [
    | inl f ↦ elim (some_is_none (rw (e, f, dns_on) at h)) [ ]
    | inr (facts, f) ↦ elim (Option-cases (judge_dns t s facts)) [
      | inl g ↦ (
        (s, facts, e, f, judge_dns-Resolves t s facts g),
        dns_on-DnsEvidence p ts (dns_call t ∷ calls) (rw (e, f, g, dns_on) at h),
      )
      | inr (c, g) ↦ elim (some_is_none (rw (e, f, g, dns_on) at h)) [ ]
    ]
  ]
]

certificates_on-CertificateEvidence :
    (now : ℕ) (p : NetProbe) (ts : List Target) (calls : List Call)
    → (certificates_on now p ts calls).0 ≡ none
    → CertificateEvidence now p ts calls
unfolding certificates_on CertificateEvidence
certificates_on-CertificateEvidence now p [] calls h = tt
certificates_on-CertificateEvidence now p (t ∷ ts) calls h = elim (Option-cases (spec t)) [
  | inl e ↦ elim (some_is_none (rw (e, certificates_on) at h)) [ ]
  | inr (s, e) ↦ elim (Option-cases (p.certificate t calls)) [
    | inl f ↦ elim (some_is_none (rw (e, f, certificates_on) at h)) [ ]
    | inr (facts, f) ↦ elim (Option-cases (judge_certificate now t s facts)) [
      | inl g ↦ (
        (s, facts, e, f, judge_certificate-InForce now t s facts g),
        certificates_on-CertificateEvidence now p ts (certificate_call t ∷ calls)
            (rw (e, f, g, certificates_on) at h),
      )
      | inr (c, g) ↦ elim (some_is_none (rw (e, f, g, certificates_on) at h)) [ ]
    ]
  ]
]

pub check_dns-DnsEvidence :
    (role : Text) (p : NetProbe) (calls : List Call)
    → not_failed (check_dns role p calls).0 ≡ true
    → (role_targets role ≢ []) × DnsEvidence p (role_targets role) calls
unfolding check_dns
check_dns-DnsEvidence role p calls h = elim (List-cases (role_targets role)) [
  | inl e ↦ elim (failed_is_passed (rw (e, check_dns) at h)) [ ]
  | inr (t, ts, e) ↦ rw e (
    (λ f. cc),
    dns_on-DnsEvidence p (t ∷ ts) calls
        (none_of _ (dns_on p (t ∷ ts) calls).0 (rw (e, check_dns) at h)),
  )
]

pub check_certificate-CertificateEvidence :
    (role : Text) (p : NetProbe) (now : ℕ) (calls : List Call)
    → not_failed (check_certificate role p now calls).0 ≡ true
    → CertificateEvidence now p (role_targets role) calls
unfolding check_certificate
check_certificate-CertificateEvidence role p now calls h = elim (List-cases (role_targets role)) [
  | inl e ↦ elim (failed_is_passed (rw (e, check_certificate) at h)) [ ]
  | inr (t, ts, e) ↦ rw e (
      certificates_on-CertificateEvidence now p (t ∷ ts) calls
        (none_of _ (certificates_on now p (t ∷ ts) calls).0 (rw (e, check_certificate) at h)))
]
