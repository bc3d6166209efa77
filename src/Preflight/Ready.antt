-- ===== src/Preflight/Ready.antt =====
-- `Run`: what an online run that is ok has seen.
use Prim.Native.String.{String}
use proxyctl.Prelude.{
  ℕ, ◌≤◌, ◌≡◌, sym, ap, ◌∙◌, arith, if◌then◌else◌, Bool, true, false, ◌&&◌, List, ◌∷◌, ◌++◌, some,
  inl, inr, all, and_right, all-append, Option-cases,
}
use proxyctl.Text.{Text}
use proxyctl.Safex.Codes.{Code, Result, ok, err, Result-cases}
use proxyctl.Config.Document.{parse_role}
use proxyctl.Files.{Files}
use proxyctl.Preflight.Probe.{
  Check, not_failed, Probe, NetProbe, Listener, IdentityFacts, Call, role_targets, environment_call,
  available_call, identity_call, listeners_call,
}
use proxyctl.Preflight.Host.{
  check_ports, check_disk, check_environment, check_runtime_identity, judge_identity,
  min_free_bytes,
}
use proxyctl.Preflight.Evidence.{check_dns, check_certificate}
use proxyctl.Preflight.Judged.{
  Confined, NoConflict, judge_identity-Confined, scan_listeners-NoConflict,
}
use proxyctl.Preflight.Observed.{
  DnsEvidence, CertificateEvidence, check_dns-DnsEvidence, check_certificate-CertificateEvidence,
  none_of,
}
use proxyctl.Preflight.Run.{
  Options, RunResult, named, none_failed, probe_of, net_probe_of, now_of, online_checks,
  static_checks, all_checks, run,
}

environment_seen :
    (p : Probe) (calls : List Call)
    → not_failed (check_environment p calls).0 ≡ true
    → p.environment calls ≡ true
unfolding check_environment
environment_seen p calls h = ground arith

space_seen :
    (p : Probe) (calls : List Call)
    → not_failed (check_disk p calls).0 ≡ true
    → (free : ℕ) × (p.available_bytes calls ≡ some free) × (min_free_bytes ≤ free)
unfolding check_disk
space_seen p calls h = elim (Option-cases (p.available_bytes calls)) [
  | inl e ↦ ground arith
  | inr (free, e) ↦ (free, e, ground arith)
]

identity_seen :
    (p : Probe) (calls : List Call)
    → not_failed (check_runtime_identity p calls).0 ≡ true
    → (f : IdentityFacts) × (p.identity calls ≡ some f) × Confined f
unfolding check_runtime_identity
identity_seen p calls h = elim (Option-cases (p.identity calls)) [
  | inl e ↦ ground arith
  | inr (f, e) ↦ (
    f,
    e,
    (judge_identity-Confined f).0
        (none_of _ (judge_identity f) (rw (e, check_runtime_identity) at h)),
  )
]

ports_seen :
    (to_lower : Text → Text) (role : Text) (p : Probe) (calls : List Call)
    → not_failed (check_ports to_lower role p calls).0 ≡ true
    → (ls : List Listener) × (p.listeners calls ≡ some ls) × NoConflict to_lower role ls
unfolding check_ports
ports_seen to_lower role p calls h = elim (Option-cases (p.listeners calls)) [
  | inl e ↦ ground arith
  | inr (ls, e) ↦ (ls, e, (scan_listeners-NoConflict to_lower role ls).0 (rw (e, check_ports) at h))
]

six :
    (a b c d e f : Bool)
    → (a && (b && (c && (d && (e && (f && true)))))) ≡ true
    → (a ≡ true) × (b ≡ true) × (c ≡ true) × (d ≡ true) × (e ≡ true) × (f ≡ true)
six a b c d e f h = ground arith

else_branch :
    (b : Bool) (x y : List Check × List Call)
    → b ≡ false
    → none_failed (if b then x else y).0 ≡ true
    → none_failed y.0 ≡ true
else_branch true x y b h = cc
else_branch false x y b h = h

abbrev flag_of : Result RunResult → Bool
flag_of (ok r) = r.ok_flag
flag_of (err _ _) = false

err_is_ok : {c : Code} {m : String} {r : RunResult} → err c m ≡ ok r → ⊥
err_is_ok h = cc

-- What the probes must have answered, call after call, for the role at the instant `now`.
unfoldable pub Deployable : (Text → Text) → Text → Probe → NetProbe → ℕ → List Call → Type 0
Deployable to_lower role p n now calls =
    let c1 = environment_call ∷ calls in
    let c2 = available_call ∷ c1 in
    let c3 = identity_call ∷ c2 in
    let c4 = listeners_call ∷ c3 in
    (p.environment calls ≡ true)
    × ((free : ℕ) × (p.available_bytes c1 ≡ some free) × (min_free_bytes ≤ free))
    × ((f : IdentityFacts) × (p.identity c2 ≡ some f) × Confined f)
    × ((ls : List Listener) × (p.listeners c3 ≡ some ls) × NoConflict to_lower role ls)
    × DnsEvidence n (role_targets role) c4
    × CertificateEvidence now n (role_targets role) (check_dns role n c4).1

-- The calls of the checks of the host.
abbrev pub host_calls : List Call → List Call
host_calls calls = listeners_call ∷ identity_call ∷ available_call ∷ environment_call ∷ calls

module _ (to_lower : Text → Text) (goarch : Text) (default_probe : Probe) (clock : List Call → ℕ)
    (files : Files) where
  online_checks-Deployable :
      (opts : Options) (calls : List Call)
      → none_failed (online_checks to_lower goarch default_probe clock files opts calls).0 ≡ true
      → Deployable to_lower opts.role
          (probe_of default_probe opts)
          (net_probe_of opts)
          (now_of clock opts (host_calls calls))
          calls
  unfolding online_checks none_failed named Deployable check_environment check_disk
      check_runtime_identity check_ports
  online_checks-Deployable opts calls h =
      let p = probe_of default_probe opts in
      let n = net_probe_of opts in
      let c4 = host_calls calls in
      let c5 = (check_dns opts.role n c4).1 in
      let now = now_of clock opts c4 in
      let (environment, disk, identity, ports, dns, certificate) =
        six (not_failed (check_environment p calls).0)
          (not_failed (check_disk p (environment_call ∷ calls)).0)
          (not_failed (check_runtime_identity p (available_call ∷ environment_call ∷ calls)).0)
          (not_failed
            (check_ports to_lower opts.role p
              (identity_call ∷ available_call ∷ environment_call ∷ calls)).0)
          (not_failed (check_dns opts.role n c4).0)
          (not_failed (check_certificate opts.role n now c5).0) h in
      (
        environment_seen p calls environment,
        space_seen p (environment_call ∷ calls) disk,
        identity_seen p (available_call ∷ environment_call ∷ calls) identity,
        ports_seen to_lower opts.role p (identity_call ∷ available_call ∷ environment_call ∷ calls)
            ports,
        (check_dns-DnsEvidence opts.role n c4 dns).1,
        check_certificate-CertificateEvidence opts.role n now c5 certificate,
      )

  all_checks-online :
      (opts : Options) (calls : List Call)
      → opts.offline ≡ false
      → none_failed (all_checks to_lower goarch default_probe clock files opts calls).0 ≡ true
      → none_failed (online_checks to_lower goarch default_probe clock files opts calls).0 ≡ true
  unfolding all_checks none_failed
  all_checks-online opts calls o h =
      let static = static_checks to_lower goarch default_probe clock files opts in
      let online = online_checks to_lower goarch default_probe clock files opts calls in
      and_right (all not_failed static) (all not_failed online.0) (
        sym (all-append not_failed static online.0)
        ∙ else_branch opts.offline _ (static ++ online.0, online.1) o h)

  -- When a run that is not offline reports ok, the probe answered that its environment is
  -- healthy, at least 64 MiB are free, the service account is not root and owns its runtime
  -- directory with mode 0700, and no listener is on a pair that the role reserves; and for
  -- each target of the role the name probe answered with a safe name under the target's label
  -- and usable addresses, and with a trusted certificate that is in force for 14 days more
  -- and names the target.
  pub run-Deployable :
      (opts : Options) (calls : List Call) (r : RunResult)
      → (run to_lower goarch default_probe clock files opts calls).0 ≡ ok r
      → r.ok_flag ≡ true
      → opts.offline ≡ false
      → Deployable to_lower opts.role
          (probe_of default_probe opts)
          (net_probe_of opts)
          (now_of clock opts (host_calls calls))
          calls
  unfolding run
  run-Deployable opts calls r h good o = elim (Result-cases (parse_role opts.role)) [
    | inl (role, e) ↦
        online_checks-Deployable opts calls
          (all_checks-online opts calls o (ap flag_of (rw (e, run) at h) ∙ good))
    | inr (c, m, e) ↦ elim (err_is_ok (rw (e, run) at h)) [ ]
  ]
