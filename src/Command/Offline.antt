-- ===== src/Command/Offline.antt =====
-- What the command preflight can report.
use proxyctl.Prelude.{
  ◌≡◌, refl, ap, ◌∙◌, ℕ, true, false, List, [], ◌∷◌, none, some, Bool-cases, inl, inr,
}
use proxyctl.Text.{Text, codes, equal, member}
use proxyctl.Text.Laws.{equal_iff}
use proxyctl.Files.{Files}
use proxyctl.Safex.Codes.{Result, ok, err, Result-cases, bind-eq-ok}
use proxyctl.Config.Document.{Role, parse_role}
use proxyctl.Preflight.Probe.{
  Probe, Call, Target, mihomo_gateway, native_gateway, proxy_egress, unavailable_net_probe,
  role_targets, targets_of,
}
use proxyctl.Preflight.Run
use proxyctl.Preflight.Ready.{Deployable, run-Deployable}
use proxyctl.Preflight.Observed.{DnsEvidence}
use proxyctl.Writer.Backend.{Backend}
use proxyctl.Command.{
  Flags, System, Printed, preflight_report, Ending, fail, end_with, flags_with, cmd_preflight,
  preflight_options, run,
}
use proxyctl.Command.Ended.{flags_with-ok, ok_injective, err_is_ok}

none_is_some {ℓ} : {A : Type ℓ} {a : A} → none ≡ some a → ⊥
none_is_some h = cc

-- A network probe that answers nothing is evidence for no target.
unavailable-¬DnsEvidence :
    (t : Target) (ts : List Target) (calls : List Call)
    → DnsEvidence unavailable_net_probe (t ∷ ts) calls
    → ⊥
unfolding DnsEvidence
unavailable-¬DnsEvidence t ts calls ((s, facts, e, answered, r), rest) = none_is_some answered

-- A valid role has a target.
role_targets-parse_role :
    (s : Text) (role : Role)
    → parse_role s ≡ ok role
    → (t : Target) × (ts : List Target) × (role_targets s ≡ t ∷ ts)
unfolding parse_role role_targets targets_of equal
role_targets-parse_role s role h = elim (Bool-cases (equal s (codes "gateway"))) [
  | inl e ↦ rw ((equal_iff s (codes "gateway")).0 e) (mihomo_gateway, native_gateway ∷ [], refl)
  | inr gone ↦ elim (Bool-cases (equal s (codes "egress"))) [
    | inl e ↦ rw ((equal_iff s (codes "egress")).0 e) (proxy_egress, [], refl)
    | inr none_left ↦ elim (err_is_ok (rw (gone, none_left, parse_role) at h)) [ ]
  ]
]

-- A run without a network probe that reports ok is offline.
module _ (to_lower : Text → Text) (goarch : Text) (default_probe : Probe) (clock : List Call → ℕ)
    (files : Files) where
  run-valid :
      (opts : proxyctl.Preflight.Run.Options) (calls : List Call)
      (r : proxyctl.Preflight.Run.RunResult)
      → (proxyctl.Preflight.Run.run to_lower goarch default_probe clock files opts calls).0 ≡ ok r
      → (role : Role) × (parse_role opts.role ≡ ok role)
  unfolding proxyctl.Preflight.Run.run
  run-valid opts calls r h = elim (Result-cases (parse_role opts.role)) [
    | inl found ↦ found
    | inr (c, m, e) ↦ elim (err_is_ok (rw (e, proxyctl.Preflight.Run.run) at h)) [ ]
  ]

  unprobed-offline :
      (opts : proxyctl.Preflight.Run.Options) (r : proxyctl.Preflight.Run.RunResult)
      → (proxyctl.Preflight.Run.run to_lower goarch default_probe clock files opts []).0 ≡ ok r
      → r.ok_flag ≡ true
      → opts.net_probe ≡ none
      → opts.offline ≡ true
  unfolding Deployable proxyctl.Preflight.Run.net_probe_of
  unprobed-offline opts r h good e = elim (Bool-cases opts.offline) [
    | inl offline ↦ offline
    | inr online ↦
        let (role, valid) = run-valid opts [] r h in
        let (t, ts, targets) = role_targets-parse_role opts.role role valid in
        let (a, b, c, d, dns, f) =
          run-Deployable to_lower goarch default_probe clock files opts [] r h good online in
        elim (unavailable-¬DnsEvidence t ts _
          (rw (targets, e, proxyctl.Preflight.Run.net_probe_of) at dns)) [ ]
  ]

empty_report : proxyctl.Preflight.Run.RunResult
empty_report = record { role = []; offline = false; ok_flag = false; checks = [] }

report_of : List Printed → proxyctl.Preflight.Run.RunResult
report_of (preflight_report r ∷ _) = r
report_of _ = empty_report

-- What ends with a report had no error.
end_with-report :
    (x : Result (Ending × List Printed)) (r : proxyctl.Preflight.Run.RunResult)
    → (end_with x).1 ≡ preflight_report r ∷ []
    → x ≡ ok (end_with x)
unfolding end_with fail
end_with-report (ok y) r h = refl
end_with-report (err c m) r h = cc

module _ (sys : System) where
  cmd_preflight-offline :
      (args : List Text) (r : proxyctl.Preflight.Run.RunResult)
      → (cmd_preflight sys args).1 ≡ preflight_report r ∷ []
      → r.ok_flag ≡ true
      → (f : Flags) × (sys.parse_flags (codes "preflight") args ≡ some f)
        × (f.is_set (codes "offline") ≡ true)
  unfolding cmd_preflight report_of
  cmd_preflight-offline args r h good =
      let (f, e, h1) =
        bind-eq-ok (flags_with sys (codes "preflight") (codes "role") _ _ args) _
          (end_with-report _ r h) in
      let (res, ran, h2) =
        bind-eq-ok
          (proxyctl.Preflight.Run.run sys.to_lower sys.goarch sys.default_probe sys.clock sys.files
            (preflight_options sys f) []).0
          _ h1 in
      let (found, none_left) = flags_with-ok sys (codes "preflight") (codes "role") _ _ args f e in
      let same : res ≡ r =
        ap report_of (ap (λ (x : Ending × List Printed). x.1) (ok_injective h2) ∙ h) in
      (
        f,
        found,
        unprobed-offline sys.to_lower sys.goarch sys.default_probe sys.clock sys.files
            (preflight_options sys f) res ran (rw same good) refl,
      )

  -- A report that the command preflight prints says ok only if the flag --offline is set, since
  -- the command has no network probe and without evidence the checks of an online run fail.
  pub run-is_set {ℓ} :
      {S : Type ℓ} (b : Backend S) (args : List Text) (s : S) (r : proxyctl.Preflight.Run.RunResult)
      → (run sys b (codes "preflight" ∷ args) s).0.1 ≡ preflight_report r ∷ []
      → r.ok_flag ≡ true
      → (f : Flags) × (sys.parse_flags (codes "preflight") args ≡ some f)
        × (f.is_set (codes "offline") ≡ true)
  unfolding run equal member
  run-is_set b args s r h good = cmd_preflight-offline args r h good
