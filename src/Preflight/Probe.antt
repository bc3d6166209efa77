-- ===== src/Preflight/Probe.antt =====
-- internal/preflight/preflight.go, internal/preflight/netprobe.go: results, facts, and the two probes.
-- A probe's method answers from the calls that were made before it, the latest first, and every
-- check returns the calls with its own added. `none` is an error, whose text every caller drops.
use Prim.Native.String.{String}
use proxyctl.Prelude.{ℕ, Bool, true, false, List, [], ◌∷◌, Option, none, some, if◌then◌else◌, ◌==◌}
use proxyctl.Text.{Text, codes, equal}

pub data Status : Type 0 where
  passed failed skipped : Status

-- The detail is its format string.
pub record Check : Type 0 where
  pub name : Text
  pub status : Status
  pub detail : String

abbrev pub pass : String → Check
pass d = record { name = []; status = passed; detail = d }

abbrev pub fail : String → Check
fail d = record { name = []; status = failed; detail = d }

-- `c.Status != "fail"`
abbrev pub not_failed : Check → Bool
not_failed c = elim c.status [ failed ↦ false | _ ↦ true ]

-- `if bad { return Check{Status: "fail", Detail: d} }`: the detail of the check that is returned,
-- if any.
abbrev pub fail_if : Bool → String → Option String → Option String
fail_if true d next = some d
fail_if false d next = next

abbrev pub otherwise : Check → Option String → Check
otherwise c none = c
otherwise c (some d) = fail d

pub record Listener : Type 0 where
  pub protocol : Text
  pub address : Text
  pub port : ℕ

pub record IdentityFacts : Type 0 where
  pub name : Text
  pub uid : ℕ
  pub gid : ℕ
  pub dir_mode : ℕ
  pub dir_uid : ℕ
  pub dir_gid : ℕ
  pub dir_missing : Bool

-- `Target`: an integer type, of which `undeclared` holds the other values.
pub data Target : Type 0 where
  mihomo_gateway native_gateway proxy_egress : Target
  undeclared : ℕ → Target

-- `t == u`
unfoldable pub same_target : Target → Target → Bool
same_target mihomo_gateway mihomo_gateway = true
same_target native_gateway native_gateway = true
same_target proxy_egress proxy_egress = true
same_target (undeclared a) (undeclared b) = a == b
same_target _ _ = false

pub record TargetSpec : Type 0 where
  pub label : Text
  pub proto : Text
  pub port : ℕ
  pub role : Text

pub record DnsFacts : Type 0 where
  pub target : Target
  pub resolved : Bool
  pub name : Text
  pub addresses : List Text

-- Times in nanoseconds from the zero time on.
pub record CertificateFacts : Type 0 where
  pub target : Target
  pub present : Bool
  pub dns_names : List Text
  pub not_before : ℕ
  pub not_after : ℕ
  pub trusted : Bool

pub data Call : Type 0 where
  environment_call available_call identity_call listeners_call : Call
  dns_call certificate_call : Target → Call

-- `Probe`
pub record Probe : Type 0 where
  pub environment : List Call → Bool
  pub available_bytes : List Call → Option ℕ
  pub identity : List Call → Option IdentityFacts
  pub listeners : List Call → Option (List Listener)

-- `NetProbe`
pub record NetProbe : Type 0 where
  pub dns : Target → List Call → Option DnsFacts
  pub certificate : Target → List Call → Option CertificateFacts

-- `stubProbe`
abbrev pub stub_probe : Probe
stub_probe = record {
  environment = λ _. true;
  available_bytes = λ _. none;
  identity = λ _. none;
  listeners = λ _. none;
}

-- `unavailableNetProbe`
abbrev pub unavailable_net_probe : NetProbe
unavailable_net_probe = record { dns = λ _ _. none; certificate = λ _ _. none }

-- `targetSpecs`, and `Target.spec`
unfoldable pub spec : Target → Option TargetSpec
spec mihomo_gateway = some (record {
  label = codes "mihomo-gateway";
  proto = codes "tcp";
  port = 8443;
  role = codes "gateway";
})
spec native_gateway = some (record {
  label = codes "native-gateway";
  proto = codes "tcp";
  port = 8444;
  role = codes "gateway";
})
spec proxy_egress = some (record {
  label = codes "proxy-egress";
  proto = codes "udp";
  port = 443;
  role = codes "egress";
})
spec (undeclared _) = none

-- The loop of `roleTargets`.
unfoldable pub targets_of : Text → List Target → List Target
unfolding spec equal
targets_of role [] = []
targets_of role (t ∷ ts) =
    let rest = targets_of role ts in
    elim (spec t) [ none ↦ rest | some s ↦ if equal s.role role then t ∷ rest else rest ]

unfoldable pub role_targets : Text → List Target
unfolding targets_of
role_targets role = targets_of role (mihomo_gateway ∷ native_gateway ∷ proxy_egress ∷ [])
