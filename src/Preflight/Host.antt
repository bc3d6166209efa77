-- ===== src/Preflight/Host.antt =====
-- internal/preflight/preflight.go: the checks of the host.
-- `to_lower` stands for strings.ToLower.
use Prim.Native.String.{String}
use proxyctl.Prelude.{
  ℕ, ◌*◌, ◌^◌, ◌%◌, Bool, true, false, not, ◌&&◌, ◌||◌, List, [], ◌∷◌, Option, none, some, ltb,
  ◌==◌, if◌then◌else◌,
}
use proxyctl.Text.{Text, codes, equal, trim_space}
use proxyctl.Net.Ip.{Addr, parse_addr, is_loopback}
use proxyctl.Preflight.Probe.{
  Check, Probe, Listener, IdentityFacts, Call, pass, fail, fail_if, otherwise, environment_call,
  available_call, identity_call, listeners_call,
}

abbrev pub min_free_bytes : ℕ
min_free_bytes = 64 * 2 ^ 20

abbrev pub expected_service_account : Text
expected_service_account = codes "privateproxy"

-- 0700
abbrev pub expected_runtime_dir_mode : ℕ
expected_runtime_dir_mode = 448

pub record Reservation : Type 0 where
  pub proto : Text
  pub port : ℕ
  pub loopback_only : Bool
  pub label : Text

unfoldable pub role_reservations : Text → List Reservation
unfolding equal
role_reservations role =
    if equal role (codes "gateway")
    then record {
      proto = codes "tcp";
      port = 8443;
      loopback_only = false;
      label = codes "8443/tcp (trojan-in)";
    }
      ∷ record {
        proto = codes "tcp";
        port = 18444;
        loopback_only = true;
        label = codes "18444/tcp (loopback https backend)";
      }
      ∷ record {
        proto = codes "tcp";
        port = 7890;
        loopback_only = true;
        label = codes "7890/tcp (loopback mixed)";
      }
      ∷ record {
        proto = codes "tcp";
        port = 17894;
        loopback_only = true;
        label = codes "17894/tcp (loopback ikev2 tproxy)";
      }
      ∷ record {
        proto = codes "udp";
        port = 17894;
        loopback_only = true;
        label = codes "17894/udp (loopback ikev2 tproxy)";
      }
      ∷ []
    else if equal role (codes "egress")
    then record {
      proto = codes "udp";
      port = 443;
      loopback_only = false;
      label = codes "443/udp (hysteria2)";
    }
      ∷ []
    else []

unfoldable pub check_arch : Text → Text → Check
unfolding equal
check_arch goarch arch =
    let used = if equal arch [] then goarch else arch in
    if equal used (codes "amd64") || equal used (codes "arm64")
    then pass "GOARCH=%s is supported for role %s"
    else fail "GOARCH=%s is unsupported for role %s; requires amd64 or arm64"

-- `checkPortsOffline`
abbrev pub check_ports_offline : Text → Check
check_ports_offline role = pass "reserved: %s (offline: no live conflict scan)"

unfoldable pub same_pair : Text → ℕ → Reservation → Bool
unfolding equal
same_pair proto port r = equal r.proto proto && r.port == port

-- The loop over the reservations for one listener: the detail of the check that it fails, if any.
unfoldable pub conflict : Text → ℕ → Option Addr → List Reservation → Option String
unfolding same_pair is_loopback
conflict proto port addr [] = none
conflict proto port addr (r ∷ rs) =
    let rest = conflict proto port addr rs in
    if not (same_pair proto port r) then rest else elim addr [
      | none ↦ some "reserved port already has a conflicting listener"
      | some a ↦
          if r.loopback_only && not (is_loopback a)
          then some "loopback-only reserved port is bound to a non-loopback or wildcard address"
          else some "reserved port already has a conflicting listener"
    ]

module _ (to_lower : Text → Text) where
  -- The loop over the listeners.
  unfoldable pub scan_listeners : Text → List Listener → Check
  scan_listeners role [] = pass "no listener conflicts on reserved ports"
  scan_listeners role (l ∷ ls) =
      let proto = to_lower l.protocol in
      let rest = scan_listeners role ls in
      if not (equal proto (codes "tcp")) && not (equal proto (codes "udp"))
      then rest
      else elim (conflict proto l.port (parse_addr (trim_space l.address))
          (role_reservations role)) [ some d ↦ fail d | none ↦ rest ]

  unfoldable pub check_ports : Text → Probe → List Call → Check × List Call
  check_ports role p calls = (
    elim (p.listeners calls) [
      | none ↦ fail "listener scan failed (details withheld)"
      | some ls ↦ scan_listeners role ls
    ],
    listeners_call ∷ calls,
  )

unfoldable pub check_disk : Probe → List Call → Check × List Call
check_disk p calls = (
  elim (p.available_bytes calls) [
    | none ↦ fail "disk probe failed (details withheld)"
    | some avail ↦
        if ltb avail min_free_bytes
        then fail "insufficient free space at the runtime target (minimum 64 MiB)"
        else pass "sufficient free space at the runtime target (minimum 64 MiB)"
  ],
  available_call ∷ calls,
)

-- The tests of `checkRuntimeIdentity`; the permission bits of a mode are the lowest nine.
unfoldable pub judge_identity : IdentityFacts → Option String
unfolding equal
judge_identity f =
    fail_if (not (equal f.name expected_service_account))
      "service identity does not match the intended service account"
      (fail_if (f.uid == 0 || f.gid == 0) "service must not run as root" (
        fail_if f.dir_missing "runtime directory is missing" (
          fail_if (not (f.dir_mode % 512 == expected_runtime_dir_mode))
            "runtime directory mode is not restrictive (want 0700)"
            (fail_if (not (f.dir_uid == f.uid) || not (f.dir_gid == f.gid))
              "runtime directory ownership does not match the service identity" none))))

unfoldable pub check_runtime_identity : Probe → List Call → Check × List Call
check_runtime_identity p calls = (
  elim (p.identity calls) [
    | none ↦ fail "identity probe failed (details withheld)"
    | some f ↦
        otherwise (pass "non-root service identity and restrictive runtime directory verified")
          (judge_identity f)
  ],
  identity_call ∷ calls,
)

unfoldable pub check_environment : Probe → List Call → Check × List Call
check_environment p calls = (
  if p.environment calls
      then pass "environment probe succeeded"
      else fail "environment probe failed (details withheld)",
  environment_call ∷ calls,
)
