-- ===== src/Preflight/Linux.antt =====
-- internal/preflight/probe_linux.go: the probe of a Linux host.
use proxyctl.Prelude.{
  ℕ, ◌-◌, ◌*◌, ◌/◌, ◌^◌, Bool, true, false, not, List, [], ◌∷◌, ◌++◌, Option, none, some, ltb,
  if◌then◌else◌,
}
use proxyctl.Text.{Text, codes}
use proxyctl.Net.Ip.{Addr}
use proxyctl.Files.{Got, absent, refused, got, directory, regular, Node, Space, Files}
use proxyctl.Preflight.Probe.{Probe, Listener, IdentityFacts, Call}
use proxyctl.Preflight.Host.{expected_service_account}
use proxyctl.Preflight.Accounts.{parse_passwd_uid_gid}
use proxyctl.Preflight.Tables.{parse_proc_net}

abbrev pub runtime_target_dir : Text
runtime_target_dir = codes "/run/private-proxy"

abbrev pub run_dir_fallback : Text
run_dir_fallback = codes "/run"

abbrev pub passwd_path : Text
passwd_path = codes "/etc/passwd"

abbrev pub proc_net_tcp_path : Text
proc_net_tcp_path = codes "/proc/net/tcp"

abbrev pub proc_net_udp_path : Text
proc_net_udp_path = codes "/proc/net/udp"

abbrev pub proc_net_tcp6 : Text
proc_net_tcp6 = codes "/proc/net/tcp6"

abbrev pub proc_net_udp6 : Text
proc_net_udp6 = codes "/proc/net/udp6"

abbrev pub max_passwd_size : ℕ
max_passwd_size = 2 ^ 20

abbrev pub max_uint64 : ℕ
max_uint64 = 2 ^ 64 - 1

-- The product of the two, or the largest number where it does not fit. A block has a size, so the
-- source never divides by zero.
unfoldable pub space_bytes : Space → ℕ
space_bytes s =
    if ltb (max_uint64 / s.block_size) s.available then max_uint64 else s.available * s.block_size

abbrev pub space_of : Got Space → Option ℕ
space_of (got s) = some (space_bytes s)
space_of _ = none

unfoldable pub available_bytes : Files → Option ℕ
available_bytes files = elim (files.statfs runtime_target_dir) [
  | absent ↦ space_of (files.statfs run_dir_fallback)
  | refused ↦ none
  | got s ↦ some (space_bytes s)
]

abbrev text_of : Got Text → Option Text
text_of (got t) = some t
text_of _ = none

-- What Lstat says of the account database: whether it may be read.
unfoldable pub may_read : Got Node → Bool
may_read absent = false
may_read refused = false
may_read (got n) = elim n.kind [ regular ↦ not (ltb max_passwd_size n.size) | _ ↦ false ]

unfoldable pub read_passwd : Files → Option Text
read_passwd files =
    if may_read (files.lstat passwd_path) then text_of (files.read_file passwd_path) else none

-- The facts of the account and the runtime directory, as Lstat shows it.
unfoldable pub identity_of : ℕ × ℕ → Got Node → Option IdentityFacts
identity_of (uid, gid) absent = some (record {
  name = expected_service_account;
  uid = uid;
  gid = gid;
  dir_mode = 0;
  dir_uid = 0;
  dir_gid = 0;
  dir_missing = true;
})
identity_of (uid, gid) refused = none
identity_of (uid, gid) (got n) = elim n.kind [
  | directory ↦ elim n.owner [
    | none ↦ none
    | some (dir_uid, dir_gid) ↦ some (record {
      name = expected_service_account;
      uid = uid;
      gid = gid;
      dir_mode = n.mode;
      dir_uid = dir_uid;
      dir_gid = dir_gid;
      dir_missing = false;
    })
  ]
  | _ ↦ none
]

unfoldable pub identity : Files → Option IdentityFacts
identity files = elim (read_passwd files) [
  | none ↦ none
  | some text ↦ elim (parse_passwd_uid_gid text expected_service_account) [
    | none ↦ none
    | some ids ↦ identity_of ids (files.lstat runtime_target_dir)
  ]
]

pub record SocketTable : Type 0 where
  pub path : Text
  pub proto : Text
  pub is6 : Bool
  pub required : Bool

abbrev pub socket_tables : List SocketTable
socket_tables =
    record { path = proc_net_tcp_path; proto = codes "tcp"; is6 = false; required = true }
    ∷ record { path = proc_net_udp_path; proto = codes "udp"; is6 = false; required = true }
    ∷ record { path = proc_net_tcp6; proto = codes "tcp"; is6 = true; required = false }
    ∷ record { path = proc_net_udp6; proto = codes "udp"; is6 = true; required = false }
    ∷ []

module _ (print_addr : Addr → Text) where
  -- The listeners of one table; a table that is absent and not required has none.
  unfoldable pub table_listeners : Files → SocketTable → Option (List Listener)
  table_listeners files tb = elim (files.read_file tb.path) [
    | absent ↦ if tb.required then none else some []
    | refused ↦ none
    | got text ↦ parse_proc_net print_addr text tb.proto tb.is6
  ]

  -- The loop over the tables.
  unfoldable pub listeners_on : Files → List SocketTable → Option (List Listener)
  listeners_on files [] = some []
  listeners_on files (tb ∷ tbs) = elim (table_listeners files tb) [
    | none ↦ none
    | some ls ↦ elim (listeners_on files tbs) [ none ↦ none | some more ↦ some (ls ++ more) ]
  ]

  unfoldable pub listeners : Files → Option (List Listener)
  listeners files = listeners_on files socket_tables

  -- `linuxProbe`, on a host whose files may be others at each call.
  abbrev pub linux_probe : (List Call → Files) → Probe
  linux_probe host = record {
    environment = λ _. true;
    available_bytes = λ calls. available_bytes (host calls);
    identity = λ calls. identity (host calls);
    listeners = λ calls. listeners (host calls);
  }
