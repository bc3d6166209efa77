-- ===== src/Tests/Hosts.antt =====
-- Checks of a host.
use proxyctl.Prelude.{
  ◌^◌, ◌≡◌, ◌↔◌, refl, arith, if◌then◌else◌, true, false, map, All, List, [], ◌∷◌, some,
}
use proxyctl.Text.{Text, codes, split, ends_with}
use proxyctl.Safex.Codes.{ok, err}
use proxyctl.Net.Ip.{Addr, v4}
use proxyctl.Files.{Files, got, absent}
use proxyctl.Preflight.Probe.{
  Probe, NetProbe, Listener, IdentityFacts, DnsFacts, CertificateFacts, Call, proxy_egress,
  not_failed, stub_probe,
}
use proxyctl.Preflight.Host.{check_ports, scan_listeners}
use proxyctl.Preflight.Evidence.{ascii_lower_byte}
use proxyctl.Preflight.Accounts.{parse_passwd_uid_gid}
use proxyctl.Preflight.Entries.{OnlyEntry, parse_passwd_uid_gid-OnlyEntry}
use proxyctl.Preflight.Tables.{parse_proc_net_local_addr, addr_of}
use proxyctl.Preflight.Fields.{print_field, parse_proc_net_local_addr-print_field}
use proxyctl.Preflight.Linux.{linux_probe, socket_tables}
use proxyctl.Preflight.Rows.{TableHeard, Unreserved, check_ports-TableHeard}
use proxyctl.Preflight.Judged.{NoConflict, scan_listeners-NoConflict}
use proxyctl.Preflight.Run.{Options, RunResult, run, probe_of, net_probe_of, now_of}
use proxyctl.Preflight.Ready.{Deployable, host_calls, run-Deployable}

abbrev pub lower : Text → Text
lower = map ascii_lower_byte

abbrev accounts : Text
accounts = codes "root:x:0:0:root:/root:/bin/sh\nprivateproxy:x:990:991::/:/bin/false\n"

parse_passwd_uid_gid-OnlyEntry_example :
    OnlyEntry (codes "privateproxy") (split b'\n' accounts) 990 991
unfolding parse_passwd_uid_gid proxyctl.Preflight.Accounts.accounts_on
    proxyctl.Preflight.Accounts.entry_of proxyctl.Preflight.Accounts.ids_of split proxyctl.Text.size
    proxyctl.Text.equal
parse_passwd_uid_gid-OnlyEntry_example =
    parse_passwd_uid_gid-OnlyEntry accounts (codes "privateproxy") 990 991 refl

printed : print_field (127 ∷ 0 ∷ 0 ∷ 1 ∷ []) 7890 ≡ codes "0100007F:1ED2"
unfolding print_field proxyctl.Preflight.Fields.turned proxyctl.Preflight.Fields.print_bytes
    proxyctl.Preflight.Fields.print_port proxyctl.Preflight.Fields.hex_char
printed = refl

parse_proc_net_local_addr-print_field_example :
    parse_proc_net_local_addr (print_field (127 ∷ 0 ∷ 0 ∷ 1 ∷ []) 7890) false
    ≡ some (addr_of false (127 ∷ 0 ∷ 0 ∷ 1 ∷ []), 7890)
parse_proc_net_local_addr-print_field_example =
    parse_proc_net_local_addr-print_field false (127 ∷ 0 ∷ 0 ∷ 1 ∷ []) 7890 refl
      (omega arith, (omega arith, (omega arith, (omega arith, tt)))) (omega arith)

abbrev tcp_table : Text
tcp_table =
    codes
      "  sl  local_address rem_address   st\n   0: 0100007F:0016 00000000:0000 0A\n   1: 0100007F:1ED2 0100007F:9C40 01\n"

abbrev files : Files
files = record {
  statfs = λ _. absent;
  lstat = λ _. absent;
  read_file = λ path. if ends_with path b'6' then absent else got tcp_table;
}

abbrev loopback_text : Addr → Text
loopback_text _ = codes "127.0.0.1"

check_ports-TableHeard_example :
    All (TableHeard loopback_text (Unreserved lower (codes "egress")) files) socket_tables
unfolding check_ports ends_with proxyctl.Preflight.Linux.listeners
    proxyctl.Preflight.Linux.listeners_on proxyctl.Preflight.Linux.table_listeners
    proxyctl.Preflight.Tables.parse_proc_net split proxyctl.Preflight.Tables.rows_on
    proxyctl.Text.equal proxyctl.Text.trim_space proxyctl.Preflight.Tables.parse_proc_net_line
    proxyctl.Preflight.Tables.row_of proxyctl.Preflight.Tables.fields parse_proc_net_local_addr
    proxyctl.Text.cut proxyctl.Text.size proxyctl.Preflight.Tables.decode_hex
    proxyctl.Preflight.Tables.parse_hex_uint scan_listeners proxyctl.Preflight.Host.conflict
    proxyctl.Preflight.Host.role_reservations proxyctl.Preflight.Host.same_pair ascii_lower_byte
check_ports-TableHeard_example =
    check_ports-TableHeard lower loopback_text (λ _. files) (codes "egress") [] refl

abbrev ssh : List Listener
ssh = record { protocol = codes "TCP"; address = codes "0.0.0.0"; port = 22 } ∷ []

scan_listeners-NoConflict_example :
    (not_failed (scan_listeners lower (codes "gateway") ssh) ≡ true)
    ↔ NoConflict lower (codes "gateway") ssh
scan_listeners-NoConflict_example = scan_listeners-NoConflict lower (codes "gateway") ssh

abbrev account : IdentityFacts
account = record {
  name = codes "privateproxy";
  uid = 990;
  gid = 991;
  dir_mode = 448;
  dir_uid = 990;
  dir_gid = 991;
  dir_missing = false;
}

abbrev probe : Probe
probe = record {
  environment = λ _. true;
  available_bytes = λ _. some (2 ^ 30);
  identity = λ _. some account;
  listeners = λ _. some ssh;
}

abbrev net_probe : NetProbe
net_probe = record {
  dns = λ t _. some (record {
    target = t;
    resolved = true;
    name = codes "proxy-egress.example.org";
    addresses = codes "192.0.2.7" ∷ [];
  });
  certificate = λ t _. some (record {
    target = t;
    present = true;
    dns_names = codes "*.example.org" ∷ codes "proxy-egress.example.org" ∷ [];
    not_before = 5;
    not_after = 10 ^ 16;
    trusted = true;
  });
}

abbrev options : Options
options = record {
  role = codes "egress";
  offline = false;
  config_path = [];
  probe = some probe;
  net_probe = some net_probe;
  now = 7;
  arch = codes "arm64";
}

abbrev result : RunResult
result = elim (run lower (codes "amd64") stub_probe (λ _. 9) files options []).0 [
  | ok r ↦ r
  | err _ _ ↦ record { role = []; offline = true; ok_flag = false; checks = [] }
]

run-Deployable_example :
    Deployable lower
      (codes "egress")
      (probe_of stub_probe options)
      (net_probe_of options)
      (now_of (λ _. 9) options (host_calls []))
      []
unfolding run proxyctl.Config.Document.parse_role proxyctl.Text.equal
    proxyctl.Preflight.Run.none_failed proxyctl.Preflight.Run.all_checks
    proxyctl.Preflight.Run.static_checks proxyctl.Preflight.Run.named
    proxyctl.Preflight.Host.check_arch proxyctl.Preflight.Run.check_credentials_placeholder
    proxyctl.Preflight.Run.online_checks proxyctl.Preflight.Host.check_environment probe_of
    proxyctl.Preflight.Host.check_disk proxyctl.Preflight.Host.check_runtime_identity
    proxyctl.Preflight.Host.judge_identity check_ports scan_listeners ascii_lower_byte
    proxyctl.Net.Ip.is_loopback proxyctl.Net.Ip.is_multicast proxyctl.Net.Ip.is_unspecified
    proxyctl.Net.Ip.parse_addr proxyctl.Net.Ip.zone proxyctl.Net.cut_first
    proxyctl.Preflight.Evidence.ascii_equal_fold proxyctl.Preflight.Evidence.certificates_on
    proxyctl.Preflight.Evidence.check_certificate proxyctl.Preflight.Evidence.check_dns
    proxyctl.Preflight.Evidence.dns_on proxyctl.Preflight.Evidence.equal_folded
    proxyctl.Preflight.Evidence.has_expected_label proxyctl.Preflight.Evidence.is_safe_label
    proxyctl.Preflight.Evidence.is_safe_probe_name proxyctl.Preflight.Evidence.judge_addresses
    proxyctl.Preflight.Evidence.judge_certificate proxyctl.Preflight.Evidence.judge_dns
    proxyctl.Preflight.Evidence.parse_probe_addr proxyctl.Preflight.Evidence.san_matches_label
    proxyctl.Preflight.Evidence.sub proxyctl.Preflight.Host.conflict
    proxyctl.Preflight.Host.role_reservations proxyctl.Preflight.Host.same_pair
    proxyctl.Preflight.Probe.role_targets proxyctl.Preflight.Probe.same_target
    proxyctl.Preflight.Probe.spec proxyctl.Preflight.Probe.targets_of net_probe_of now_of ends_with
    proxyctl.Text.is_digit proxyctl.Text.is_lower proxyctl.Text.is_space proxyctl.Text.is_upper
    proxyctl.Text.size split proxyctl.Text.trim proxyctl.Text.trim_left proxyctl.Text.trim_right
    proxyctl.Text.trim_space proxyctl.Text.width
run-Deployable_example =
    run-Deployable lower (codes "amd64") stub_probe (λ _. 9) files options [] result refl refl refl
