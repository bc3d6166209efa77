-- ===== src/Preflight/Run.antt =====
-- internal/preflight/preflight.go: the check of the config file, and `Run`.
-- `to_lower` stands for strings.ToLower, `goarch` for runtime.GOARCH, `clock` for time.Now, and
-- `files` for the calls of package os on the config file.
use proxyctl.Prelude.{
  ℕ, Bool, false, not, ◌&&◌, ◌||◌, List, [], ◌∷◌, ◌++◌, Option, none, some, ◌==◌, if◌then◌else◌,
  all, any,
}
use proxyctl.Text.{Text, codes, equal, contains, cut, member, split, trim, trim_space}
use proxyctl.Safex.Codes.{Result, ok, err}
use proxyctl.Safex.Redact.{is_placeholder}
use proxyctl.Config.Document.{parse_role}
use proxyctl.Files.{absent, refused, got, symlink, directory, Files}
use proxyctl.Preflight.Probe.{
  Check, skipped, not_failed, Probe, NetProbe, Call, pass, fail, unavailable_net_probe,
}
use proxyctl.Preflight.Host.{
  check_arch, check_ports_offline, check_ports, check_disk, check_runtime_identity,
  check_environment,
}
use proxyctl.Preflight.Evidence.{check_dns, check_certificate}

unfoldable pub is_known_safe : Text → Bool
unfolding member
is_known_safe v = member v (codes "true" ∷ codes "false" ∷ codes "userpass" ∷ codes "strict" ∷ [])

pub record Options : Type 0 where
  pub role : Text
  pub offline : Bool
  pub config_path : Text
  -- `none` is nil, for `net_probe` also a nil pointer inside the interface.
  pub probe : Option Probe
  pub net_probe : Option NetProbe
  -- zero stands for the clock's time
  pub now : ℕ
  pub arch : Text

pub record RunResult : Type 0 where
  pub role : Text
  pub offline : Bool
  pub ok_flag : Bool
  pub checks : List Check

-- `Result.check`: the check with the name, if it has none.
unfoldable pub named : Text → Check → Check
unfolding equal
named name c = record {
  name = if equal c.name [] then name else c.name;
  status = c.status;
  detail = c.detail;
}

unfoldable pub none_failed : List Check → Bool
none_failed = all not_failed

unfoldable pub probe_of : Probe → Options → Probe
probe_of default_probe opts = elim opts.probe [ none ↦ default_probe | some p ↦ p ]

unfoldable pub net_probe_of : Options → NetProbe
net_probe_of opts = elim opts.net_probe [ none ↦ unavailable_net_probe | some p ↦ p ]

unfoldable pub now_of : (List Call → ℕ) → Options → List Call → ℕ
now_of clock opts calls = if opts.now == 0 then clock calls else opts.now

module _ (to_lower : Text → Text) where
  -- The tests on one line of the config file for one field.
  unfoldable pub exposes : Text → Text → Bool
  unfolding trim_space contains cut trim is_placeholder is_known_safe equal
  exposes field line =
      let t = trim_space line in
      contains (to_lower t) field && elim (cut (codes ":") t) [
        | none ↦ false
        | some (_, rest) ↦
            let v = trim (λ c. c == b'"') (trim_space rest) in
            not (equal v [] || is_placeholder v || is_known_safe v)
      ]

  unfoldable pub judge_config : Text → Check
  unfolding exposes split
  judge_config text =
      if any (λ field. any (exposes field) (split b'\n' text))
        (codes "password" ∷ codes "secret" ∷ codes "token" ∷ [])
      then fail "credential-like field with non-placeholder value near %q"
      else pass "credential fields are placeholders or absent"

  unfoldable pub judge_file : Files → Text → Check
  unfolding judge_config
  judge_file files path = elim (files.lstat path) [
    | absent ↦ fail "config path cannot be stat'ed"
    | refused ↦ fail "config path cannot be stat'ed"
    | got n ↦ elim n.kind [
      | symlink ↦ fail "config path is a symlink; refusing to read"
      | directory ↦ fail "config path is a directory, not a file"
      | _ ↦ elim (files.read_file path) [
        | got text ↦ judge_config text
        | _ ↦ fail "cannot read config"
      ]
    ]
  ]

  unfoldable pub check_credentials_placeholder : Files → Text → Check
  unfolding equal member split judge_file
  check_credentials_placeholder files path =
      if equal path []
      then record { name = []; status = skipped; detail = "no config path provided" }
      else if member (codes "..") (split b'/' path)
      then fail "config path contains '..' traversal component"
      else judge_file files path

  module _ (goarch : Text) (default_probe : Probe) (clock : List Call → ℕ) (files : Files) where
    -- The checks with a probe, in the order of the calls.
    unfoldable pub online_checks : Options → List Call → List Check × List Call
    online_checks opts calls =
        let (environment, c1) = check_environment (probe_of default_probe opts) calls in
        let (disk, c2) = check_disk (probe_of default_probe opts) c1 in
        let (identity, c3) = check_runtime_identity (probe_of default_probe opts) c2 in
        let (ports, c4) = check_ports to_lower opts.role (probe_of default_probe opts) c3 in
        let (dns, c5) = check_dns opts.role (net_probe_of opts) c4 in
        let (certificate, c6) =
          check_certificate opts.role (net_probe_of opts) (now_of clock opts c4) c5 in
        (
          named (codes "environment") environment
              ∷ named (codes "disk") disk
              ∷ named (codes "runtime-identity") identity
              ∷ named (codes "ports") ports
              ∷ named (codes "dns-evidence") dns
              ∷ named (codes "certificate-evidence") certificate
              ∷ [],
          c6,
        )

    unfoldable pub static_checks : Options → List Check
    static_checks opts =
        named (codes "arch") (check_arch goarch opts.arch)
          ∷ (if opts.offline
              then named (codes "ports") (check_ports_offline opts.role) ∷ []
              else [])
        ++ named (codes "credentials") (check_credentials_placeholder files opts.config_path)
          ∷ named (codes "fail-closed") (pass "no DIRECT fallback accepted by render allowlist")
          ∷ []

    unfoldable pub all_checks : Options → List Call → List Check × List Call
    all_checks opts calls =
        if opts.offline
        then (
          static_checks opts
              ++ named (codes "offline-mode")
                  (pass "no DNS, certificate or network probes executed")
                ∷ [],
          calls,
        )
        else let (online, made) = online_checks opts calls in (static_checks opts ++ online, made)

    unfoldable pub run : Options → List Call → Result RunResult × List Call
    run opts calls = elim (parse_role opts.role) [
      | err c m ↦ (err c m, calls)
      | ok _ ↦
          let (checks, made) = all_checks opts calls in
          (
            ok (record {
              role = opts.role;
              offline = opts.offline;
              ok_flag = none_failed checks;
              checks = checks;
            }),
            made,
          )
    ]
