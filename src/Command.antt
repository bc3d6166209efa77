-- ===== src/Command.antt =====
-- cmd/proxyctl/main.go and runtime_unix.go.
pub mod Ended
pub mod Offline
use Prim.Native.String.{String}
use proxyctl.Prelude.{
  ℕ, zero, Bool, true, false, not, ◌||◌, ◌==◌, List, [], ◌∷◌, Option, none, some, if◌then◌else◌,
}
use proxyctl.Text.{Text, codes, equal, member}
use proxyctl.Files.{Files}
use proxyctl.Safex.Codes.{
  Code, Result, ok, err, exit_code, usage, unknown_command, unknown_flag, config_rejected, internal,
  reject_if, ◌>>=◌, ◌>>◌,
}
use proxyctl.Config.Lines.{is_empty}
use proxyctl.Preflight.Probe.{Probe, Call}
use proxyctl.Preflight.Run
use proxyctl.Render.Run.{Options, Rendered, Material, render}
use proxyctl.Writer.Backend.{Backend}
use proxyctl.Status.{Report, VerifySum, collect}
use proxyctl.Verify.{Verified}
use proxyctl.Verify

-- What package flag makes of the arguments: the value of each flag, its default where it is not
-- given, and the number of the arguments behind the flags.
pub record Flags : Type 0 where
  pub text : Text → Text
  pub is_set : Text → Bool
  pub positional : ℕ

-- The calls of other packages. `parse_flags` is none where package flag has an error.
pub record System : Type 0 where
  pub parse_flags : Text → List Text → Option Flags
  pub files : Files
  pub to_lower : Text → Text
  pub goarch : Text
  pub default_probe : Probe
  pub clock : List Call → ℕ
  pub eval_symlinks : Text → Option Text
  pub join_path : Text → Text → Text
  pub clean : Text → Text
  pub dir : Text → Text
  pub is_abs : Text → Bool
  pub digest : Text → Text
  pub load : Text → Result (Option Material)
  pub decode : Text → Option VerifySum
  pub executable : Option Text
  pub setenv : Text → Text → Bool
  pub exec : Text → List Text → Bool

-- What is printed; formatting it is not modelled.
pub data Printed : Type 0 where
  usage_text version_line : Printed
  preflight_report : proxyctl.Preflight.Run.RunResult → Printed
  render_report : Rendered → Printed
  verify_report : Verified → Printed
  status_report status_lines : Report → Printed
  error_line : Code → String → Printed

-- A process ends with a code, or another program takes its place.
pub data Ending : Type 0 where
  exits : ℕ → Ending
  becomes : Text → List Text → Ending

-- `fail`
unfoldable pub fail : Code → String → Ending × List Printed
unfolding exit_code
fail c m = (exits (exit_code c), error_line c m ∷ [])

abbrev pub end_with : Result (Ending × List Printed) → Ending × List Printed
unfolding fail
end_with (ok x) = x
end_with (err c m) = fail c m

unfoldable pub flags_of : Option Flags → Result Flags
flags_of none = err unknown_flag "unknown or malformed flag in %s: %v"
flags_of (some f) = ok f

-- The exit code of a report with a result of its own.
unfoldable pub judged : Bool → Ending
unfolding exit_code
judged good = if good then exits 0 else exits (exit_code config_rejected)

module _ (sys : System) where
  -- Parsing the flags, no argument behind them, and a flag that must be there.
  unfoldable pub flags_with : Text → Text → String → String → List Text → Result Flags
  unfolding flags_of
  flags_with name needed unexpected missing args = do
    f ← flags_of (sys.parse_flags name args)
    reject_if (not (f.positional == 0)) unknown_flag unexpected
    reject_if (is_empty (f.text needed)) usage missing
    ok f

  abbrev pub preflight_options : Flags → proxyctl.Preflight.Run.Options
  preflight_options f = record {
    role = f.text (codes "role");
    offline = f.is_set (codes "offline");
    config_path = f.text (codes "config");
    probe = none;
    net_probe = none;
    now = 0;
    arch = [];
  }

  -- `cmdPreflight`
  unfoldable pub cmd_preflight : List Text → Ending × List Printed
  unfolding flags_with judged
  cmd_preflight args = end_with (do
    f ←
        flags_with (codes "preflight") (codes "role") "unexpected positional arguments to preflight"
          "preflight requires --role gateway|egress" args
    res ←
        (proxyctl.Preflight.Run.run sys.to_lower sys.goarch sys.default_probe sys.clock sys.files
          (preflight_options f) []).0
    ok (judged res.ok_flag, preflight_report res ∷ []))

  abbrev pub render_options : Flags → Options
  render_options f = record {
    role = f.text (codes "role");
    template_dir = f.text (codes "template-dir");
    config_path = f.text (codes "config");
    out_dir = f.text (codes "out-dir");
  }

  abbrev pub reported : Result Rendered → Ending × List Printed
  unfolding fail
  reported (ok res) = (exits 0, render_report res ∷ [])
  reported (err c m) = fail c m

  -- `render.Run` with the calls of the system.
  abbrev pub run_render {ℓ} : {S : Type ℓ} → Backend S → Options → S → Result Rendered × S
  run_render b opts s =
      render sys.files sys.eval_symlinks sys.join_path sys.clean sys.digest sys.load b opts s

  abbrev pub render_flags : List Text → Result Flags
  render_flags args =
      flags_with (codes "render") (codes "role") "unexpected positional arguments to render"
        "render requires --role gateway|egress" args

  -- `cmdRender`
  unfoldable pub cmd_render {ℓ} :
      {S : Type ℓ} → Backend S → List Text → S → (Ending × List Printed) × S
  cmd_render b args s = elim (render_flags args) [
    | err c m ↦ (fail c m, s)
    | ok f ↦ let (res, s') = run_render b (render_options f) s in (reported res, s')
  ]

  -- `cmdVerify`
  unfoldable pub cmd_verify : List Text → Ending × List Printed
  unfolding flags_with judged
  cmd_verify args = end_with (do
    f ←
        flags_with (codes "verify") (codes "profile") "unexpected positional arguments to verify"
          "verify requires --profile loopback|canary" args
    res ← proxyctl.Verify.run (f.text (codes "profile"))
    ok (judged res.ok_flag, verify_report res ∷ []))

  -- `cmdStatus`
  unfoldable pub cmd_status : List Text → Ending × List Printed
  unfolding flags_of
  cmd_status args = end_with (do
    f ← flags_of (sys.parse_flags (codes "status") args)
    reject_if (not (f.positional == 0)) unknown_flag "unexpected positional arguments to status"
    rep ← collect sys.files sys.join_path sys.decode (f.text (codes "state-dir"))
    ok (exits 0, (if f.is_set (codes "json") then status_report rep else status_lines rep) ∷ []))

  -- The directory of the installed release.
  unfoldable pub release_root : Result Text
  release_root = elim sys.executable [
    | none ↦ err internal "cannot locate runtime release"
    | some path ↦ elim (sys.eval_symlinks path) [
      | none ↦ err internal "cannot resolve runtime release"
      | some real ↦ ok (sys.dir real)
    ]
  ]

  -- The program and its arguments behind its own name.
  unfoldable pub gateway_program : Text → List Text → Result (Text × List Text)
  unfolding flags_of
  gateway_program root args = do
    f ← flags_of (sys.parse_flags (codes "gateway") args)
    reject_if
        (not (f.positional == 0)
          || is_empty (f.text (codes "config"))
          || is_empty (f.text (codes "accounting-dir"))
          || not (sys.is_abs (f.text (codes "config")))
          || not (sys.is_abs (f.text (codes "accounting-dir"))))
        usage "gateway requires absolute --config and --accounting-dir"
    reject_if (not (sys.setenv (codes "PROXYCTL_ACCOUNTING_DIR") (f.text (codes "accounting-dir"))))
        internal "cannot configure accounting"
    ok (sys.join_path root (codes "mihomo"), codes "-f" ∷ f.text (codes "config") ∷ [])

  abbrev pub program_of : Text → Text → List Text → Result (Text × List Text)
  unfolding gateway_program
  program_of command root args =
      if equal command (codes "gateway")
      then gateway_program root args
      else ok
          (codes "/usr/bin/python3", sys.join_path root (codes "deploy/traffic/traffic.py") ∷ args)

  -- `cmdRuntime`
  unfoldable pub cmd_runtime : Text → List Text → Ending × List Printed
  unfolding release_root
  cmd_runtime command args = end_with (do
    root ← release_root
    (program, arguments) ← program_of command root args
    reject_if (not (sys.exec program (program ∷ arguments))) internal
        "cannot start installed runtime component"
    ok (becomes program (program ∷ arguments), []))

  -- `run`, on the state of the backend.
  unfoldable pub run {ℓ} : {S : Type ℓ} → Backend S → List Text → S → (Ending × List Printed) × S
  unfolding cmd_runtime cmd_preflight cmd_render cmd_verify cmd_status fail exit_code member equal
  run b [] s = ((exits (exit_code usage), usage_text ∷ []), s)
  run b (cmd ∷ rest) s =
      if member cmd (codes "gateway" ∷ codes "traffic" ∷ [])
      then (cmd_runtime cmd rest, s)
      else if equal cmd (codes "preflight")
      then (cmd_preflight rest, s)
      else if equal cmd (codes "render")
      then cmd_render b rest s
      else if equal cmd (codes "verify")
      then (cmd_verify rest, s)
      else if equal cmd (codes "status")
      then (cmd_status rest, s)
      else if equal cmd (codes "version")
      then ((exits 0, version_line ∷ []), s)
      else if member cmd (codes "help" ∷ codes "-h" ∷ codes "--help" ∷ [])
      then ((exits 0, usage_text ∷ []), s)
      else (fail unknown_command "unknown command %q", s)
