-- ===== src/Status.antt =====
-- internal/status/status.go.
-- `files` stands for the calls of package os, `join_path` for filepath.Join and `decode` for
-- json.Unmarshal into a `VerifySum`.
pub mod Trusted
use proxyctl.Prelude.{
  Bool, true, List, [], ◌∷◌, Option, none, some, ◌≡◌, refl, if◌then◌else◌, Bool-cases, inl, inr,
  false, arith,
}
use proxyctl.Text.{Text, codes, member, split}
use proxyctl.Files.{
  Files, Got, Got-cases, absent, refused, got, Node, Kind, symlink, directory, regular, special,
}
use proxyctl.Safex.Codes.{
  Result, ok, err, Code, render_unsafe, usage, io, internal, ◌>>=◌, bind-eq-ok,
}
use proxyctl.Config.Lines.{is_empty}
use Prim.Native.String.{String}

-- `VerifySum`; its times are not carried
pub record VerifySum : Type 0 where
  pub profile : Text
  pub ok_flag : Bool

-- `Report`; the version metadata of the build is not carried
pub record Report : Type 0 where
  pub restricted : Bool
  pub restrictions : List Text
  pub last_verify : Option VerifySum

-- The texts of `Report.Restrictions`.
abbrev pub restriction_texts : List Text
restriction_texts =
    codes "status command: no external command execution"
    ∷ codes "status command: no network listeners"
    ∷ codes "no secrets in output (redacted centrally)"
    ∷ codes "fail-closed: no DIRECT fallback"
    ∷ []

abbrev pub state_file_name : Text
state_file_name = codes "last-verify.json"

module _ (files : Files) (join_path : Text → Text → Text) (decode : Text → Option VerifySum) where
  -- The content of the state file.
  unfoldable pub decoded : Got Text → Result (Option VerifySum)
  decoded absent = err io "cannot read state file"
  decoded refused = err io "cannot read state file"
  decoded (got text) = elim (decode text) [
    | none ↦ err internal "state file is corrupt"
    | some sum ↦ ok (some sum)
  ]

  -- The state file, behind what Lstat tells of it.
  unfoldable pub read_state_file : Got Node → Text → Result (Option VerifySum)
  unfolding decoded
  read_state_file absent path = ok none
  read_state_file refused path = err io "cannot stat state file"
  read_state_file (got n) path = elim n.kind [
    | symlink ↦ err render_unsafe "state file is a symlink; refusing to read"
    | _ ↦ decoded (files.read_file path)
  ]

  -- The state directory, behind what Lstat tells of it.
  unfoldable pub read_state_dir : Got Node → Text → Result (Option VerifySum)
  unfolding read_state_file
  read_state_dir absent dir = ok none
  read_state_dir refused dir = err io "cannot stat state dir"
  read_state_dir (got n) dir = elim n.kind [
    | symlink ↦ err render_unsafe "state dir must not be a symlink"
    | directory ↦
        read_state_file (files.lstat (join_path dir state_file_name))
          (join_path dir state_file_name)
    | _ ↦ err usage "state dir is not a directory"
  ]

  -- `readLastVerify`
  unfoldable pub read_last_verify : Text → Result (Option VerifySum)
  unfolding read_state_dir
  read_last_verify dir =
      if member (codes "..") (split b'/' dir)
      then err render_unsafe "state dir contains '..' traversal component"
      else read_state_dir (files.lstat dir) dir

  abbrev report_with : Option VerifySum → Report
  report_with sum = record {
    restricted = true;
    restrictions = restriction_texts;
    last_verify = sum;
  }

  -- `Collect`
  unfoldable pub collect : Text → Result Report
  unfolding read_last_verify
  collect dir =
      if is_empty dir
      then ok (report_with none)
      else read_last_verify dir >>= λ sum. ok (report_with sum)
