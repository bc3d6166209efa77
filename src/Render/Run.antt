-- ===== src/Render/Run.antt =====
-- internal/render/render.go: `Run`, and internal/render/loader.go.
-- `files` stands for the calls of package os, `eval_symlinks`, `join_path` and `clean` for those of
-- path/filepath, `digest` for the SHA-256 digest in hexadecimal, and `load` for the loader.
use proxyctl.Prelude.{not, ◌&&◌, List, [], ◌∷◌, ◌++◌, map, Option, none, some}
use proxyctl.Text.{Text, codes, encode, equal, has_prefix}
use proxyctl.Table.{Table}
use proxyctl.Files.{Files, Got, absent, refused, got, Kind, symlink, directory}
use proxyctl.Safex.Codes.{
  Result, ok, err, ◌>>=◌, ◌>>◌, reject_if, usage, not_found, config_rejected, template_rejected,
  render_unsafe, io, internal, all_of,
}
use proxyctl.Config.Document.{Role, gateway, egress, other, role_text, Document, parse_role}
use proxyctl.Config.Lines.{is_empty}
use proxyctl.Config.Parse.{parse}
use proxyctl.Credential.Bundle.{Bundle, bundle_role, bundle_scalar, materialize}
use proxyctl.Render.Template.{validate_template, check_no_traversal}
use proxyctl.Render.Substitute.{Source, substitute_config, substitute_credentials}
use proxyctl.Render.Assets.{collect_files}
use proxyctl.Writer.Names.{Bytes, validate_output_names}
use proxyctl.Writer.Backend.{Backend}
use proxyctl.Writer.Transaction.{transaction}

pub record Options : Type 0 where
  pub role : Text
  pub template_dir : Text
  pub config_path : Text
  pub out_dir : Text

-- `Result`, whose `OK` is true in every one
pub record Rendered : Type 0 where
  pub role : Text
  pub files : List Text
  pub template_dir : Text

-- What the render phase asks of a `Bundle`.
pub record Material : Type 0 where
  pub role : Text
  pub scalar : Source
  pub assets : Table Bytes

-- `bundleOrFailClosed`; `none` is a nil pointer
unfoldable pub bundle_or_fail_closed : Option Bundle → Result (Option Material)
unfolding bundle_role bundle_scalar materialize encode
bundle_or_fail_closed none = err internal "credential bundle unavailable"
bundle_or_fail_closed (some b) = ok (
    some (record {
      role = bundle_role b;
      scalar = λ p. bundle_scalar p b;
      assets = map (λ (a : Text × Text). (a.0, encode a.1)) (materialize b);
    }))

-- `allowedTemplates`
unfoldable pub allowed_template : Role → Result (Text × Text)
allowed_template gateway = ok (
  codes "mihomo-gateway.yaml.tmpl",
  codes "b0797657c50ed13d21200174bf270ef1ed050edb61ebde6a7f9be7cd17b01880",
)
allowed_template egress = ok (
  codes "hysteria-egress.yaml.tmpl",
  codes "7164721b0c1e3204b70937c6bf1e994f7c2d0587a05c1db6cb08376bb90b2e5e",
)
allowed_template (other _) = err internal "no template registered for role %s"

-- The tests of `config.ParseFile` on the kind of the file.
abbrev pub unless_refused : Kind → Result Document → Result Document
unless_refused symlink next = err config_rejected "config path is a symlink; refusing to read"
unless_refused directory next = err config_rejected "config path is a directory, not a file"
unless_refused _ next = next

abbrev pub parse_read : Got Text → Role → Result Document
parse_read (got text) role = parse text role
parse_read _ role = err io "cannot read config file"

module _ (files : Files) where
  -- `readFileNoSymlink`; its errors are replaced by the caller
  unfoldable pub read_file_no_symlink : Text → Option Text
  read_file_no_symlink path = elim (files.lstat path) [
    | absent ↦ none
    | refused ↦ none
    | got n ↦ elim n.kind [
      | symlink ↦ none
      | directory ↦ none
      | _ ↦ elim (files.read_file path) [ got text ↦ some text | _ ↦ none ]
    ]
  ]

  -- `config.ParseFile`
  unfoldable pub parse_file : Text → Role → Result Document
  parse_file path role = elim (files.lstat path) [
    | absent ↦ err io "cannot stat config file"
    | refused ↦ err io "cannot stat config file"
    | got n ↦ unless_refused n.kind (parse_read (files.read_file path) role)
  ]

  unfoldable pub check_template_dir : Text → Result (Unit {0})
  check_template_dir dir = elim (files.lstat dir) [
    | absent ↦ err not_found "template dir not found"
    | refused ↦ err not_found "template dir not found"
    | got n ↦ elim n.kind [
      | symlink ↦ err render_unsafe "template dir must not be a symlink"
      | directory ↦ ok tt
      | _ ↦ err usage "template dir is not a directory"
    ]
  ]

-- The tests of `Run` on its options, up to the config file.
unfoldable pub check_options : Options → Result Role
check_options opts = do
  role ← parse_role opts.role
  reject_if (is_empty opts.template_dir) usage "template dir is required"
  reject_if (is_empty opts.config_path) usage "config path is required"
  check_no_traversal opts.config_path
  reject_if (is_empty opts.out_dir) usage "output dir is required (explicit caller-isolated path)"
  all_of (map check_no_traversal (opts.template_dir ∷ opts.config_path ∷ opts.out_dir ∷ []))
  ok role

module _ (eval_symlinks : Text → Option Text) where
  -- `checkConfined`
  unfoldable pub check_confined : Text → Text → Result (Unit {0})
  check_confined root path = elim (eval_symlinks root) [
    | none ↦ err not_found "cannot resolve root for confinement check"
    | some rr ↦ elim (eval_symlinks path) [
      | none ↦ err not_found "cannot resolve path for confinement check"
      | some pp ↦
          reject_if (not (equal pp rr) && not (has_prefix (pp ++ codes "/") (rr ++ codes "/")))
            render_unsafe "path escapes its allowed root (symlink?)"
    ]
  ]

abbrev pub found_template : Option Text → Result Text
found_template none = err not_found "template %s not found or unsafe"
found_template (some text) = ok text

abbrev pub held : Option Material → Result Material
held none = err internal "credential bundle unavailable"
held (some m) = ok m

module _ (files : Files) (eval_symlinks : Text → Option Text) (join_path : Text → Text → Text)
    (clean : Text → Text) (digest : Text → Text) (load : Text → Result (Option Material)) where
  -- The template of a role, behind its tests.
  unfoldable pub read_template : Options → Role → Result Text
  read_template opts role = do
    (name, pinned) ← allowed_template role
    check_template_dir files opts.template_dir
    check_no_traversal (join_path opts.template_dir name)
    check_no_traversal opts.template_dir
    tmpl ← found_template (read_file_no_symlink files (join_path opts.template_dir name))
    reject_if (not (equal (digest tmpl) pinned)) template_rejected
        "template %s does not match the pinned SHA-256 allowlist entry"
    check_confined eval_symlinks opts.template_dir (join_path opts.template_dir name)
    validate_template tmpl
    ok tmpl

  -- The bundle of a role, behind its tests.
  unfoldable pub load_material : Role → Result Material
  load_material role = do
    b ← load (role_text role)
    m ← held b
    reject_if (not (equal m.role (role_text role))) config_rejected
        "credential bundle role does not match the requested role"
    ok m

  -- All of `Run` before the transaction: the files with their names in the order of publication.
  unfoldable pub prepare : Options → Result (Table Bytes × List Text)
  prepare opts = do
    role ← check_options opts
    doc ← parse_file files opts.config_path role
    tmpl ← read_template opts role
    check_no_traversal (clean opts.out_dir)
    m ← load_material role
    half ← substitute_config tmpl doc
    rendered ← substitute_credentials half m.scalar (some doc ∷ [])
    out ← collect_files role (encode rendered) m.assets
    published ← validate_output_names out
    ok (out, published)

  module _ {ℓ} {S : Type ℓ} (b : Backend S) where
    -- `Run`, on the state of the backend
    unfoldable pub render : Options → S → Result Rendered × S
    render opts s = elim (prepare opts) [
      | err c m ↦ (err c m, s)
      | ok (out, published) ↦
          let (x, s') = transaction b out opts.out_dir s in
          (
            x
                >> ok (record {
                  role = opts.role;
                  files = published;
                  template_dir = opts.template_dir;
                }),
            s',
          )
    ]
