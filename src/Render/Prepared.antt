-- ===== src/Render/Prepared.antt =====
-- What `Run` has ready when it turns to the output directory.
use Prim.Native.String.{String}
use proxyctl.Prelude.{
  ◌⊎◌, none, ◌≡◌, ◌∙◌, ap, map, inl, inr, refl, arith, false, not, List, [], ◌∷◌, Option, some, All,
}
use proxyctl.Text.{Text, encode, equal, contains}
use proxyctl.Text.Laws.{equal_iff}
use proxyctl.Table.{Table, lookup}
use proxyctl.Files.{
  Got-cases, Files, Got, absent, refused, got, Kind, symlink, directory, regular, special,
}
use proxyctl.Safex.Codes.{Code, Result, ok, err, all_of, bind-eq-ok, reject_if, reject_if-eq-ok}
use proxyctl.Config.Document.{Role, Document, parse_role, role_text}
use proxyctl.Config.Lines.{is_empty}
use proxyctl.Config.Parse.{parse}
use proxyctl.Render.Template.{opening, check_no_traversal, validate_template}
use proxyctl.Render.Substitute.{substitute_config, substitute_credentials}
use proxyctl.Render.Resolved.{substitute_credentials-contains}
use proxyctl.Render.Assets.{collect_files, rendered_name, IsPublishable, collect_files-validate}
use proxyctl.Render.Material.{collect_files-placed, collect_files-delivered, collect_files-found}
use proxyctl.Render.Run.{
  held, check_template_dir, found_template, read_file_no_symlink, check_confined, Options,
  unless_refused, parse_read, Material, check_options, parse_file, allowed_template, read_template,
  load_material, prepare,
}
use proxyctl.Writer.Names.{Bytes, validate_output_names}

ok_injective {ℓ} : {A : Type ℓ} {a b : A} → ok a ≡ ok b → a ≡ b
ok_injective h = cc

err_is_ok {ℓ} : {A : Type ℓ} {c : Code} {m : String} {a : A} → err c m ≡ ok a → ⊥
err_is_ok h = cc

-- What `readFileNoSymlink` returns is the content of the file.
read_file_no_symlink-read :
    (files : Files) (path text : Text)
    → found_template (read_file_no_symlink files path) ≡ ok text
    → files.read_file path ≡ got text
unfolding read_file_no_symlink
read_file_no_symlink-read files path text h = elim (Got-cases (files.lstat path)) [
  | inl e ↦ elim (err_is_ok (rw (e, read_file_no_symlink) at h)) [ ]
  | inr (inl e) ↦ elim (err_is_ok (rw (e, read_file_no_symlink) at h)) [ ]
  | inr (inr (n, e)) ↦ elim (Got-cases (files.read_file path)) [
    | inr (inr (t, f)) ↦ ground arith
    | inl f ↦ ground arith
    | inr (inl f) ↦ ground arith
  ]
]

held-ok : (o : Option Material) (m : Material) → held o ≡ ok m → o ≡ some m
held-ok none m h = cc
held-ok (some n) m h = ap some (ok_injective h)

unless_refused-ok :
    (k : Kind) (next : Result Document) (doc : Document)
    → unless_refused k next ≡ ok doc
    → next ≡ ok doc
unless_refused-ok symlink next doc h = cc
unless_refused-ok directory next doc h = cc
unless_refused-ok regular next doc h = h
unless_refused-ok special next doc h = h

parse_read-ok :
    (g : Got Text) (role : Role) (doc : Document)
    → parse_read g role ≡ ok doc
    → (text : Text) × (g ≡ got text) × (parse text role ≡ ok doc)
parse_read-ok (got text) role doc h = (text, refl, h)
parse_read-ok absent role doc h = cc
parse_read-ok refused role doc h = cc

module _ (files : Files) (eval_symlinks : Text → Option Text) (join_path : Text → Text → Text)
    (clean : Text → Text) (digest : Text → Text) (load : Text → Result (Option Material)) where
  -- The config file is accepted for the role, the template is the pinned one, and the files are the
  -- template, filled from the document and from the role's bundle, and the assets of this bundle.
  pub record Prepared (opts : Options) (out : Table Bytes) (published : List Text) : Type 0 where
    pub role : Role
    pub text : Text
    pub doc : Document
    pub name : Text
    pub pinned : Text
    pub template : Text
    pub material : Material
    pub half : Text
    pub rendered : Text
    pub valid : parse_role opts.role ≡ ok role
    pub read : files.read_file opts.config_path ≡ got text
    pub accepted : parse text role ≡ ok doc
    pub allowed : allowed_template role ≡ ok (name, pinned)
    pub identical : digest template ≡ pinned
    pub found : files.read_file (join_path opts.template_dir name) ≡ got template
    pub loaded : load (role_text role) ≡ ok (some material)
    pub owner : material.role ≡ role_text role
    pub configured : substitute_config template doc ≡ ok half
    pub completed : substitute_credentials half material.scalar (some doc ∷ []) ≡ ok rendered
    pub filled : contains rendered opening ≡ false
    pub placed : lookup (rendered_name role) out ≡ some (encode rendered)
    pub delivered : All (λ (a : Text × Bytes). lookup a.0 out ≡ some a.1) material.assets
    pub nothing_else :
        (k : Text) (v : Bytes)
        → lookup k out ≡ some v
        → ((k ≡ rendered_name role) × (v ≡ encode rendered)) ⊎ (lookup k material.assets ≡ some v)
    pub own : All (IsPublishable role) out
    pub named : validate_output_names out ≡ ok published

  Prepared-same :
      {opts : Options} {out out' : Table Bytes} {published published' : List Text}
      → ◌≡◌ {A = Result (Table Bytes × List Text)} (ok (out, published)) (ok (out', published'))
      → Prepared opts out published
      → Prepared opts out' published'
  Prepared-same {out = out} {out' = out'} {published = published} {published' = published'} h p =
      let first : out ≡ out' = ap (λ (x : Table Bytes × List Text). x.0) (ok_injective h) in
      let second : published ≡ published' =
        ap (λ (x : Table Bytes × List Text). x.1) (ok_injective h) in
      rw (← first, ← second) p

  check_options-role :
      (opts : Options) (role : Role) → check_options opts ≡ ok role → parse_role opts.role ≡ ok role
  unfolding check_options
  check_options-role opts role h =
      let (role', e, h1) = bind-eq-ok (parse_role opts.role) _ h in
      let (_, _, h2) = bind-eq-ok (reject_if (is_empty opts.template_dir) _ _) _ h1 in
      let (_, _, h3) = bind-eq-ok (reject_if (is_empty opts.config_path) _ _) _ h2 in
      let (_, _, h4) = bind-eq-ok (check_no_traversal opts.config_path) _ h3 in
      let (_, _, h5) = bind-eq-ok (reject_if (is_empty opts.out_dir) _ _) _ h4 in
      let (_, _, h6) =
        bind-eq-ok
          (all_of
            (map check_no_traversal (opts.template_dir ∷ opts.config_path ∷ opts.out_dir ∷ [])))
          _ h5 in
      e ∙ h6

  parse_file-read :
      (path : Text) (role : Role) (doc : Document)
      → parse_file files path role ≡ ok doc
      → (text : Text) × (files.read_file path ≡ got text) × (parse text role ≡ ok doc)
  unfolding parse_file
  parse_file-read path role doc h = elim (Got-cases (files.lstat path)) [
    | inl e ↦ elim (err_is_ok (rw (e, parse_file) at h)) [ ]
    | inr (inl e) ↦ elim (err_is_ok (rw (e, parse_file) at h)) [ ]
    | inr (inr (n, e)) ↦ parse_read-ok (files.read_file path) role doc (
        unless_refused-ok n.kind (parse_read (files.read_file path) role) doc
          (rw (e, parse_file) at h))
  ]

  read_template-pinned :
      (opts : Options) (role : Role) (tmpl : Text)
      → read_template files eval_symlinks join_path clean digest load opts role ≡ ok tmpl
      → (name pinned : Text) × (allowed_template role ≡ ok (name, pinned))
        × (files.read_file (join_path opts.template_dir name) ≡ got tmpl)
        × (digest tmpl ≡ pinned)
  unfolding read_template
  read_template-pinned opts role tmpl h =
      let ((name, pinned), e, h1) = bind-eq-ok (allowed_template role) _ h in
      let (_, _, h2) = bind-eq-ok (check_template_dir files opts.template_dir) _ h1 in
      let (_, _, h3) = bind-eq-ok (check_no_traversal (join_path opts.template_dir name)) _ h2 in
      let (_, _, h4) = bind-eq-ok (check_no_traversal opts.template_dir) _ h3 in
      let (tmpl', seen, h5) =
        bind-eq-ok (found_template (read_file_no_symlink files (join_path opts.template_dir name)))
          _ h4 in
      let (_, same, h6) = bind-eq-ok (reject_if (not (equal (digest tmpl') pinned)) _ _) _ h5 in
      let (_, _, h7) =
        bind-eq-ok
          (check_confined eval_symlinks opts.template_dir (join_path opts.template_dir name)) _
          h6 in
      let (_, _, h8) = bind-eq-ok (validate_template tmpl') _ h7 in
      let matched = reject_if-eq-ok (not (equal (digest tmpl') pinned)) _ _ same in
      let kept = ok_injective h8 in
      (
        name,
        pinned,
        e,
        rw (← kept) (read_file_no_symlink-read files (join_path opts.template_dir name) tmpl' seen),
        rw (← kept) ((equal_iff (digest tmpl') pinned).0 (ground arith)),
      )

  load_material-loaded :
      (role : Role) (m : Material)
      → load_material files eval_symlinks join_path clean digest load role ≡ ok m
      → (load (role_text role) ≡ ok (some m)) × (m.role ≡ role_text role)
  unfolding load_material
  load_material-loaded role m h =
      let (b, e, h1) = bind-eq-ok (load (role_text role)) _ h in
      let (m', f, h2) = bind-eq-ok (held b) _ h1 in
      let (_, same, h3) = bind-eq-ok (reject_if (not (equal m'.role (role_text role))) _ _) _ h2 in
      let matched = reject_if-eq-ok (not (equal m'.role (role_text role))) _ _ same in
      let kept = ok_injective h3 in
      (
        e ∙ ap ok (held-ok b m' f ∙ ap some kept),
        rw (← kept) ((equal_iff m'.role (role_text role)).0 (ground arith)),
      )

  -- What `Run` has ready when it turns to the output directory comes from a config file that the
  -- parser accepts for the requested role, from a template file with the digest that is pinned for
  -- the role, and from the bundle that the loader has for the role: the template filled from the
  -- document and then from the bundle has no "${" and stands under the rendered name, every asset of
  -- the bundle stands under its name with its bytes, nothing else is there, and every file is one of
  -- the role's own.
  pub prepare-Prepared :
      (opts : Options) (out : Table Bytes) (published : List Text)
      → prepare files eval_symlinks join_path clean digest load opts ≡ ok (out, published)
      → Prepared opts out published
  unfolding prepare collect_files
  prepare-Prepared opts out published h =
      let (role, e1, h1) = bind-eq-ok (check_options opts) _ h in
      let (doc, e2, h2) = bind-eq-ok (parse_file files opts.config_path role) _ h1 in
      let (tmpl, e3, h3) =
        bind-eq-ok (read_template files eval_symlinks join_path clean digest load opts role) _ h2 in
      let (_, _, h4) = bind-eq-ok (check_no_traversal (clean opts.out_dir)) _ h3 in
      let (m, e5, h5) =
        bind-eq-ok (load_material files eval_symlinks join_path clean digest load role) _ h4 in
      let (half, e9, h6) = bind-eq-ok (substitute_config tmpl doc) _ h5 in
      let (rendered, e6, h7) =
        bind-eq-ok (substitute_credentials half m.scalar (some doc ∷ [])) _ h6 in
      let (files', e7, h8) = bind-eq-ok (collect_files role (encode rendered) m.assets) _ h7 in
      let (names, e8, h9) = bind-eq-ok (validate_output_names files') _ h8 in
      let (text, read, accepted) = parse_file-read opts.config_path role doc e2 in
      let (name, pinned, allowed, found, identical) = read_template-pinned opts role tmpl e3 in
      let (loaded, owner) = load_material-loaded role m e5 in
      let valid = check_options-role opts role e1 in
      Prepared-same h9 (record {
        role = role;
        text = text;
        doc = doc;
        name = name;
        pinned = pinned;
        template = tmpl;
        material = m;
        half = half;
        rendered = rendered;
        valid = valid;
        read = read;
        accepted = accepted;
        allowed = allowed;
        identical = identical;
        found = found;
        loaded = loaded;
        owner = owner;
        configured = e9;
        completed = e6;
        filled = substitute_credentials-contains half m.scalar (some doc ∷ []) rendered e6;
        placed = collect_files-placed role (encode rendered) m.assets files' e7;
        delivered = collect_files-delivered role (encode rendered) m.assets files' e7;
        nothing_else = collect_files-found role (encode rendered) m.assets files' e7;
        own = (collect_files-validate opts.role role (encode rendered) m.assets files' valid e7).0;
        named = e8;
      })
