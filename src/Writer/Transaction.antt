-- ===== src/Writer/Transaction.antt =====
-- internal/render/writer.go: `writeTransactionWithBackend` and `rollback`.
use Prim.Native.String.{String}
use proxyctl.Prelude.{true, false, List, [], ◌∷◌, ◌++◌, none, some, ◌==◌, if◌then◌else◌, length}
use mathlib.Core.List.{reverse}
use proxyctl.Text.{Text, codes, split, member}
use proxyctl.Table.{Table, lookup, assign}
use proxyctl.Safex.Codes.{Result, ok, err, usage, render_unsafe, io}
use proxyctl.Config.Lines.{is_empty}
use proxyctl.Writer.Exec.{◌>>◌}
use proxyctl.Writer.Names.{Bytes, output_name_order, validate_output_names}
use proxyctl.Writer.Backend.{output, staging, Stat, missing, present, unreadable, Inode, Backend}

-- What the deferred rollback knows: the state, `staged` and `published`.
pub record Run {ℓ} (S : Type ℓ) : Type ℓ where
  pub state : S
  pub staged : Table Inode
  pub published : List Text

abbrev pub undefined_message : String
undefined_message =
    "output bundle state undefined; published files retained, manual cleanup required"

-- `files[name]`
unfoldable pub bytes_of : Text → Table Bytes → Bytes
unfolding lookup
bytes_of name files = elim (lookup name files) [ none ↦ [] | some data' ↦ data' ]

-- An error of a file operation gets the message of its place.
abbrev pub worded : Result (Unit {0}) → String → Result (Unit {0})
worded (ok u) m = ok u
worded (err _ _) m = err io m

-- `firstErr`
abbrev pub first_error : Result (Unit {0}) → Result (Unit {0}) → Result (Unit {0})
first_error (ok _) later = later
first_error (err c m) later = err c m

module _ {ℓ} {S : Type ℓ} (b : Backend S) (files : Table Bytes) where
  unfoldable pub close_file : Text → Result (Unit {0}) → S → Result (Unit {0}) × S
  close_file name (err _ _) s = (err io "cannot sync output file", (b.close name s).1)
  close_file name (ok _) s =
      let (x, s') = b.close name s in (worded x "cannot close output file", s')

  unfoldable pub sync_file : Text → Result (Unit {0}) → S → Result (Unit {0}) × S
  sync_file name (err _ _) s = (err io "cannot write output file", (b.close name s).1)
  sync_file name (ok _) s = let (x, s') = b.sync name s in close_file name x s'

  -- The writes to a file that was created.
  unfoldable pub fill_file : Text → Result Inode → Run S → Result (Unit {0}) × Run S
  fill_file name (err c m) r = (err c m, r)
  fill_file name (ok id) r =
      let (x, s) = b.write name (bytes_of name files) r.state in
      let (y, s') = sync_file name x s in
      (y, record r { state = s'; staged = assign name id r.staged })

  -- One round of the staging loop.
  unfoldable pub stage_one : Text → Run S → Result (Unit {0}) × Run S
  stage_one name r =
      let (x, s) = b.create_at staging name r.state in fill_file name x (record r { state = s })

  unfoldable pub stage_all : List Text → Run S → Result (Unit {0}) × Run S
  stage_all [] r = (ok tt, r)
  stage_all (name ∷ names) r = (stage_one name >> stage_all names) r

  -- One round of the publication loop: the final link is recorded before the error is looked at.
  unfoldable pub publish_one : Text → Run S → Result (Unit {0}) × Run S
  publish_one name r =
      let (linked, x, s) = b.publish name r.state in
      (x, record r { state = s; published = if linked then name ∷ r.published else r.published })

  unfoldable pub publish_all : List Text → Run S → Result (Unit {0}) × Run S
  publish_all [] r = (ok tt, r)
  publish_all (name ∷ names) r = (publish_one name >> publish_all names) r

  -- `syncDir`, `rmdirAt` and `syncDir` behind the loops.
  unfoldable pub settle : Text → S → Result (Unit {0}) × S
  settle staging_name = b.sync_dir >> b.rmdir_at staging_name >> b.sync_dir

  unfoldable pub settle_run : Text → Run S → Result (Unit {0}) × Run S
  settle_run staging_name r =
      let (x, s) = settle staging_name r.state in (x, record r { state = s })

  -- What runs with the rollback deferred.
  unfoldable pub body : Text → List Text → Run S → Result (Unit {0}) × Run S
  body staging_name names = stage_all names >> publish_all names >> settle_run staging_name

  -- The cleanup loop of `rollback`, over the names in reverse publication order.
  unfoldable pub remove_staged :
      Table Inode → List Text → List Text → Result (Unit {0}) → S → Result (Unit {0}) × S
  remove_staged staged published [] first s = (first, s)
  remove_staged staged published (name ∷ names) first s =
      elim (if member name published then none else lookup name staged) [
        | none ↦ remove_staged staged published names first s
        | some id ↦
            let (x, s') = b.remove_if_same_at staging name id s in
            remove_staged staged published names (first_error first x) s'
      ]

  -- `rollback`
  unfoldable pub rollback : Text → Run S → Result (Unit {0}) × S
  rollback staging_name r =
      let (x, s1) =
        remove_staged r.staged r.published (reverse output_name_order) (ok tt) r.state in
      let (y, s2) = b.rmdir_at staging_name s1 in
      (if length r.published == 0 then first_error x y else err io undefined_message, s2)

  -- The deferred function: nothing after a commit, and otherwise a rollback whose error replaces
  -- that of the transaction.
  unfoldable pub conclude : Text → Result (Unit {0}) × Run S → Result (Unit {0}) × S
  conclude staging_name (ok u, r) = (ok u, r.state)
  conclude staging_name (err c m, r) =
      let (x, s) = rollback staging_name r in (first_error x (err c m), s)

  unfoldable pub with_staging : Text → List Text → S → Result (Unit {0}) × S
  with_staging staging_name names s =
      let (x, s1) =
        conclude staging_name
          (body staging_name names (record { state = s; staged = []; published = [] })) in
      (x, b.close_dir staging s1)

  -- `openSubdir`, with the removal of the new directory when it fails.
  unfoldable pub enter_staging : Text → List Text → Result (Unit {0}) → S → Result (Unit {0}) × S
  enter_staging staging_name names (err c m) s =
      let (x, s') = b.rmdir_at staging_name s in (first_error x (err c m), s')
  enter_staging staging_name names (ok _) s = with_staging staging_name names s

  unfoldable pub open_staging : Text → List Text → S → Result (Unit {0}) × S
  open_staging staging_name names s =
      let (x, s') = b.open_subdir staging_name s in enter_staging staging_name names x s'

  unfoldable pub make_staging : List Text → Result Text → S → Result (Unit {0}) × S
  make_staging names (err c m) s = (err c m, s)
  make_staging names (ok suffix) s =
      let staging_name = codes ".proxyctl-render-" ++ suffix in
      (b.mkdir_at staging_name >> open_staging staging_name names) s

  unfoldable pub refusal : Stat → Result (Unit {0})
  refusal missing = ok tt
  refusal (present true) = err render_unsafe "output path is a symlink; refusing to write"
  refusal (present false) = err render_unsafe "output path already exists; refusing to overwrite"
  refusal unreadable = err render_unsafe "output path cannot be inspected; refusing to write"

  -- The early refusal of an existing target.
  unfoldable pub refuse_one : Text → S → Result (Unit {0}) × S
  refuse_one name s = let (stat, s') = b.lstat_at output name s in (refusal stat, s')

  unfoldable pub refuse_existing : List Text → S → Result (Unit {0}) × S
  refuse_existing [] s = (ok tt, s)
  refuse_existing (name ∷ names) s = (refuse_one name >> refuse_existing names) s

  unfoldable pub start_staging : List Text → S → Result (Unit {0}) × S
  start_staging names s = let (suffix, s') = b.random_suffix s in make_staging names suffix s'

  unfoldable pub with_output : List Text → S → Result (Unit {0}) × S
  with_output [] s = (ok tt, s)
  with_output (name ∷ names) s = (refuse_existing (name ∷ names) >> start_staging (name ∷ names)) s

  unfoldable pub hold_output : List Text → S → Result (Unit {0}) × S
  hold_output names s = let (x, s') = with_output names s in (x, b.close_dir output s')

  unfoldable pub open_output : Text → List Text → S → Result (Unit {0}) × S
  open_output out_dir names = b.open_dir out_dir >> hold_output names

  -- `writeTransactionWithBackend`
  unfoldable pub transaction : Text → S → Result (Unit {0}) × S
  transaction out_dir s = elim (validate_output_names files) [
    | err c m ↦ (err c m, s)
    | ok names ↦
        if is_empty out_dir
        then (err usage "output dir is required", s)
        else if member (codes "..") (split b'/' out_dir)
        then (err render_unsafe "path traversal rejected in output dir", s)
        else open_output out_dir names s
  ]
