-- ===== src/Writer/Kernel.antt =====
-- internal/render/writer_linux.go: the backend's operations, as system calls on an output directory
-- and the staging directory inside it, while others act on the output directory too.
use Prim.Native.String.{String}
use proxyctl.Prelude.{
  ℕ, suc, Bool, true, false, not, List, [], ◌∷◌, Option, none, some, ◌==◌, if◌then◌else◌,
}
use proxyctl.Text.{Text}
use proxyctl.Table.{Table, lookup, assign, without}
use proxyctl.Safex.Codes.{Result, ok, err, io, render_unsafe}
use proxyctl.Writer.Names.{Bytes}
use proxyctl.Writer.Backend.{
  Dir, output, staging, Stat, missing, present, unreadable, Inode, inode, invalid, Backend,
}
use proxyctl.Writer.Walk.{Node, open_output_dir}

-- A directory entry: its inode, its content, whether it is a symlink, and whether this program
-- made it. No operation reads the last.
pub record Entry : Type 0 where
  pub ino : ℕ
  pub bytes : Bytes
  pub is_link : Bool
  pub ours : Bool

-- What comes of one system call: it runs, it fails, or it runs after another process has made an
-- entry of the output directory.
pub data Event : Type 0 where
  fine fails : Event
  appears : Text → Entry → Event

-- `finals` holds the entries of the output directory but for the staging directory, which is
-- `staged` with its files.
pub record Kernel : Type 0 where
  pub root : Node
  pub cwd : Node
  pub finals : Table Entry
  pub staged : Option (Table Entry)
  pub fresh : ℕ
  pub suffix : Text
  pub events : List Event

abbrev pub theirs : Entry → Entry
theirs e = record e { ours = false }

-- An entry is made only where there is none.
unfoldable pub add_absent : Text → Entry → Table Entry → Table Entry
add_absent n e t = elim (lookup n t) [ none ↦ assign n e t | some _ ↦ t ]

-- The events of one system call: whether it runs, and the state in which it does.
unfoldable pub tick_on : List Event → Kernel → Bool × Kernel
unfolding add_absent
tick_on [] k = (true, k)
tick_on (fine ∷ es) k = (true, record k { events = es })
tick_on (fails ∷ es) k = (false, record k { events = es })
tick_on (appears n e ∷ es) k =
    (true, record k { events = es; finals = add_absent n (theirs e) k.finals })

unfoldable pub tick : Kernel → Bool × Kernel
unfolding tick_on
tick k = tick_on k.events k

-- A system call with one message for each of its errors.
unfoldable pub syscall :
    String → (Kernel → Result (Unit {0}) × Kernel) → Kernel → Result (Unit {0}) × Kernel
unfolding tick
syscall message act k = let (runs, k') = tick k in if runs then act k' else (err io message, k')

abbrev pub staged_entries : Kernel → Table Entry
staged_entries k = elim k.staged [ none ↦ [] | some t ↦ t ]

abbrev pub entries_of : Dir → Kernel → Table Entry
entries_of output k = k.finals
entries_of staging k = staged_entries k

abbrev pub nothing : Kernel → Result (Unit {0}) × Kernel
nothing k = (ok tt, k)

unfoldable pub make_staging_dir : Kernel → Result (Unit {0}) × Kernel
make_staging_dir k = elim k.staged [
  | none ↦ (ok tt, record k { staged = some [] })
  | some _ ↦ (err io "cannot create staging directory", k)
]

-- `mkdirAtLinux`
unfoldable pub mkdir_at : Text → Kernel → Result (Unit {0}) × Kernel
unfolding syscall make_staging_dir
mkdir_at name = syscall "cannot create staging directory" make_staging_dir

-- A new, empty file in the staging directory, unless the name is taken.
unfoldable pub make_file : Text → Kernel → Bool × Kernel
make_file name k = elim (lookup name (staged_entries k)) [
  | some _ ↦ (false, k)
  | none ↦
      let made : Entry = record { ino = k.fresh; bytes = []; is_link = false; ours = true } in
      (true, record k { fresh = suc k.fresh; staged = some (assign name made (staged_entries k)) })
]

unfoldable pub make_if : Bool → Text → Kernel → Bool × Kernel
unfolding make_file
make_if true name k = make_file name k
make_if false name k = (false, k)

unfoldable pub inspect_made : Bool → ℕ → Kernel → Result Inode × Kernel
unfolding tick
inspect_made false id k = (err io "cannot create output file", k)
inspect_made true id k =
    let (seen, k') = tick k in
    (if seen then ok (inode id) else err io "output file cannot be inspected", k')

-- The same in the output directory.
unfoldable pub make_final : Bool → Text → Kernel → Bool × Kernel
make_final false name k = (false, k)
make_final true name k = elim (lookup name k.finals) [
  | some _ ↦ (false, k)
  | none ↦
      let made : Entry = record { ino = k.fresh; bytes = []; is_link = false; ours = true } in
      (true, record k { fresh = suc k.fresh; finals = assign name made k.finals })
]

-- `createAtLinux`: O_EXCL, and the identity from the open descriptor. If the second call fails, the
-- new file stays.
unfoldable pub create_at : Dir → Text → Kernel → Result Inode × Kernel
unfolding tick make_if make_final inspect_made
create_at output name k =
    let (runs, k1) = tick k in
    let (made, k2) = make_final runs name k1 in inspect_made made k1.fresh k2
create_at staging name k =
    let (runs, k1) = tick k in
    let (made, k2) = make_if runs name k1 in inspect_made made k1.fresh k2

unfoldable pub fill : Text → Bytes → Kernel → Result (Unit {0}) × Kernel
fill name content k = elim (lookup name (staged_entries k)) [
  | none ↦ (err io "write", k)
  | some e ↦ (
    ok tt,
    record k { staged = some (assign name (record e { bytes = content }) (staged_entries k)) },
  )
]

-- The write of a whole buffer to a staged file.
unfoldable pub write_file : Text → Bytes → Kernel → Result (Unit {0}) × Kernel
unfolding syscall fill
write_file name content = syscall "write" (fill name content)

unfoldable pub link_entry : Text → Option Entry → Kernel → Bool × Kernel
unfolding add_absent
link_entry name none k = (false, k)
link_entry name (some e) k = elim (lookup name k.finals) [
  | some _ ↦ (false, k)
  | none ↦ (true, record k { finals = assign name e k.finals })
]

unfoldable pub link_if : Bool → Text → Kernel → Bool × Kernel
unfolding link_entry
link_if true name k = link_entry name (lookup name (staged_entries k)) k
link_if false name k = (false, k)

-- The first half of `publishLinux`: linkat, which makes the final name or fails if it is there.
unfoldable pub link_at : Text → Kernel → Bool × Kernel
unfolding tick link_if
link_at name k = let (runs, k') = tick k in link_if runs name k'

unfoldable pub drop_staged : String → Text → Kernel → Result (Unit {0}) × Kernel
drop_staged message name k = elim (lookup name (staged_entries k)) [
  | none ↦ (err io message, k)
  | some _ ↦ (ok tt, record k { staged = some (without name (staged_entries k)) })
]

-- unlinkat in the staging directory
unfoldable pub unlink_staged : String → Text → Kernel → Result (Unit {0}) × Kernel
unfolding syscall drop_staged
unlink_staged message name = syscall message (drop_staged message name)

unfoldable pub unlink_linked : Bool → Text → Kernel → Bool × Result (Unit {0}) × Kernel
unfolding unlink_staged
unlink_linked false name k = (false, err io "cannot publish output file", k)
unlink_linked true name k =
    let (x, k') = unlink_staged "cannot remove staged file" name k in (true, x, k')

-- `publishLinux`
unfoldable pub publish : Text → Kernel → Bool × Result (Unit {0}) × Kernel
unfolding link_at unlink_linked
publish name k = let (linked, k') = link_at name k in unlink_linked linked name k'

unfoldable pub remove_same : Text → ℕ → Option Entry → Kernel → Result (Unit {0}) × Kernel
unfolding unlink_staged
remove_same name want none k = (ok tt, k)
remove_same name want (some e) k =
    if e.ino == want
    then unlink_staged "cannot remove output file" name k
    else (err render_unsafe "output file was replaced; refusing to remove it", k)

unfoldable pub remove_found : Text → ℕ → Kernel → Result (Unit {0}) × Kernel
unfolding remove_same
remove_found name want k = remove_same name want (lookup name (staged_entries k)) k

unfoldable pub drop_final : Text → Kernel → Result (Unit {0}) × Kernel
drop_final name k = elim (lookup name k.finals) [
  | none ↦ (err io "cannot remove output file", k)
  | some _ ↦ (ok tt, record k { finals = without name k.finals })
]

-- The same in the output directory, where a symlink cannot be inspected.
unfoldable pub remove_final : Text → ℕ → Kernel → Result (Unit {0}) × Kernel
unfolding syscall drop_final
remove_final name want k = elim (lookup name k.finals) [
  | none ↦ (ok tt, k)
  | some e ↦
      if e.is_link
      then (err io "cannot inspect output file for cleanup", k)
      else if e.ino == want
      then syscall "cannot remove output file" (drop_final name) k
      else (err render_unsafe "output file was replaced; refusing to remove it", k)
]

-- `removeIfSameAtLinux`
unfoldable pub remove_if_same_at : Dir → Text → Inode → Kernel → Result (Unit {0}) × Kernel
unfolding syscall remove_found remove_final
remove_if_same_at d name invalid k = (err io "cannot verify output file identity for cleanup", k)
remove_if_same_at output name (inode want) k =
    syscall "cannot inspect output file for cleanup" (remove_final name want) k
remove_if_same_at staging name (inode want) k =
    syscall "cannot inspect output file for cleanup" (remove_found name want) k

unfoldable pub drop_staging_dir : Kernel → Result (Unit {0}) × Kernel
drop_staging_dir k = elim k.staged [
  | some [] ↦ (ok tt, record k { staged = none })
  | _ ↦ (err io "cannot remove staging directory", k)
]

-- `rmdirAtLinux` on the staging directory: it must be empty
unfoldable pub rmdir_at : Text → Kernel → Result (Unit {0}) × Kernel
unfolding syscall drop_staging_dir
rmdir_at name = syscall "cannot remove staging directory" drop_staging_dir

-- `lstatAtLinux`: the entry is opened with O_NOFOLLOW, so a symlink is an error.
unfoldable pub lstat_at : Dir → Text → Kernel → Stat × Kernel
unfolding tick
lstat_at d name k =
    let (runs, k1) = tick k in
    (
      if not runs then unreadable else elim (lookup name (entries_of d k1)) [
        | none ↦ missing
        | some e ↦ if e.is_link then unreadable else present false
      ],
      k1,
    )

-- `defaultBackend` on Linux
unfoldable pub linux : Backend Kernel
unfolding mkdir_at create_at write_file publish remove_if_same_at rmdir_at lstat_at syscall
linux = record {
  open_dir =
      λ path k. (elim (open_output_dir k.root k.cwd path) [ ok _ ↦ ok tt | err c m ↦ err c m ], k);
  open_subdir = λ name. syscall "cannot open staging directory" nothing;
  close_dir = λ d k. k;
  lstat_at = lstat_at;
  mkdir_at = mkdir_at;
  create_at = create_at;
  write = write_file;
  sync = λ name. syscall "sync" nothing;
  close = λ name. syscall "close" nothing;
  publish = publish;
  remove_if_same_at = remove_if_same_at;
  rmdir_at = rmdir_at;
  sync_dir = syscall "cannot sync output dir" nothing;
  random_suffix = λ k.
      let (runs, k') = tick k in
      (if runs then ok k'.suffix else err io "cannot create staging directory", k');
}
