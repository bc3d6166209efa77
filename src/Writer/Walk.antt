-- ===== src/Writer/Walk.antt =====
-- internal/render/writer_linux.go: `openOutputDirLinux`, over a tree of directories.
use proxyctl.Prelude.{ℕ, not, ◌||◌, List, [], ◌∷◌, Option, none, some, ◌==◌, ◌%◌, if◌then◌else◌}
use proxyctl.Text.{Text, codes, equal, split, has_prefix}
use proxyctl.Safex.Codes.{
  Result, ok, err, usage, render_unsafe, not_found, permission, io, reject_if, ◌>>=◌, ◌>>◌,
}
use proxyctl.Config.Lines.{is_empty}

-- A directory has its permission bits; `other` is a regular file, a device or the like, and `denied`
-- a node that may not be opened; opening a `broken` one fails in another way.
mutual
  pub data Node : Type 0 where
    directory : ℕ → Entries → Node
    symlink other denied broken : Node

  pub data Entries : Type 0 where
    nil : Entries
    entry : Text → Node → Entries → Entries

unfoldable pub find : Text → Entries → Option Node
find name nil = none
find name (entry n node es) = if equal n name then some node else find name es

-- `openat` with O_NOFOLLOW|O_DIRECTORY, its error mapped by `mapDirOpenErrnoLinux`.
unfoldable pub opened : Option Node → Result Node
opened none = err not_found "output dir does not exist"
opened (some (directory mode es)) = ok (directory mode es)
opened (some symlink) = err render_unsafe "output dir must not be a symlink"
opened (some other) = err render_unsafe "output dir must not be a symlink"
opened (some denied) = err permission "output dir access denied"
opened (some broken) = err io "output dir cannot be opened"

unfoldable pub open_at : Node → Text → Result Node
unfolding opened find
open_at (directory mode es) name = opened (find name es)
open_at _ name = err render_unsafe "output dir must not be a symlink"

-- The walk over the components.
unfoldable pub walk : Node → List Text → Result Node
walk node [] = ok node
walk node (part ∷ parts) =
    let next = (do child ← open_at node part; walk child parts) in
    let same = walk node parts in
    if is_empty part || equal part (codes ".")
    then same
    else if equal part (codes "..")
    then err render_unsafe "path traversal rejected in output dir"
    else next

-- `outputDirPerm` on the directory that the walk ends at
unfoldable pub check_mode : Node → Result (Unit {0})
check_mode (directory mode es) =
    reject_if (not (mode % 0o1000 == 0o700)) render_unsafe "output dir permissions must be 0700"
check_mode _ = err render_unsafe "output path is not a directory"

-- `openOutputDirLinux`, from the root or from the working directory
unfoldable pub open_output_dir : Node → Node → Text → Result Node
unfolding walk check_mode
open_output_dir root cwd path = do
  reject_if (is_empty path) usage "output dir is required"
  anchor ← opened (some (if has_prefix path (codes "/") then root else cwd))
  node ← walk anchor (split b'/' path)
  check_mode node
  ok node
