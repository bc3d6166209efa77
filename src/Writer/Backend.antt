-- ===== src/Writer/Backend.antt =====
-- internal/render/writer.go: `backend`, the file system boundary of a transaction.
-- A handle is one of the two directories that a transaction holds; what an operation does lies with
-- the backend, over a state of its own.
use proxyctl.Prelude.{ℕ, Bool}
use proxyctl.Text.{Text}
use proxyctl.Safex.Codes.{Result}
use proxyctl.Writer.Exec.{Exec}
use proxyctl.Writer.Names.{Bytes}

pub data Dir : Type 0 where
  output staging : Dir

-- What `lstatAt` reports: no such entry, an entry that may be a symlink, or another error.
pub data Stat : Type 0 where
  missing : Stat
  present : Bool → Stat
  unreadable : Stat

-- `inodeID`
pub data Inode : Type 0 where
  inode : ℕ → Inode
  invalid : Inode

pub record Backend {ℓ} (S : Type ℓ) : Type ℓ where
  pub open_dir : Text → Exec S (Unit {0})
  pub open_subdir : Text → Exec S (Unit {0})
  pub close_dir : Dir → S → S
  pub lstat_at : Dir → Text → S → Stat × S
  pub mkdir_at : Text → Exec S (Unit {0})
  pub create_at : Dir → Text → Exec S Inode
  pub write : Text → Bytes → Exec S (Unit {0})
  pub sync : Text → Exec S (Unit {0})
  pub close : Text → Exec S (Unit {0})
  pub publish : Text → S → Bool × Result (Unit {0}) × S
  pub remove_if_same_at : Dir → Text → Inode → Exec S (Unit {0})
  pub rmdir_at : Text → Exec S (Unit {0})
  pub sync_dir : Exec S (Unit {0})
  pub random_suffix : Exec S Text
