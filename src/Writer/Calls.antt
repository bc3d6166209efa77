-- ===== src/Writer/Calls.antt =====
-- What every call of the Linux backend but the publication respects: a relation that holds between
-- states with the same entries and across the events of one system call.
use Prim.Native.String.{String}
use proxyctl.Prelude.{
  ℕ, Bool, true, false, Option, none, some, if◌then◌else◌, ◌≡◌, ◌==◌, refl, arith,
}
use proxyctl.Text.{Text}
use proxyctl.Table.{lookup}
use proxyctl.Safex.Codes.{Result}
use proxyctl.Writer.Names.{Bytes}
use proxyctl.Writer.Backend.{Dir, staging, Inode, inode, invalid}
use proxyctl.Writer.Kernel.{
  Entry, Kernel, tick, syscall, nothing, staged_entries, make_staging_dir, drop_staging_dir, fill,
  drop_staged, make_if, inspect_made, remove_found, mkdir_at, make_file, create_at, write_file,
  unlink_staged, remove_same, remove_if_same_at, rmdir_at, lstat_at, linux,
}
use proxyctl.Writer.Respects.{IsPreorder, Respects}

module _ {R : Kernel → Kernel → Type 0} (p : IsPreorder R)
    (same : (k k' : Kernel) → k'.finals ≡ k.finals → R k k')
    (ticks : (k : Kernel) → R k (tick k).1) where
  chain : (k l m : Kernel) → R k l → R l m → R k m
  chain = p.transitive

  if-R :
      (k : Kernel) (b : Bool) (x y : Result (Unit {0}) × Kernel)
      → R k x.1
      → R k y.1
      → R k (if b then x else y).1
  if-R k true x y h g = h
  if-R k false x y h g = g

  syscall-R :
      (m : String) (act : Kernel → Result (Unit {0}) × Kernel) (k : Kernel)
      → ((k : Kernel) → R k (act k).1)
      → R k (syscall m act k).1
  unfolding syscall
  syscall-R m act k keeps =
      if-R k (tick k).0 _ _ (chain k (tick k).1 _ (ticks k) (keeps (tick k).1)) (ticks k)

  mkdir_at-R : (name : Text) (k : Kernel) → R k (mkdir_at name k).1
  unfolding mkdir_at make_staging_dir
  mkdir_at-R name k =
      syscall-R _ make_staging_dir k (λ k. same k (make_staging_dir k).1 (ground arith))

  rmdir_at-R : (name : Text) (k : Kernel) → R k (rmdir_at name k).1
  unfolding rmdir_at drop_staging_dir
  rmdir_at-R name k =
      syscall-R _ drop_staging_dir k (λ k. same k (drop_staging_dir k).1 (ground arith))

  write_file-R : (name : Text) (content : Bytes) (k : Kernel) → R k (write_file name content k).1
  unfolding write_file fill
  write_file-R name content k =
      syscall-R _ (fill name content) k (λ k. same k (fill name content k).1 (ground arith))

  pub unlink_staged-R : (m : String) (name : Text) (k : Kernel) → R k (unlink_staged m name k).1
  unfolding unlink_staged drop_staged
  unlink_staged-R m name k =
      syscall-R m (drop_staged m name) k (λ k. same k (drop_staged m name k).1 (ground arith))

  make_if-R : (b : Bool) (name : Text) (k : Kernel) → R k (make_if b name k).1
  unfolding make_if make_file
  make_if-R true name k = same k (make_file name k).1 (ground arith)
  make_if-R false name k = same k k refl

  inspect_made-R : (b : Bool) (id : ℕ) (k : Kernel) → R k (inspect_made b id k).1
  unfolding inspect_made
  inspect_made-R false id k = same k k refl
  inspect_made-R true id k = ticks k

  create_at-R : (name : Text) (k : Kernel) → R k (create_at staging name k).1
  unfolding create_at
  create_at-R name k =
      let k1 = (tick k).1 in
      let made = make_if (tick k).0 name k1 in
      chain k k1 (inspect_made made.0 k1.fresh made.1).1 (ticks k) (
        chain k1 made.1 (inspect_made made.0 k1.fresh made.1).1 (make_if-R (tick k).0 name k1)
          (inspect_made-R made.0 k1.fresh made.1))

  remove_same-R :
      (name : Text) (want : ℕ) (x : Option Entry) (k : Kernel) → R k (remove_same name want x k).1
  unfolding remove_same
  remove_same-R name want none k = same k k refl
  remove_same-R name want (some e) k =
      if-R k (e.ino == want) _ (_, k) (unlink_staged-R "cannot remove output file" name k)
        (same k k refl)

  remove_if_same_at-R :
      (name : Text) (id : Inode) (k : Kernel) → R k (remove_if_same_at staging name id k).1
  unfolding remove_if_same_at remove_found
  remove_if_same_at-R name invalid k = same k k refl
  remove_if_same_at-R name (inode want) k =
      syscall-R _ (remove_found name want) k
        (λ k. remove_same-R name want (lookup name (staged_entries k)) k)

  lstat_at-R : (d : Dir) (name : Text) (k : Kernel) → R k (lstat_at d name k).1
  unfolding lstat_at
  lstat_at-R d name k = ticks k

  idle-R : (m : String) (k : Kernel) → R k (syscall m nothing k).1
  idle-R m k = syscall-R m nothing k (λ k. same k k refl)

  pub linux-Respects : Respects R linux
  unfolding linux
  linux-Respects = record {
    open_dir = λ path k. same k k refl;
    open_subdir = λ name k. idle-R _ k;
    close_dir = λ d k. same k k refl;
    lstat_at = lstat_at-R;
    mkdir_at = mkdir_at-R;
    create_at = create_at-R;
    write = write_file-R;
    sync = λ name k. idle-R _ k;
    close = λ name k. idle-R _ k;
    remove_staged = remove_if_same_at-R;
    rmdir_at = rmdir_at-R;
    sync_dir = λ k. idle-R _ k;
    random_suffix = ticks;
  }
