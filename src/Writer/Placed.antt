-- ===== src/Writer/Placed.antt =====
-- What a transaction with the Linux backend has done when it reports no error.
use Prim.Native.String.{String}
use proxyctl.Prelude.{List, [], ◌∷◌, none, some, ◌≡◌, refl, ap, All}
use proxyctl.Text.{Text}
use proxyctl.Table.{Table}
use proxyctl.Safex.Codes.{Result, ok, err}
use proxyctl.Writer.Names.{Bytes}
use proxyctl.Writer.Backend.{Inode, staging}
use proxyctl.Writer.Kernel.{Kernel, linux, syscall, nothing, create_at, write_file}
use proxyctl.Writer.Kept.{Kept, Kept-preorder, same, tick-Kept, linux_publish-Kept}
use proxyctl.Writer.Calls.{linux-Respects}
use proxyctl.Writer.Respects.{Respects, publish_all-R}
use proxyctl.Writer.Staged.{>>-ok, GoodBut, Good-equal, create_at-Good, write_file-Good, idle-Good}
use proxyctl.Writer.Linked.{publish-Good, Stands, Stands-Kept}
use proxyctl.Writer.Transaction

pub calls-Kept : Respects Kept linux
calls-Kept = linux-Respects Kept-preorder same tick-Kept

module _ (files : Table Bytes) where
  -- The content that a name is to have.
  abbrev pub content : Text → Bytes
  content name = Transaction.bytes_of name files

  worded-ok : (x : Result (Unit {0})) (m : String) → Transaction.worded x m ≡ ok tt → x ≡ ok tt
  worded-ok (ok u) m h = refl
  worded-ok (err _ _) m h = cc

  close_file-ok :
      (name : Text) (x : Result (Unit {0})) (k : Kernel)
      → (Transaction.close_file linux files name x k).0 ≡ ok tt
      → x ≡ ok tt
  unfolding Transaction.close_file
  close_file-ok name (ok u) k h = refl
  close_file-ok name (err c m) k h = cc

  sync_file-ok :
      (name : Text) (x : Result (Unit {0})) (k : Kernel)
      → (Transaction.sync_file linux files name x k).0 ≡ ok tt
      → x ≡ ok tt
  unfolding Transaction.sync_file
  sync_file-ok name (ok u) k h = refl
  sync_file-ok name (err c m) k h = cc

  fill_file-ok :
      (name : Text) (x : Result Inode) (r : Transaction.Run Kernel)
      → (Transaction.fill_file linux files name x r).0 ≡ ok tt
      → (id : Inode) × (x ≡ ok id)
  unfolding Transaction.fill_file
  fill_file-ok name (ok id) r h = (id, refl)
  fill_file-ok name (err c m) r h = cc

  close_file-Good :
      (name : Text) (x : Result (Unit {0})) (k : Kernel)
      → (Transaction.close_file linux files name x k).0 ≡ ok tt
      → GoodBut content none k
      → GoodBut content none (Transaction.close_file linux files name x k).1
  unfolding Transaction.close_file linux
  close_file-Good name (err c m) k h g = cc
  close_file-Good name (ok u) k h g =
      idle-Good content "close" k (worded-ok (syscall "close" nothing k).0 _ h) g

  sync_file-Good :
      (name : Text) (x : Result (Unit {0})) (k : Kernel)
      → (Transaction.sync_file linux files name x k).0 ≡ ok tt
      → GoodBut content none k
      → GoodBut content none (Transaction.sync_file linux files name x k).1
  unfolding Transaction.sync_file linux
  sync_file-Good name (err c m) k h g = cc
  sync_file-Good name (ok u) k h g =
      let synced = syscall "sync" nothing k in
      let good = close_file-ok name synced.0 synced.1 h in
      close_file-Good name synced.0 synced.1 h (idle-Good content "sync" k good g)

  fill_file-Good :
      (name : Text) (x : Result Inode) (r : Transaction.Run Kernel)
      → (Transaction.fill_file linux files name x r).0 ≡ ok tt
      → GoodBut content (some name) r.state
      → GoodBut content none (Transaction.fill_file linux files name x r).1.state
  unfolding Transaction.fill_file linux
  fill_file-Good name (err c m) r h g = cc
  fill_file-Good name (ok id) r h g =
      let wrote = write_file name (content name) r.state in
      let good = sync_file-ok name wrote.0 wrote.1 h in
      sync_file-Good name wrote.0 wrote.1 h (write_file-Good content name r.state good g)

  pub All-at :
      (names : List Text) {k k' : Kernel}
      → k' ≡ k
      → All (Stands content k) names
      → All (Stands content k') names
  All-at names e a = rw e a

  publish_one-Stands :
      (name : Text) (r : Transaction.Run Kernel)
      → (Transaction.publish_one linux files name r).0 ≡ ok tt
      → GoodBut content none r.state
      → GoodBut content none (Transaction.publish_one linux files name r).1.state
        × Stands content (Transaction.publish_one linux files name r).1.state name
  unfolding Transaction.publish_one linux
  publish_one-Stands name r h g = publish-Good content name r.state h g

  stage_one-Good :
      (name : Text) (r : Transaction.Run Kernel)
      → (Transaction.stage_one linux files name r).0 ≡ ok tt
      → GoodBut content none r.state
      → GoodBut content none (Transaction.stage_one linux files name r).1.state
  unfolding Transaction.stage_one linux
  stage_one-Good name r h g =
      let made = create_at staging name r.state in
      let (id, good) = fill_file-ok name made.0 (record r { state = made.1 }) h in
      fill_file-Good name made.0 (record r { state = made.1 }) h
        (create_at-Good content name r.state id good g)

  pub stage_all-Good :
      (names : List Text) (r : Transaction.Run Kernel)
      → (Transaction.stage_all linux files names r).0 ≡ ok tt
      → GoodBut content none r.state
      → GoodBut content none (Transaction.stage_all linux files names r).1.state
  unfolding Transaction.stage_all
  stage_all-Good [] r h g = g
  stage_all-Good (name ∷ names) r h g =
      let one = Transaction.stage_one linux files name in
      let (a, b, e) = >>-ok one (Transaction.stage_all linux files names) r h in
      Good-equal content none (ap (λ (x : Result (Unit {0}) × Transaction.Run Kernel). x.1.state) e)
        (stage_all-Good names (one r).1 b (stage_one-Good name r a g))

  pub publish_all-Stands :
      (names : List Text) (r : Transaction.Run Kernel)
      → (Transaction.publish_all linux files names r).0 ≡ ok tt
      → GoodBut content none r.state
      → All (Stands content (Transaction.publish_all linux files names r).1.state) names
  unfolding Transaction.publish_all
  publish_all-Stands [] r h g = tt
  publish_all-Stands (name ∷ names) r h g =
      let one = Transaction.publish_one linux files name in
      let rest = Transaction.publish_all linux files names in
      let (a, b, e) = >>-ok one rest r h in
      let (good, stands) = publish_one-Stands name r a g in
      All-at (name ∷ names) (ap (λ (x : Result (Unit {0}) × Transaction.Run Kernel). x.1.state) e) (
        Stands-Kept content (one r).1.state (rest (one r).1).1.state name
            (publish_all-R Kept-preorder linux calls-Kept files linux_publish-Kept names (one r).1)
            stands,
        publish_all-Stands names (one r).1 b good,
      )
