-- ===== src/Writer/Completed.antt =====
-- A transaction with the Linux backend that reports no error, from its start to its end.
use Prim.Native.String.{String}
use proxyctl.Prelude.{
  List, [], ◌∷◌, ◌++◌, none, some, ◌≡◌, ◌⊎◌, inl, inr, refl, ◌∙◌, ap, arith, All, Bool-cases,
}
use proxyctl.Text.{Text, codes, member, split}
use proxyctl.Table.{Table}
use proxyctl.Safex.Codes.{Code, Result, ok, err}
use proxyctl.Config.Lines.{is_empty}
use proxyctl.Writer.Names.{Bytes, validate_output_names}
use proxyctl.Writer.Exec.{◌>>◌}
use proxyctl.Writer.Kernel.{
  Kernel, linux, syscall, nothing, tick, mkdir_at, make_staging_dir, rmdir_at, drop_staging_dir,
}
use proxyctl.Writer.Kept.{Kept, Kept-preorder}
use proxyctl.Writer.Respects.{settle-R}
use proxyctl.Writer.Staged.{>>-ok, syscall-ok, tick-staged, GoodBut, err_is_ok, empty_Good}
use proxyctl.Writer.Linked.{Stands, Stands-Kept}
use proxyctl.Writer.Placed.{calls-Kept, content, stage_all-Good, publish_all-Stands}
use proxyctl.Writer.Transaction

state_of : {x y : Result (Unit {0}) × Kernel} → x ≡ y → x.1 ≡ y.1
state_of e = ap (λ (r : Result (Unit {0}) × Kernel). r.1) e

drop_staging_dir-ok :
    (k : Kernel) → (drop_staging_dir k).0 ≡ ok tt → (drop_staging_dir k).1.staged ≡ none
unfolding drop_staging_dir
drop_staging_dir-ok k h = ground arith

rmdir_at-ok :
    (name : Text) (k : Kernel) → (rmdir_at name k).0 ≡ ok tt → (rmdir_at name k).1.staged ≡ none
unfolding rmdir_at
rmdir_at-ok name k h =
    let (a, e) = syscall-ok _ drop_staging_dir k h in
    ap (λ (x : Kernel). x.staged) (state_of e) ∙ drop_staging_dir-ok (tick k).1 a

idle-staged :
    (m : String) (k : Kernel)
    → (syscall m nothing k).0 ≡ ok tt
    → (syscall m nothing k).1.staged ≡ k.staged
idle-staged m k h =
    let (a, e) = syscall-ok m nothing k h in
    ap (λ (x : Kernel). x.staged) (state_of e) ∙ tick-staged k

make_staging_dir-ok :
    (k : Kernel) → (make_staging_dir k).0 ≡ ok tt → (make_staging_dir k).1.staged ≡ some []
unfolding make_staging_dir
make_staging_dir-ok k h = ground arith

mkdir_at-ok :
    (name : Text) (k : Kernel) → (mkdir_at name k).0 ≡ ok tt → (mkdir_at name k).1.staged ≡ some []
unfolding mkdir_at make_staging_dir
mkdir_at-ok name k h =
    let (a, e) = syscall-ok _ make_staging_dir k h in
    ap (λ (x : Kernel). x.staged) (state_of e) ∙ make_staging_dir-ok (tick k).1 a

module _ (files : Table Bytes) where
  -- All the names stand with their contents, and the staging directory is gone.
  unfoldable pub Completed : List Text → Kernel → Type 0
  Completed names k = All (Stands (content files) k) names × (k.staged ≡ none)

  settle-staged :
      (staging_name : Text) (k : Kernel)
      → (Transaction.settle linux files staging_name k).0 ≡ ok tt
      → (Transaction.settle linux files staging_name k).1.staged ≡ none
  unfolding Transaction.settle linux
  settle-staged staging_name k h =
      let sync = syscall "cannot sync output dir" nothing in
      let (_, b, e) = >>-ok sync (rmdir_at staging_name >> sync) k h in
      let (c, d, f) = >>-ok (rmdir_at staging_name) sync (sync k).1 b in
      ap (λ (x : Kernel). x.staged) (state_of (e ∙ f))
      ∙ idle-staged _ (rmdir_at staging_name (sync k).1).1 d
      ∙ rmdir_at-ok staging_name (sync k).1 c

  Completed-equal :
      (names : List Text) {k k' : Kernel} → k' ≡ k → Completed names k → Completed names k'
  Completed-equal names e c = rw e c

  All-Kept :
      (names : List Text) (k k' : Kernel)
      → Kept k k'
      → All (Stands (content files) k) names
      → All (Stands (content files) k') names
  All-Kept [] k k' r a = tt
  All-Kept (name ∷ names) k k' r a =
      (Stands-Kept (content files) k k' name r a.0, All-Kept names k k' r a.1)

  body-Completed :
      (staging_name : Text) (names : List Text) (r : Transaction.Run Kernel)
      → (Transaction.body linux files staging_name names r).0 ≡ ok tt
      → GoodBut (content files) none r.state
      → Completed names (Transaction.body linux files staging_name names r).1.state
  unfolding Transaction.body Transaction.settle_run Completed
  body-Completed staging_name names r h g =
      let stage = Transaction.stage_all linux files names in
      let publication = Transaction.publish_all linux files names in
      let finish = Transaction.settle_run linux files staging_name in
      let (a, b, e) = >>-ok stage (publication >> finish) r h in
      let (c, d, f) = >>-ok publication finish (stage r).1 b in
      let w = (publication (stage r).1).1 in
      Completed-equal names
        (ap (λ (x : Result (Unit {0}) × Transaction.Run Kernel). x.1.state) (e ∙ f))
        (
          All-Kept names w.state (finish w).1.state
              (settle-R Kept-preorder linux calls-Kept files staging_name w.state)
              (publish_all-Stands files names (stage r).1 c (stage_all-Good files names r a g)),
          settle-staged staging_name w.state d,
        )

  first_error-err :
      (x : Result (Unit {0})) (c : Code) (m : String)
      → Transaction.first_error x (err c m) ≡ ok tt
      → ⊥
  first_error-err (ok _) c m h = cc
  first_error-err (err _ _) c m h = cc

  conclude-ok :
      (staging_name : Text) (x : Result (Unit {0})) (r : Transaction.Run Kernel)
      → (Transaction.conclude linux files staging_name (x, r)).0 ≡ ok tt
      → (x ≡ ok tt) × ((Transaction.conclude linux files staging_name (x, r)).1 ≡ r.state)
  unfolding Transaction.conclude
  conclude-ok staging_name (ok u) r h = (refl, refl)
  conclude-ok staging_name (err c m) r h =
      elim (first_error-err (Transaction.rollback linux files staging_name r).0 c m h) [ ]

  with_staging-Completed :
      (staging_name : Text) (names : List Text) (k : Kernel)
      → (Transaction.with_staging linux files staging_name names k).0 ≡ ok tt
      → k.staged ≡ some []
      → Completed names (Transaction.with_staging linux files staging_name names k).1
  unfolding Transaction.with_staging linux
  with_staging-Completed staging_name names k h e =
      let start : Transaction.Run Kernel = record { state = k; staged = []; published = [] } in
      let after_body = Transaction.body linux files staging_name names start in
      let (good, same) = conclude-ok staging_name after_body.0 after_body.1 h in
      Completed-equal names same
        (body-Completed staging_name names start good (empty_Good (content files) k e))

  enter_staging-ok :
      (staging_name : Text) (names : List Text) (x : Result (Unit {0})) (k : Kernel)
      → (Transaction.enter_staging linux files staging_name names x k).0 ≡ ok tt
      → x ≡ ok tt
  unfolding Transaction.enter_staging
  enter_staging-ok staging_name names (ok u) k h = refl
  enter_staging-ok staging_name names (err c m) k h =
      elim (first_error-err (linux.rmdir_at staging_name k).0 c m h) [ ]

  enter_staging-Completed :
      (staging_name : Text) (names : List Text) (x : Result (Unit {0})) (k : Kernel)
      → (Transaction.enter_staging linux files staging_name names x k).0 ≡ ok tt
      → k.staged ≡ some []
      → Completed names (Transaction.enter_staging linux files staging_name names x k).1
  unfolding Transaction.enter_staging
  enter_staging-Completed staging_name names (ok u) k h e =
      with_staging-Completed staging_name names k h e
  enter_staging-Completed staging_name names (err c m) k h e =
      elim (first_error-err (linux.rmdir_at staging_name k).0 c m h) [ ]

  open_staging-Completed :
      (staging_name : Text) (names : List Text) (k : Kernel)
      → (Transaction.open_staging linux files staging_name names k).0 ≡ ok tt
      → k.staged ≡ some []
      → Completed names (Transaction.open_staging linux files staging_name names k).1
  unfolding Transaction.open_staging linux
  open_staging-Completed staging_name names k h e =
      let opened = syscall "cannot open staging directory" nothing k in
      let good = enter_staging-ok staging_name names opened.0 opened.1 h in
      enter_staging-Completed staging_name names opened.0 opened.1 h (idle-staged _ k good ∙ e)

  make_staging-Completed :
      (names : List Text) (x : Result Text) (k : Kernel)
      → (Transaction.make_staging linux files names x k).0 ≡ ok tt
      → Completed names (Transaction.make_staging linux files names x k).1
  unfolding Transaction.make_staging linux
  make_staging-Completed names (err c m) k h = cc
  make_staging-Completed names (ok suffix) k h =
      let name = codes ".proxyctl-render-" ++ suffix in
      let (a, b, e) = >>-ok (mkdir_at name) (Transaction.open_staging linux files name names) k h in
      Completed-equal names (state_of e)
        (open_staging-Completed name names (mkdir_at name k).1 b (mkdir_at-ok name k a))

  -- A set without a name is published by doing nothing.
  unfoldable pub Outcome : List Text → Kernel → Type 0
  Outcome names k = (names ≡ []) ⊎ Completed names k

  Outcome-equal : (names : List Text) {k k' : Kernel} → k' ≡ k → Outcome names k → Outcome names k'
  Outcome-equal names e c = rw e c

  with_output-Outcome :
      (names : List Text) (k : Kernel)
      → (Transaction.with_output linux files names k).0 ≡ ok tt
      → Outcome names (Transaction.with_output linux files names k).1
  unfolding Transaction.with_output Transaction.start_staging Outcome
  with_output-Outcome [] k h = inl refl
  with_output-Outcome (name ∷ names) k h =
      let refuse = Transaction.refuse_existing linux files (name ∷ names) in
      let start = Transaction.start_staging linux files (name ∷ names) in
      let (_, b, e) = >>-ok refuse start k h in
      let drawn = linux.random_suffix (refuse k).1 in
      inr (
        Completed-equal (name ∷ names) (state_of e)
          (make_staging-Completed (name ∷ names) drawn.0 drawn.1 b))

  open_output-Outcome :
      (out_dir : Text) (names : List Text) (k : Kernel)
      → (Transaction.open_output linux files out_dir names k).0 ≡ ok tt
      → Outcome names (Transaction.open_output linux files out_dir names k).1
  unfolding Transaction.open_output Transaction.hold_output linux
  open_output-Outcome out_dir names k h =
      let (_, b, e) =
        >>-ok (linux.open_dir out_dir) (Transaction.hold_output linux files names) k h in
      Outcome-equal names (state_of e) (with_output-Outcome names (linux.open_dir out_dir k).1 b)

  -- For a set of output files that the writer accepts: when a transaction with the Linux backend
  -- reports no error, whichever entries other processes create meanwhile, either the set is empty,
  -- or each name of it is in the output directory as an entry of this program with
  -- the bytes of the set, and the staging directory is gone.
  pub transaction-Outcome :
      (out_dir : Text) (k : Kernel) (names : List Text)
      → validate_output_names files ≡ ok names
      → (Transaction.transaction linux files out_dir k).0 ≡ ok tt
      → Outcome names (Transaction.transaction linux files out_dir k).1
  unfolding Transaction.transaction
  transaction-Outcome out_dir k names valid h = elim (Bool-cases (is_empty out_dir)) [
    | inl empty ↦ elim (err_is_ok (rw (valid, empty, Transaction.transaction) at h)) [ ]
    | inr path ↦ elim (Bool-cases (member (codes "..") (split b'/' out_dir))) [
      | inl up ↦ elim (err_is_ok (rw (valid, path, up, Transaction.transaction) at h)) [ ]
      | inr down ↦
          rw (valid, path, down, Transaction.transaction)
            (open_output-Outcome out_dir names k
              (rw (valid, path, down, Transaction.transaction) at h))
    ]
  ]
