-- ===== src/Writer/Respects.antt =====
-- Relations that the operations of a backend respect, over a whole transaction.
use proxyctl.Prelude.{List, [], ◌∷◌, ◌++◌, none, if◌then◌else◌, Bool-cases, Option-cases, inl, inr}
use proxyctl.Text.{Text, codes, member, split}
use proxyctl.Table.{Table, lookup}
use proxyctl.Safex.Codes.{Result, ok, err, Result-cases}
use proxyctl.Config.Lines.{is_empty}
use proxyctl.Writer.Exec.{Exec, after, ◌>>◌}
use proxyctl.Writer.Names.{Bytes, validate_output_names}
use proxyctl.Writer.Backend.{Dir, output, staging, Inode, Backend}
use proxyctl.Writer.Transaction

module _ {ℓ κ} {S : Type ℓ} where
  pub record IsPreorder (R : S → S → Type κ) : Type (ℓ ⊔ κ) where
    pub reflexive : (s : S) → R s s
    pub transitive : (s t u : S) → R s t → R t u → R s u

  pub record Respects (R : S → S → Type κ) (b : Backend S) : Type (ℓ ⊔ κ) where
    pub open_dir : (path : Text) (s : S) → R s (b.open_dir path s).1
    pub open_subdir : (name : Text) (s : S) → R s (b.open_subdir name s).1
    pub close_dir : (d : Dir) (s : S) → R s (b.close_dir d s)
    pub lstat_at : (d : Dir) (name : Text) (s : S) → R s (b.lstat_at d name s).1
    pub mkdir_at : (name : Text) (s : S) → R s (b.mkdir_at name s).1
    pub create_at : (name : Text) (s : S) → R s (b.create_at staging name s).1
    pub write : (name : Text) (content : Bytes) (s : S) → R s (b.write name content s).1
    pub sync : (name : Text) (s : S) → R s (b.sync name s).1
    pub close : (name : Text) (s : S) → R s (b.close name s).1
    pub remove_staged :
        (name : Text) (id : Inode) (s : S) → R s (b.remove_if_same_at staging name id s).1
    pub rmdir_at : (name : Text) (s : S) → R s (b.rmdir_at name s).1
    pub sync_dir : (s : S) → R s (b.sync_dir s).1
    pub random_suffix : (s : S) → R s (b.random_suffix s).1

module _ {ℓ κ} {S : Type ℓ} {R : S → S → Type κ} (p : IsPreorder R) (b : Backend S)
    (r : Respects R b) (files : Table Bytes) where
  pub >>-R :
      (m f : Exec S (Unit {0})) (s : S) → R s (m s).1 → ((t : S) → R t (f t).1) → R s ((m >> f) s).1
  >>-R m f s h step = after-R (m s).0 (m s).1 h
    where
      after-R : (x : Result (Unit {0})) (t : S) → R s t → R s (after x f t).1
      after-R (ok _) t g = p.transitive s t (f t).1 g (step t)
      after-R (err _ _) t g = g

  pub >>-R_run :
      (m f : Exec (Transaction.Run S) (Unit {0})) (s : Transaction.Run S)
      → R s.state (m s).1.state
      → ((t : Transaction.Run S) → R t.state (f t).1.state)
      → R s.state ((m >> f) s).1.state
  >>-R_run m f s h step = after-R (m s).0 (m s).1 h
    where
      after-R :
          (x : Result (Unit {0})) (t : Transaction.Run S)
          → R s.state t.state
          → R s.state (after x f t).1.state
      after-R (ok _) t g = p.transitive s.state t.state (f t).1.state g (step t)
      after-R (err _ _) t g = g

  pub close_file-R :
      (name : Text) (x : Result (Unit {0})) (s : S)
      → R s (Transaction.close_file b files name x s).1
  unfolding Transaction.close_file
  close_file-R name (ok _) s = r.close name s
  close_file-R name (err _ _) s = r.close name s

  pub sync_file-R :
      (name : Text) (x : Result (Unit {0})) (s : S) → R s (Transaction.sync_file b files name x s).1
  unfolding Transaction.sync_file
  sync_file-R name (err _ _) s = r.close name s
  sync_file-R name (ok _) s =
      p.transitive s (b.sync name s).1 _ (r.sync name s)
        (close_file-R name (b.sync name s).0 (b.sync name s).1)

  pub fill_file-R :
      (name : Text) (x : Result Inode) (t : Transaction.Run S)
      → R t.state (Transaction.fill_file b files name x t).1.state
  unfolding Transaction.fill_file
  fill_file-R name (err _ _) t = p.reflexive t.state
  fill_file-R name (ok id) t =
      let content = Transaction.bytes_of name files in
      p.transitive t.state (b.write name content t.state).1 _ (r.write name content t.state)
        (sync_file-R name (b.write name content t.state).0 (b.write name content t.state).1)

  pub stage_one-R :
      (name : Text) (t : Transaction.Run S)
      → R t.state (Transaction.stage_one b files name t).1.state
  unfolding Transaction.stage_one
  stage_one-R name t =
      p.transitive t.state (b.create_at staging name t.state).1 _ (r.create_at name t.state)
        (fill_file-R name (b.create_at staging name t.state).0 _)

  pub stage_all-R :
      (names : List Text) (t : Transaction.Run S)
      → R t.state (Transaction.stage_all b files names t).1.state
  unfolding Transaction.stage_all
  stage_all-R [] t = p.reflexive t.state
  stage_all-R (name ∷ names) t =
      >>-R_run (Transaction.stage_one b files name) (Transaction.stage_all b files names) t
        (stage_one-R name t) (stage_all-R names)

  pub settle-R : (name : Text) (s : S) → R s (Transaction.settle b files name s).1
  unfolding Transaction.settle
  settle-R name s =
      >>-R b.sync_dir (b.rmdir_at name >> b.sync_dir) s (r.sync_dir s)
        (λ t. >>-R (b.rmdir_at name) b.sync_dir t (r.rmdir_at name t) r.sync_dir)

  pub remove_staged-R :
      (staged : Table Inode) (published names : List Text) (first : Result (Unit {0})) (s : S)
      → R s (Transaction.remove_staged b files staged published names first s).1
  unfolding Transaction.remove_staged
  remove_staged-R staged published [] first s = p.reflexive s
  remove_staged-R staged published (name ∷ names) first s =
      elim (Option-cases (if member name published then none else lookup name staged)) [
        | inl skip ↦
            rw (skip, Transaction.remove_staged) (remove_staged-R staged published names first s)
        | inr (id, found) ↦
            rw (found, Transaction.remove_staged)
              (p.transitive s (b.remove_if_same_at staging name id s).1 _
                (r.remove_staged name id s) (remove_staged-R staged published names _ _))
      ]

  pub rollback-R :
      (staging_name : Text) (t : Transaction.Run S)
      → R t.state (Transaction.rollback b files staging_name t).1
  unfolding Transaction.rollback
  rollback-R staging_name t =
      p.transitive t.state _ _ (remove_staged-R t.staged t.published _ (ok tt) t.state)
        (r.rmdir_at staging_name _)

  pub conclude-R :
      (staging_name : Text) (x : Result (Unit {0})) (t : Transaction.Run S)
      → R t.state (Transaction.conclude b files staging_name (x, t)).1
  unfolding Transaction.conclude
  conclude-R staging_name (ok u) t = p.reflexive t.state
  conclude-R staging_name (err c m) t = rollback-R staging_name t

  pub refuse_existing-R :
      (names : List Text) (s : S) → R s (Transaction.refuse_existing b files names s).1
  unfolding Transaction.refuse_existing Transaction.refuse_one
  refuse_existing-R [] s = p.reflexive s
  refuse_existing-R (name ∷ names) s =
      >>-R (Transaction.refuse_one b files name) (Transaction.refuse_existing b files names) s
        (r.lstat_at output name s) (refuse_existing-R names)

module _ {ℓ κ} {S : Type ℓ} {R : S → S → Type κ} (p : IsPreorder R) (b : Backend S)
    (r : Respects R b) (files : Table Bytes)
    (publishes : (name : Text) (s : S) → R s (b.publish name s).2) where
  pub publish_all-R :
      (names : List Text) (t : Transaction.Run S)
      → R t.state (Transaction.publish_all b files names t).1.state
  unfolding Transaction.publish_all Transaction.publish_one
  publish_all-R [] t = p.reflexive t.state
  publish_all-R (name ∷ names) t =
      >>-R_run p b r files (Transaction.publish_one b files name)
        (Transaction.publish_all b files names) t (publishes name t.state) (publish_all-R names)

  pub body-R :
      (staging_name : Text) (names : List Text) (t : Transaction.Run S)
      → R t.state (Transaction.body b files staging_name names t).1.state
  unfolding Transaction.body Transaction.settle_run
  body-R staging_name names t =
      let finish = Transaction.settle_run b files staging_name in
      let publication = Transaction.publish_all b files names in
      >>-R_run p b r files (Transaction.stage_all b files names) (publication >> finish) t
        (stage_all-R p b r files names t)
        (λ u.
          >>-R_run p b r files publication finish u (publish_all-R names u)
            (λ w. settle-R p b r files staging_name w.state))

  pub with_staging-R :
      (staging_name : Text) (names : List Text) (s : S)
      → R s (Transaction.with_staging b files staging_name names s).1
  unfolding Transaction.with_staging
  with_staging-R staging_name names s =
      let start : Transaction.Run S = record { state = s; staged = []; published = [] } in
      p.transitive s (Transaction.body b files staging_name names start).1.state _
        (body-R staging_name names start)
        (p.transitive _ _ _
          (conclude-R p b r files staging_name (Transaction.body b files staging_name names start).0
            (Transaction.body b files staging_name names start).1)
          (r.close_dir staging _))

  pub enter_staging-R :
      (staging_name : Text) (names : List Text) (x : Result (Unit {0})) (s : S)
      → R s (Transaction.enter_staging b files staging_name names x s).1
  unfolding Transaction.enter_staging
  enter_staging-R staging_name names (ok _) s = with_staging-R staging_name names s
  enter_staging-R staging_name names (err c m) s = r.rmdir_at staging_name s

  pub open_staging-R :
      (staging_name : Text) (names : List Text) (s : S)
      → R s (Transaction.open_staging b files staging_name names s).1
  unfolding Transaction.open_staging
  open_staging-R staging_name names s =
      p.transitive s _ _ (r.open_subdir staging_name s) (enter_staging-R staging_name names _ _)

  pub make_staging-R :
      (names : List Text) (x : Result Text) (s : S)
      → R s (Transaction.make_staging b files names x s).1
  unfolding Transaction.make_staging
  make_staging-R names (err c m) s = p.reflexive s
  make_staging-R names (ok suffix) s =
      let name = codes ".proxyctl-render-" ++ suffix in
      >>-R p b r files (b.mkdir_at name) (Transaction.open_staging b files name names) s
        (r.mkdir_at name s) (open_staging-R name names)

  pub start_staging-R :
      (names : List Text) (s : S) → R s (Transaction.start_staging b files names s).1
  unfolding Transaction.start_staging
  start_staging-R names s = p.transitive s _ _ (r.random_suffix s) (make_staging-R names _ _)

  pub with_output-R : (names : List Text) (s : S) → R s (Transaction.with_output b files names s).1
  unfolding Transaction.with_output
  with_output-R [] s = p.reflexive s
  with_output-R (name ∷ names) s =
      >>-R p b r files (Transaction.refuse_existing b files (name ∷ names))
        (Transaction.start_staging b files (name ∷ names)) s
        (refuse_existing-R p b r files (name ∷ names) s) (start_staging-R (name ∷ names))

  pub hold_output-R : (names : List Text) (s : S) → R s (Transaction.hold_output b files names s).1
  unfolding Transaction.hold_output
  hold_output-R names s = p.transitive s _ _ (with_output-R names s) (r.close_dir output _)

  pub open_output-R :
      (out_dir : Text) (names : List Text) (s : S)
      → R s (Transaction.open_output b files out_dir names s).1
  unfolding Transaction.open_output
  open_output-R out_dir names s =
      >>-R p b r files (b.open_dir out_dir) (Transaction.hold_output b files names) s
        (r.open_dir out_dir s) (hold_output-R names)

  -- A transaction respects whatever each operation of its backend respects.
  pub transaction-R : (out_dir : Text) (s : S) → R s (Transaction.transaction b files out_dir s).1
  unfolding Transaction.transaction
  transaction-R out_dir s = elim (Result-cases (validate_output_names files)) [
    | inl (names, valid) ↦ elim (Bool-cases (is_empty out_dir)) [
      | inl empty ↦ rw (valid, empty, Transaction.transaction) (p.reflexive s)
      | inr path ↦ elim (Bool-cases (member (codes "..") (split b'/' out_dir))) [
        | inl up ↦ rw (valid, path, up, Transaction.transaction) (p.reflexive s)
        | inr down ↦ rw (valid, path, down, Transaction.transaction) (open_output-R out_dir names s)
      ]
    ]
    | inr (c, m, invalid) ↦ rw (invalid, Transaction.transaction) (p.reflexive s)
  ]
