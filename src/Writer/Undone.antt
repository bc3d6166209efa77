-- ===== src/Writer/Undone.antt =====
-- What an error of a transaction with the Linux backend says of the files it has published.
use Prim.Native.String.{String}
use proxyctl.Prelude.{
  true, List, [], ◌∷◌, ◌++◌, some, if◌then◌else◌, ◌≡◌, ◌≢◌, ◌⊎◌, inl, inr, refl, arith, Bool-cases,
  length, ◌==◌,
}
use proxyctl.Text.{Text, codes, member, split}
use proxyctl.Table.{Table, lookup}
use proxyctl.Safex.Codes.{Code, Result, ok, err, io, Result-cases}
use proxyctl.Config.Lines.{is_empty}
use proxyctl.Writer.Names.{Bytes, validate_output_names}
use proxyctl.Writer.Exec.{Exec, after, ◌>>◌}
use proxyctl.Writer.Kernel.{Entry, Kernel, linux}
use proxyctl.Writer.Respects.{rollback-R, refuse_existing-R}
use proxyctl.Writer.Made.{NoneMade, NoneMade-preorder, calls-NoneMade}
use proxyctl.Writer.Tracked.{Tracked, body-Tracked}
use proxyctl.Writer.Transaction

-- A result that is an error, and not the one for an undefined bundle, leaves nothing made.
pub record Undone (k : Kernel) (x : Result (Unit {0})) (k' : Kernel) : Type 0 where
  pub undone :
      (c : Code) (m : String) → x ≡ err c m → m ≢ Transaction.undefined_message → NoneMade k k'

NoneMade-Undone : (k : Kernel) (x : Result (Unit {0})) (k' : Kernel) → NoneMade k k' → Undone k x k'
NoneMade-Undone k x k' h = record { undone = λ c m e other. h }

before-Undone :
    (k l : Kernel) (x : Result (Unit {0})) (m : Kernel) → NoneMade k l → Undone l x m → Undone k x m
before-Undone k l x m h u = record {
  undone = λ c w e other. NoneMade-preorder.transitive k l m h (u.undone c w e other);
}

>>-Undone :
    (m f : Exec Kernel (Unit {0})) (k : Kernel)
    → NoneMade k (m k).1
    → ((l : Kernel) → Undone l (f l).0 (f l).1)
    → Undone k ((m >> f) k).0 ((m >> f) k).1
>>-Undone m f k h next = go (m k).0 (m k).1 h
  where
    go :
        (x : Result (Unit {0})) (l : Kernel)
        → NoneMade k l
        → Undone k (after x f l).0 (after x f l).1
    go (ok _) l g = before-Undone k l (f l).0 (f l).1 g (next l)
    go (err c w) l g = NoneMade-Undone k (err c w) l g

-- Once a name is published, every error is the one for an undefined bundle.
outcome-published :
    (published : List Text) (x : Result (Unit {0})) (c' c : Code) (m' m : String)
    → Transaction.first_error
        (if length published == 0 then x else err io Transaction.undefined_message)
        (err c' m')
      ≡ err c m
    → m ≢ Transaction.undefined_message
    → published ≡ []
outcome-published [] x c' c m' m e other = refl
outcome-published (n ∷ names) x c' c m' m e other = ground arith

old_or_published :
    {A : Type 0} (n : Text) (published : List Text)
    → published ≡ []
    → A ⊎ (member n published ≡ true)
    → A
unfolding member
old_or_published n published e (inl a) = a
old_or_published n [] e (inr among) = cc
old_or_published n (p ∷ ps) e (inr among) = cc

module _ (files : Table Bytes) where
  conclude-Undone :
      (k : Kernel) (staging_name : Text) (x : Result (Unit {0})) (r : Transaction.Run Kernel)
      → Tracked files k r
      → Undone k
          (Transaction.conclude linux files staging_name (x, r)).0
          (Transaction.conclude linux files staging_name (x, r)).1
  unfolding Transaction.conclude Transaction.rollback
  conclude-Undone k staging_name (ok u) r t = record { undone = λ c m e other. cc }
  conclude-Undone k staging_name (err c' m') r t = record {
    undone = λ c m e other.
        let none_left = outcome-published r.published _ c' c m' m e other in
        NoneMade-preorder.transitive k r.state _
          (record { made = λ n x h o. old_or_published n r.published none_left (t.tracks n x h o) })
          (rollback-R NoneMade-preorder linux calls-NoneMade files staging_name r);
  }

  with_staging-Undone :
      (staging_name : Text) (names : List Text) (k : Kernel)
      → Undone k
          (Transaction.with_staging linux files staging_name names k).0
          (Transaction.with_staging linux files staging_name names k).1
  unfolding Transaction.with_staging linux
  with_staging-Undone staging_name names k =
      let start : Transaction.Run Kernel = record { state = k; staged = []; published = [] } in
      let after_body = Transaction.body linux files staging_name names start in
      conclude-Undone k staging_name after_body.0 after_body.1
        (body-Tracked files k staging_name names start (record { tracks = λ n e h o. inl h }))

  enter_staging-Undone :
      (staging_name : Text) (names : List Text) (x : Result (Unit {0})) (k : Kernel)
      → Undone k
          (Transaction.enter_staging linux files staging_name names x k).0
          (Transaction.enter_staging linux files staging_name names x k).1
  unfolding Transaction.enter_staging
  enter_staging-Undone staging_name names (ok u) k = with_staging-Undone staging_name names k
  enter_staging-Undone staging_name names (err c m) k =
      NoneMade-Undone k _ _ (calls-NoneMade.rmdir_at staging_name k)

  open_staging-Undone :
      (staging_name : Text) (names : List Text) (k : Kernel)
      → Undone k
          (Transaction.open_staging linux files staging_name names k).0
          (Transaction.open_staging linux files staging_name names k).1
  unfolding Transaction.open_staging
  open_staging-Undone staging_name names k =
      let opened = linux.open_subdir staging_name k in
      before-Undone k opened.1 _ _ (calls-NoneMade.open_subdir staging_name k)
        (enter_staging-Undone staging_name names opened.0 opened.1)

  make_staging-Undone :
      (names : List Text) (x : Result Text) (k : Kernel)
      → Undone k
          (Transaction.make_staging linux files names x k).0
          (Transaction.make_staging linux files names x k).1
  unfolding Transaction.make_staging
  make_staging-Undone names (err c m) k = NoneMade-Undone k _ _ (NoneMade-preorder.reflexive k)
  make_staging-Undone names (ok suffix) k =
      let name = codes ".proxyctl-render-" ++ suffix in
      >>-Undone (linux.mkdir_at name) (Transaction.open_staging linux files name names) k
        (calls-NoneMade.mkdir_at name k) (open_staging-Undone name names)

  start_staging-Undone :
      (names : List Text) (k : Kernel)
      → Undone k
          (Transaction.start_staging linux files names k).0
          (Transaction.start_staging linux files names k).1
  unfolding Transaction.start_staging
  start_staging-Undone names k =
      let drawn = linux.random_suffix k in
      before-Undone k drawn.1 _ _ (calls-NoneMade.random_suffix k)
        (make_staging-Undone names drawn.0 drawn.1)

  with_output-Undone :
      (names : List Text) (k : Kernel)
      → Undone k
          (Transaction.with_output linux files names k).0
          (Transaction.with_output linux files names k).1
  unfolding Transaction.with_output
  with_output-Undone [] k = NoneMade-Undone k _ _ (NoneMade-preorder.reflexive k)
  with_output-Undone (name ∷ names) k =
      >>-Undone (Transaction.refuse_existing linux files (name ∷ names))
        (Transaction.start_staging linux files (name ∷ names)) k
        (refuse_existing-R NoneMade-preorder linux calls-NoneMade files (name ∷ names) k)
        (start_staging-Undone (name ∷ names))

  open_output-Undone :
      (out_dir : Text) (names : List Text) (k : Kernel)
      → Undone k
          (Transaction.open_output linux files out_dir names k).0
          (Transaction.open_output linux files out_dir names k).1
  unfolding Transaction.open_output Transaction.hold_output linux
  open_output-Undone out_dir names k =
      >>-Undone (linux.open_dir out_dir) (Transaction.hold_output linux files names) k
        (calls-NoneMade.open_dir out_dir k) (with_output-Undone names)

  transaction-Undone :
      (out_dir : Text) (k : Kernel)
      → Undone k
          (Transaction.transaction linux files out_dir k).0
          (Transaction.transaction linux files out_dir k).1
  unfolding Transaction.transaction
  transaction-Undone out_dir k = elim (Result-cases (validate_output_names files)) [
    | inr (c, m, invalid) ↦
        rw (invalid, Transaction.transaction)
          (NoneMade-Undone k _ k (NoneMade-preorder.reflexive k))
    | inl (names, valid) ↦ elim (Bool-cases (is_empty out_dir)) [
      | inl empty ↦
          rw (valid, empty, Transaction.transaction)
            (NoneMade-Undone k _ k (NoneMade-preorder.reflexive k))
      | inr path ↦ elim (Bool-cases (member (codes "..") (split b'/' out_dir))) [
        | inl up ↦
            rw (valid, path, up, Transaction.transaction)
              (NoneMade-Undone k _ k (NoneMade-preorder.reflexive k))
        | inr down ↦
            rw (valid, path, down, Transaction.transaction) (open_output-Undone out_dir names k)
      ]
    ]
  ]

-- A transaction with the Linux backend that returns an error other than that of an undefined bundle,
-- wherever it stops and whatever other processes create meanwhile, has published nothing: each entry
-- of this program under a name of the output directory, the staging directory aside, was there
-- before, with its inode and its content. Where a cleanup call fails, the staging directory may
-- stay, with the staged files in it.
pub transaction-made :
    (files : Table Bytes) (out_dir : Text) (k : Kernel) (c : Code) (m : String) (n : Text)
    (e : Entry)
    → (Transaction.transaction linux files out_dir k).0 ≡ err c m
    → m ≢ Transaction.undefined_message
    → lookup n (Transaction.transaction linux files out_dir k).1.finals ≡ some e
    → e.ours ≡ true
    → lookup n k.finals ≡ some e
transaction-made files out_dir k c m n e failed other found mine =
    ((transaction-Undone files out_dir k).undone c m failed other).made n e found mine
