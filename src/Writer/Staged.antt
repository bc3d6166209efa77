-- ===== src/Writer/Staged.antt =====
-- What the calls of the Linux backend that succeed do to the staging directory.
use Prim.Native.String.{String}
use proxyctl.Prelude.{
  ℕ, Bool, true, false, List, [], ◌∷◌, Option, none, some, if◌then◌else◌, ◌≡◌, ◌⊎◌, inl, inr, refl,
  ◌∙◌, sym, ap, Option-cases, Bool-cases,
}
use mathlib.Core.Option.{some-injective}
use proxyctl.Text.{Text, equal}
use proxyctl.Text.Laws.{equal_iff}
use proxyctl.Table.{Table, lookup, assign, lookup-assign}
use proxyctl.Safex.Codes.{Code, Result, ok, err}
use proxyctl.Writer.Exec.{Exec, after, ◌>>◌}
use proxyctl.Writer.Names.{Bytes}
use proxyctl.Writer.Backend.{staging, Inode}
use proxyctl.Writer.Kept.{same}
use proxyctl.Writer.Kernel.{
  Entry, Event, fine, fails, appears, Kernel, tick_on, tick, syscall, nothing, staged_entries,
  make_file, make_if, inspect_made, create_at, fill, write_file,
}

pub err_is_ok {ℓ} : {A : Type ℓ} {c : Code} {m : String} {a : A} → err c m ≡ ok a → ⊥
err_is_ok h = cc

pub none_is_some {ℓ} : {A : Type ℓ} {a : A} → none ≡ some a → ⊥
none_is_some h = cc

pub false_is_true : false ≡ true → ⊥
false_is_true h = cc

-- A chain that ends well ran both of its steps.
pub >>-ok {ℓ} :
    {S : Type ℓ} (m f : Exec S (Unit {0})) (s : S)
    → ((m >> f) s).0 ≡ ok tt
    → ((m s).0 ≡ ok tt) × ((f (m s).1).0 ≡ ok tt) × ((m >> f) s ≡ f (m s).1)
>>-ok m f s h = go (m s).0 (m s).1 h
  where
    go :
        (x : Result (Unit {0})) (t : _)
        → (after x f t).0 ≡ ok tt
        → (x ≡ ok tt) × ((f t).0 ≡ ok tt) × (after x f t ≡ f t)
    go (ok _) t g = (refl, g, refl)
    go (err _ _) t g = cc

tick_on-staged : (es : List Event) (k : Kernel) → (tick_on es k).1.staged ≡ k.staged
unfolding tick_on
tick_on-staged [] k = refl
tick_on-staged (fine ∷ es) k = refl
tick_on-staged (fails ∷ es) k = refl
tick_on-staged (appears n e ∷ es) k = refl

pub tick-staged : (k : Kernel) → (tick k).1.staged ≡ k.staged
unfolding tick
tick-staged k = tick_on-staged k.events k

-- A system call that succeeds has run.
pub syscall-ok :
    (m : String) (act : Kernel → Result (Unit {0}) × Kernel) (k : Kernel)
    → (syscall m act k).0 ≡ ok tt
    → ((act (tick k).1).0 ≡ ok tt) × (syscall m act k ≡ act (tick k).1)
unfolding syscall
syscall-ok m act k h = go (tick k).0 h
  where
    go :
        (b : Bool)
        → (if b then act (tick k).1 else (err proxyctl.Safex.Codes.io m, (tick k).1)).0 ≡ ok tt
        → ((act (tick k).1).0 ≡ ok tt)
          × ((if b then act (tick k).1 else (err proxyctl.Safex.Codes.io m, (tick k).1))
              ≡ act (tick k).1)
    go true g = (g, refl)
    go false g = cc

module _ (content : Text → Bytes) where
  -- Every staged file is this program's and has the content of its name, but for one that may be
  -- in the making.
  unfoldable pub GoodBut : Option Text → Kernel → Type 0
  GoodBut none k =
      (n : Text) (e : Entry)
      → lookup n (staged_entries k) ≡ some e
      → (e.bytes ≡ content n) × (e.ours ≡ true)
  GoodBut (some name) k =
      (n : Text) (e : Entry)
      → lookup n (staged_entries k) ≡ some e
      → (e.ours ≡ true) × ((equal name n ≡ true) ⊎ (e.bytes ≡ content n))

  pub Good-same :
      (o : Option Text) (k k' : Kernel) → k'.staged ≡ k.staged → GoodBut o k → GoodBut o k'
  unfolding GoodBut
  Good-same none k k' e g = λ n x h. g n x (rw e at h)
  Good-same (some name) k k' e g = λ n x h. g n x (rw e at h)

  none_staged :
      (o : Option (Table Entry)) (n : Text) (e : Entry)
      → o ≡ some []
      → lookup n (elim o [ none ↦ [] | some t ↦ t ]) ≡ some e
      → ⊥
  unfolding lookup
  none_staged none n e s h = cc
  none_staged (some []) n e s h = cc
  none_staged (some (x ∷ t)) n e s h = cc

  pub empty_Good : (k : Kernel) → k.staged ≡ some [] → GoodBut none k
  unfolding GoodBut
  empty_Good k s = λ n e h. elim (none_staged k.staged n e s h) [ ]

  pub Good-equal : (o : Option Text) {k k' : Kernel} → k' ≡ k → GoodBut o k → GoodBut o k'
  Good-equal o e g = rw e g

  assigned_made :
      (name n : Text) (made e : Entry) (t : Table Entry)
      → made.ours ≡ true
      → (lookup n t ≡ some e → (e.bytes ≡ content n) × (e.ours ≡ true))
      → lookup n (assign name made t) ≡ some e
      → (e.ours ≡ true) × ((equal name n ≡ true) ⊎ (e.bytes ≡ content n))
  assigned_made name n made e t m g h = elim (Bool-cases (equal name n)) [
    | inl same ↦ (rw (← some-injective made e (rw (lookup-assign, same) at h)) m, inl same)
    | inr other ↦ let (a, b) = g (rw (lookup-assign, other) at h) in (b, inr a)
  ]

  assigned_full :
      (name n : Text) (old e : Entry) (t : Table Entry)
      → old.ours ≡ true
      → (lookup n t ≡ some e → (e.ours ≡ true) × ((equal name n ≡ true) ⊎ (e.bytes ≡ content n)))
      → lookup n (assign name (record old { bytes = content name }) t) ≡ some e
      → (e.bytes ≡ content n) × (e.ours ≡ true)
  assigned_full name n old e t m g h = elim (Bool-cases (equal name n)) [
    | inl same ↦
        let one =
          some-injective (record old { bytes = content name }) e (rw (lookup-assign, same) at h) in
        (
          sym (ap (λ (x : Entry). x.bytes) one) ∙ ap content ((equal_iff name n).0 same),
          sym (ap (λ (x : Entry). x.ours) one) ∙ m,
        )
    | inr other ↦
        let (a, which) = g (rw (lookup-assign, other) at h) in
        elim which [ inl same ↦ elim (false_is_true (sym other ∙ same)) [ ] | inr b ↦ (b, a) ]
  ]

  make_file-Good :
      (name : Text) (k : Kernel) → GoodBut none k → GoodBut (some name) (make_file name k).1
  unfolding make_file GoodBut
  make_file-Good name k g = λ n e h. elim (Option-cases (lookup name (staged_entries k))) [
    | inr (old, f) ↦ let (a, b) = g n e (rw (f, make_file) at h) in (b, inr a)
    | inl f ↦
        assigned_made name n (record { ino = k.fresh; bytes = []; is_link = false; ours = true }) e
          (staged_entries k) refl (g n e) (rw (f, make_file) at h)
  ]

  fill-Good :
      (name : Text) (k : Kernel)
      → GoodBut (some name) k
      → (fill name (content name) k).0 ≡ ok tt
      → GoodBut none (fill name (content name) k).1
  unfolding fill GoodBut
  fill-Good name k g r = λ n e h. elim (Option-cases (lookup name (staged_entries k))) [
    | inl f ↦ elim (err_is_ok (rw (f, fill) at r)) [ ]
    | inr (old, f) ↦
        assigned_full name n old e (staged_entries k) (g name old f).0 (g n e) (rw (f, fill) at h)
  ]

  inspect_made-Good :
      (b : Bool) (id : ℕ) (name : Text) (k : Kernel) (i : Inode)
      → (inspect_made b id k).0 ≡ ok i
      → GoodBut (some name) k
      → GoodBut (some name) (inspect_made b id k).1
  unfolding inspect_made
  inspect_made-Good true id name k i h g = Good-same (some name) k (tick k).1 (tick-staged k) g
  inspect_made-Good false id name k i h g = cc

  inspected-Good :
      (b : Bool) (name : Text) (k : Kernel) (id : ℕ) (i : Inode)
      → (inspect_made (make_if b name k).0 id (make_if b name k).1).0 ≡ ok i
      → GoodBut none k
      → GoodBut (some name) (inspect_made (make_if b name k).0 id (make_if b name k).1).1
  unfolding make_if inspect_made
  inspected-Good true name k id i h g =
      inspect_made-Good (make_file name k).0 id name (make_file name k).1 i h
        (make_file-Good name k g)
  inspected-Good false name k id i h g = cc

  pub create_at-Good :
      (name : Text) (k : Kernel) (i : Inode)
      → (create_at staging name k).0 ≡ ok i
      → GoodBut none k
      → GoodBut (some name) (create_at staging name k).1
  unfolding create_at
  create_at-Good name k i h g =
      inspected-Good (tick k).0 name (tick k).1 (tick k).1.fresh i h
        (Good-same none k (tick k).1 (tick-staged k) g)

  pub write_file-Good :
      (name : Text) (k : Kernel)
      → (write_file name (content name) k).0 ≡ ok tt
      → GoodBut (some name) k
      → GoodBut none (write_file name (content name) k).1
  unfolding write_file
  write_file-Good name k h g =
      let (a, e) = syscall-ok "write" (fill name (content name)) k h in
      Good-equal none (ap (λ (r : Result (Unit {0}) × Kernel). r.1) e)
        (fill-Good name (tick k).1 (Good-same (some name) k (tick k).1 (tick-staged k) g) a)

  pub idle-Good :
      (m : String) (k : Kernel)
      → (syscall m nothing k).0 ≡ ok tt
      → GoodBut none k
      → GoodBut none (syscall m nothing k).1
  idle-Good m k h g =
      let (a, e) = syscall-ok m nothing k h in
      Good-equal none (ap (λ (r : Result (Unit {0}) × Kernel). r.1) e)
        (Good-same none k (tick k).1 (tick-staged k) g)
