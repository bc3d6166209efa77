-- ===== src/Writer/Reached.antt =====
-- Where the walk to the output directory can end.
use proxyctl.Prelude.{
  ℕ, ◌≡◌, refl, sym, ◌∙◌, arith, ◌%◌, ◌||◌, true, false, List, [], ◌∷◌, Option, none, some,
  if◌then◌else◌, Bool-cases, inl, inr,
}
use proxyctl.Text.{Text, codes, equal, split, has_prefix}
use proxyctl.Safex.Codes.{Result, ok, usage, reject_if, ◌>>◌, ◌>>=◌, bind-eq-ok}
use proxyctl.Config.Lines.{is_empty}
use proxyctl.Writer.Walk.{
  Node, Entries, directory, symlink, other, denied, broken, find, opened, open_at, walk, check_mode,
  open_output_dir,
}

-- A path from one node to another, over entries that are themselves directories: no symlink, and no
-- way up.
pub data Reaches : Node → List Text → Node → Type 0 where
  here : (n : Node) → Reaches n [] n
  skip :
      (n m : Node) (part : Text) (parts : List Text)
      → (is_empty part || equal part (codes ".")) ≡ true
      → Reaches n parts m
      → Reaches n (part ∷ parts) m
  down :
      (mode mode' : ℕ) (es es' : Entries) (m : Node) (part : Text) (parts : List Text)
      → equal part (codes "..") ≡ false
      → find part es ≡ some (directory mode' es')
      → Reaches (directory mode' es') parts m
      → Reaches (directory mode es) (part ∷ parts) m

opened-directory :
    (o : Option Node) (c : Node)
    → opened o ≡ ok c
    → (mode : ℕ) × (es : Entries) × (o ≡ some (directory mode es)) × (c ≡ directory mode es)
unfolding opened
opened-directory none c h = cc
opened-directory (some (directory mode es)) c h = (mode, es, refl, ground arith)
opened-directory (some symlink) c h = cc
opened-directory (some other) c h = cc
opened-directory (some denied) c h = cc
opened-directory (some broken) c h = cc

descend :
    (n c m : Node) (part : Text) (parts : List Text)
    → equal part (codes "..") ≡ false
    → open_at n part ≡ ok c
    → Reaches c parts m
    → Reaches n (part ∷ parts) m
unfolding open_at
descend (directory mode es) c m part parts not_up h r =
    let (mode', es', there, same) = opened-directory (find part es) c h in
    down mode mode' es es' m part parts not_up there (rw (← same) r)
descend symlink c m part parts not_up h r = cc
descend other c m part parts not_up h r = cc
descend denied c m part parts not_up h r = cc
descend broken c m part parts not_up h r = cc

walk-Reaches : (n m : Node) (parts : List Text) → walk n parts ≡ ok m → Reaches n parts m
unfolding walk
walk-Reaches n m [] h = let same : n ≡ m = ground arith in rw same (here m)
walk-Reaches n m (part ∷ parts) h = elim (Bool-cases (is_empty part || equal part (codes "."))) [
  | inl stays ↦ skip n m part parts stays (walk-Reaches n m parts (rw (stays, walk) at h))
  | inr moves ↦ elim (Bool-cases (equal part (codes ".."))) [
    | inl up ↦ ground arith
    | inr not_up ↦
        let (c, opens, rest) =
          bind-eq-ok (open_at n part) (λ c. walk c parts) (rw (moves, not_up, walk) at h) in
        descend n c m part parts not_up opens (walk-Reaches c m parts rest)
  ]
]

opened-same : (n c : Node) → opened (some n) ≡ ok c → n ≡ c
unfolding opened
opened-same (directory mode es) c h = ground arith
opened-same symlink c h = cc
opened-same other c h = cc
opened-same denied c h = cc
opened-same broken c h = cc

check_mode-directory :
    (n : Node) {u : Unit {0}}
    → check_mode n ≡ ok u
    → (mode : ℕ) × (es : Entries) × (n ≡ directory mode es) × (mode % 0o1000 ≡ 0o700)
unfolding check_mode
check_mode-directory (directory mode es) h = (mode, es, refl, ground arith)
check_mode-directory symlink h = cc
check_mode-directory other h = cc
check_mode-directory denied h = cc
check_mode-directory broken h = cc

reached :
    (start anchor end node : Node) (parts : List Text) {u : Unit {0}}
    → start ≡ anchor
    → end ≡ node
    → walk anchor parts ≡ ok end
    → check_mode end ≡ ok u
    → Reaches start parts node
      × ((mode : ℕ) × (es : Entries) × (node ≡ directory mode es) × (mode % 0o1000 ≡ 0o700))
reached start anchor end node parts same ends walked checked =
    let (mode, es, is_dir, bits) = check_mode-directory end checked in
    let path : Reaches anchor parts end = walk-Reaches anchor end parts walked in
    (rw same (rw (← ends) path), (mode, es, sym ends ∙ is_dir, bits))

-- The directory that is opened for output is reached from the root, or from the working directory for
-- a relative path, by entries that are directories themselves, so through no symlink and never
-- upwards, and its permissions are 0700.
pub open_output_dir-Reaches :
    (root cwd : Node) (path : Text) (node : Node)
    → open_output_dir root cwd path ≡ ok node
    → Reaches (if has_prefix path (codes "/") then root else cwd) (split b'/' path) node
      × ((mode : ℕ) × (es : Entries) × (node ≡ directory mode es) × (mode % 0o1000 ≡ 0o700))
unfolding open_output_dir
open_output_dir-Reaches root cwd path node h =
    let start : Node = if has_prefix path (codes "/") then root else cwd in
    let finish : Node → Result Node = λ end. check_mode end >> ok end in
    let onward : Node → Result Node = λ anchor. walk anchor (split b'/' path) >>= finish in
    let (u, named, h1) =
      bind-eq-ok (reject_if (is_empty path) usage "output dir is required")
        (λ _. opened (some start) >>= onward) h in
    let (anchor, opens, h2) = bind-eq-ok (opened (some start)) onward h1 in
    let (end, walked, h3) = bind-eq-ok (walk anchor (split b'/' path)) finish h2 in
    let (v, checked, h4) = bind-eq-ok (check_mode end) (λ _. ok end) h3 in
    reached start anchor end node (split b'/' path) (opened-same start anchor opens) (ground arith)
      walked checked
