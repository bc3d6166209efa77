-- ===== src/Safex/Assignments.antt =====
-- The search for a sensitive key that is assigned, without its loop: an assignment is a place of a key.
use proxyctl.Prelude.{
  ℕ, zero, suc, ◌≤◌, ◌<◌, ◌≡◌, ◌⊎◌, inl, inr, refl, ap, sym, ◌∙◌, arith, Bool, true, false, not,
  ◌&&◌, ◌||◌, List, [], ◌∷◌, ◌++◌, none, some, any, all, length, drop, Bool-cases, Option-cases,
  and_left, and_right,
}
use mathlib.Core.List.{append_assoc}
use mathlib.Core.Option.{some-injective}
use proxyctl.Text.{Text, equal, has_prefix, member}
use proxyctl.Text.Laws.{equal_iff}
use proxyctl.Safex.Redact.{
  is_ascii_alnum, find_key, separator_follows, key_assigned, sensitive_keys,
  has_sensitive_assignment,
}

-- Whether a key may start behind the text; `start` tells it for the empty text.
unfoldable pub boundary_behind : Bool → Text → Bool
unfolding is_ascii_alnum
boundary_behind start [] = start
boundary_behind start (c ∷ s) = boundary_behind (not (is_ascii_alnum c)) s

-- A sensitive key stands in the text at a boundary, and a separator follows it.
pub HasAssignment : Text → Type 0
HasAssignment lower =
    (key before after : Text) × (member key sensitive_keys ≡ true)
    × (lower ≡ before ++ (key ++ after))
    × (boundary_behind true before ≡ true)
    × (separator_follows after ≡ true)

boundary_behind-append :
    (b : Bool) (s t : Text) → boundary_behind b (s ++ t) ≡ boundary_behind (boundary_behind b s) t
unfolding boundary_behind
boundary_behind-append b [] t = refl
boundary_behind-append b (c ∷ s) t = boundary_behind-append (not (is_ascii_alnum c)) s t

boundary_behind-true :
    (b : Bool) (s : Text) → boundary_behind b s ≡ true → boundary_behind true s ≡ true
unfolding boundary_behind
boundary_behind-true b [] h = refl
boundary_behind-true b (c ∷ s) h = h

-- No tail of the second text is a prefix of the first; so a key does not overlap itself.
unfoldable no_tail : Text → Text → Bool
unfolding has_prefix
no_tail k [] = true
no_tail k (c ∷ t) = not (has_prefix k (c ∷ t)) && no_tail k t

unfoldable apart : Text → Bool
unfolding no_tail
apart [] = false
apart (c ∷ k) = no_tail (c ∷ k) k

has_prefix-take :
    (s t p : Text) → has_prefix (s ++ t) p ≡ true → length p ≤ length s → has_prefix s p ≡ true
unfolding has_prefix
has_prefix-take s t [] h g = refl
has_prefix-take [] t (c ∷ p) h g = ground arith
has_prefix-take (x ∷ s) t (c ∷ p) h g = ground (arith, has_prefix-take s t p)

drop-append : (s t : Text) → drop (length s) (s ++ t) ≡ t
drop-append [] t = refl
drop-append (c ∷ s) t = drop-append s t

has_prefix-append_self : (s t : Text) → has_prefix (s ++ t) s ≡ true
unfolding has_prefix
has_prefix-append_self [] t = refl
has_prefix-append_self (c ∷ s) t = ground (arith, has_prefix-append_self s t)

ap2_cons : {a b : ℕ} {s t : Text} → a ≡ b → s ≡ t → a ∷ s ≡ b ∷ t
ap2_cons e f = cc

-- Where the tail of a key stands before the key, it ends before the key begins.
before_key :
    (k t before after : Text)
    → no_tail k t ≡ true
    → length t ≤ length k
    → has_prefix (before ++ (k ++ after)) t ≡ true
    → (between : Text) × (before ≡ t ++ between)
unfolding no_tail has_prefix
before_key k [] before after h g p = (before, refl)
before_key k (c ∷ t) [] after h g p = ground (arith, has_prefix-take k after (c ∷ t) p g)
before_key k (c ∷ t) (d ∷ before) after h g p =
    let (between, e) = before_key k t before after (ground arith) (omega arith) (ground arith) in
    (between, ap2_cons (ground arith) e)

prefix_tail : (d c : ℕ) (s k : Text) → has_prefix (d ∷ s) (c ∷ k) ≡ true → has_prefix s k ≡ true
unfolding has_prefix
prefix_tail d c s k h = ground arith

dropped :
    (k between before s : Text)
    → before ≡ k ++ between
    → drop (length k) (before ++ s) ≡ between ++ s
dropped k between before s e = rw (e, append_assoc, drop-append k (between ++ s)) refl

behind_key :
    (b : Bool) (k between before : Text)
    → before ≡ k ++ between
    → boundary_behind b before ≡ true
    → boundary_behind true between ≡ true
behind_key b k between before e h =
    boundary_behind-true (boundary_behind b k) between (rw (e, boundary_behind-append) at h)

-- What the search for a key makes of a place of the key.
find_key-none :
    (b : Bool) (c : ℕ) (k before after : Text)
    → find_key b (c ∷ k) (before ++ ((c ∷ k) ++ after)) ≡ none
    → boundary_behind b before ≡ false
unfolding find_key boundary_behind
find_key-none b c k [] after h = let front = has_prefix-append_self (c ∷ k) after in ground arith
find_key-none b c k (d ∷ before) after h =
    find_key-none (not (is_ascii_alnum d)) c k before after (ground arith)

find_key-some :
    (b : Bool) (c : ℕ) (k before after rest : Text)
    → apart (c ∷ k) ≡ true
    → find_key b (c ∷ k) (before ++ ((c ∷ k) ++ after)) ≡ some rest
    → boundary_behind b before ≡ true
    → (rest ≡ after)
      ⊎ ((between : Text) × (rest ≡ between ++ ((c ∷ k) ++ after))
          × (boundary_behind true between ≡ true))
unfolding find_key boundary_behind apart
find_key-some b c k [] after rest a h g =
    let front = has_prefix-append_self (c ∷ k) after in
    let back = drop-append (c ∷ k) after in
    inl (some-injective rest after (rw (← h, g, front, back) refl))
find_key-some b c k (d ∷ before) after rest a h g =
    elim (Bool-cases (b && has_prefix (d ∷ (before ++ ((c ∷ k) ++ after))) (c ∷ k))) [
      | inl here ↦
          let (between, e) = before_key (c ∷ k) k before after a (omega arith) (
            prefix_tail d c (before ++ ((c ∷ k) ++ after)) k
              (and_right b (has_prefix (d ∷ (before ++ ((c ∷ k) ++ after))) (c ∷ k)) here)) in
          inr (
            between,
            sym (
                  some-injective (drop (length k) (before ++ ((c ∷ k) ++ after))) rest
                    (rw here at h))
                ∙ dropped k between before ((c ∷ k) ++ after) e,
            behind_key (not (is_ascii_alnum d)) k between before e g,
          )
      | inr later ↦ find_key-some (not (is_ascii_alnum d)) c k before after rest a (rw later at h) g
    ]

length-drop : (n : ℕ) (s : Text) → length (drop n s) ≤ length s
length-drop zero s = omega arith
length-drop (suc n) [] = omega arith
length-drop (suc n) (c ∷ s) = omega (arith, length-drop n s)

shorter :
    (b : Bool) (c : ℕ) (k s rest : Text) → find_key b (c ∷ k) s ≡ some rest → length rest < length s
unfolding find_key
shorter b c k [] rest h = cc
shorter b c k (x ∷ s) rest h = elim (Bool-cases (b && has_prefix (x ∷ s) (c ∷ k))) [
  | inl here ↦ omega (
    arith,
    ap length (some-injective (drop (length k) s) rest (rw here at h)),
    length-drop (length k) s,
  )
  | inr later ↦ omega (arith, shorter (not (is_ascii_alnum x)) c k s rest (rw later at h))
]

or_left : (a b : Bool) → (a || b) ≡ false → a ≡ false
or_left a b h = ground arith

or_right : (a b : Bool) → (a || b) ≡ false → b ≡ false
or_right a b h = ground arith

-- A key that is not found assigned is assigned at none of its places.
key_assigned-false :
    (n : ℕ) (k before after : Text)
    → apart k ≡ true
    → length (before ++ (k ++ after)) < n
    → key_assigned n k (before ++ (k ++ after)) ≡ false
    → boundary_behind true before ≡ true
    → separator_follows after ≡ false
unfolding key_assigned apart
key_assigned-false zero k before after a l h g = ground arith
key_assigned-false (suc n) [] before after a l h g = cc
key_assigned-false (suc n) (c ∷ k) before after a l h g =
    elim (Option-cases (find_key true (c ∷ k) (before ++ ((c ∷ k) ++ after)))) [
      | inl e ↦ ground (arith, find_key-none true c k before after e)
      | inr (rest, e) ↦ elim (find_key-some true c k before after rest a e g) [
        | inl same ↦ rw (← same) (
            or_left (separator_follows rest) (key_assigned n (c ∷ k) rest)
              (rw (e, key_assigned) at h))
        | inr (between, f, b) ↦
            key_assigned-false n (c ∷ k) between after a
              (omega (arith, ap length f, shorter true c k (before ++ ((c ∷ k) ++ after)) rest e))
              (rw f at (
                or_right (separator_follows rest) (key_assigned n (c ∷ k) rest)
                  (rw (e, key_assigned) at h)))
              b
      ]
    ]

sensitive_keys-apart : all apart sensitive_keys ≡ true
unfolding apart no_tail has_prefix
sensitive_keys-apart = refl

any-member :
    (p : Text → Bool) (t : Text) (ts : List Text)
    → any p ts ≡ false
    → member t ts ≡ true
    → p t ≡ false
unfolding member
any-member p t [] h m = cc
any-member p t (u ∷ ts) h m = elim (Bool-cases (equal u t)) [
  | inl same ↦ rw (← (equal_iff u t).0 same) (or_left (p u) (any p ts) h)
  | inr other ↦ any-member p t ts (or_right (p u) (any p ts) h) (rw other at m)
]

all-member :
    (p : Text → Bool) (t : Text) (ts : List Text)
    → all p ts ≡ true
    → member t ts ≡ true
    → p t ≡ true
unfolding member
all-member p t [] h m = cc
all-member p t (u ∷ ts) h m = elim (Bool-cases (equal u t)) [
  | inl same ↦ rw (← (equal_iff u t).0 same) (and_left (p u) (all p ts) h)
  | inr other ↦ all-member p t ts (and_right (p u) (all p ts) h) (rw other at m)
]

-- Where the search finds nothing there is no assignment.
pub has_sensitive_assignment_complete :
    (lower : Text) → has_sensitive_assignment lower ≡ false → ¬ HasAssignment lower
unfolding has_sensitive_assignment HasAssignment
has_sensitive_assignment_complete lower h (key, before, after, m, e, b, s) =
    let quiet =
      any-member (λ k. key_assigned (suc (length lower)) k lower) key sensitive_keys h m in
    let no =
      key_assigned-false (suc (length lower)) key before after
        (all-member apart key sensitive_keys sensitive_keys-apart m) (omega (arith, ap length e))
        (rw (← e) quiet) b in
    cc
