-- ===== src/Text/Laws.antt =====
-- Laws of the string functions.
use proxyctl.Prelude.{
  ℕ, ◌≡◌, ◌↔◌, ap, refl, true, false, List, [], ◌∷◌, ◌++◌, Option, none, some, arith, All,
  Bool-cases, inl, inr, length, drop,
}
use proxyctl.Text.{Text, equal, has_prefix, contains, cut, cons_front, join}

pub equal_iff : (a b : Text) → (equal a b ≡ true) ↔ (a ≡ b)
unfolding equal
equal_iff (x ∷ a) (y ∷ b) = ground (arith, equal_iff a b)
equal_iff _ _ = ground arith

pub equal_refl : (a : Text) → equal a a ≡ true
equal_refl a = (equal_iff a a).1 refl

-- `has_prefix` and `contains` do not lose what they found when text is added.
has_prefix-append : (s t p : Text) → has_prefix s p ≡ true → has_prefix (s ++ t) p ≡ true
unfolding has_prefix
has_prefix-append s t [] h = refl
has_prefix-append [] t (c ∷ p) h = cc
has_prefix-append (x ∷ s) t (c ∷ p) h = ground (arith, has_prefix-append s t p)

prefix_of_nil : (p t : Text) → has_prefix [] p ≡ true → has_prefix t p ≡ true
unfolding has_prefix
prefix_of_nil [] t h = refl
prefix_of_nil (c ∷ p) t h = cc

pub contains-append_left : (s t p : Text) → contains s p ≡ true → contains (s ++ t) p ≡ true
unfolding contains
contains-append_left [] [] p h = h
contains-append_left [] (c ∷ t) p h = ground (arith, prefix_of_nil p (c ∷ t))
contains-append_left (x ∷ s) t p h =
    ground (arith, contains-append_left s t p, has_prefix-append (x ∷ s) t p)

pub contains-append_right : (s t p : Text) → contains t p ≡ true → contains (s ++ t) p ≡ true
unfolding contains
contains-append_right [] t p h = h
contains-append_right (x ∷ s) t p h = ground (arith, contains-append_right s t p)

-- What a join does not hold, no part of it holds.
pub contains-join :
    (sep p : Text) (ps : List Text)
    → contains (join sep ps) p ≡ false
    → All (λ s. contains s p ≡ false) ps
unfolding join
contains-join sep p [] h = tt
contains-join sep p (s ∷ []) h = (h, tt)
contains-join sep p (s ∷ t ∷ ps) h = (
  ground (arith, contains-append_left s (sep ++ join sep (t ∷ ps)) p),
  contains-join sep p (t ∷ ps) (
      ground (
        arith,
        contains-append_right s (sep ++ join sep (t ∷ ps)) p,
        contains-append_right sep (join sep (t ∷ ps)) p,
      )),
)

-- A prefix stands at the front.
pub has_prefix-drop : (s p : Text) → has_prefix s p ≡ true → p ++ drop (length p) s ≡ s
unfolding has_prefix
has_prefix-drop s [] h = refl
has_prefix-drop [] (c ∷ p) h = cc
has_prefix-drop (x ∷ s) (c ∷ p) h = ground (arith, has_prefix-drop s p)

-- What `cut` found in the rest of a text, with the character before it put back.
cons_front-eq-some :
    (c : ℕ) (o : Option (Text × Text)) {a b : Text}
    → cons_front c o ≡ some (a, b)
    → (a' : Text) × (a ≡ c ∷ a') × (o ≡ some (a', b))
cons_front-eq-some c none h = cc
cons_front-eq-some c (some (a', b')) h = (a', cc, cc)

cons_front-eq-none : (c : ℕ) (o : Option (Text × Text)) → cons_front c o ≡ none → o ≡ none
cons_front-eq-none c none h = refl
cons_front-eq-none c (some _) h = cc

-- `cut` takes the text apart, and finds nothing exactly where there is nothing.
pub cut-append : (p s : Text) {a b : Text} → cut p s ≡ some (a, b) → a ++ (p ++ b) ≡ s
unfolding cut has_prefix
cut-append [] [] h = ground arith
cut-append (x ∷ p) [] h = cc
cut-append p (c ∷ s) {a} {b} h = elim (Bool-cases (has_prefix (c ∷ s) p)) [
  | inl here ↦ ground (arith, has_prefix-drop (c ∷ s) p here)
  | inr later ↦
      let (a', e, found) = cons_front-eq-some c (cut p s) (rw later at h) in
      rw e (ap (◌∷◌ c) (cut-append p s found))
]

pub cut-contains : (p s : Text) → cut p s ≡ none → contains s p ≡ false
unfolding cut contains
cut-contains p [] h = ground arith
cut-contains p (c ∷ s) h = elim (Bool-cases (has_prefix (c ∷ s) p)) [
  | inl here ↦ ground arith
  | inr later ↦ rw (later, cut-contains p s (cons_front-eq-none c (cut p s) (rw later at h)))
]

contains-cons :
    (x : ℕ) (a q s p : Text)
    → a ++ q ≡ s
    → has_prefix (x ∷ s) p ≡ false
    → contains a p ≡ false
    → contains (x ∷ a) p ≡ false
unfolding contains
contains-cons x a q s p whole h g =
    let longer : has_prefix (x ∷ a) p ≡ true → has_prefix (x ∷ s) p ≡ true =
      λ f. rw (← whole) (has_prefix-append (x ∷ a) q p f) in
    ground arith

-- What stands before the place of the cut does not hold the text that was cut at.
pub cut-before :
    (c : ℕ) (p s : Text) {a b : Text} → cut (c ∷ p) s ≡ some (a, b) → contains a (c ∷ p) ≡ false
unfolding cut contains has_prefix
cut-before c p [] h = cc
cut-before c p (x ∷ s) {a} {b} h = elim (Bool-cases (has_prefix (x ∷ s) (c ∷ p))) [
  | inl here ↦ let empty : [] ≡ a = ground arith in rw (← empty) refl
  | inr later ↦
      let (a', e, found) = cons_front-eq-some x (cut (c ∷ p) s) (rw later at h) in
      rw e (
        contains-cons x a' ((c ∷ p) ++ b) s (c ∷ p) (cut-append (c ∷ p) s found) later
          (cut-before c p s found))
]
