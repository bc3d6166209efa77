-- ===== src/Text/Splits.antt =====
-- `split` and `join` at the same separator are inverse on parts that do not hold the separator.
use proxyctl.Prelude.{
  ℕ, ◌≡◌, refl, ap, ◌∙◌, arith, Bool, true, false, not, List, [], ◌∷◌, ◌++◌, all, All, ◌==◌,
  Bool-cases, inl, inr,
}
use proxyctl.Text.{Text, split, join}

abbrev pub free : ℕ → Text → Bool
free sep = all (λ c. not (c == sep))

front-free :
    (sep c : ℕ) (ps : List Text)
    → (c == sep) ≡ false
    → All (λ t. free sep t ≡ true) ps
    → All (λ t. free sep t ≡ true) (elim ps [ [] ↦ (c ∷ []) ∷ [] | q ∷ qs ↦ (c ∷ q) ∷ qs ])
front-free sep c [] h g = (rw h refl, tt)
front-free sep c (p ∷ ps) h g = (rw h g.0, g.1)

pub split-free : (sep : ℕ) (s : Text) → All (λ t. free sep t ≡ true) (split sep s)
unfolding split
split-free sep [] = (refl, tt)
split-free sep (c ∷ s) = elim (Bool-cases (c == sep)) [
  | inl here ↦ rw here (refl, split-free sep s)
  | inr other ↦ rw other (front-free sep c (split sep s) other (split-free sep s))
]

split_one : (sep : ℕ) (s : Text) → free sep s ≡ true → split sep s ≡ s ∷ []
unfolding split
split_one sep [] h = refl
split_one sep (c ∷ s) h = let rest = split_one sep s (ground arith) in ground arith

split-append :
    (sep : ℕ) (s t : Text) → free sep s ≡ true → split sep (s ++ (sep ∷ t)) ≡ s ∷ split sep t
unfolding split
split-append sep [] t h = ground arith
split-append sep (c ∷ s) t h = let rest = split-append sep s t (ground arith) in ground arith

pub split-join :
    (sep : ℕ) (p : Text) (ps : List Text)
    → All (λ t. free sep t ≡ true) (p ∷ ps)
    → split sep (join (sep ∷ []) (p ∷ ps)) ≡ p ∷ ps
unfolding join
split-join sep p [] h = split_one sep p h.0
split-join sep p (q ∷ ps) h =
    split-append sep p (join (sep ∷ []) (q ∷ ps)) h.0 ∙ ap (◌∷◌ p) (split-join sep q ps h.1)
