-- ===== src/Safex/Masked.antt =====
-- What the redaction leaves in a text.
use proxyctl.Prelude.{
  ℕ, ◌≡◌, ◌≢◌, ◌⊎◌, inl, inr, refl, arith, Bool, true, false, not, ◌||◌, List, [], ◌∷◌, ◌==◌,
  Bool-cases, map, All,
}
use proxyctl.Text.{Text, codes, size, split, join}
use proxyctl.Text.Splits.{free, split-free, split-join}
use proxyctl.Safex.Redact.{
  mask, scheme_mark, ends_authority, until, behind_last_at, mask_userinfo, mask_urls,
  redact_url_creds_once, redact_rounds, redact_url_creds, has_sensitive_assignment,
  redact_line_assignments, redact_assignments, redact, redact_header_auth,
}
use proxyctl.Safex.Assignments.{HasAssignment, has_sensitive_assignment_complete}

or_right : (a b : Bool) → (a || b) ≡ false → b ≡ false
or_right a b h = ground arith

List-cases : (ps : List Text) → (ps ≡ []) ⊎ ((p : Text) × (qs : List Text) × (ps ≡ p ∷ qs))
List-cases [] = inl refl
List-cases (p ∷ qs) = inr (p, qs, refl)

nothing_assigned : has_sensitive_assignment [] ≡ false
unfolding has_sensitive_assignment proxyctl.Safex.Redact.key_assigned proxyctl.Safex.Redact.find_key
nothing_assigned = refl

split-nonempty : (sep : ℕ) (s : Text) → split sep s ≢ []
unfolding split
split-nonempty sep [] h = cc
split-nonempty sep (c ∷ s) h = elim (Bool-cases (c == sep)) [
  | inl here ↦ cc
  | inr other ↦ elim (List-cases (split sep s)) [
    | inl e ↦ split-nonempty sep s e
    | inr (p, ps, e) ↦ cc
  ]
]

module _ (to_lower : Text → Text) where
  redact_line_assignments-free :
      (s : Text) → free b'\n' s ≡ true → free b'\n' (redact_line_assignments to_lower s) ≡ true
  unfolding redact_line_assignments
  redact_line_assignments-free s h =
      elim (Bool-cases
        (not (size (to_lower s) == size s) || has_sensitive_assignment (to_lower s))) [
          | inl e ↦ rw e refl
          | inr e ↦ rw e h
        ]

  redact_lines-free :
      (ps : List Text)
      → All (λ t. free b'\n' t ≡ true) ps
      → All (λ t. free b'\n' t ≡ true) (map (redact_line_assignments to_lower) ps)
  redact_lines-free [] h = tt
  redact_lines-free (p ∷ ps) h = (redact_line_assignments-free p h.0, redact_lines-free ps h.1)

  split-join-map :
      (ps : List Text)
      → ps ≢ []
      → All (λ t. free b'\n' t ≡ true) ps
      → split b'\n' (join (codes "\n") (map (redact_line_assignments to_lower) ps))
        ≡ map (redact_line_assignments to_lower) ps
  split-join-map [] n h = ground arith
  split-join-map (p ∷ ps) n h =
      split-join b'\n' (redact_line_assignments to_lower p)
        (map (redact_line_assignments to_lower) ps) (redact_lines-free (p ∷ ps) h)

  -- The assignment pass is a map over the lines.
  pub split-redact_assignments :
      (s : Text)
      → split b'\n' (redact_assignments to_lower s)
        ≡ map (redact_line_assignments to_lower) (split b'\n' s)
  unfolding redact_assignments
  split-redact_assignments s =
      split-join-map (split b'\n' s) (split-nonempty b'\n' s) (split-free b'\n' s)

  clean_line :
      (s : Text)
      → (redact_line_assignments to_lower s ≡ mask)
        ⊎ (¬ HasAssignment (to_lower (redact_line_assignments to_lower s)))
  unfolding redact_line_assignments
  clean_line s =
      elim (Bool-cases
        (not (size (to_lower s) == size s) || has_sensitive_assignment (to_lower s))) [
          | inl e ↦ inl (rw e refl)
          | inr e ↦ inr (
              rw e (
                has_sensitive_assignment_complete (to_lower s) (
                  or_right (not (size (to_lower s) == size s))
                    (has_sensitive_assignment (to_lower s)) e)))
        ]

  clean_lines :
      (ps : List Text)
      → All
          (λ line. (line ≡ mask) ⊎ (¬ HasAssignment (to_lower line)))
          (map (redact_line_assignments to_lower) ps)
  clean_lines [] = tt
  clean_lines (p ∷ ps) = (clean_line p, clean_lines ps)

  -- Whatever text is redacted, each line of the outcome is the bare mask, or its lower-case
  -- form has no sensitive key that stands at its start or behind no ASCII letter or digit and
  -- has a separator behind it, up to one quote and blanks; the empty text is its own lower-
  -- case form.
  pub redact-¬HasAssignment :
      (s : Text)
      → to_lower [] ≡ []
      → All
          (λ line. (line ≡ mask) ⊎ (¬ HasAssignment (to_lower line)))
          (split b'\n' (redact to_lower s))
  unfolding redact
  redact-¬HasAssignment [] h =
      (inr (rw h (has_sensitive_assignment_complete [] nothing_assigned)), tt)
  redact-¬HasAssignment (c ∷ s) h =
      rw (split-redact_assignments (redact_header_auth (redact_url_creds (c ∷ s))))
        (clean_lines (split b'\n' (redact_header_auth (redact_url_creds (c ∷ s)))))
