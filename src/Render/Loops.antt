-- ===== src/Render/Loops.antt =====
-- The loops over a template, without fuel.
use proxyctl.Prelude.{
  ℕ, zero, suc, ◌≤◌, ◌<◌, ◌≡◌, ◌∙◌, ◌+◌, refl, ap, arith, ◌++◌, Bool, true, false, List, [], ◌∷◌,
  none, some, inl, inr, ◌⊎◌, length, length-append, Option-cases,
}
use proxyctl.Text.{Text, cut, contains}
use proxyctl.Text.Laws.{cut-append, cut-before, cut-contains}
use proxyctl.Render.Template.{
  opening, closing, Search, nowhere, unclosed, found, search, vars_on, template_vars, dangling_on,
  contains_dangling_placeholder,
}
use proxyctl.Render.Substitute.{replace_on, replace_all}

pub Search-cases :
    (r : Search)
    → (r ≡ nowhere)
      ⊎ (r ≡ unclosed)
      ⊎ ((before name behind : Text) × (r ≡ found before name behind))
Search-cases nowhere = inl refl
Search-cases unclosed = inr (inl refl)
Search-cases (found a b c) = inr (inr (a, b, c, refl))

cut-length : (p s a b : Text) → cut p s ≡ some (a, b) → length b + length p ≤ length s
cut-length p s a b h =
    omega (arith, length-append a (p ++ b), length-append p b, ap length (cut-append p s h))

-- A text with the names of its placeholders, from left to right, and whether the last one is not
-- closed: a name stands between the first "${" and the first "}" behind it.
pub data Placeholders : Text → List Text → Bool → Type 0 where
  no_opening : (s : Text) → contains s opening ≡ false → Placeholders s [] false
  not_closed :
      (s before rest : Text)
      → before ++ (opening ++ rest) ≡ s
      → contains before opening ≡ false
      → contains rest closing ≡ false
      → Placeholders s [] true
  placeholder :
      (s before name behind : Text) (names : List Text) (dangling : Bool)
      → before ++ (opening ++ (name ++ (closing ++ behind))) ≡ s
      → contains before opening ≡ false
      → contains name closing ≡ false
      → Placeholders behind names dangling
      → Placeholders s (name ∷ names) dangling

loops-Placeholders :
    (n : ℕ) (s : Text) → length s < n → Placeholders s (vars_on n s) (dangling_on n s)
unfolding vars_on dangling_on search
loops-Placeholders zero s l = ground arith
loops-Placeholders (suc n) s l = elim (Option-cases (cut opening s)) [
  | inl e ↦ rw (e, vars_on, dangling_on, search) (no_opening s (cut-contains opening s e))
  | inr ((before, rest), e) ↦
      let whole = cut-append opening s e in
      let plain = cut-before b'$' (b'{' ∷ []) s e in
      elim (Option-cases (cut closing rest)) [
        | inl f ↦
            rw (e, f, vars_on, dangling_on, search)
              (not_closed s before rest whole plain (cut-contains closing rest f))
        | inr ((name, behind), f) ↦
            let shorter : length behind < n =
              omega (
                arith,
                cut-length opening s before rest e,
                cut-length closing rest name behind f,
              ) in
            rw (e, f, vars_on, dangling_on, search)
              (placeholder s before name behind _ _
                (ap (λ t. before ++ (opening ++ t)) (cut-append closing rest f) ∙ whole) plain
                (cut-before b'}' [] rest f) (loops-Placeholders n behind shorter))
      ]
]

-- Both loops over the placeholders of a text stop by themselves. They return the names of its
-- placeholders from left to right, each what stands between the first "${" and the first "}" behind
-- it, the search going on behind this "}"; and whether in the end there is a "${" without a "}".
pub template_vars-Placeholders :
    (s : Text) → Placeholders s (template_vars s) (contains_dangling_placeholder s)
unfolding template_vars contains_dangling_placeholder
template_vars-Placeholders s = loops-Placeholders (suc (length s)) s (omega arith)

replace_on-fuel :
    (n m : ℕ) (x : ℕ) (old new s : Text)
    → length s < n
    → length s < m
    → replace_on n (x ∷ old) new s ≡ replace_on m (x ∷ old) new s
unfolding replace_on
replace_on-fuel zero m x old new s h g = ground arith
replace_on-fuel n zero x old new s h g = ground arith
replace_on-fuel (suc n) (suc m) x old new s h g = elim (Option-cases (cut (x ∷ old) s)) [
  | inl e ↦ rw (e, replace_on) refl
  | inr ((before, rest), e) ↦
      let shorter = cut-length (x ∷ old) s before rest e in
      rw (e, replace_on)
        (ap (λ t. before ++ (new ++ t))
          (replace_on-fuel n m x old new rest (omega arith) (omega arith)))
]

-- The replacement loop stops by itself for an old text that is not empty: it returns a text without
-- the old one as it is, and otherwise what stands before the first one, the new text, and the
-- replacement in what stands behind.
pub replace_all-cut :
    (x : ℕ) (old new s : Text)
    → replace_all (x ∷ old) new s ≡ elim (cut (x ∷ old) s) [
      | none ↦ s
      | some (before, rest) ↦ before ++ (new ++ replace_all (x ∷ old) new rest)
    ]
unfolding replace_all replace_on
replace_all-cut x old new s = elim (Option-cases (cut (x ∷ old) s)) [
  | inl e ↦ rw (e, replace_all, replace_on) refl
  | inr ((before, rest), e) ↦
      let shorter = cut-length (x ∷ old) s before rest e in
      rw (e, replace_all, replace_on)
        (ap (λ t. before ++ (new ++ t))
          (replace_on-fuel (length s) (suc (length rest)) x old new rest (omega arith)
            (omega arith)))
]
