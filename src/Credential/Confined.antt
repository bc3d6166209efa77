-- ===== src/Credential/Confined.antt =====
-- What the tests on a credentials directory make sure of.
use proxyctl.Prelude.{
  ◌≡◌, ◌≢◌, ◌%◌, ◌/◌, refl, sym, arith, ap, ◌∙◌, Bool, true, false, List, [], ◌∷◌, ◌++◌, some, ◌⊎◌,
  inl, inr, Bool-cases, any, All,
}
use proxyctl.Text.{Text, equal}
use proxyctl.Text.Laws.{equal_iff, equal_refl}
use proxyctl.Table.{Table, lookup, assign, lookup-assign}
use proxyctl.Safex.Codes.{ok}
use proxyctl.Credential.UnitDir.{
  Metadata, secure_credential_metadata, components, rel, is_special, inside, rel_unit_dir,
  ascii_lower, collides, collisions_on, check_name_collisions,
}

-- Metadata that the loader trusts gives others no access and the group no right to write, for a file
-- also no right to execute; and if the group has any access, owner and group are root.
pub secure_credential_metadata-mode :
    (meta : Metadata) (directory : Bool)
    → secure_credential_metadata meta directory ≡ true
    → (meta.mode % 8 ≡ 0)
      × (meta.mode / 16 % 2 ≡ 0)
      × ((directory ≡ true) ⊎ (meta.mode / 8 % 2 ≡ 0))
      × ((meta.mode / 8 % 8 ≡ 0) ⊎ ((meta.uid ≡ 0) × (meta.gid ≡ 0)))
unfolding secure_credential_metadata
secure_credential_metadata-mode meta directory h = ground arith

-- A relative path without a ".." stands behind the root.
rel-append :
    (root dir : List Text) → any is_special (rel root dir) ≡ false → dir ≡ root ++ rel root dir
unfolding rel
rel-append [] dir h = refl
rel-append (r ∷ root) [] h = cc
rel-append (r ∷ root) (d ∷ dir) h = elim (Bool-cases (equal r d)) [
  | inl same ↦
      let e : r ≡ d = (equal_iff r d).0 same in rw (same, rel) (ground (arith, rel-append root dir))
  | inr differ ↦ ground arith
]

-- Where the loader looks is inside the root: the components of the variable are those of the root and
-- the ones that the loader walks, of which there is one at least and none is empty, "." or "..".
pub rel_unit_dir-append :
    (allowed_root dir : Text) (parts : List Text)
    → rel_unit_dir allowed_root dir ≡ ok parts
    → (components dir ≡ components allowed_root ++ parts)
      × (any is_special parts ≡ false)
      × (parts ≢ [])
unfolding rel_unit_dir inside
rel_unit_dir-append allowed_root dir parts h =
    ground (arith, rel-append (components allowed_root) (components dir))

-- No later name differs from this one by the case of its letters alone.
abbrev pub Apart : Text → Text → Type 0
Apart n m = ascii_lower n ≡ ascii_lower m → n ≡ m

abbrev pub PairwiseApart : List Text → Type 0
PairwiseApart [] = Unit
PairwiseApart (n ∷ names) = All (Apart n) names × PairwiseApart names

collides-Apart :
    (seen : Table Text) (n m : Text)
    → lookup (ascii_lower n) seen ≡ some n
    → collides (lookup (ascii_lower m) seen) m ≡ false
    → Apart n m
collides-Apart seen n m e h same =
    let known : lookup (ascii_lower m) seen ≡ some n = ap (λ k. lookup k seen) (sym same) ∙ e in
    ground (arith, equal_iff n m)

collisions_on-first :
    (seen : Table Text) (names : List Text) (m : Text)
    → collisions_on seen (m ∷ names) ≡ ok tt
    → (collides (lookup (ascii_lower m) seen) m ≡ false)
      × (collisions_on (assign (ascii_lower m) m seen) names ≡ ok tt)
unfolding collisions_on
collisions_on-first seen names m h = ground arith

lookup-collisions_on :
    (seen : Table Text) (n m : Text)
    → lookup (ascii_lower n) seen ≡ some n
    → Apart n m
    → lookup (ascii_lower n) (assign (ascii_lower m) m seen) ≡ some n
lookup-collisions_on seen n m e apart = elim (Bool-cases (equal (ascii_lower m) (ascii_lower n))) [
  | inl same ↦
      let equals : m ≡ n = sym (apart (sym ((equal_iff (ascii_lower m) (ascii_lower n)).0 same))) in
      lookup-assign (ascii_lower m) (ascii_lower n) m seen ∙ rw same (ap some equals)
  | inr differ ↦ lookup-assign (ascii_lower m) (ascii_lower n) m seen ∙ rw differ e
]

collisions_on-seen :
    (seen : Table Text) (names : List Text) (n : Text)
    → collisions_on seen names ≡ ok tt
    → lookup (ascii_lower n) seen ≡ some n
    → All (Apart n) names
collisions_on-seen seen [] n h e = tt
collisions_on-seen seen (m ∷ names) n h e =
    let (fine, later) = collisions_on-first seen names m h in
    let apart = collides-Apart seen n m e fine in
    (
      apart,
      collisions_on-seen (assign (ascii_lower m) m seen) names n later
          (lookup-collisions_on seen n m e apart),
    )

collisions_on-PairwiseApart :
    (seen : Table Text) (names : List Text) → collisions_on seen names ≡ ok tt → PairwiseApart names
collisions_on-PairwiseApart seen [] h = tt
collisions_on-PairwiseApart seen (n ∷ names) h =
    let (fine, later) = collisions_on-first seen names n h in
    let found = assign (ascii_lower n) n seen in
    (
      collisions_on-seen found names n later (
          lookup-assign (ascii_lower n) (ascii_lower n) n seen
          ∙ rw (equal_refl (ascii_lower n)) refl),
      collisions_on-PairwiseApart found names later,
    )

-- In a directory listing that is accepted no two different names are the same up to the case of ASCII
-- letters.
pub check_name_collisions-PairwiseApart :
    (names : List Text) → check_name_collisions names ≡ ok tt → PairwiseApart names
unfolding check_name_collisions
check_name_collisions-PairwiseApart names h = collisions_on-PairwiseApart [] names h
