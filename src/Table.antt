-- ===== src/Table.antt =====
-- Go maps with string keys, as lists of entries.
use proxyctl.Prelude.{
  List, [], ◌∷◌, Option, none, some, ◌≡◌, refl, arith, if◌then◌else◌, Bool-cases, inl, inr, All,
}
use mathlib.Core.Option.{some-injective}
use proxyctl.Text.{Text, equal}
use proxyctl.Text.Laws.{equal_iff}

abbrev pub Table {ℓ} : Type ℓ → Type ℓ
Table V = List (Text × V)

module _ {ℓ} {V : Type ℓ} where
  unfoldable pub lookup : Text → Table V → Option V
  lookup k [] = none
  lookup k ((j, v) ∷ t) = if equal j k then some v else lookup k t

  -- `m[k] = v`
  unfoldable pub assign : Text → V → Table V → Table V
  assign k v [] = (k, v) ∷ []
  assign k v ((j, w) ∷ t) = if equal j k then (j, v) ∷ t else (j, w) ∷ assign k v t

  -- `delete(m, k)`
  unfoldable pub without : Text → Table V → Table V
  without k [] = []
  without k ((j, w) ∷ t) = let rest = without k t in if equal j k then rest else (j, w) ∷ rest

  pub lookup-assign :
      (k j : Text) (v : V) (t : Table V)
      → lookup j (assign k v t) ≡ (if equal k j then some v else lookup j t)
  unfolding lookup assign
  lookup-assign k j v [] = refl
  lookup-assign k j v ((i, w) ∷ t) =
      ground (arith, equal_iff k j, equal_iff i k, equal_iff i j, lookup-assign k j v t)

  pub lookup-without :
      (k j : Text) (t : Table V) → lookup j (without k t) ≡ (if equal k j then none else lookup j t)
  unfolding lookup without
  lookup-without k j [] = ground arith
  lookup-without k j ((i, w) ∷ t) =
      ground (arith, equal_iff k j, equal_iff i k, equal_iff i j, lookup-without k j t)

-- What holds of every entry of a table holds of what `lookup` finds.
pub All-lookup {ℓ κ} :
    {V : Type ℓ} (P : Text × V → Type κ) (k : Text) (t : Table V) {v : V}
    → All P t
    → lookup k t ≡ some v
    → P (k, v)
unfolding lookup
All-lookup P k [] a h = cc
All-lookup P k ((j, w) ∷ t) {v} a h = elim (Bool-cases (equal j k)) [
  | inl same ↦
      let found : w ≡ v = some-injective w v (rw same at h) in
      rw (← (equal_iff j k).0 same, ← found) a.0
  | inr other ↦ All-lookup P k t a.1 (rw other at h)
]
