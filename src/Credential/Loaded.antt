-- ===== src/Credential/Loaded.antt =====
-- What a bundle that the loader returned holds.
use proxyctl.Prelude.{
  ◌≡◌, refl, arith, true, false, List, [], ◌∷◌, none, some, All, ◌⊎◌, inl, inr, Bool-cases, ◌∙◌, ap,
  sym,
}
use proxyctl.Text.{Text, codes, equal, member}
use proxyctl.Table.{assign}
use proxyctl.Safex.Codes.{Result, ok, err, Result-cases}
use proxyctl.Config.Document.{Role, gateway, egress, other}
use proxyctl.Credential.Bundle.{
  Bundle, empty_bundle, bundle_scalar, scalar_for_placeholder, required_scalars, required_assets,
  optional_assets,
}
use proxyctl.Credential.Scalar.{IsScalar, HasValue, HasValue-assign, required-IsScalar}
use proxyctl.Credential.Loader.{
  Source, validate_scalar, validate_asset, required, optionally, load_scalars, load_assets,
  load_optional, load_files, and_then, load_all, load_checked, load_opened, load, add_optional,
  add_scalar, add_asset,
}

module _ {ℓ} {S : Type ℓ} (src : Source S) where
  load_scalars-HasValue :
      (names : List Text) (b : Bundle) (s : S) (b' : Bundle) (s' : S) (n : Text)
      → load_scalars src names b s ≡ (ok b', s')
      → (member n names ≡ true) ⊎ HasValue n b.scalars
      → HasValue n b'.scalars × (b'.closed ≡ b.closed)
  unfolding load_scalars member
  load_scalars-HasValue [] b s b' s' n e (inl h) = cc
  load_scalars-HasValue [] b s b' s' n e (inr h) =
      let same : b ≡ b' = ground arith in rw (← same) (h, refl)
  load_scalars-HasValue (name ∷ names) b s b' s' n e h =
      elim (Result-cases (required validate_scalar (src.read name s).0)) [
        | inr (c, m, bad) ↦ ground arith
        | inl (v, good) ↦
            load_scalars-HasValue names (add_scalar name v b) (src.read name s).1 b' s' n
              (rw (good, load_scalars) at e)
              (split v (required-IsScalar (src.read name s).0 v good) h)
      ]
    where
      split :
          (v : Text)
          → IsScalar v
          → (member n (name ∷ names) ≡ true) ⊎ HasValue n b.scalars
          → (member n names ≡ true) ⊎ HasValue n (assign name v b.scalars)
      split v good (inr old) = inr (HasValue-assign name n v b.scalars good (inr old))
      split v good (inl among) = elim (Bool-cases (equal name n)) [
        | inl same ↦ inr (HasValue-assign name n v b.scalars good (inl same))
        | inr differ ↦ inl (rw differ at among)
      ]

  -- The loops over assets leave the scalars as they are.
  load_assets-scalars :
      (names : List Text) (b : Bundle) (s : S) (b' : Bundle) (s' : S)
      → load_assets src names b s ≡ (ok b', s')
      → (b'.scalars ≡ b.scalars) × (b'.closed ≡ b.closed)
  unfolding load_assets
  load_assets-scalars [] b s b' s' e = ground arith
  load_assets-scalars (name ∷ names) b s b' s' e =
      elim (Result-cases (required validate_asset (src.read name s).0)) [
        | inr (c, m, bad) ↦ ground arith
        | inl (v, good) ↦
            load_assets-scalars names (add_asset name v b) (src.read name s).1 b' s'
              (rw (good, load_assets) at e)
      ]

  load_optional-scalars :
      (names : List Text) (b : Bundle) (s : S) (b' : Bundle) (s' : S)
      → load_optional src names b s ≡ (ok b', s')
      → (b'.scalars ≡ b.scalars) × (b'.closed ≡ b.closed)
  unfolding load_optional
  load_optional-scalars [] b s b' s' e = ground arith
  load_optional-scalars (name ∷ names) b s b' s' e =
      elim (Result-cases (optionally validate_asset (src.read name s).0)) [
        | inr (c, m, bad) ↦ ground arith
        | inl (none, good) ↦
            load_optional-scalars names b (src.read name s).1 b' s' (rw (good, load_optional) at e)
        | inl (some v, good) ↦
            load_optional-scalars names (add_optional name (some v) b) (src.read name s).1 b' s'
              (rw (good, load_optional) at e)
      ]

  and_then-eq-ok :
      (m : Result Bundle × S) (next : Bundle → S → Result Bundle × S) (b' : Bundle) (s' : S)
      → and_then src m next ≡ (ok b', s')
      → (b : Bundle) × (t : S) × (m ≡ (ok b, t)) × (next b t ≡ (ok b', s'))
  and_then-eq-ok (err c w, t) next b' s' e = ground arith
  and_then-eq-ok (ok b, t) next b' s' e = (b, t, refl, e)

  load_files-scalars :
      (role : Role) (b : Bundle) (s : S) (b' : Bundle) (s' : S)
      → load_files src role b s ≡ (ok b', s')
      → (b'.scalars ≡ b.scalars) × (b'.closed ≡ b.closed)
  unfolding load_files
  load_files-scalars role b s b' s' e =
      let (b1, s1, first, later) =
        and_then-eq-ok (load_assets src (required_assets role) b s)
          (load_optional src (optional_assets role)) b' s' e in
      let (x, y) = load_assets-scalars (required_assets role) b s b1 s1 first in
      let (z, w) = load_optional-scalars (optional_assets role) b1 s1 b' s' later in (z ∙ x, w ∙ y)

  load_all-HasValue :
      (role : Role) (s : S) (b : Bundle) (s' : S) (n : Text)
      → load_all src role s ≡ (ok b, s')
      → member n (required_scalars role) ≡ true
      → HasValue n b.scalars × (b.closed ≡ false)
  unfolding load_all
  load_all-HasValue role s b s' n e among =
      let (b1, s1, first, later) =
        and_then-eq-ok (load_scalars src (required_scalars role) (empty_bundle role) s)
          (load_files src role) b s' e in
      let (has, open1) =
        load_scalars-HasValue (required_scalars role) (empty_bundle role) s b1 s1 n first
          (inl among) in
      let (same, open2) = load_files-scalars role b1 s1 b s' later in (rw same has, open2 ∙ open1)

  load_checked-load_all :
      (role : Role) (x : Result (Unit {0})) (s : S) (b : Bundle) (s' : S)
      → load_checked src role (x, s) ≡ (ok b, s')
      → load_all src role s ≡ (ok b, s')
  unfolding load_checked
  load_checked-load_all role (err c m) s b s' e = cc
  load_checked-load_all role (ok u) s b s' e = e

  -- A bundle that is returned comes from the loops, and the source is closed behind them.
  load_opened-load_all :
      (role : Role) (x : Result (Unit {0})) (s : S) (b : Bundle) (s' : S)
      → load_opened src role (x, s) ≡ (ok b, s')
      → (t : S) × (t' : S) × (load_all src role t ≡ (ok b, t')) × (s' ≡ src.close_source t')
  unfolding load_opened
  load_opened-load_all role (err c m) s b s' e = cc
  load_opened-load_all role (ok u) s b s' e =
      let checked = src.check_duplicates s in
      let m = load_checked src role checked in
      (
        checked.1,
        m.1,
        load_checked-load_all role checked.0 checked.1 b m.1 (ap (λ y. (y.0, m.1)) e),
        sym (ap (λ y. y.1) e),
      )

  load-load_all :
      (role : Role) (s : S) (b : Bundle) (s' : S)
      → load src role s ≡ (ok b, s')
      → (t : S) × (t' : S) × (load_all src role t ≡ (ok b, t')) × (s' ≡ src.close_source t')
  unfolding load required_scalars required_assets
  load-load_all gateway s b s' e =
      load_opened-load_all gateway (src.open_source s).0 (src.open_source s).1 b s' e
  load-load_all egress s b s' e =
      load_opened-load_all egress (src.open_source s).0 (src.open_source s).1 b s' e
  load-load_all (other r) s b s' e = cc

  load-HasValue :
      (role : Role) (s : S) (b : Bundle) (s' : S) (n : Text)
      → load src role s ≡ (ok b, s')
      → member n (required_scalars role) ≡ true
      → HasValue n b.scalars × (b.closed ≡ false)
  load-HasValue role s b s' n e among =
      let (t, t', made, _) = load-load_all role s b s' e in
      load_all-HasValue role t b t' n made among

-- What the bundle answers for one name: a value that the loader lets through.
abbrev pub Answers : Bundle → Text → Type 0
Answers b n = (v : Text) × (bundle_scalar n b ≡ some v) × IsScalar v

bundle_scalar-lookup :
    (n m : Text) (b : Bundle)
    → scalar_for_placeholder n ≡ some m
    → HasValue m b.scalars × (b.closed ≡ false)
    → Answers b n
unfolding bundle_scalar
bundle_scalar-lookup n m b e ((v, there, good), opened) =
    (v, rw (opened, bundle_scalar) (rw e there), good)

-- The placeholders of a role's credentials: the egress password has two names.
unfoldable pub placeholders_of : Role → List Text
unfolding required_scalars
placeholders_of gateway = required_scalars gateway
placeholders_of egress = codes "GATEWAY_EGRESS_PASSWORD_1" ∷ codes "GATEWAY_NODE_PASSWORD_1" ∷ []
placeholders_of (other _) = []

-- The bundle that the loader returns for a role answers every placeholder of the role's credentials
-- with valid UTF-8 that is not empty, has no CR, LF, other character below U+0020 or U+007F, and is
-- within the size limit: the seven of the gateway, and for the egress the password under both of its
-- names.
pub load-Answers {ℓ} :
    {S : Type ℓ} (src : Source S) (role : Role) (s : S) (b : Bundle) (s' : S)
    → load src role s ≡ (ok b, s')
    → All (Answers b) (placeholders_of role)
unfolding required_scalars scalar_for_placeholder placeholders_of member equal
load-Answers src gateway s b s' e =
    let at : (n : Text)
        → scalar_for_placeholder n ≡ some n
        → member n (required_scalars gateway) ≡ true
        → Answers b n =
      λ n f g. bundle_scalar-lookup n n b f (load-HasValue src gateway s b s' n e g) in
    (
      at (codes "GATEWAY_EGRESS_PASSWORD_1") refl refl,
      (
        at (codes "TROJAN_USER_1") refl refl,
        (
          at (codes "TROJAN_PASSWORD_1") refl refl,
          (
            at (codes "HTTPS_USER_1") refl refl,
            (
              at (codes "HTTPS_PASSWORD_1") refl refl,
              (at (codes "HTTPS_USER_2") refl refl, (at (codes "HTTPS_PASSWORD_2") refl refl, tt)),
            ),
          ),
        ),
      ),
    )
load-Answers src egress s b s' e =
    let key = codes "GATEWAY_EGRESS_PASSWORD_1" in
    let has = load-HasValue src egress s b s' key e refl in
    (
      bundle_scalar-lookup key key b refl has,
      (bundle_scalar-lookup (codes "GATEWAY_NODE_PASSWORD_1") key b refl has, tt),
    )
load-Answers src (other r) s b s' e = tt
