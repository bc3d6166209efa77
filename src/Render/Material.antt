-- ===== src/Render/Material.antt =====
-- What the publication set of `Run` holds.
use proxyctl.Prelude.{
  ◌≡◌, ◌⊎◌, inl, inr, refl, sym, ◌∙◌, arith, false, not, [], ◌∷◌, none, some, All, Bool-cases,
}
use proxyctl.Text.{Text, equal, member}
use proxyctl.Text.Laws.{equal_iff, equal_refl}
use proxyctl.Table.{Table, lookup, assign, lookup-assign}
use proxyctl.Safex.Codes.{ok, bind-eq-ok, reject_if, reject_if-eq-ok}
use proxyctl.Config.Document.{Role}
use proxyctl.Config.Lines.{is_empty}
use proxyctl.Render.Assets.{add_assets, collect_files, rendered_name, role_asset_names}
use proxyctl.Writer.Names.{Bytes, has_key}

ok_injective {ℓ} : {A : Type ℓ} {a b : A} → ok a ≡ ok b → a ≡ b
ok_injective h = cc

none_is_some {ℓ} : {A : Type ℓ} {a : A} → none ≡ some a → ⊥
none_is_some h = cc

-- What was collected stays, since a name is not taken twice.
assign-keeps :
    (files : Table Bytes) (k dest : Text) (v w : Bytes)
    → has_key files dest ≡ false
    → lookup k files ≡ some v
    → lookup k (assign dest w files) ≡ some v
unfolding has_key
assign-keeps files k dest v w h e = ground (arith, lookup-assign dest k w files, equal_iff dest k)

add_assets-keeps :
    (role : Role) (assets files out : Table Bytes) (k : Text) (v : Bytes)
    → add_assets role assets files ≡ ok out
    → lookup k files ≡ some v
    → lookup k out ≡ some v
unfolding add_assets
add_assets-keeps role [] files out k v h e = rw (← ok_injective h) e
add_assets-keeps role ((dest, data') ∷ assets) files out k v h e =
    let (_, _, h1) = bind-eq-ok (reject_if (not (member dest (role_asset_names role))) _ _) _ h in
    let (_, _, h2) = bind-eq-ok (reject_if (is_empty data') _ _) _ h1 in
    let (_, fresh, h3) = bind-eq-ok (reject_if (has_key files dest) _ _) _ h2 in
    add_assets-keeps role assets (assign dest data' files) out k v h3
      (assign-keeps files k dest v data' (reject_if-eq-ok (has_key files dest) _ _ fresh) e)

pub collect_files-placed :
    (role : Role) (rendered : Bytes) (assets out : Table Bytes)
    → collect_files role rendered assets ≡ ok out
    → lookup (rendered_name role) out ≡ some rendered
unfolding collect_files lookup
collect_files-placed role rendered assets out h =
    add_assets-keeps role assets ((rendered_name role, rendered) ∷ []) out (rendered_name role)
      rendered h (rw (equal_refl (rendered_name role)) refl)

add_assets-rest :
    (role : Role) (dest : Text) (data' : Bytes) (assets files out : Table Bytes)
    → add_assets role ((dest, data') ∷ assets) files ≡ ok out
    → add_assets role assets (assign dest data' files) ≡ ok out
unfolding add_assets
add_assets-rest role dest data' assets files out h =
    let (_, _, h1) = bind-eq-ok (reject_if (not (member dest (role_asset_names role))) _ _) _ h in
    let (_, _, h2) = bind-eq-ok (reject_if (is_empty data') _ _) _ h1 in
    let (_, _, h3) = bind-eq-ok (reject_if (has_key files dest) _ _) _ h2 in h3

-- The asset that a round takes is in the outcome.
add_assets-first :
    (role : Role) (dest : Text) (data' : Bytes) (assets files out : Table Bytes)
    → add_assets role ((dest, data') ∷ assets) files ≡ ok out
    → lookup dest out ≡ some data'
add_assets-first role dest data' assets files out h =
    add_assets-keeps role assets (assign dest data' files) out dest data'
      (add_assets-rest role dest data' assets files out h)
      (rw (lookup-assign dest dest data' files, equal_refl dest) refl)

add_assets-delivered :
    (role : Role) (assets files out : Table Bytes)
    → add_assets role assets files ≡ ok out
    → All (λ (a : Text × Bytes). lookup a.0 out ≡ some a.1) assets
add_assets-delivered role [] files out h = tt
add_assets-delivered role ((dest, data') ∷ assets) files out h = (
  add_assets-first role dest data' assets files out h,
  add_assets-delivered role assets (assign dest data' files) out
      (add_assets-rest role dest data' assets files out h),
)

-- Nothing is in the outcome that neither was there nor is an asset.
add_assets-found :
    (role : Role) (assets files out : Table Bytes)
    → add_assets role assets files ≡ ok out
    → (k : Text) (v : Bytes) → lookup k out ≡ some v
    → (lookup k files ≡ some v) ⊎ (lookup k assets ≡ some v)
unfolding add_assets lookup
add_assets-found role [] files out h k v e = inl (rw (ok_injective h) e)
add_assets-found role ((dest, data') ∷ assets) files out h k v e =
    elim (Bool-cases (equal dest k)) [
      | inl same ↦
          let first = add_assets-first role dest data' assets files out h in
          let bytes : some data' ≡ some v = sym first ∙ (rw (← (equal_iff dest k).0 same) at e) in
          inr (rw same bytes)
      | inr other ↦
          elim (add_assets-found role assets (assign dest data' files) out
            (add_assets-rest role dest data' assets files out h) k v e) [
              | inl f ↦ inl (rw (lookup-assign, other) at f)
              | inr f ↦ inr (rw other f)
            ]
    ]

pub collect_files-delivered :
    (role : Role) (rendered : Bytes) (assets out : Table Bytes)
    → collect_files role rendered assets ≡ ok out
    → All (λ (a : Text × Bytes). lookup a.0 out ≡ some a.1) assets
unfolding collect_files
collect_files-delivered role rendered assets out h =
    add_assets-delivered role assets ((rendered_name role, rendered) ∷ []) out h

found_alone : (n k : Text) (w v : Bytes) → lookup k ((n, w) ∷ []) ≡ some v → (k ≡ n) × (v ≡ w)
unfolding lookup
found_alone n k w v f = ground (arith, equal_iff n k)

pub collect_files-found :
    (role : Role) (rendered : Bytes) (assets out : Table Bytes)
    → collect_files role rendered assets ≡ ok out
    → (k : Text) (v : Bytes) → lookup k out ≡ some v
    → ((k ≡ rendered_name role) × (v ≡ rendered)) ⊎ (lookup k assets ≡ some v)
unfolding collect_files
collect_files-found role rendered assets out h k v e =
    elim (add_assets-found role assets ((rendered_name role, rendered) ∷ []) out h k v e) [
      | inl f ↦ inl (found_alone (rendered_name role) k rendered v f)
      | inr f ↦ inr f
    ]
