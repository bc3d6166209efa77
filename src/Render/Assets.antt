-- ===== src/Render/Assets.antt =====
-- internal/render/render.go: the publication set that `Run` collects.
use proxyctl.Prelude.{
  true, false, not, ◌||◌, List, [], ◌∷◌, ◌++◌, ◌≡◌, refl, arith, All, any, ◌==◌, Bool-cases, inl,
  inr,
}
use proxyctl.Text.{Text, codes, equal, member}
use proxyctl.Text.Laws.{equal_iff, equal_refl}
use proxyctl.Table.{Table, assign}
use proxyctl.Safex.Codes.{Result, ok, reject_if, ◌>>◌, render_unsafe, config_rejected}
use proxyctl.Config.Document.{Role, gateway, egress, other, role_text, parse_role}
use proxyctl.Config.Lines.{is_empty}
use proxyctl.Writer.Names.{
  Bytes, output_name_order, has_key, ordered, check_names, validate_output_names,
}

-- `roleAssetNames`
unfoldable pub role_asset_names : Role → List Text
role_asset_names gateway =
    codes "gateway.crt"
    ∷ codes "gateway.key"
    ∷ codes "gateway-client.crt"
    ∷ codes "gateway-client.key"
    ∷ []
role_asset_names egress =
    codes "egress.crt" ∷ codes "egress.key" ∷ codes "gateway-client-ca.crt" ∷ []
role_asset_names (other _) = []

-- `renderedName`
unfoldable pub rendered_name : Role → Text
unfolding role_text
rendered_name role = role_text role ++ codes "-rendered.yaml"

-- The loop of `Run` over the materialized assets.
unfoldable pub add_assets : Role → Table Bytes → Table Bytes → Result (Table Bytes)
unfolding role_asset_names member has_key assign
add_assets role [] files = ok files
add_assets role ((dest, data') ∷ assets) files = do
  reject_if (not (member dest (role_asset_names role))) render_unsafe
      "credential bundle offered an asset outside the role allowlist"
  reject_if (is_empty data') config_rejected "credential asset is empty"
  reject_if (has_key files dest) render_unsafe "credential bundle offered a duplicate asset name"
  add_assets role assets (assign dest data' files)

-- `files` of `Run`: the rendered config and the assets.
unfoldable pub collect_files : Role → Bytes → Table Bytes → Result (Table Bytes)
unfolding add_assets rendered_name
collect_files role rendered assets = add_assets role assets ((rendered_name role, rendered) ∷ [])

-- The names that a role may publish.
abbrev pub publishable : Role → List Text
publishable role = rendered_name role ∷ role_asset_names role

abbrev pub IsPublishable : Role → Text × Bytes → Type 0
IsPublishable role file = member file.0 (publishable role) ≡ true

All-assign :
    (P : Text × Bytes → Type 0) (k : Text) (v : Bytes) (t : Table Bytes)
    → P (k, v)
    → All P t
    → All P (assign k v t)
unfolding assign
All-assign P k v [] h a = (h, tt)
All-assign P k v ((j, w) ∷ t) h a = elim (Bool-cases (equal j k)) [
  | inl same ↦ rw same (rw ((equal_iff j k).0 same) (h, a.1))
  | inr differ ↦ rw differ (a.0, All-assign P k v t h a.1)
]

add_assets-IsPublishable :
    (role : Role) (assets files out : Table Bytes)
    → add_assets role assets files ≡ ok out
    → All (IsPublishable role) files
    → All (IsPublishable role) out
unfolding add_assets member
add_assets-IsPublishable role [] files out h a =
    let same : files ≡ out = ground arith in rw (← same) a
add_assets-IsPublishable role ((dest, data') ∷ assets) files out h a =
    add_assets-IsPublishable role assets (assign dest data' files) out (ground arith)
      (All-assign (IsPublishable role) dest data' files (ground arith) a)

-- What the writer's own test asks of one name.
abbrev pub IsOutputName : Text → Type 0
IsOutputName n =
    (any (λ c. c == b'/' || c == b'\\') n ≡ false) × (member n output_name_order ≡ true)

pub member-All :
    (P : Text → Type 0) (n : Text) (names : List Text) → member n names ≡ true → All P names → P n
unfolding member
member-All P n [] h a = cc
member-All P n (x ∷ names) h a = elim (Bool-cases (equal x n)) [
  | inl same ↦ rw (← (equal_iff x n).0 same) a.0
  | inr differ ↦ member-All P n names (rw differ at h) a.1
]

pub publishable-IsOutputName :
    (text : Text) (role : Role) → parse_role text ≡ ok role → All IsOutputName (publishable role)
unfolding rendered_name role_asset_names role_text member equal parse_role
publishable-IsOutputName text gateway h =
    ((refl, refl), ((refl, refl), ((refl, refl), ((refl, refl), ((refl, refl), tt)))))
publishable-IsOutputName text egress h =
    ((refl, refl), ((refl, refl), ((refl, refl), ((refl, refl), tt))))
publishable-IsOutputName text (other r) h = ground arith

check_names-ok :
    (role : Role) (files : Table Bytes)
    → All IsOutputName (publishable role)
    → All (IsPublishable role) files
    → check_names files ≡ ok tt
unfolding check_names
check_names-ok role [] names a = refl
check_names-ok role ((n, data') ∷ files) names a =
    let (plain, known) = member-All IsOutputName n (publishable role) a.0 names in
    rw (plain, known, check_names) (check_names-ok role files names a.1)

-- Whatever a bundle offers, the set that a valid role collects has only the role's own names, the
-- rendered config and the role's certificates and keys, and the writer's test of the names, which
-- stands behind it, never refuses such a set.
pub collect_files-validate :
    (text : Text) (role : Role) (rendered : Bytes) (assets files : Table Bytes)
    → parse_role text ≡ ok role
    → collect_files role rendered assets ≡ ok files
    → All (IsPublishable role) files
      × (validate_output_names files ≡ ok (ordered files output_name_order))
unfolding collect_files validate_output_names
collect_files-validate text role rendered assets files h e =
    let all_own =
      add_assets-IsPublishable role assets ((rendered_name role, rendered) ∷ []) files e
        ((unfold member in rw (equal_refl (rendered_name role)) refl), tt) in
    (all_own, rw (check_names-ok role files (publishable-IsOutputName text role h) all_own) refl)
