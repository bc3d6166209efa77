-- ===== src/Credential/Bundle.antt =====
-- internal/credential/credential.go: the names of each role and the operations on a bundle.
use proxyctl.Prelude.{
  Bool, true, false, List, [], ◌∷◌, Option, none, some, if◌then◌else◌, ltb, ◌==◌,
}
use proxyctl.Text.{Text, codes, equal, member}
use proxyctl.Table.{Table, lookup}
use proxyctl.Config.Document.{Role, gateway, egress, other, role_text}

-- `requiredScalars`; the nil slice of any other role is the empty list
unfoldable pub required_scalars : Role → List Text
required_scalars gateway =
    codes "GATEWAY_EGRESS_PASSWORD_1"
    ∷ codes "TROJAN_USER_1"
    ∷ codes "TROJAN_PASSWORD_1"
    ∷ codes "HTTPS_USER_1"
    ∷ codes "HTTPS_PASSWORD_1"
    ∷ codes "HTTPS_USER_2"
    ∷ codes "HTTPS_PASSWORD_2"
    ∷ []
required_scalars egress = codes "GATEWAY_EGRESS_PASSWORD_1" ∷ []
required_scalars (other _) = []

-- `requiredAssets`
unfoldable pub required_assets : Role → List Text
required_assets gateway = codes "gateway.crt" ∷ codes "gateway.key" ∷ []
required_assets egress = codes "egress.crt" ∷ codes "egress.key" ∷ []
required_assets (other _) = []

-- `optionalAssets`
unfoldable pub optional_assets : Role → List Text
optional_assets gateway = codes "gateway-client.crt" ∷ codes "gateway-client.key" ∷ []
optional_assets egress = codes "gateway-client-ca.crt" ∷ []
optional_assets (other _) = []

-- `scalarForPlaceholder`
unfoldable pub scalar_for_placeholder : Text → Option Text
unfolding equal member required_scalars
scalar_for_placeholder p =
    if equal p (codes "GATEWAY_NODE_PASSWORD_1")
    then some (codes "GATEWAY_EGRESS_PASSWORD_1")
    else if member p (required_scalars gateway)
    then some p
    else none

pub record Bundle : Type 0 where
  pub role : Role
  pub scalars : Table Text
  pub assets : Table Text
  pub optional : List Text
  pub closed : Bool

abbrev pub empty_bundle : Role → Bundle
empty_bundle r = record { role = r; scalars = []; assets = []; optional = []; closed = false }

-- `Bundle.Role`
unfoldable pub bundle_role : Bundle → Text
unfolding role_text
bundle_role b = role_text b.role

-- `Bundle.Close`
unfoldable pub close : Bundle → Bundle
close b =
    if b.closed then b else record b { closed = true; assets = []; scalars = []; optional = [] }

-- `Bundle.Scalar`
unfoldable pub bundle_scalar : Text → Bundle → Option Text
unfolding scalar_for_placeholder lookup
bundle_scalar placeholder b = if b.closed then none else elim (scalar_for_placeholder placeholder) [
  | none ↦ none
  | some name ↦ lookup name b.scalars
]

-- `s < t` on byte strings. Asset names are ASCII, on which code points are bytes.
unfoldable pub before : Text → Text → Bool
before _ [] = false
before [] (_ ∷ _) = true
before (x ∷ s) (y ∷ t) = let rest = before s t in if x == y then rest else ltb x y

unfoldable pub insert_asset : Text × Text → Table Text → Table Text
unfolding before
insert_asset a [] = a ∷ []
insert_asset a (b ∷ bs) =
    let rest = insert_asset a bs in if before b.0 a.0 then b ∷ rest else a ∷ b ∷ bs

-- `sort.Strings` on the names of a map, each with its value
unfoldable pub sort_assets : Table Text → Table Text
unfolding insert_asset
sort_assets [] = []
sort_assets (a ∷ as') = insert_asset a (sort_assets as')

-- `Bundle.Materialize`
unfoldable pub materialize : Bundle → Table Text
unfolding sort_assets
materialize b = if b.closed then [] else sort_assets b.assets
