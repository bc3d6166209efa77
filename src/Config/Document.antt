-- ===== src/Config/Document.antt =====
-- internal/config/config.go: roles, allow-lists and the parsed document.
use proxyctl.Prelude.{
  Bool, true, false, ◌&&◌, ◌||◌, List, [], ◌∷◌, Option, none, some, ◌==◌, if◌then◌else◌,
}
use proxyctl.Text.{Text, codes, equal, is_digit, is_upper}
use proxyctl.Table.{Table, lookup}
use proxyctl.Safex.Codes.{Result, ok, err, invalid_enum}

-- `Role` is a string type; `other` holds the strings that are no role.
pub data Role : Type 0 where
  gateway egress : Role
  other : Text → Role

unfoldable pub role_text : Role → Text
role_text gateway = codes "gateway"
role_text egress = codes "egress"
role_text (other s) = s

-- `ParseRole`
unfoldable pub parse_role : Text → Result Role
parse_role s =
    if equal s (codes "gateway")
    then ok gateway
    else if equal s (codes "egress")
    then ok egress
    else err invalid_enum "invalid role %q: must be gateway or egress"

pub data Profile : Type 0 where
  loopback canary : Profile

-- `ParseProfile`
unfoldable pub parse_profile : Text → Result Profile
parse_profile s =
    if equal s (codes "loopback")
    then ok loopback
    else if equal s (codes "canary")
    then ok canary
    else err invalid_enum "invalid profile %q: must be loopback or canary"

name_tail : Text → Bool
name_tail [] = false
name_tail (c ∷ []) = c == b'}'
name_tail (c ∷ d ∷ s) = (is_upper c || is_digit c || c == b'_') && name_tail (d ∷ s)

-- `isPlaceholder`: the regular expression ^\$\{[A-Z][A-Z0-9_]*\}$
unfoldable pub is_placeholder : Text → Bool
unfolding name_tail is_upper is_digit
is_placeholder (d ∷ b ∷ c ∷ s) = d == b'$' && b == b'{' && is_upper c && name_tail s
is_placeholder _ = false

-- A key with its value, as one item line holds it.
abbrev pub Pair : Type 0
Pair = Text × Text

pub record Document : Type 0 where
  pub role : Role
  pub scalars : Table Text
  pub sections : Table (List Pair)
  pub raw_lines : List Text

abbrev pub empty_document : Role → Document
empty_document r = record { role = r; scalars = []; sections = []; raw_lines = [] }

-- `d.scalars[k]`: a missing key reads as the empty string.
unfoldable pub scalar_or_empty : Text → Document → Text
unfolding lookup
scalar_or_empty k d = elim (lookup k d.scalars) [ none ↦ [] | some v ↦ v ]

-- `d.sections[k]`: a missing key reads as the nil slice.
unfoldable pub section_items : Text → Document → List Pair
unfolding lookup
section_items k d = elim (lookup k d.sections) [ none ↦ [] | some v ↦ v ]

-- `Document.Scalar`
unfoldable pub scalar : Text → Document → Option Text
unfolding lookup
scalar k d = lookup k d.scalars

-- `roleAllowlists`; `none` is a missing role
unfoldable pub role_allowlist : Role → Option (List Text)
role_allowlist gateway = some (
    codes "schema"
    ∷ codes "role"
    ∷ codes "mixed-port"
    ∷ codes "bind-address"
    ∷ codes "controller-listen"
    ∷ codes "gateway-egress-password"
    ∷ codes "gateway-egress-user"
    ∷ codes "egress-server"
    ∷ codes "egress-port"
    ∷ codes "egress-sni"
    ∷ [])
role_allowlist egress = some (
    codes "schema"
    ∷ codes "role"
    ∷ codes "listen-address"
    ∷ codes "port"
    ∷ codes "sni"
    ∷ codes "gateway-node-user"
    ∷ codes "gateway-node-password"
    ∷ codes "max-users"
    ∷ [])
role_allowlist (other _) = none

-- `sectionAllowlists`
unfoldable pub section_allowlist : Role → Table (List Text)
section_allowlist gateway =
    (
      codes "listeners",
      codes "name"
          ∷ codes "type"
          ∷ codes "listen"
          ∷ codes "port"
          ∷ codes "users"
          ∷ codes "udp"
          ∷ [],
    )
    ∷ (codes "users", codes "username" ∷ codes "password" ∷ [])
    ∷ []
section_allowlist egress = (codes "users", codes "username" ∷ codes "password" ∷ []) ∷ []
section_allowlist (other _) = []

-- `isSectionName`
unfoldable pub is_section_name : Role → Text → Bool
unfolding section_allowlist lookup
is_section_name role k = elim (lookup k (section_allowlist role)) [ none ↦ false | some _ ↦ true ]

unfoldable pub usernames : List Pair → List Text
usernames [] = []
usernames ((k, v) ∷ items) =
    let rest = usernames items in if equal k (codes "username") then v ∷ rest else rest

-- `Document.Users`
unfoldable pub users : Document → List Text
unfolding usernames section_items
users d = usernames (section_items (codes "users") d)
