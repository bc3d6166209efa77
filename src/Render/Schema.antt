-- ===== src/Render/Schema.antt =====
-- internal/render/schema.go: the placeholders that a template may hold, with their kinds and bounds.
use proxyctl.Prelude.{ℕ, [], ◌∷◌, Option}
use proxyctl.Table.{Table, lookup}
use proxyctl.Text.{Text, codes}

-- `placeholderKind`
pub data Kind : Type 0 where
  string secret number address : Kind

-- `placeholderSchema`
abbrev pub placeholder_schema : Table Kind
placeholder_schema =
    (codes "MIXED_PORT", number)
    ∷ (codes "BIND_ADDRESS", address)
    ∷ (codes "CONTROLLER_LISTEN", address)
    ∷ (codes "GATEWAY_EGRESS_USER", string)
    ∷ (codes "EGRESS_SERVER", address)
    ∷ (codes "EGRESS_PORT", number)
    ∷ (codes "EGRESS_SNI", string)
    ∷ (codes "LISTEN", address)
    ∷ (codes "LISTEN_ADDRESS", address)
    ∷ (codes "PORT", number)
    ∷ (codes "SNI", string)
    ∷ (codes "GATEWAY_NODE_USER", string)
    ∷ (codes "MAX_USERS", number)
    ∷ (codes "GATEWAY_EGRESS_AUTH", secret)
    ∷ (codes "GATEWAY_EGRESS_PASSWORD_1", secret)
    ∷ (codes "GATEWAY_NODE_PASSWORD_1", secret)
    ∷ (codes "TROJAN_USER_1", secret)
    ∷ (codes "TROJAN_PASSWORD_1", secret)
    ∷ (codes "HTTPS_USER_1", secret)
    ∷ (codes "HTTPS_PASSWORD_1", secret)
    ∷ (codes "HTTPS_USER_2", secret)
    ∷ (codes "HTTPS_PASSWORD_2", secret)
    ∷ []

-- `kindBounds`
abbrev pub kind_bounds : Table (ℕ × ℕ)
kind_bounds =
    (codes "MIXED_PORT", (1, 65535))
    ∷ (codes "PORT", (1, 65535))
    ∷ (codes "EGRESS_PORT", (1, 65535))
    ∷ (codes "MAX_USERS", (1, 100000))
    ∷ []

-- `placeholderSchema[name]`
unfoldable pub kind_of : Text → Option Kind
unfolding lookup
kind_of name = lookup name placeholder_schema

-- `kindBounds[name]`
unfoldable pub bounds_of : Text → Option (ℕ × ℕ)
unfolding lookup
bounds_of name = lookup name kind_bounds
