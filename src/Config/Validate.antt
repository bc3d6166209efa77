-- ===== src/Config/Validate.antt =====
-- internal/config/config.go: `validate`.
use proxyctl.Prelude.{Bool, false, not, ◌&&◌, ◌||◌, List, none, some, any, map, if◌then◌else◌}
use proxyctl.Text.{Text, codes, equal, member}
use proxyctl.Table.{lookup}
use proxyctl.Safex.Codes.{Result, ok, err, config_rejected, internal, reject_if, all_of, ◌>>◌}
use proxyctl.Config.Posture.{validate_network_posture}
use proxyctl.Config.Document.{
  Role, role_text, Document, Pair, is_placeholder, scalar_or_empty, scalar, role_allowlist,
  section_allowlist,
}

-- One section against the section allow-list.
unfoldable pub check_section : Role → Text × List Pair → Result (Unit {0})
check_section role (name, items) = elim (lookup name (section_allowlist role)) [
  | none ↦ err config_rejected "unknown section %q for role %s (not in allowlist)"
  | some allowed ↦
      reject_if (any (λ (k, v). not (member k allowed)) items) config_rejected
        "unknown field %q in section %q (not in allowlist)"
]

-- A credential field that is there and is no placeholder.
unfoldable pub real_secret : Document → Text → Bool
unfolding scalar
real_secret d f = elim (scalar f d) [ none ↦ false | some v ↦ not (is_placeholder v) ]

-- A password item that is no placeholder.
unfoldable pub real_password : Pair → Bool
real_password (k, v) = equal k (codes "password") && not (is_placeholder v)

-- `validate`
unfoldable pub validate : Role → Document → Result (Unit {0})
unfolding check_section real_secret real_password
validate role d = elim (role_allowlist role) [
  | none ↦ err internal "no allowlist for role %s"
  | some allowed ↦ do
    reject_if (any (λ (k, v). not (member k allowed)) d.scalars) config_rejected
        "unknown field %q for role %s (not in allowlist)"
    all_of (map (check_section role) d.sections)
    reject_if (not (equal (scalar_or_empty (codes "schema") d) (codes "private-proxy/v1")))
        config_rejected "unsupported schema %q: only private-proxy/v1 is accepted"
    reject_if (not (equal (scalar_or_empty (codes "role") d) (role_text role))) config_rejected
        "config role %q does not match requested role %s"
    reject_if
        (real_secret d (codes "gateway-egress-password")
          || real_secret d (codes "gateway-node-password"))
        config_rejected "field %q must be a ${VAR} placeholder, real secrets are rejected"
    all_of (
        map
          (λ (name, items).
            if equal name (codes "users")
            then reject_if (any real_password items) config_rejected
                "user password in section %q must be a ${VAR} placeholder"
            else ok tt)
          d.sections)
    validate_network_posture role d
]
