-- ===== src/Config/Posture.antt =====
-- internal/config/config.go: `validateGatewayListeners` and `validateNetworkPosture`.
-- A loop over a Go map runs in some order and the first refusal ends it; here it is the list's order,
-- so only the message of a refusal can differ.
use Prim.Native.String.{String}
use proxyctl.Prelude.{
  Bool, true, false, not, ◌&&◌, ◌||◌, List, [], ◌∷◌, none, some, ltb, ◌==◌, any, map, length,
  if◌then◌else◌,
}
use proxyctl.Text.{
  Text, codes, size, equal, has_prefix, contains, join, trim_prefix, trim_suffix, member, is_digit,
  is_lower, is_upper,
}
use proxyctl.Net.{cut_last}
use proxyctl.Table.{Table, lookup}
use proxyctl.Safex.Codes.{Result, ok, err, config_rejected, reject_if, all_of, ◌>>=◌, ◌>>◌}
use proxyctl.Config.Lines.{is_empty}
use proxyctl.Config.Document.{
  Role, gateway, egress, other, Document, Pair, scalar_or_empty, section_items, usernames,
}

abbrev pub trojan_fields : Table Text
trojan_fields =
    (codes "type", codes "trojan")
    ∷ (codes "listen", codes "0.0.0.0")
    ∷ (codes "port", codes "8443")
    ∷ []

abbrev pub https_fields : Table Text
https_fields =
    (codes "type", codes "http")
    ∷ (codes "listen", codes "127.0.0.1")
    ∷ (codes "port", codes "18444")
    ∷ []

abbrev pub tproxy_fields : Table Text
tproxy_fields =
    (codes "type", codes "tproxy")
    ∷ (codes "listen", codes "127.0.0.1")
    ∷ (codes "port", codes "17894")
    ∷ (codes "udp", codes "true")
    ∷ []

-- `expected` of `validateGatewayListeners`
abbrev pub expected_listeners : Table (Table Text)
expected_listeners =
    (codes "gateway-trojan-in", trojan_fields)
    ∷ (codes "gateway-https-in", https_fields)
    ∷ (codes "gateway-ikev2-tproxy", tproxy_fields)
    ∷ []

-- `expected[name]`; a missing key reads as the nil map.
unfoldable pub fields_of : Text → Table Text
unfolding lookup
fields_of name = elim (lookup name expected_listeners) [ none ↦ [] | some t ↦ t ]

-- Whether `expected[current][key]` is there and is not the value.
unfoldable pub mismatches : Text → Pair → Bool
unfolding fields_of lookup
mismatches current (k, v) = elim (lookup k (fields_of current)) [
  | none ↦ false
  | some want ↦ not (equal v want)
]

unfoldable pub is_expected : Text → Bool
unfolding lookup
is_expected name = elim (lookup name expected_listeners) [ none ↦ false | some _ ↦ true ]

-- The loop of `validateGatewayListeners` over the names seen and the current one.
unfoldable pub check_listeners : List Text → Text → List Pair → Result (List Text)
check_listeners seen current [] = ok seen
check_listeners seen current ((k, v) ∷ items) =
    let named = check_listeners (v ∷ seen) v items in
    let field = check_listeners seen current items in
    if equal k (codes "name")
    then if not (is_expected v) || member v seen
      then err config_rejected "gateway listener identity is invalid or duplicated"
      else named
    else if is_empty current
    then err config_rejected "gateway listener field appears before its identity"
    else if mismatches current (k, v)
    then err config_rejected "gateway listener network posture does not match the fixed contract"
    else field

-- `validateGatewayListeners`
unfoldable pub validate_gateway_listeners : List Pair → Result (Unit {0})
unfolding check_listeners
validate_gateway_listeners items = do
  seen ← check_listeners [] [] items
  reject_if (not (length seen == length expected_listeners)) config_rejected
      "gateway listener set is incomplete"

-- `isMachineUser`, and `isHysteriaUser` of internal/render/substitute.go
unfoldable pub is_machine_user : Text → Bool
unfolding is_digit is_lower is_upper
is_machine_user v =
    not (ltb (size v) 1)
    && not (ltb 64 (size v))
    && not (
        any
          (λ c. not (is_lower c || is_upper c || is_digit c || c == b'.' || c == b'_' || c == b'-'))
          v)

-- The loop of `portOfListener`, with its flag.
port_after : Pair → Bool → List Pair → Text
port_after kv found [] = []
port_after (k, v) found ((j, w) ∷ items) =
    let here = equal j k && equal w v in
    let rest =
      port_after (k, v) (if here then true else if equal j (codes "name") then false else found)
        items in
    if found && equal j (codes "port") then w else rest

-- `portOfListener`
unfoldable pub port_of_listener : List Pair → Pair → Text
unfolding port_after
port_of_listener items kv = port_after kv false items

-- `host`: the listen address with its port and brackets cut.
unfoldable pub controller_host : Text → Text
controller_host v = elim (cut_last b':' v) [
  | none ↦ v
  | some (before, _) ↦ trim_prefix b'[' (trim_suffix b']' before)
]

unfoldable pub listens_everywhere : Text → Bool
unfolding controller_host
listens_everywhere v =
    equal (controller_host v) (codes "0.0.0.0")
    || equal (controller_host v) (codes "::")
    || is_empty (controller_host v) && has_prefix v (codes ":")

-- The switch over the scalars.
unfoldable pub check_scalar : Document → Pair → Result (Unit {0})
unfolding listens_everywhere
check_scalar d (k, v) =
    if equal k (codes "mixed-port")
    then reject_if
        ((equal v (codes "7890") || equal v (codes "\"7890\""))
          && not (equal (scalar_or_empty (codes "bind-address") d) (codes "127.0.0.1")))
        config_rejected "mixed-port 7890 must bind 127.0.0.1, got %q"
    else if equal k (codes "controller-listen")
    then reject_if (listens_everywhere v) config_rejected
        "controller must not listen on all interfaces (%q)"
    else if equal k (codes "gateway-egress-password") || equal k (codes "gateway-node-password")
    then reject_if (is_empty v) config_rejected "empty credential %q"
    else ok tt

unfoldable pub has_text : Document → String → Bool
has_text d s = contains (join (codes "\n") d.raw_lines) (codes s)

-- The part of `validateNetworkPosture` for one role.
unfoldable pub check_role : Role → Document → Result (Unit {0})
unfolding validate_gateway_listeners
check_role gateway d = do
  reject_if
      (not (is_empty (scalar_or_empty (codes "egress-port") d))
        && not (equal (scalar_or_empty (codes "egress-port") d) (codes "443")))
      config_rejected "gateway upstream port must be fixed to UDP 443"
  elim (section_items (codes "listeners") d) [
    | [] ↦ ok tt
    | kv ∷ items ↦ validate_gateway_listeners (kv ∷ items)
  ]
check_role egress d = do
  reject_if (not (is_machine_user (scalar_or_empty (codes "gateway-node-user") d))) config_rejected
      "egress client user is invalid"
  reject_if
      (not (is_empty (scalar_or_empty (codes "port") d))
        && not (equal (scalar_or_empty (codes "port") d) (codes "443")))
      config_rejected "egress listener port must be fixed to UDP 443"
check_role (other _) d = ok tt

-- "listener on 0.0.0.0:7890"
unfoldable pub public_mixed_port : List Pair → Pair → Bool
public_mixed_port items (k, v) =
    equal k (codes "listen")
    && equal v (codes "0.0.0.0")
    && equal (port_of_listener items (k, v)) (codes "7890")

-- The checks on one section named "users"; a section in the map has an item.
unfoldable pub check_users : List Pair → Result (Unit {0})
unfolding usernames
check_users items = do
  reject_if (any is_empty (usernames items)) config_rejected "empty username in users section"
  reject_if (length (usernames items) == 0) config_rejected "users section has no username entries"

-- `validateNetworkPosture`
unfoldable pub validate_network_posture : Role → Document → Result (Unit {0})
unfolding check_role check_scalar has_text public_mixed_port check_users
validate_network_posture role d = do
  check_role role d
  all_of (map (check_scalar d) d.scalars)
  reject_if (has_text d "DIRECT") config_rejected
      "DIRECT fallback is forbidden (fail-closed policy)"
  reject_if (has_text d "skip-cert-verify: true") config_rejected
      "insecure TLS option forbidden: %s"
  reject_if (has_text d "insecure: true") config_rejected "insecure TLS option forbidden: %s"
  reject_if
      (any (public_mixed_port (section_items (codes "listeners") d))
        (section_items (codes "listeners") d))
      config_rejected "listener on 0.0.0.0:7890 is forbidden (public mixed-port)"
  all_of (
      map (λ (name, items). if equal name (codes "users") then check_users items else ok tt)
        d.sections)
