-- ===== src/Tests/Configs.antt =====
-- Documents that the parser accepts, and what the listener rules say of one.
use proxyctl.Prelude.{◌≡◌, ◌≢◌, refl, List, [], ◌∷◌, All, some, true, inl, inr, ◌++◌}
use proxyctl.Text.{codes, split}
use proxyctl.Safex.Codes.{ok}
use proxyctl.Config.Document.{gateway, egress, scalar, scalar_or_empty, is_placeholder, Pair}
use proxyctl.Config.RawLines.{content_lines}
use proxyctl.Config.Accepted.{
  IsSafeLine, parse-IsSafeLine, parse-is_placeholder, parse-mixed_port, parse-controller,
}
use proxyctl.Config.Listeners.{count_named, validate-count_named, validate-fields_of}
use proxyctl.Config.Posture.{validate_gateway_listeners}
use proxyctl.Tests.Documents.{
  gateway_text, egress_text, gateway_document, gateway_parses, egress_parses, gateway_mixed_port,
  egress_password,
}

parse-IsSafeLine_example : All IsSafeLine (content_lines (split b'\n' gateway_text))
parse-IsSafeLine_example = parse-IsSafeLine gateway_text gateway gateway_parses

parse-is_placeholder_example : is_placeholder (codes "${GATEWAY_NODE_PASSWORD_1}") ≡ true
parse-is_placeholder_example =
    parse-is_placeholder egress_text egress (codes "${GATEWAY_NODE_PASSWORD_1}") egress_parses
      (inr egress_password)

parse-mixed_port_example :
    scalar_or_empty (codes "bind-address") gateway_document ≡ codes "127.0.0.1"
parse-mixed_port_example = parse-mixed_port gateway_text gateway gateway_parses gateway_mixed_port

parse-controller_example :
    scalar (codes "controller-listen") gateway_document ≢ some (codes "0.0.0.0:9090")
parse-controller_example =
    parse-controller gateway_text gateway (codes "0.0.0.0") (codes "9090") gateway_parses refl
      (inl refl)

listen_ne_name : codes "listen" ≢ codes "name"
listen_ne_name h = cc

abbrev trojan : List Pair
trojan =
    (codes "name", codes "gateway-trojan-in")
    ∷ (codes "type", codes "trojan")
    ∷ (codes "listen", codes "0.0.0.0")
    ∷ (codes "port", codes "8443")
    ∷ []

abbrev others : List Pair
others =
    (codes "name", codes "gateway-https-in")
    ∷ (codes "type", codes "http")
    ∷ (codes "listen", codes "127.0.0.1")
    ∷ (codes "port", codes "18444")
    ∷ (codes "name", codes "gateway-ikev2-tproxy")
    ∷ (codes "type", codes "tproxy")
    ∷ (codes "listen", codes "127.0.0.1")
    ∷ (codes "port", codes "17894")
    ∷ (codes "udp", codes "true")
    ∷ []

listeners_valid : validate_gateway_listeners (trojan ++ others) ≡ ok tt
unfolding validate_gateway_listeners proxyctl.Text.equal proxyctl.Config.Posture.is_expected
    proxyctl.Text.member proxyctl.Config.Posture.mismatches
listeners_valid = refl

validate-count_named_example :
    (count_named (codes "gateway-trojan-in") (trojan ++ others) ≡ 1)
    × (count_named (codes "gateway-https-in") (trojan ++ others) ≡ 1)
    × (count_named (codes "gateway-ikev2-tproxy") (trojan ++ others) ≡ 1)
validate-count_named_example = validate-count_named (trojan ++ others) listeners_valid

validate-fields_of_example : codes "127.0.0.1" ≡ codes "127.0.0.1"
unfolding proxyctl.Text.equal proxyctl.Table.lookup proxyctl.Config.Posture.fields_of
validate-fields_of_example =
    validate-fields_of trojan ((codes "type", codes "http") ∷ [])
      ((codes "port", codes "18444")
        ∷ (codes "name", codes "gateway-ikev2-tproxy")
        ∷ (codes "type", codes "tproxy")
        ∷ (codes "listen", codes "127.0.0.1")
        ∷ (codes "port", codes "17894")
        ∷ (codes "udp", codes "true")
        ∷ [])
      (codes "gateway-https-in") (codes "listen") (codes "127.0.0.1") (codes "127.0.0.1")
      listeners_valid refl listen_ne_name refl
