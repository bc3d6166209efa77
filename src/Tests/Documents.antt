-- ===== src/Tests/Documents.antt =====
-- Configuration documents for the tests, after tests/fixtures/render.
use proxyctl.Text.{Text, codes}
use proxyctl.Config.Document.{scalar, Document, gateway, egress, empty_document}
use proxyctl.Config.Parse.{parse}
use proxyctl.Prelude.{◌≡◌, refl, some}
use proxyctl.Safex.Codes.{Result, ok, err}

abbrev pub gateway_text : Text
gateway_text =
    codes
      "# gateway positive fixture\nschema: private-proxy/v1\nrole: gateway\nmixed-port: 7890\nbind-address: 127.0.0.1\ncontroller-listen: 127.0.0.1:9090\ngateway-egress-user: gateway-node-01\ngateway-egress-password: ${GATEWAY_EGRESS_PASSWORD_1}\negress-server: proxy-egress.example.invalid\negress-port: 443\negress-sni: proxy-egress.example.invalid\n\nlisteners:\n  - name: gateway-trojan-in\n    type: trojan\n    listen: 0.0.0.0\n    port: 8443\n  - name: gateway-https-in\n    type: http\n    listen: 127.0.0.1\n    port: 18444\n  - name: gateway-ikev2-tproxy\n    type: tproxy\n    listen: 127.0.0.1\n    port: 17894\n    udp: true\n\nusers:\n  - username: \"${TROJAN_USER_1}\"\n    password: \"${TROJAN_PASSWORD_1}\"\n"

abbrev pub egress_text : Text
egress_text =
    codes
      "schema: private-proxy/v1\nrole: egress\nlisten-address: 0.0.0.0\nport: 443\nsni: proxy-egress\ngateway-node-user: gateway-node-01\ngateway-node-password: ${GATEWAY_NODE_PASSWORD_1}\nmax-users: 2\nusers:\n  - username: \"gateway-node-01\"\n    password: \"${GATEWAY_EGRESS_PASSWORD_1}\"\n"

abbrev pub document_of : Result Document → Document
document_of (ok d) = d
document_of (err _ _) = empty_document gateway

unfoldable pub gateway_document : Document
unfolding parse
gateway_document = document_of (parse gateway_text gateway)

unfoldable pub egress_document : Document
unfolding parse
egress_document = document_of (parse egress_text egress)

pub gateway_parses : parse gateway_text gateway ≡ ok gateway_document
unfolding parse gateway_document proxyctl.Config.Lines.parse_lines proxyctl.Text.split
    proxyctl.Text.trim_space proxyctl.Text.has_prefix proxyctl.Text.equal proxyctl.Text.cut
    proxyctl.Text.size proxyctl.Config.Document.is_section_name proxyctl.Text.trim_prefix
    proxyctl.Config.Validate.validate proxyctl.Config.Document.role_allowlist proxyctl.Table.assign
    proxyctl.Text.member proxyctl.Config.Document.section_items
    proxyctl.Config.Document.scalar_or_empty proxyctl.Config.Document.role_text
    proxyctl.Config.Document.is_placeholder proxyctl.Config.Document.scalar
    proxyctl.Config.Document.section_allowlist proxyctl.Config.Document.usernames
    proxyctl.Config.Lines.append_item proxyctl.Config.Lines.content_line
    proxyctl.Config.Lines.field_line proxyctl.Config.Lines.is_item proxyctl.Config.Lines.item_line
    proxyctl.Config.Lines.parse_line proxyctl.Config.Lines.split_kv proxyctl.Config.Lines.top_line
    proxyctl.Config.Posture.check_listeners proxyctl.Config.Posture.check_role
    proxyctl.Config.Posture.check_scalar proxyctl.Config.Posture.check_users
    proxyctl.Config.Posture.controller_host proxyctl.Config.Posture.fields_of
    proxyctl.Config.Posture.has_text proxyctl.Config.Posture.is_expected
    proxyctl.Config.Posture.is_machine_user proxyctl.Config.Posture.listens_everywhere
    proxyctl.Config.Posture.mismatches proxyctl.Config.Posture.port_of_listener
    proxyctl.Config.Posture.public_mixed_port proxyctl.Config.Posture.validate_gateway_listeners
    proxyctl.Config.Posture.validate_network_posture proxyctl.Config.Validate.check_section
    proxyctl.Config.Validate.real_password proxyctl.Config.Validate.real_secret
    proxyctl.Net.cut_last proxyctl.Table.lookup proxyctl.Text.contains proxyctl.Text.ends_with
    proxyctl.Text.init proxyctl.Text.is_digit proxyctl.Text.is_lower proxyctl.Text.is_space
    proxyctl.Text.is_upper proxyctl.Text.join proxyctl.Text.trim proxyctl.Text.trim_left
    proxyctl.Text.trim_right proxyctl.Text.trim_suffix proxyctl.Text.width
gateway_parses = refl

pub egress_parses : parse egress_text egress ≡ ok egress_document
unfolding parse egress_document proxyctl.Config.Lines.parse_lines proxyctl.Text.split
    proxyctl.Text.trim_space proxyctl.Text.has_prefix proxyctl.Text.equal proxyctl.Text.cut
    proxyctl.Text.size proxyctl.Config.Document.is_section_name proxyctl.Text.trim_prefix
    proxyctl.Config.Validate.validate proxyctl.Config.Document.role_allowlist proxyctl.Table.assign
    proxyctl.Text.member proxyctl.Config.Document.section_items
    proxyctl.Config.Document.scalar_or_empty proxyctl.Config.Document.role_text
    proxyctl.Config.Document.is_placeholder proxyctl.Config.Document.scalar
    proxyctl.Config.Document.section_allowlist proxyctl.Config.Document.usernames
    proxyctl.Config.Lines.append_item proxyctl.Config.Lines.content_line
    proxyctl.Config.Lines.field_line proxyctl.Config.Lines.is_item proxyctl.Config.Lines.item_line
    proxyctl.Config.Lines.parse_line proxyctl.Config.Lines.split_kv proxyctl.Config.Lines.top_line
    proxyctl.Config.Posture.check_listeners proxyctl.Config.Posture.check_role
    proxyctl.Config.Posture.check_scalar proxyctl.Config.Posture.check_users
    proxyctl.Config.Posture.controller_host proxyctl.Config.Posture.fields_of
    proxyctl.Config.Posture.has_text proxyctl.Config.Posture.is_expected
    proxyctl.Config.Posture.is_machine_user proxyctl.Config.Posture.listens_everywhere
    proxyctl.Config.Posture.mismatches proxyctl.Config.Posture.port_of_listener
    proxyctl.Config.Posture.public_mixed_port proxyctl.Config.Posture.validate_gateway_listeners
    proxyctl.Config.Posture.validate_network_posture proxyctl.Config.Validate.check_section
    proxyctl.Config.Validate.real_password proxyctl.Config.Validate.real_secret
    proxyctl.Net.cut_last proxyctl.Table.lookup proxyctl.Text.contains proxyctl.Text.ends_with
    proxyctl.Text.init proxyctl.Text.is_digit proxyctl.Text.is_lower proxyctl.Text.is_space
    proxyctl.Text.is_upper proxyctl.Text.join proxyctl.Text.trim proxyctl.Text.trim_left
    proxyctl.Text.trim_right proxyctl.Text.trim_suffix proxyctl.Text.width
egress_parses = refl

pub gateway_mixed_port : scalar (codes "mixed-port") gateway_document ≡ some (codes "7890")
unfolding parse gateway_document proxyctl.Config.Lines.parse_lines proxyctl.Text.split
    proxyctl.Text.trim_space proxyctl.Text.has_prefix proxyctl.Text.equal proxyctl.Text.cut
    proxyctl.Text.size proxyctl.Config.Document.is_section_name proxyctl.Text.trim_prefix
    proxyctl.Config.Validate.validate proxyctl.Config.Document.role_allowlist proxyctl.Table.assign
    proxyctl.Text.member proxyctl.Config.Document.section_items
    proxyctl.Config.Document.scalar_or_empty proxyctl.Config.Document.role_text
    proxyctl.Config.Document.is_placeholder proxyctl.Config.Document.scalar
    proxyctl.Config.Document.section_allowlist proxyctl.Config.Document.usernames
    proxyctl.Config.Lines.append_item proxyctl.Config.Lines.content_line
    proxyctl.Config.Lines.field_line proxyctl.Config.Lines.is_item proxyctl.Config.Lines.item_line
    proxyctl.Config.Lines.parse_line proxyctl.Config.Lines.split_kv proxyctl.Config.Lines.top_line
    proxyctl.Config.Posture.check_listeners proxyctl.Config.Posture.check_role
    proxyctl.Config.Posture.check_scalar proxyctl.Config.Posture.check_users
    proxyctl.Config.Posture.controller_host proxyctl.Config.Posture.fields_of
    proxyctl.Config.Posture.has_text proxyctl.Config.Posture.is_expected
    proxyctl.Config.Posture.is_machine_user proxyctl.Config.Posture.listens_everywhere
    proxyctl.Config.Posture.mismatches proxyctl.Config.Posture.port_of_listener
    proxyctl.Config.Posture.public_mixed_port proxyctl.Config.Posture.validate_gateway_listeners
    proxyctl.Config.Posture.validate_network_posture proxyctl.Config.Validate.check_section
    proxyctl.Config.Validate.real_password proxyctl.Config.Validate.real_secret
    proxyctl.Net.cut_last proxyctl.Table.lookup proxyctl.Text.contains proxyctl.Text.ends_with
    proxyctl.Text.init proxyctl.Text.is_digit proxyctl.Text.is_lower proxyctl.Text.is_space
    proxyctl.Text.is_upper proxyctl.Text.join proxyctl.Text.trim proxyctl.Text.trim_left
    proxyctl.Text.trim_right proxyctl.Text.trim_suffix proxyctl.Text.width
gateway_mixed_port = refl

pub egress_password :
    scalar (codes "gateway-node-password") egress_document
    ≡ some (codes "${GATEWAY_NODE_PASSWORD_1}")
unfolding parse egress_document proxyctl.Config.Lines.parse_lines proxyctl.Text.split
    proxyctl.Text.trim_space proxyctl.Text.has_prefix proxyctl.Text.equal proxyctl.Text.cut
    proxyctl.Text.size proxyctl.Config.Document.is_section_name proxyctl.Text.trim_prefix
    proxyctl.Config.Validate.validate proxyctl.Config.Document.role_allowlist proxyctl.Table.assign
    proxyctl.Text.member proxyctl.Config.Document.section_items
    proxyctl.Config.Document.scalar_or_empty proxyctl.Config.Document.role_text
    proxyctl.Config.Document.is_placeholder proxyctl.Config.Document.scalar
    proxyctl.Config.Document.section_allowlist proxyctl.Config.Document.usernames
    proxyctl.Config.Lines.append_item proxyctl.Config.Lines.content_line
    proxyctl.Config.Lines.field_line proxyctl.Config.Lines.is_item proxyctl.Config.Lines.item_line
    proxyctl.Config.Lines.parse_line proxyctl.Config.Lines.split_kv proxyctl.Config.Lines.top_line
    proxyctl.Config.Posture.check_listeners proxyctl.Config.Posture.check_role
    proxyctl.Config.Posture.check_scalar proxyctl.Config.Posture.check_users
    proxyctl.Config.Posture.controller_host proxyctl.Config.Posture.fields_of
    proxyctl.Config.Posture.has_text proxyctl.Config.Posture.is_expected
    proxyctl.Config.Posture.is_machine_user proxyctl.Config.Posture.listens_everywhere
    proxyctl.Config.Posture.mismatches proxyctl.Config.Posture.port_of_listener
    proxyctl.Config.Posture.public_mixed_port proxyctl.Config.Posture.validate_gateway_listeners
    proxyctl.Config.Posture.validate_network_posture proxyctl.Config.Validate.check_section
    proxyctl.Config.Validate.real_password proxyctl.Config.Validate.real_secret
    proxyctl.Net.cut_last proxyctl.Table.lookup proxyctl.Text.contains proxyctl.Text.ends_with
    proxyctl.Text.init proxyctl.Text.is_digit proxyctl.Text.is_lower proxyctl.Text.is_space
    proxyctl.Text.is_upper proxyctl.Text.join proxyctl.Text.trim proxyctl.Text.trim_left
    proxyctl.Text.trim_right proxyctl.Text.trim_suffix proxyctl.Text.width
egress_password = refl
