-- ===== src/Tests/Values.antt =====
-- Values and their quoted scalars.
use proxyctl.Prelude.{◌≡◌, refl, true, all, some, ◌++◌}
use proxyctl.Text.{codes, valid_string}
use proxyctl.Render.Schema.{address}
use proxyctl.Yaml.{quote_yaml, is_yaml_control}
use proxyctl.Yaml.Read.{printable, read_scalar, read_scalar-quote_yaml, all-printable-quote_yaml}
use proxyctl.Yaml.Emit.{emit}
use proxyctl.Yaml.Emitted.{EmittedAs, emit-EmittedAs}

quote_yaml_example : quote_yaml (codes "a\"b\n") ≡ codes "\"a\\\"b\\n\""
unfolding quote_yaml
quote_yaml_example = refl

read_scalar-quote_yaml_example :
    read_scalar (quote_yaml (codes "p\"a\\ss\tw") ++ codes "\nnext: 1")
    ≡ some (codes "p\"a\\ss\tw", codes "\nnext: 1")
unfolding valid_string
read_scalar-quote_yaml_example =
    read_scalar-quote_yaml (codes "p\"a\\ss\tw") (codes "\nnext: 1") refl

all-printable-quote_yaml_example : all printable (quote_yaml (codes "a\r\nb")) ≡ true
all-printable-quote_yaml_example = all-printable-quote_yaml (codes "a\r\nb")

emit-EmittedAs_example :
    EmittedAs address (codes "LISTEN") (codes "[::1]:443") (codes "\"[::1]:443\"") (codes "\n")
unfolding emit proxyctl.Yaml.Value.reject_unsafe_value valid_string is_yaml_control
    proxyctl.Yaml.contains_placeholder_fragment proxyctl.Text.contains
    proxyctl.Yaml.Value.is_valid_address proxyctl.Text.size proxyctl.Net.Ip.parses_ip
    proxyctl.Net.split_host_port proxyctl.Yaml.Value.is_unsigned_decimal
    proxyctl.Yaml.Value.port_in_range proxyctl.Yaml.Value.parse_uint32 proxyctl.Text.trim quote_yaml
emit-EmittedAs_example =
    emit-EmittedAs (codes "LISTEN") address (codes "[::1]:443") (codes "\"[::1]:443\"") (codes "\n")
      refl
