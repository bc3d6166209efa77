-- ===== src/Tests/Renders.antt =====
-- Templates and their substitution.
use proxyctl.Table.{Table}
use proxyctl.Writer.Names.{Bytes, output_name_order, ordered, validate_output_names}
use proxyctl.Config.Document.{egress, parse_role}
use proxyctl.Render.Assets.{collect_files, IsPublishable, collect_files-validate}
use proxyctl.Prelude.{◌∷◌, All, ◌≡◌, refl, false, [], some, none, ◌++◌, if◌then◌else◌}
use proxyctl.Text.{Text, codes, contains, equal, cut}
use proxyctl.Safex.Codes.{ok}
use proxyctl.Render.Template.{opening, template_vars, contains_dangling_placeholder}
use proxyctl.Render.Substitute.{Source, replace_all, substitute_credentials}
use proxyctl.Render.Loops.{Placeholders, template_vars-Placeholders, replace_all-cut}
use proxyctl.Render.Resolved.{substitute_credentials-contains}

abbrev template : Text
template = codes "auth:\n  ${TROJAN_USER_1}: ${TROJAN_PASSWORD_1}\n"

abbrev bundle : Source
bundle name =
    if equal name (codes "TROJAN_USER_1")
    then some (codes "alice")
    else if equal name (codes "TROJAN_PASSWORD_1")
    then some (codes "p\"w")
    else none

abbrev rendered : Text
rendered = codes "auth:\n  \"alice\": \"p\\\"w\"\n"

template_renders : substitute_credentials template bundle [] ≡ ok rendered
unfolding substitute_credentials proxyctl.Text.valid_string proxyctl.Yaml.is_yaml_control
    proxyctl.Yaml.contains_placeholder_fragment contains
template_renders = refl

substitute_credentials-contains_example : contains rendered opening ≡ false
substitute_credentials-contains_example =
    substitute_credentials-contains template bundle [] rendered template_renders

template_vars-Placeholders_example :
    Placeholders template (template_vars template) (contains_dangling_placeholder template)
template_vars-Placeholders_example = template_vars-Placeholders template

replace_all-cut_example :
    replace_all (codes "aa") (codes "b") (codes "aaaxaa")
    ≡ codes "b" ++ replace_all (codes "aa") (codes "b") (codes "axaa")
unfolding cut
replace_all-cut_example = replace_all-cut b'a' (codes "a") (codes "b") (codes "aaaxaa")

abbrev egress_assets : Table Bytes
egress_assets = (codes "egress.crt", 1 ∷ []) ∷ (codes "egress.key", 2 ∷ []) ∷ []

abbrev egress_files : Table Bytes
egress_files = (codes "egress-rendered.yaml", 3 ∷ []) ∷ egress_assets

egress_collects : collect_files egress (3 ∷ []) egress_assets ≡ ok egress_files
unfolding collect_files
egress_collects = refl

collect_files-validate_example :
    All (IsPublishable egress) egress_files
    × (validate_output_names egress_files ≡ ok (ordered egress_files output_name_order))
unfolding parse_role equal
collect_files-validate_example =
    collect_files-validate (codes "egress") egress (3 ∷ []) egress_assets egress_files refl
      egress_collects
