-- ===== src/Render/Resolved.antt =====
-- What is left of the placeholders after the credential phase.
use proxyctl.Prelude.{◌≡◌, arith, false, List, [], Option}
use proxyctl.Text.{Text, contains}
use proxyctl.Text.Laws.{cut-contains}
use proxyctl.Config.Document.{Document}
use proxyctl.Safex.Codes.{ok, bind-eq-ok}
use proxyctl.Render.Template.{
  opening, nowhere, search, vars_on, template_vars, dangling_on, contains_dangling_placeholder,
}
use proxyctl.Render.Substitute.{Source, check_resolved, credential_names, substitute_credentials}

-- A text in which the loops find no placeholder and no unclosed one has no "${".
search-nowhere : (s : Text) → search s ≡ nowhere → contains s opening ≡ false
unfolding search
search-nowhere s h = ground (arith, cut-contains opening s)

resolved-contains :
    (s : Text)
    → template_vars s ≡ []
    → contains_dangling_placeholder s ≡ false
    → contains s opening ≡ false
unfolding template_vars vars_on contains_dangling_placeholder dangling_on
resolved-contains s vars dangling = ground (arith, search-nowhere s)

check_resolved-contains : (s out : Text) → check_resolved s ≡ ok out → contains out opening ≡ false
unfolding check_resolved
check_resolved-contains s out h = ground (arith, resolved-contains s)

-- Whatever the credential phase returns for any template, bundle and document has no "${": every
-- placeholder is replaced or the phase is an error.
pub substitute_credentials-contains :
    (tmpl : Text) (src : Source) (documents : List (Option Document)) (out : Text)
    → substitute_credentials tmpl src documents ≡ ok out
    → contains out opening ≡ false
unfolding substitute_credentials
substitute_credentials-contains tmpl src documents out h =
    let (s, _, last) =
      bind-eq-ok (credential_names (template_vars tmpl) src documents tmpl) check_resolved h in
    check_resolved-contains s out last
