-- ===== src/Render/Substitute.antt =====
-- internal/render/substitute.go: the two phases, and `placeholderValues` of internal/render/render.go.
use proxyctl.Prelude.{
  ℕ, zero, suc, ◌-◌, Bool, true, false, not, ◌&&◌, ◌||◌, List, [], ◌∷◌, ◌++◌, Option, none, some,
  map, all, length, if◌then◌else◌, ltb, ◌==◌,
}
use proxyctl.Text.{Text, codes, cut, equal, size, trim, is_digit, is_lower, is_upper}
use proxyctl.Table.{Table, lookup, assign}
use proxyctl.Net.{join_host_port}
use proxyctl.Config.Document.{Document, scalar}
use proxyctl.Config.Lines.{is_empty}
use proxyctl.Safex.Codes.{
  Result, ok, err, template_rejected, config_rejected, not_found, internal, reject_if, ◌>>◌, ◌>>=◌,
}
use proxyctl.Render.Schema.{Kind, secret, kind_of}
use proxyctl.Render.Template.{placeholder, template_vars, contains_dangling_placeholder}
use proxyctl.Yaml.{quote_yaml}
use proxyctl.Yaml.Value.{reject_unsafe_value}
use proxyctl.Yaml.Emit.{emit}

-- The loop of `replaceAllChecked`, on fuel; `strings.ReplaceAll` gives the same.
unfoldable pub replace_on : ℕ → Text → Text → Text → Text
unfolding cut
replace_on zero old new s = s
replace_on (suc n) old new s = elim (cut old s) [
  | none ↦ s
  | some (before, rest) ↦ before ++ (new ++ replace_on n old new rest)
]

-- `replaceAllChecked`: no placeholder is empty, so a round takes a character off.
unfoldable pub replace_all : Text → Text → Text → Text
unfolding replace_on
replace_all old new s = replace_on (suc (length s)) old new s

-- `strings.ToUpper(strings.ReplaceAll(k, "-", "_"))`, at one character of an ASCII key
unfoldable pub upper_char : ℕ → ℕ
unfolding is_lower
upper_char c = if c == b'-' then b'_' else if is_lower c then c - 32 else c

-- The keys that `placeholderValues` reads.
abbrev pub value_keys : List Text
value_keys =
    codes "mixed-port"
    ∷ codes "bind-address"
    ∷ codes "controller-listen"
    ∷ codes "gateway-egress-user"
    ∷ codes "egress-server"
    ∷ codes "egress-port"
    ∷ codes "egress-sni"
    ∷ codes "listen-address"
    ∷ codes "port"
    ∷ codes "sni"
    ∷ codes "gateway-node-user"
    ∷ codes "max-users"
    ∷ []

unfoldable pub value_entries : Document → List Text → Table Text → Table Text
unfolding scalar upper_char assign
value_entries doc [] m = m
value_entries doc (k ∷ ks) m = elim (scalar k doc) [
  | none ↦ value_entries doc ks m
  | some v ↦ value_entries doc ks (assign (map upper_char k) v m)
]

-- The derived value of LISTEN.
unfoldable pub listen_entry : Option Text → Option Text → Table Text → Table Text
unfolding join_host_port trim assign
listen_entry (some address) (some port) m =
    assign (codes "LISTEN") (join_host_port (trim (λ c. c == b'[' || c == b']') address) port) m
listen_entry _ _ m = m

-- `placeholderValues`
unfoldable pub placeholder_values : Document → Table Text
unfolding value_entries listen_entry
placeholder_values doc =
    listen_entry (scalar (codes "listen-address") doc) (scalar (codes "port") doc)
      (value_entries doc value_keys [])

-- The value of one non-secret name in `substituteConfig`.
unfoldable pub config_value : Text → Kind → Table Text → Result Text
unfolding lookup emit
config_value name kind vals = elim (lookup name vals) [
  | none ↦ err config_rejected "template placeholder ${%s} has no config value"
  | some v ↦ emit name kind v
]

-- One round of `substituteConfig`.
unfoldable pub config_step : Text → Option Kind → Table Text → Text → Result Text
unfolding config_value replace_all
config_step name none vals out =
    err template_rejected "template references an unknown placeholder (not in schema)"
config_step name (some secret) vals out = ok out
config_step name (some kind) vals out =
    config_value name kind vals >>= λ e. ok (replace_all (placeholder name) e out)

unfoldable pub config_names : List Text → Table Text → Text → Result Text
unfolding config_step kind_of
config_names [] vals out = ok out
config_names (name ∷ names) vals out =
    config_step name (kind_of name) vals out >>= config_names names vals

-- `substituteConfig`
unfoldable pub substitute_config : Text → Document → Result Text
unfolding config_names template_vars placeholder_values
substitute_config tmpl doc = config_names (template_vars tmpl) (placeholder_values doc) tmpl

-- `isHysteriaUser`
unfoldable pub is_hysteria_user : Text → Bool
unfolding size is_digit is_lower is_upper
is_hysteria_user v =
    not (ltb (size v) 1 || ltb 64 (size v))
    && all (λ c. is_lower c || is_upper c || is_digit c || c == b'.' || c == b'_' || c == b'-') v

-- The values of one bundle: `BundleSource.Scalar`.
abbrev pub Source : Type 0
Source = Text → Option Text

-- GATEWAY_EGRESS_AUTH: the user and the password, when both are there.
unfoldable pub derived_auth : Option Text → Option Text → Result (Option Text)
unfolding is_hysteria_user
derived_auth (some user) password =
    if not (is_hysteria_user user)
    then err config_rejected "gateway upstream user is invalid"
    else ok (elim password [ none ↦ none | some p ↦ some (user ++ (b':' ∷ p)) ])
derived_auth none password = ok none

-- `documents` of `substituteCredentials`; `none` is a nil pointer
unfoldable pub credential_value : Text → Source → List (Option Document) → Result (Option Text)
unfolding derived_auth scalar equal
credential_value name src documents =
    if not (equal name (codes "GATEWAY_EGRESS_AUTH")) then ok (src name) else elim documents [
      | some doc ∷ [] ↦
          derived_auth (scalar (codes "gateway-egress-user") doc)
            (src (codes "GATEWAY_EGRESS_PASSWORD_1"))
      | _ ↦ err internal "derived credential context is unavailable"
    ]

-- The tests on a credential, and its replacement.
unfoldable pub place_credential : Text → Option Text → Text → Result Text
unfolding replace_all quote_yaml reject_unsafe_value
place_credential name none out = err not_found "required credential ${%s} is not available"
place_credential name (some v) out = do
  reject_if (is_empty v) config_rejected "required credential ${%s} is empty"
  reject_unsafe_value v
  ok (replace_all (placeholder name) (quote_yaml v) out)

-- One round of `substituteCredentials`.
unfoldable pub credential_step :
    Text → Option Kind → Source → List (Option Document) → Text → Result Text
unfolding credential_value place_credential
credential_step name none src documents out =
    err template_rejected "template references an unknown placeholder (not in schema)"
credential_step name (some secret) src documents out =
    credential_value name src documents >>= λ v. place_credential name v out
credential_step name (some _) src documents out =
    err internal "non-credential placeholder ${%s} survived to the credential phase"

unfoldable pub credential_names : List Text → Source → List (Option Document) → Text → Result Text
unfolding credential_step kind_of
credential_names [] src documents out = ok out
credential_names (name ∷ names) src documents out =
    credential_step name (kind_of name) src documents out >>= credential_names names src documents

abbrev is_nil : List Text → Bool
is_nil [] = true
is_nil (_ ∷ _) = false

-- The two tests behind the loop of `substituteCredentials`.
unfoldable pub check_resolved : Text → Result Text
unfolding template_vars contains_dangling_placeholder
check_resolved out = do
  reject_if (not (is_nil (template_vars out))) config_rejected
      "template placeholder ${%s} has no value after substitution"
  reject_if (contains_dangling_placeholder out) template_rejected
      "template contains an unterminated placeholder"
  ok out

-- `substituteCredentials`
unfoldable pub substitute_credentials : Text → Source → List (Option Document) → Result Text
unfolding credential_names check_resolved template_vars
substitute_credentials tmpl src documents =
    credential_names (template_vars tmpl) src documents tmpl >>= check_resolved
