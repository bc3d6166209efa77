-- ===== src/Render/Template.antt =====
-- internal/render/render.go: `validateTemplate`, `templateVars` and `checkNoTraversal`, and
-- internal/render/substitute.go: `containsDanglingPlaceholder`.
use proxyctl.Prelude.{
  ℕ, zero, suc, Bool, true, false, not, ◌||◌, List, [], ◌∷◌, ◌++◌, none, some, all, any, length,
}
use proxyctl.Text.{Text, codes, cut, contains, member, split}
use proxyctl.Safex.Codes.{Result, template_rejected, render_unsafe, reject_if, ◌>>◌}
use proxyctl.Render.Schema.{kind_of}

abbrev pub opening : Text
opening = b'$' ∷ b'{' ∷ []

abbrev pub closing : Text
closing = b'}' ∷ []

-- The placeholder text of a name.
abbrev pub placeholder : Text → Text
placeholder name = opening ++ (name ++ closing)

-- One search of the loops below: the first "${", and the first "}" behind it.
pub data Search : Type 0 where
  nowhere unclosed : Search
  found : Text → Text → Text → Search

unfoldable pub search : Text → Search
unfolding cut
search s = elim (cut opening s) [
  | none ↦ nowhere
  | some (before, rest) ↦ elim (cut closing rest) [
    | none ↦ unclosed
    | some (name, behind) ↦ found before name behind
  ]
]

-- The loop of `templateVars`, on fuel.
unfoldable pub vars_on : ℕ → Text → List Text
unfolding search
vars_on zero s = []
vars_on (suc n) s = elim (search s) [
  | nowhere ↦ []
  | unclosed ↦ []
  | found before name behind ↦ name ∷ vars_on n behind
]

-- `templateVars`: a round takes three characters off at least.
unfoldable pub template_vars : Text → List Text
unfolding vars_on
template_vars s = vars_on (suc (length s)) s

-- The loop of `containsDanglingPlaceholder`, on fuel.
unfoldable pub dangling_on : ℕ → Text → Bool
unfolding search
dangling_on zero s = false
dangling_on (suc n) s = elim (search s) [
  | nowhere ↦ false
  | unclosed ↦ true
  | found before name behind ↦ dangling_on n behind
]

-- `containsDanglingPlaceholder`
unfoldable pub contains_dangling_placeholder : Text → Bool
unfolding dangling_on
contains_dangling_placeholder s = dangling_on (suc (length s)) s

unfoldable pub is_declared : Text → Bool
unfolding kind_of
is_declared name = elim (kind_of name) [ none ↦ false | some _ ↦ true ]

-- `validateTemplate`
unfoldable pub validate_template : Text → Result (Unit {0})
unfolding template_vars contains_dangling_placeholder is_declared contains
validate_template tmpl = do
  reject_if (any (contains tmpl) (codes "{{" ∷ codes "}}" ∷ codes "{%" ∷ [])) template_rejected
      "template contains forbidden directive syntax %q (no template engine allowed)"
  reject_if (contains tmpl (codes "skip-cert-verify") || contains tmpl (codes "insecure: true"))
      template_rejected "template contains forbidden insecure TLS option"
  reject_if (contains tmpl (codes "DIRECT")) template_rejected
      "template contains forbidden DIRECT fallback"
  reject_if (contains_dangling_placeholder tmpl) template_rejected
      "template contains an unterminated placeholder"
  reject_if (not (all is_declared (template_vars tmpl))) template_rejected
      "template references an unknown placeholder (not in schema allowlist)"

-- `checkNoTraversal`
unfoldable pub check_no_traversal : Text → Result (Unit {0})
unfolding member split
check_no_traversal p =
    reject_if (member (codes "..") (split b'/' p)) render_unsafe
      "path traversal rejected (component '..') in %s"
