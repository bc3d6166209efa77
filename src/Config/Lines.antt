-- ===== src/Config/Lines.antt =====
-- internal/config/config.go: the line loop of `Parse`.
-- `curItemIdx` is written and never read there, so the state leaves it out.
use proxyctl.Prelude.{
  ℕ, ◌-◌, Bool, true, false, not, ◌&&◌, ◌||◌, List, [], ◌∷◌, ◌++◌, Option, none, some, ltb, ◌==◌,
  if◌then◌else◌,
}
use proxyctl.Text.{
  Text, codes, size, equal, has_prefix, cut, trim_left, trim_right, trim_space, trim_prefix,
  ends_with, init,
}
use proxyctl.Safex.Codes.{Result, ok, err, config_rejected, reject_if, ◌>>=◌, ◌>>◌}
use proxyctl.Table.{assign}
use proxyctl.Config.Document.{Role, Document, Pair, is_section_name, section_items}

abbrev pub is_empty : Text → Bool
is_empty [] = true
is_empty (_ ∷ _) = false

unquote : Text → Text
unquote [] = []
unquote (c ∷ s) =
    if not (ltb (size (c ∷ s)) 2) && c == b'"' && ends_with s b'"' then init s else c ∷ s

-- `splitKV`; `none` is `ok == false`
unfoldable pub split_kv : Text → Option Pair
unfolding unquote ends_with init
split_kv s = elim (cut (b':' ∷ []) s) [
  | none ↦ none
  | some (before, behind) ↦
      if is_empty before || is_empty (trim_space before)
      then none
      else some (trim_space before, unquote (trim_space behind))
]

pub record State : Type 0 where
  pub doc : Document
  pub section : Text

-- `doc.sections[curSection] = append(doc.sections[curSection], [2]string{k, v})`
unfoldable pub append_item : Pair → State → State
append_item kv s = record s {
  doc = record s.doc {
    sections = assign s.section (section_items s.section s.doc ++ kv ∷ []) s.doc.sections;
  };
}

-- A list item.
unfoldable pub item_line : Option Pair → State → Result State
unfolding append_item
item_line none s = err config_rejected "config line %d: malformed list item"
item_line (some kv) s = do
  reject_if (is_empty s.section) config_rejected "config line %d: list item outside a section"
  ok (append_item kv s)

-- `key: value` with no indentation: a known section, or a scalar.
unfoldable pub top_line : Role → Pair → State → Result State
top_line role (k, v) s =
    if is_empty v && is_section_name role k
    then ok (record s { section = k })
    else if is_empty v
    then err config_rejected "config line %d: field %q has an empty value"
    else ok (record { doc = record s.doc { scalars = assign k v s.doc.scalars }; section = [] })

unfoldable pub field_line : Role → Bool → Option Pair → State → Result State
unfolding append_item top_line
field_line role top none s = err config_rejected "config line %d: expected 'key: value'"
field_line role true (some kv) s = top_line role kv s
field_line role false (some kv) s = do
  reject_if (is_empty s.section) config_rejected "config line %d: indented field without an item"
  ok (append_item kv s)

abbrev pub is_blank : ℕ → Bool
is_blank c = c == b' ' || c == b'\t' || c == b'\r'

-- `strings.HasPrefix(trimmed, "- ") || trimmed == "-"`
unfoldable pub is_item : Text → Bool
is_item t = has_prefix t (codes "- ") || equal t (codes "-")

-- One round of the loop, on a line with its trailing blanks cut and on its trimmed text.
unfoldable pub content_line : Role → Text → Text → State → Result State
unfolding is_item item_line field_line split_kv
content_line role line trimmed s =
    let s' = record s { doc = record s.doc { raw_lines = s.doc.raw_lines ++ trimmed ∷ [] } } in
    if is_item trimmed
    then item_line (split_kv (trim_space (trim_prefix b'-' trimmed))) s'
    else field_line role (size line - size (trim_left (λ c. c == b' ') line) == 0)
        (split_kv trimmed) s'

unfoldable pub parse_line : Role → Text → State → Result State
unfolding content_line
parse_line role raw s =
    let line = trim_right is_blank raw in
    let trimmed = trim_space line in
    if is_empty trimmed || has_prefix trimmed (codes "#")
    then ok s
    else content_line role line trimmed s

unfoldable pub parse_lines : Role → List Text → State → Result State
unfolding parse_line
parse_lines role [] s = ok s
parse_lines role (raw ∷ lines) s = do s' ← parse_line role raw s; parse_lines role lines s'
