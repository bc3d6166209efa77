-- ===== src/Config/RawLines.antt =====
-- The content lines of a text, and that the parser keeps each of them.
use proxyctl.Prelude.{
  ◌≡◌, inl, inr, sym, ap, ◌∙◌, Bool, true, false, not, ◌||◌, List, [], ◌∷◌, ◌++◌, Option, none,
  some, Bool-cases, arith, if◌then◌else◌,
}
use mathlib.Core.List.{append_assoc, append-nil}
use proxyctl.Text.{Text, codes, has_prefix, trim_right, trim_space}
use proxyctl.Safex.Codes.{ok, bind-eq-ok}
use proxyctl.Config.Document.{Role, Pair}
use proxyctl.Config.Lines.{
  State, is_empty, is_blank, append_item, item_line, top_line, field_line, content_line, parse_line,
  parse_lines,
}

-- The trimmed text of a line, and whether it holds content: it is neither blank nor a comment.
abbrev pub trimmed : Text → Text
trimmed raw = trim_space (trim_right is_blank raw)

abbrev pub has_content : Text → Bool
has_content raw = not (is_empty (trimmed raw) || has_prefix (trimmed raw) (codes "#"))

-- The trimmed content lines of a text.
abbrev pub content_lines : List Text → List Text
content_lines [] = []
content_lines (raw ∷ lines) =
    if has_content raw then trimmed raw ∷ content_lines lines else content_lines lines

raw_lines-top_line :
    (role : Role) (kv : Pair) (s : State) {s' : State}
    → top_line role kv s ≡ ok s'
    → s'.doc.raw_lines ≡ s.doc.raw_lines
unfolding top_line
raw_lines-top_line role (k, v) s h = ground arith

raw_lines-item_line :
    (o : Option Pair) (s : State) {s' : State}
    → item_line o s ≡ ok s'
    → s'.doc.raw_lines ≡ s.doc.raw_lines
unfolding item_line
raw_lines-item_line none s h = cc
raw_lines-item_line (some kv) s h = ground arith

raw_lines-field_line :
    (role : Role) (top : Bool) (o : Option Pair) (s : State) {s' : State}
    → field_line role top o s ≡ ok s'
    → s'.doc.raw_lines ≡ s.doc.raw_lines
unfolding field_line append_item
raw_lines-field_line role top none s h = cc
raw_lines-field_line role true (some kv) s h = raw_lines-top_line role kv s h
raw_lines-field_line role false (some kv) s h = ground arith

raw_lines-content_line :
    (role : Role) (line t : Text) (s : State) {s' : State}
    → content_line role line t s ≡ ok s'
    → s'.doc.raw_lines ≡ s.doc.raw_lines ++ t ∷ []
unfolding content_line
raw_lines-content_line role line t s h = ground (
  arith,
  raw_lines-item_line _ (record s { doc = record s.doc { raw_lines = s.doc.raw_lines ++ t ∷ [] } }),
)

raw_lines-parse_line :
    (role : Role) (raw : Text) (s : State) {s' : State}
    → parse_line role raw s ≡ ok s'
    → s'.doc.raw_lines ≡ s.doc.raw_lines ++ content_lines (raw ∷ [])
unfolding parse_line
raw_lines-parse_line role raw s h =
    elim (Bool-cases (is_empty (trimmed raw) || has_prefix (trimmed raw) (codes "#"))) [
      | inl skipped ↦ rw skipped (ground (arith, skipped, append-nil s.doc.raw_lines))
      | inr kept ↦ rw kept (raw_lines-content_line role _ _ s (rw kept at h))
    ]

content_lines-cons :
    (raw : Text) (lines : List Text)
    → content_lines (raw ∷ lines) ≡ content_lines (raw ∷ []) ++ content_lines lines
content_lines-cons raw lines = ground arith

pub raw_lines-parse_lines :
    (role : Role) (lines : List Text) (s : State) {s' : State}
    → parse_lines role lines s ≡ ok s'
    → s'.doc.raw_lines ≡ s.doc.raw_lines ++ content_lines lines
unfolding parse_lines
raw_lines-parse_lines role [] s h = ground (arith, append-nil s.doc.raw_lines)
raw_lines-parse_lines role (raw ∷ lines) s h =
    let (m, one, later) = bind-eq-ok (parse_line role raw s) (parse_lines role lines) h in
    raw_lines-parse_lines role lines m later
    ∙ ap (λ (r : List Text). r ++ content_lines lines) (raw_lines-parse_line role raw s one)
    ∙ append_assoc s.doc.raw_lines (content_lines (raw ∷ [])) (content_lines lines)
    ∙ ap (λ (r : List Text). s.doc.raw_lines ++ r) (sym (content_lines-cons raw lines))
