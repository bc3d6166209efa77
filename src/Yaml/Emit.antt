-- ===== src/Yaml/Emit.antt =====
-- internal/render/yaml_scalar.go: `emit`, and what every emitted value satisfies.
use proxyctl.Prelude.{ℕ, Bool, true, false, not, ◌||◌, Option, none, some, ltb}
use proxyctl.Text.{Text}
use proxyctl.Render.Schema.{Kind, string, secret, number, address, bounds_of}
use proxyctl.Safex.Codes.{Result, ok, config_rejected, reject_if, ◌>>◌}
use proxyctl.Yaml.{quote_yaml}
use proxyctl.Yaml.Value.{is_unsigned_decimal, parse_uint32, is_valid_address, reject_unsafe_value}

-- The bounds test of a number: `true` is a refusal.
unfoldable pub out_of_bounds : Option (ℕ × ℕ) → Text → Bool
out_of_bounds none v = false
out_of_bounds (some (lo, hi)) v = elim (parse_uint32 v) [
  | none ↦ true
  | some n ↦ ltb n lo || ltb hi n
]

-- The switch of `emit`.
unfoldable pub emit_kind : Text → Kind → Text → Result Text
emit_kind name number v = do
  reject_if (not (is_unsigned_decimal v)) config_rejected
      "placeholder ${%s} requires an unsigned decimal number"
  reject_if (out_of_bounds (bounds_of name) v) config_rejected
      "placeholder ${%s} is outside its allowed range"
  ok v
emit_kind name address v = do
  reject_if (not (is_valid_address v)) config_rejected
      "placeholder ${%s} requires a valid network address"
  ok (quote_yaml v)
emit_kind name string v = ok (quote_yaml v)
emit_kind name secret v = ok (quote_yaml v)

-- `emit`
unfoldable pub emit : Text → Kind → Text → Result Text
unfolding emit_kind
emit name kind v = do reject_unsafe_value v; emit_kind name kind v
