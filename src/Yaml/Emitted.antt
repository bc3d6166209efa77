-- ===== src/Yaml/Emitted.antt =====
-- What `emit` can put into a rendered file.
use proxyctl.Prelude.{ℕ, ◌≤◌, ◌≡◌, ◌++◌, true, false, Option, none, some, arith}
use proxyctl.Text.{Text, valid_string}
use proxyctl.Render.Schema.{Kind, number, address, bounds_of}
use proxyctl.Safex.Codes.{ok, bind-eq-ok}
use proxyctl.Yaml.Read.{read_scalar, read_scalar-quote_yaml}
use proxyctl.Yaml.Value.{is_unsigned_decimal, parse_uint32, decimal, reject_unsafe_value}
use proxyctl.Yaml.Emit.{out_of_bounds, emit_kind, emit}

abbrev pub InBounds : Option (ℕ × ℕ) → ℕ → Type 0
InBounds none n = Unit
InBounds (some (lo, hi)) n = (lo ≤ n) × (n ≤ hi)

-- A number stands for itself, in digits and within its bounds; any other value is read back whole by
-- the reader of quoted scalars, in front of any text.
abbrev pub EmittedAs : Kind → Text → Text → Text → Text → Type 0
EmittedAs number name v out rest =
    (out ≡ v) × (is_unsigned_decimal v ≡ true) × InBounds (bounds_of name) (decimal 0 v)
EmittedAs _ name v out rest = read_scalar (out ++ rest) ≡ some (v, rest)

InBounds-of : (b : Option (ℕ × ℕ)) (v : Text) → out_of_bounds b v ≡ false → InBounds b (decimal 0 v)
unfolding out_of_bounds parse_uint32
InBounds-of none v h = tt
InBounds-of (some (lo, hi)) v h = ground arith

reject_unsafe_value-valid : (v : Text) → reject_unsafe_value v ≡ ok tt → valid_string v ≡ true
unfolding reject_unsafe_value
reject_unsafe_value-valid v h = ground arith

emit_kind-EmittedAs :
    (name : Text) (kind : Kind) (v out rest : Text)
    → valid_string v ≡ true
    → emit_kind name kind v ≡ ok out
    → EmittedAs kind name v out rest
unfolding emit_kind
emit_kind-EmittedAs name number v out rest u h = ground (arith, InBounds-of (bounds_of name) v)
emit_kind-EmittedAs name address v out rest u h = ground (arith, read_scalar-quote_yaml v rest)
emit_kind-EmittedAs name _ v out rest u h = ground (arith, read_scalar-quote_yaml v rest)

-- Whatever `emit` returns for a value is that value: a number as its own digits within its bounds,
-- and any other kind as a quoted scalar that a reader takes back to the value, whatever follows it.
pub emit-EmittedAs :
    (name : Text) (kind : Kind) (v out rest : Text)
    → emit name kind v ≡ ok out
    → EmittedAs kind name v out rest
unfolding emit
emit-EmittedAs name kind v out rest h =
    let (u, safe, e) = bind-eq-ok (reject_unsafe_value v) (λ _. emit_kind name kind v) h in
    emit_kind-EmittedAs name kind v out rest (reject_unsafe_value-valid v safe) e
