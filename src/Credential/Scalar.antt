-- ===== src/Credential/Scalar.antt =====
-- Which scalars the loader lets through.
use proxyctl.Prelude.{
  ◌≡◌, ◌≢◌, ◌≤◌, refl, arith, true, false, ◌||◌, [], ◌∷◌, some, ◌==◌, any, ltb, ◌⊎◌, inl, inr,
  Bool-cases,
}
use proxyctl.Text.{Text, size, valid_string, init, equal}
use proxyctl.Table.{Table, lookup, assign, lookup-assign}
use proxyctl.Safex.Codes.{ok}
use proxyctl.Credential.Loader.{
  Reading, found, absent, failed, max_scalar_bytes, is_control, without_newline, check_value,
  validate_scalar, required,
}

-- A scalar that the loader lets through.
pub record IsScalar (v : Text) : Type 0 where
  pub valid : valid_string v ≡ true
  pub one_line : any (λ c. c == b'\r' || c == b'\n') v ≡ false
  pub printable : any (λ c. ltb c 0x20 || c == 0x7f) v ≡ false
  pub something : v ≢ []
  pub short : size v ≤ max_scalar_bytes

valid_string-init : (v : Text) → valid_string v ≡ true → valid_string (init v) ≡ true
unfolding valid_string init
valid_string-init [] h = refl
valid_string-init (c ∷ []) h = refl
valid_string-init (c ∷ d ∷ v) h = ground (arith, valid_string-init (d ∷ v))

size-init : (v : Text) → size (init v) ≤ size v
unfolding size init
size-init [] = ground arith
size-init (c ∷ []) = ground arith
size-init (c ∷ d ∷ v) = omega (arith, size-init (d ∷ v))

valid_string-without_newline :
    (v : Text) → valid_string v ≡ true → valid_string (without_newline v) ≡ true
unfolding without_newline
valid_string-without_newline v h = ground (arith, valid_string-init v)

size-without_newline : (v : Text) → size (without_newline v) ≤ size v
unfolding without_newline
size-without_newline v = ground (arith, size-init v)

check_value-IsScalar :
    (w v : Text)
    → valid_string w ≡ true
    → size w ≤ max_scalar_bytes
    → check_value w ≡ ok v
    → IsScalar v
unfolding check_value is_control
check_value-IsScalar w v u short h = record {
  valid = ground arith;
  one_line = ground arith;
  printable = ground arith;
  something = ground arith;
  short = ground arith;
}

-- Whatever the test on a scalar lets through is valid UTF-8 without CR, LF, another character below
-- U+0020 or U+007F, not empty, and within the size limit.
pub validate_scalar-IsScalar : (data' v : Text) → validate_scalar data' ≡ ok v → IsScalar v
unfolding validate_scalar
validate_scalar-IsScalar data' v h = ground (
  arith,
  check_value-IsScalar (without_newline data') v,
  valid_string-without_newline data',
  size-without_newline data',
)

pub required-IsScalar : (r : Reading) (v : Text) → required validate_scalar r ≡ ok v → IsScalar v
unfolding required
required-IsScalar (found d) v h = validate_scalar-IsScalar d v h
required-IsScalar absent v h = cc
required-IsScalar (failed c m) v h = cc

-- The table has a value for the name, and the loader lets it through.
abbrev pub HasValue : Text → Table Text → Type 0
HasValue n t = (v : Text) × (lookup n t ≡ some v) × IsScalar v

pub HasValue-assign :
    (k n v : Text) (t : Table Text)
    → IsScalar v
    → (equal k n ≡ true) ⊎ HasValue n t
    → HasValue n (assign k v t)
HasValue-assign k n v t good h = elim (Bool-cases (equal k n)) [
  | inl same ↦ (v, rw (lookup-assign k n v t) (rw same refl), good)
  | inr differ ↦ elim h [
    | inl same ↦ ground arith
    | inr (w, there, fine) ↦ (w, rw (lookup-assign k n v t) (rw differ there), fine)
  ]
]
