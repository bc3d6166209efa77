-- ===== src/Credential/Loader.antt =====
-- internal/credential/loader.go: `load` over a source, and the tests on what is read.
use Prim.Native.String.{String}
use proxyctl.Prelude.{
  ℕ, Bool, not, ◌||◌, List, [], ◌∷◌, ◌++◌, Option, none, some, if◌then◌else◌, ltb, ◌==◌, any,
}
use proxyctl.Text.{Text, size, valid_string, ends_with, init}
use proxyctl.Table.{assign}
use proxyctl.Safex.Codes.{
  Code, Result, ok, err, reject_if, ◌>>◌, ◌>>=◌, config_rejected, not_found, invalid_enum,
}
use proxyctl.Config.Document.{Role, parse_role}
use proxyctl.Config.Lines.{is_empty}
use proxyctl.Writer.Exec.{Exec}
use proxyctl.Credential.Bundle.{
  Bundle, empty_bundle, required_scalars, required_assets, optional_assets,
}

-- What `read` returns: the bytes, errNotFound, or another error.
pub data Reading : Type 0 where
  found : Text → Reading
  absent : Reading
  failed : Code → String → Reading

-- `source`
pub record Source {ℓ} (S : Type ℓ) : Type ℓ where
  pub open_source : Exec S (Unit {0})
  pub read : Text → S → Reading × S
  pub check_duplicates : Exec S (Unit {0})
  pub close_source : S → S

abbrev pub max_scalar_bytes : ℕ
max_scalar_bytes = 1024

abbrev pub max_asset_bytes : ℕ
max_asset_bytes = 262144

-- `isControl`
unfoldable pub is_control : ℕ → Bool
is_control r = ltb r 0x20 || r == 0x7f

-- The value without one LF at its end.
unfoldable pub without_newline : Text → Text
unfolding ends_with init
without_newline v = if ends_with v b'\n' then init v else v

-- The tests of `validateScalar` behind the removal of one LF.
unfoldable pub check_value : Text → Result Text
unfolding is_control
check_value v = do
  reject_if (any (λ c. c == b'\r' || c == b'\n') v) config_rejected
      "credential value contains a line break"
  reject_if (any is_control v) config_rejected "credential value contains a control character"
  reject_if (is_empty v) config_rejected "required credential is empty"
  ok v

-- `validateScalar`
unfoldable pub validate_scalar : Text → Result Text
unfolding check_value without_newline size valid_string
validate_scalar data' = do
  reject_if (ltb max_scalar_bytes (size data')) config_rejected
      "credential value exceeds size limit"
  reject_if (any (λ c. c == 0) data') config_rejected "credential value contains NUL byte"
  reject_if (not (valid_string data')) config_rejected "credential value is not valid UTF-8"
  check_value (without_newline data')

-- `validateAsset`
unfoldable pub validate_asset : Text → Result Text
unfolding size
validate_asset data' = do
  reject_if (is_empty data') config_rejected "required credential asset is empty"
  reject_if (ltb max_asset_bytes (size data')) config_rejected "credential asset exceeds size limit"
  ok data'

-- An error of `read` is returned as it is.
unfoldable pub required : (Text → Result Text) → Reading → Result Text
required check (found d) = check d
required check absent = err not_found "credential not available"
required check (failed c m) = err c m

-- Only a credential that is not available is skipped.
unfoldable pub optionally : (Text → Result Text) → Reading → Result (Option Text)
optionally check (found d) = check d >>= λ v. ok (some v)
optionally check absent = ok none
optionally check (failed c m) = err c m

abbrev pub add_scalar : Text → Text → Bundle → Bundle
add_scalar name v b = record b { scalars = assign name v b.scalars }

abbrev pub add_asset : Text → Text → Bundle → Bundle
add_asset name v b = record b { assets = assign name v b.assets }

abbrev pub add_optional : Text → Option Text → Bundle → Bundle
add_optional name none b = b
add_optional name (some v) b = record b {
  assets = assign name v b.assets;
  optional = b.optional ++ (name ∷ []);
}

module _ {ℓ} {S : Type ℓ} (src : Source S) where
  -- The three loops of `load`.
  unfoldable pub load_scalars : List Text → Bundle → S → Result Bundle × S
  unfolding required validate_scalar assign
  load_scalars [] b s = (ok b, s)
  load_scalars (name ∷ names) b s =
      let (r, s') = src.read name s in
      elim (required validate_scalar r) [
        | err c m ↦ (err c m, s')
        | ok v ↦ load_scalars names (add_scalar name v b) s'
      ]

  unfoldable pub load_assets : List Text → Bundle → S → Result Bundle × S
  unfolding required validate_asset assign
  load_assets [] b s = (ok b, s)
  load_assets (name ∷ names) b s =
      let (r, s') = src.read name s in
      elim (required validate_asset r) [
        | err c m ↦ (err c m, s')
        | ok v ↦ load_assets names (add_asset name v b) s'
      ]

  unfoldable pub load_optional : List Text → Bundle → S → Result Bundle × S
  unfolding optionally validate_asset assign
  load_optional [] b s = (ok b, s)
  load_optional (name ∷ names) b s =
      let (r, s') = src.read name s in
      elim (optionally validate_asset r) [
        | err c m ↦ (err c m, s')
        | ok v ↦ load_optional names (add_optional name v b) s'
      ]

  -- What follows a loop that ended well.
  abbrev pub and_then : Result Bundle × S → (Bundle → S → Result Bundle × S) → Result Bundle × S
  and_then (err c m, s) next = (err c m, s)
  and_then (ok b, s) next = next b s

  unfoldable pub load_files : Role → Bundle → S → Result Bundle × S
  unfolding load_assets load_optional required_assets optional_assets
  load_files role b s =
      and_then (load_assets (required_assets role) b s) (load_optional (optional_assets role))

  unfoldable pub load_all : Role → S → Result Bundle × S
  unfolding load_scalars load_files required_scalars
  load_all role s =
      and_then (load_scalars (required_scalars role) (empty_bundle role) s) (load_files role)

  unfoldable pub load_checked : Role → Result (Unit {0}) × S → Result Bundle × S
  unfolding load_all
  load_checked role (err c m, s) = (err c m, s)
  load_checked role (ok _, s) = load_all role s

  -- What runs with `close` deferred.
  unfoldable pub load_opened : Role → Result (Unit {0}) × S → Result Bundle × S
  unfolding load_checked
  load_opened role (err c m, s) = (err c m, s)
  load_opened role (ok _, s) =
      let (x, s') = load_checked role (src.check_duplicates s) in (x, src.close_source s')

  -- A role without required names is none.
  unfoldable pub load : Role → S → Result Bundle × S
  unfolding load_opened required_scalars required_assets
  load role s = elim (required_scalars role ++ required_assets role) [
    | [] ↦ (err invalid_enum "invalid role: must be gateway or egress", s)
    | _ ∷ _ ↦ load_opened role (src.open_source s)
  ]

  -- `LoadSystemd`, over the source it makes
  unfoldable pub load_systemd : Text → S → Result Bundle × S
  unfolding load parse_role
  load_systemd role s = elim (parse_role role) [ err c m ↦ (err c m, s) | ok r ↦ load r s ]
