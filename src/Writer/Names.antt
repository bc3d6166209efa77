-- ===== src/Writer/Names.antt =====
-- internal/render/writer.go: the allow-list of output names and `validateOutputNames`.
use proxyctl.Prelude.{
  ℕ, Bool, true, false, not, ◌||◌, List, [], ◌∷◌, none, some, any, ◌==◌, if◌then◌else◌,
}
use proxyctl.Text.{Text, codes, member}
use proxyctl.Table.{Table, lookup}
use proxyctl.Safex.Codes.{Result, ok, err, render_unsafe, ◌>>◌}

abbrev pub Bytes : Type 0
Bytes = List ℕ

-- `outputNameOrder`
abbrev pub output_name_order : List Text
output_name_order =
    codes "gateway-rendered.yaml"
    ∷ codes "egress-rendered.yaml"
    ∷ codes "gateway.crt"
    ∷ codes "gateway.key"
    ∷ codes "egress.crt"
    ∷ codes "egress.key"
    ∷ codes "gateway-client.crt"
    ∷ codes "gateway-client.key"
    ∷ codes "gateway-client-ca.crt"
    ∷ []

-- Whether the map has the key.
unfoldable pub has_key {ℓ} : {V : Type ℓ} → Table V → Text → Bool
unfolding lookup
has_key t k = elim (lookup k t) [ none ↦ false | some _ ↦ true ]

-- The names of the order that the map has, in the order.
unfoldable pub ordered : Table Bytes → List Text → List Text
ordered files [] = []
ordered files (n ∷ names) =
    let rest = ordered files names in if has_key files n then n ∷ rest else rest

unfoldable pub check_names : Table Bytes → Result (Unit {0})
check_names [] = ok tt
check_names ((n, _) ∷ files) =
    let rest = check_names files in
    if any (λ c. c == b'/' || c == b'\\') n
    then err render_unsafe "output file name must not contain a path separator"
    else if not (member n output_name_order)
    then err render_unsafe "output file name is not allowed"
    else rest

-- `validateOutputNames`
unfoldable pub validate_output_names : Table Bytes → Result (List Text)
unfolding check_names ordered
validate_output_names files = do check_names files; ok (ordered files output_name_order)
