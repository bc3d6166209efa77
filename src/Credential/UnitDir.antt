-- ===== src/Credential/UnitDir.antt =====
-- internal/credential/source.go: where a unit's credentials may be, who may read them, and which
-- names may stand side by side.
use proxyctl.Prelude.{
  ℕ, suc, ◌+◌, ◌%◌, ◌/◌, Bool, true, false, not, ◌&&◌, ◌||◌, List, [], ◌∷◌, ◌++◌, Option, none,
  some, if◌then◌else◌, ◌==◌, any, map, length, replicate,
}
use proxyctl.Text.{Text, codes, equal, member, split, has_prefix, is_upper}
use proxyctl.Table.{Table, lookup, assign}
use proxyctl.Config.Lines.{is_empty}
use proxyctl.Safex.Codes.{Result, ok, reject_if, ◌>>◌, not_found, render_unsafe}

-- `credentialMetadata`, with the permission bits of `st.Mode & 0o777`
pub record Metadata : Type 0 where
  pub mode : ℕ
  pub uid : ℕ
  pub gid : ℕ

-- `secureCredentialMetadata`: the masks 0o077, 0o027 and 0o037 as remainders.
unfoldable pub secure_credential_metadata : Metadata → Bool → Bool
secure_credential_metadata meta directory =
    if meta.mode % 0o100 == 0
    then true
    else if not (meta.uid == 0) || not (meta.gid == 0)
    then false
    else if directory
    then meta.mode % 0o10 == 0 && meta.mode / 0o20 % 2 == 0
    else meta.mode % 0o40 == 0

-- `hasTraversal`
unfoldable pub has_traversal : Text → Bool
unfolding member split
has_traversal p = member (codes "..") (split b'/' p)

unfoldable pub plain : List Text → List Text
unfolding equal
plain [] = []
plain (p ∷ ps) = let rest = plain ps in if is_empty p || equal p (codes ".") then rest else p ∷ rest

-- The components of `filepath.Clean` of an absolute path without "..".
unfoldable pub components : Text → List Text
unfolding plain split
components p = plain (split b'/' p)

-- `filepath.Rel` on such components: behind the root, and otherwise up from it first.
unfoldable pub rel : List Text → List Text → List Text
unfolding equal
rel [] dir = dir
rel (r ∷ root) [] = replicate (suc (length root)) (codes "..")
rel (r ∷ root) (d ∷ dir) =
    let rest = rel root dir in
    if equal r d then rest else replicate (suc (length root)) (codes "..") ++ (d ∷ dir)

abbrev pub is_special : Text → Bool
is_special p = is_empty p || equal p (codes ".") || equal p (codes "..")

-- The test on the relative path: it names something, and only plain names.
unfoldable pub inside : List Text → Result (List Text)
unfolding equal
inside parts = do
  reject_if (length parts == 0 || any is_special parts) render_unsafe
      "credentials directory is outside the allowed root"
  ok parts

-- `relUnitDir`, of the value of CREDENTIALS_DIRECTORY
unfoldable pub rel_unit_dir : Text → Text → Result (List Text)
unfolding has_prefix has_traversal components rel inside
rel_unit_dir allowed_root dir = do
  reject_if (is_empty dir) not_found "credentials directory is not set"
  reject_if (not (has_prefix dir (codes "/"))) render_unsafe
      "credentials directory must be an absolute path"
  reject_if (has_traversal dir) render_unsafe "credentials directory contains a traversal component"
  inside (rel (components allowed_root) (components dir))

-- `asciiLower`
unfoldable pub ascii_lower : Text → Text
unfolding is_upper
ascii_lower s = map (λ c. if is_upper c then c + 32 else c) s

-- The test of one name against the names before it.
abbrev pub collides : Option Text → Text → Bool
collides none n = false
collides (some prev) n = not (equal prev n)

unfoldable pub collisions_on : Table Text → List Text → Result (Unit {0})
unfolding lookup ascii_lower equal assign
collisions_on seen [] = ok tt
collisions_on seen (n ∷ names) =
    let rest = collisions_on (assign (ascii_lower n) n seen) names in
    reject_if (collides (lookup (ascii_lower n) seen) n) render_unsafe
      "ambiguous duplicate credential names present"
    >> rest

-- `checkNameCollisions`
unfoldable pub check_name_collisions : List Text → Result (Unit {0})
unfolding collisions_on
check_name_collisions names = collisions_on [] names
