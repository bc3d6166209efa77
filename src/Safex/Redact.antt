-- ===== src/Safex/Redact.antt =====
-- internal/safex/errors.go: `Redact` and its three passes, and `IsPlaceholder`.
-- `to_lower` stands for strings.ToLower.
use proxyctl.Prelude.{
  ℕ, zero, suc, Bool, true, false, not, ◌&&◌, ◌||◌, List, [], ◌∷◌, ◌++◌, map, Option, none, some,
  ◌==◌, if◌then◌else◌, any, all, length, drop, ltb,
}
use proxyctl.Text.{
  Text, codes, size, equal, has_prefix, cut, split, join, trim_left, trim_space, ends_with, init,
  is_digit, is_lower, is_upper,
}

abbrev pub mask : Text
mask = codes "<REDACTED>"

abbrev pub scheme_mark : Text
scheme_mark = codes "://"

-- `strings.Count` of a text that does not overlap itself.
unfoldable pub count : Text → Text → ℕ
unfolding has_prefix
count [] p = 0
count (c ∷ s) p = let rest = count s p in if has_prefix (c ∷ s) p then suc rest else rest

-- Where an authority ends.
unfoldable pub ends_authority : ℕ → Bool
ends_authority c =
    c == b'/'
    || c == b'?'
    || c == b'#'
    || c == b' '
    || c == b'\t'
    || c == b'\n'
    || c == b'\r'
    || c == b'"'
    || c == b'\''
    || c == b'<'
    || c == b'>'
    || c == b')'

-- What stands before the first character that `stop` accepts, and the rest from that character on.
unfoldable pub until : (ℕ → Bool) → Text → Text × Text
until stop [] = ([], [])
until stop (c ∷ s) =
    let (before, rest) = until stop s in if stop c then ([], c ∷ s) else (c ∷ before, rest)

-- `authority[strings.LastIndex(authority, "@")+1:]`
unfoldable pub behind_last_at : Text → Option Text
behind_last_at [] = none
behind_last_at (c ∷ s) = elim (behind_last_at s) [
  | some rest ↦ some rest
  | none ↦ if c == b'@' then some s else none
]

unfoldable pub mask_userinfo : Text → Text
unfolding behind_last_at
mask_userinfo authority = elim (behind_last_at authority) [
  | none ↦ authority
  | some host ↦ mask ++ (b'@' ∷ host)
]

-- The loop of `redactURLCredsOnce`, on fuel.
unfoldable pub mask_urls : ℕ → Text → Text
unfolding until mask_userinfo cut
mask_urls zero s = s
mask_urls (suc n) s = elim (cut scheme_mark s) [
  | none ↦ s
  | some (before, rest) ↦
      let (authority, behind) = until ends_authority rest in
      before ++ (scheme_mark ++ (mask_userinfo authority ++ mask_urls n behind))
]

unfoldable pub redact_url_creds_once : Text → Text
unfolding mask_urls
redact_url_creds_once s = mask_urls (suc (length s)) s

-- The loop of `redactURLCreds`: `bound` more rounds.
unfoldable pub redact_rounds : ℕ → Text → Text
unfolding redact_url_creds_once equal
redact_rounds zero s = mask
redact_rounds (suc bound) s =
    let next = redact_url_creds_once s in
    let more = redact_rounds bound next in if equal next s then s else more

unfoldable pub redact_url_creds : Text → Text
unfolding redact_rounds count
redact_url_creds s = redact_rounds (suc (count s scheme_mark)) s

abbrev pub header_prefixes : List Text
header_prefixes =
    codes "Authorization: "
    ∷ codes "authorization: "
    ∷ codes "Proxy-Authorization: "
    ∷ codes "proxy-authorization: "
    ∷ []

-- The first of the prefixes that the text begins with.
unfoldable pub starting : Text → List Text → Option Text
unfolding has_prefix
starting s [] = none
starting s (p ∷ ps) = let rest = starting s ps in if has_prefix s p then some p else rest

-- The text up to and with the earliest header prefix, and the rest behind it.
unfoldable pub find_header : Text → Option (Text × Text)
unfolding starting
find_header [] = none
find_header (c ∷ s) = elim (starting (c ∷ s) header_prefixes) [
  | some p ↦ some (p, drop (length p) (c ∷ s))
  | none ↦ elim (find_header s) [ none ↦ none | some (before, rest) ↦ some (c ∷ before, rest) ]
]

-- The loop of `redactHeaderAuth`, on fuel.
unfoldable pub mask_headers : ℕ → Text → Text
unfolding find_header until
mask_headers zero s = s
mask_headers (suc n) s = elim (find_header s) [
  | none ↦ s
  | some (before, rest) ↦
      before ++ (mask ++ mask_headers n (until (λ c. c == b'\n' || c == b'\r') rest).1)
]

unfoldable pub redact_header_auth : Text → Text
unfolding mask_headers
redact_header_auth s = mask_headers (suc (length s)) s

abbrev pub sensitive_keys : List Text
sensitive_keys =
    codes "password"
    ∷ codes "passwd"
    ∷ codes "pwd"
    ∷ codes "secret"
    ∷ codes "token"
    ∷ codes "api_key"
    ∷ codes "apikey"
    ∷ codes "auth"
    ∷ codes "authorization"
    ∷ codes "proxy-authorization"
    ∷ codes "private-key"
    ∷ codes "private_key"
    ∷ codes "client_key"
    ∷ codes "clientkey"
    ∷ codes "credential"
    ∷ codes "credentials"
    ∷ []

unfoldable pub is_ascii_alnum : ℕ → Bool
unfolding is_digit is_lower is_upper
is_ascii_alnum c = is_digit c || is_lower c || is_upper c

-- `findKeyStart`, giving `lower[start+len(key):]`; `boundary` tells whether the key may start here.
unfoldable pub find_key : Bool → Text → Text → Option Text
unfolding has_prefix is_ascii_alnum
find_key boundary k [] = none
find_key boundary k (c ∷ s) =
    let later = find_key (not (is_ascii_alnum c)) k s in
    if boundary && has_prefix (c ∷ s) k then some (drop (length k) (c ∷ s)) else later

-- What follows a key: a closing quote, blanks, then the separator.
unfoldable pub without_quote : Text → Text
without_quote [] = []
without_quote (c ∷ s) = if c == b'"' || c == b'\'' then s else c ∷ s

unfoldable pub separator_follows : Text → Bool
unfolding without_quote trim_left has_prefix
separator_follows after =
    let rest = trim_left (λ c. c == b' ' || c == b'\t') (without_quote after) in
    has_prefix rest (codes ":") || has_prefix rest (codes "=")

-- The loop over one key's places, on fuel.
unfoldable pub key_assigned : ℕ → Text → Text → Bool
unfolding find_key separator_follows
key_assigned zero k s = false
key_assigned (suc n) k s = elim (find_key true k s) [
  | none ↦ false
  | some after ↦ separator_follows after || key_assigned n k after
]

unfoldable pub has_sensitive_assignment : Text → Bool
unfolding key_assigned
has_sensitive_assignment lower = any (λ k. key_assigned (suc (length lower)) k lower) sensitive_keys

unfoldable pub is_upper_ident : Text → Bool
unfolding is_upper is_digit
is_upper_ident [] = false
is_upper_ident (c ∷ s) = all (λ b. is_upper b || is_digit b || b == b'_') (c ∷ s)

-- `IsPlaceholder`
unfoldable pub is_placeholder : Text → Bool
unfolding trim_space has_prefix ends_with init is_upper_ident
is_placeholder value =
    let v = trim_space value in
    equal v []
    || has_prefix v (codes "${") && ends_with v b'}' && is_upper_ident (drop 2 (init v))
    || has_prefix v (codes "$") && is_upper_ident (drop 1 v)
    || has_prefix v (codes "<") && ends_with v b'>' && ltb 2 (size v)

module _ (to_lower : Text → Text) where
  unfoldable pub redact_line_assignments : Text → Text
  unfolding size has_sensitive_assignment
  redact_line_assignments line =
      let lower = to_lower line in
      if not (size lower == size line) || has_sensitive_assignment lower then mask else line

  unfoldable pub redact_assignments : Text → Text
  unfolding split join redact_line_assignments
  redact_assignments s = join (codes "\n") (map redact_line_assignments (split b'\n' s))

  unfoldable pub redact : Text → Text
  unfolding redact_url_creds redact_header_auth redact_assignments
  redact [] = []
  redact (c ∷ s) = redact_assignments (redact_header_auth (redact_url_creds (c ∷ s)))
