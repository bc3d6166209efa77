-- ===== src/Preflight/Accounts.antt =====
-- internal/preflight/passwd.go: the account database. `none` is an error.
use proxyctl.Prelude.{
  ℕ, ◌+◌, ◌-◌, ◌*◌, ◌^◌, not, List, [], ◌∷◌, Option, none, some, ltb, ◌==◌, if◌then◌else◌, all,
  length,
}
use proxyctl.Text.{Text, size, equal, split, is_digit}

abbrev pub max_passwd_lines : ℕ
max_passwd_lines = 2 ^ 20

abbrev pub max_passwd_line_len : ℕ
max_passwd_line_len = 4096

unfoldable pub decimal_value : ℕ → Text → ℕ
decimal_value acc [] = acc
decimal_value acc (c ∷ s) = decimal_value (acc * 10 + (c - b'0')) s

-- The digits of `strconv.Atoi`: one at least, and a value that an int holds.
unfoldable pub parse_digits : Text → Option ℕ
unfolding is_digit decimal_value
parse_digits [] = none
parse_digits (c ∷ s) =
    if not (all is_digit (c ∷ s))
    then none
    else if ltb (decimal_value 0 (c ∷ s)) (2 ^ 63)
    then some (decimal_value 0 (c ∷ s))
    else none

-- `strconv.Atoi` takes a sign; of the values with a minus only zero is not negative.
unfoldable pub parse_nonnegative_int : Text → Option ℕ
unfolding parse_digits
parse_nonnegative_int [] = none
parse_nonnegative_int (c ∷ s) =
    if c == b'+'
    then parse_digits s
    else if c == b'-'
    then elim (parse_digits s) [ none ↦ none | some n ↦ if n == 0 then some 0 else none ]
    else parse_digits (c ∷ s)

-- What one line is for an account name: no line of it, an entry with its ids, or a malformed entry.
pub data Entry : Type 0 where
  ignored malformed : Entry
  entry : ℕ → ℕ → Entry

unfoldable pub ids_of : Text → Text → Entry
unfolding parse_nonnegative_int
ids_of u g = elim (parse_nonnegative_int u) [
  | none ↦ malformed
  | some uid ↦ elim (parse_nonnegative_int g) [ none ↦ malformed | some gid ↦ entry uid gid ]
]

unfoldable pub entry_of : Text → List Text → Entry
entry_of name (account ∷ _ ∷ u ∷ g ∷ _) = if equal account name then ids_of u g else ignored
entry_of name _ = ignored

-- The loop over the lines; `found` holds the ids of the entry found so far.
unfoldable pub accounts_on : Text → Option (ℕ × ℕ) → List Text → Option (ℕ × ℕ)
accounts_on name found [] = found
accounts_on name found (line ∷ lines) =
    if ltb max_passwd_line_len (size line) then none else elim (entry_of name (split b':' line)) [
      | ignored ↦ accounts_on name found lines
      | malformed ↦ none
      | entry uid gid ↦ elim found [
        | some _ ↦ none
        | none ↦ accounts_on name (some (uid, gid)) lines
      ]
    ]

unfoldable pub parse_passwd_uid_gid : Text → Text → Option (ℕ × ℕ)
parse_passwd_uid_gid text name =
    if ltb max_passwd_lines (length (split b'\n' text))
    then none
    else accounts_on name none (split b'\n' text)
