-- ===== src/Preflight/Entries.antt =====
-- The one entry of an account that the account database is read for.
use proxyctl.Prelude.{
  ℕ, ◌≡◌, refl, ap, sym, ◌∙◌, List, [], ◌∷◌, ◌++◌, none, some, ltb, All, length, Bool-cases, inl,
  inr, ◌⊎◌, arith,
}
use proxyctl.Text.Laws.{equal_iff, equal_refl}
use proxyctl.Text.{equal, Text, size, split}
use proxyctl.Preflight.Accounts.{
  parse_nonnegative_int, ids_of, Entry, ignored, malformed, entry, entry_of, accounts_on,
  parse_passwd_uid_gid, max_passwd_lines, max_passwd_line_len,
}

ignored_is_entry : {u g : ℕ} → ignored ≡ entry u g → ⊥
ignored_is_entry h = cc

-- A line of the account: four fields at least, the account's name first.
pub IsEntry : Text → Text → Text → Text → Type 0
IsEntry name u g line =
    (x : Text) × (more : List Text) × (split b':' line ≡ name ∷ x ∷ u ∷ g ∷ more)

abbrev pub NoEntry : Text → Text → Type 0
NoEntry name line = (u g : Text) → IsEntry name u g line → ⊥

-- One of the lines is of the account, with the ids in its third and fourth field, and no other is.
pub record OnlyEntry (name : Text) (lines : List Text) (uid gid : ℕ) : Type 0 where
  pub before : List Text
  pub line : Text
  pub after : List Text
  pub user : Text
  pub group : Text
  pub all_lines : lines ≡ before ++ (line ∷ after)
  pub is_entry : IsEntry name user group line
  pub user_id : parse_nonnegative_int user ≡ some uid
  pub group_id : parse_nonnegative_int group ≡ some gid
  pub not_before : All (NoEntry name) before
  pub not_after : All (NoEntry name) after

ids_of-ignored : (u g : Text) → ids_of u g ≡ ignored → ⊥
unfolding ids_of
ids_of-ignored u g h = ground arith

entry_of-ignored :
    (name line : Text) → entry_of name (split b':' line) ≡ ignored → NoEntry name line
unfolding entry_of IsEntry
entry_of-ignored name line h u g (x, more, e) =
    ids_of-ignored u g (rw (e, entry_of, equal_refl name) at h)

ids_of-entry :
    (u g : Text) (uid gid : ℕ)
    → ids_of u g ≡ entry uid gid
    → (parse_nonnegative_int u ≡ some uid) × (parse_nonnegative_int g ≡ some gid)
unfolding ids_of
ids_of-entry u g uid gid h = ground arith

entry_of-entry :
    (name : Text) (fields : List Text) (uid gid : ℕ)
    → entry_of name fields ≡ entry uid gid
    → (x u g : Text) × (more : List Text) × (fields ≡ name ∷ x ∷ u ∷ g ∷ more)
      × (parse_nonnegative_int u ≡ some uid)
      × (parse_nonnegative_int g ≡ some gid)
unfolding entry_of
entry_of-entry name [] uid gid h = cc
entry_of-entry name (a ∷ []) uid gid h = cc
entry_of-entry name (a ∷ b ∷ []) uid gid h = cc
entry_of-entry name (a ∷ b ∷ c ∷ []) uid gid h = cc
entry_of-entry name (a ∷ x ∷ u ∷ g ∷ more) uid gid h = elim (Bool-cases (equal a name)) [
  | inl same ↦
      let (user_id, group_id) = ids_of-entry u g uid gid (rw (same, entry_of) at h) in
      (
        x,
        u,
        g,
        more,
        ap (λ (t : Text). t ∷ x ∷ u ∷ g ∷ more) ((equal_iff a name).0 same),
        user_id,
        group_id,
      )
  | inr other ↦ elim (ignored_is_entry (rw (other, entry_of) at h)) [ ]
]

Entry-cases : (e : Entry) → (e ≡ ignored) ⊎ (e ≡ malformed) ⊎ ((u g : ℕ) × (e ≡ entry u g))
Entry-cases ignored = inl refl
Entry-cases malformed = inr (inl refl)
Entry-cases (entry u g) = inr (inr (u, g, refl))

none_is_some {ℓ} : {A : Type ℓ} {a : A} → none ≡ some a → ⊥
none_is_some h = cc

later_entry :
    {name line : Text} {lines : List Text} {uid gid : ℕ}
    → entry_of name (split b':' line) ≡ ignored
    → OnlyEntry name lines uid gid
    → OnlyEntry name (line ∷ lines) uid gid
later_entry {name = name} {line = line} e o = record {
  before = line ∷ o.before;
  line = o.line;
  after = o.after;
  user = o.user;
  group = o.group;
  all_lines = ap (◌∷◌ line) o.all_lines;
  is_entry = o.is_entry;
  user_id = o.user_id;
  group_id = o.group_id;
  not_before = (entry_of-ignored name line e, o.not_before);
  not_after = o.not_after;
}

-- The first line of the account, with none behind it.
first_entry :
    (name line : Text) (lines : List Text) (uid gid : ℕ)
    → entry_of name (split b':' line) ≡ entry uid gid
    → All (NoEntry name) lines
    → OnlyEntry name (line ∷ lines) uid gid
unfolding IsEntry
first_entry name line lines uid gid e rest =
    let (x, u, g, more, fields, user_id, group_id) =
      entry_of-entry name (split b':' line) uid gid e in
    record {
      before = [];
      line = line;
      after = lines;
      user = u;
      group = g;
      all_lines = refl;
      is_entry = (x, more, fields);
      user_id = user_id;
      group_id = group_id;
      not_before = tt;
      not_after = rest;
    }

-- Behind an entry that is found, no further one may come.
accounts_on-found :
    (name : Text) (ids : ℕ × ℕ) (lines : List Text) (out : ℕ × ℕ)
    → accounts_on name (some ids) lines ≡ some out
    → (out ≡ ids) × All (NoEntry name) lines
unfolding accounts_on
accounts_on-found name ids [] out h = (cc, tt)
accounts_on-found name ids (line ∷ lines) out h =
    elim (Bool-cases (ltb max_passwd_line_len (size line))) [
      | inl e ↦ elim (none_is_some (rw (e, accounts_on) at h)) [ ]
      | inr e ↦ elim (Entry-cases (entry_of name (split b':' line))) [
        | inl g ↦
            let (same, rest) = accounts_on-found name ids lines out (rw (e, g, accounts_on) at h) in
            (same, (entry_of-ignored name line g, rest))
        | inr (inl g) ↦ elim (none_is_some (rw (e, g, accounts_on) at h)) [ ]
        | inr (inr (u, v, g)) ↦ elim (none_is_some (rw (e, g, accounts_on) at h)) [ ]
      ]
    ]

accounts_on-OnlyEntry :
    (name : Text) (lines : List Text) (uid gid : ℕ)
    → accounts_on name none lines ≡ some (uid, gid)
    → OnlyEntry name lines uid gid
unfolding accounts_on
accounts_on-OnlyEntry name [] uid gid h = cc
accounts_on-OnlyEntry name (line ∷ lines) uid gid h =
    elim (Bool-cases (ltb max_passwd_line_len (size line))) [
      | inl e ↦ elim (none_is_some (rw (e, accounts_on) at h)) [ ]
      | inr e ↦ elim (Entry-cases (entry_of name (split b':' line))) [
        | inl g ↦
            later_entry g (accounts_on-OnlyEntry name lines uid gid (rw (e, g, accounts_on) at h))
        | inr (inl g) ↦ elim (none_is_some (rw (e, g, accounts_on) at h)) [ ]
        | inr (inr (u, v, g)) ↦
            let (same, rest) =
              accounts_on-found name (u, v) lines (uid, gid) (rw (e, g, accounts_on) at h) in
            first_entry name line lines uid gid (g ∙ sym (ap (λ (p : ℕ × ℕ). entry p.0 p.1) same))
              rest
      ]
    ]

-- When the account database answers with two ids, exactly one of its lines has four fields at least
-- and the account's name as the first of them, and the third and fourth field of this line are
-- these ids. A line with fewer fields counts as no entry, whatever its first field is.
pub parse_passwd_uid_gid-OnlyEntry :
    (text name : Text) (uid gid : ℕ)
    → parse_passwd_uid_gid text name ≡ some (uid, gid)
    → OnlyEntry name (split b'\n' text) uid gid
unfolding parse_passwd_uid_gid
parse_passwd_uid_gid-OnlyEntry text name uid gid h =
    elim (Bool-cases (ltb max_passwd_lines (length (split b'\n' text)))) [
      | inl e ↦ elim (none_is_some (rw (e, parse_passwd_uid_gid) at h)) [ ]
      | inr e ↦
          accounts_on-OnlyEntry name (split b'\n' text) uid gid (rw (e, parse_passwd_uid_gid) at h)
    ]
