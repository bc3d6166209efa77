-- ===== src/Safex/Userinfo.antt =====
-- What a round of `redactURLCreds` does, and what its rounds settle on.
use proxyctl.Prelude.{ℕ, zero, suc, ◌≡◌, ◌⊎◌, Bool, true, false, [], ◌∷◌, ◌++◌, any, ◌==◌}
use proxyctl.Text.{Text, codes, contains}

-- "/", "?", "#", a blank, a line break, a quote, or a bracket that stands around URLs in texts.
abbrev is_end : ℕ → Bool
is_end c = any (λ e. c == e) (codes "/?# \t\n\r\"'<>)")

abbrev pub is_at : ℕ → Bool
is_at c = c == b'@'

-- The text behind an authority: nothing, or a text that begins with one of its ends.
pub data Behind : Text → Type 0 where
  nothing_left : Behind []
  from_end : (c : ℕ) (s : Text) → is_end c ≡ true → Behind (c ∷ s)

-- An authority without "@" stays, and otherwise the mask stands for all before its last "@".
pub MaskedAuthority : Text → Text → Type 0
MaskedAuthority a b =
    ((any is_at a ≡ false) × (b ≡ a))
    ⊎ ((user host : Text) × (a ≡ user ++ (b'@' ∷ host))
        × (any is_at host ≡ false)
        × (b ≡ codes "<REDACTED>" ++ (b'@' ∷ host)))

-- The second text is the first with the userinfo masked in each authority, from left to right: an
-- authority begins behind a "://" and goes up to its first end, where the search goes on.
pub data Masked : Text → Text → Type 0 where
  no_authority : (s : Text) → contains s (codes "://") ≡ false → Masked s s
  authority :
      (s before a behind a' t : Text)
      → before ++ (codes "://" ++ (a ++ behind)) ≡ s
      → contains before (codes "://") ≡ false
      → any is_end a ≡ false
      → Behind behind
      → MaskedAuthority a a'
      → Masked behind t
      → Masked s (before ++ (codes "://" ++ (a' ++ t)))

-- What a number of rounds settles on: a text that a round leaves as it is, or the mask alone where
-- no round is left.
pub data Settles : ℕ → Text → Text → Type 0 where
  gave_up : (s : Text) → Settles zero s (codes "<REDACTED>")
  settled : (n : ℕ) (s : Text) → Masked s s → Settles (suc n) s s
  round : (n : ℕ) (s t u : Text) → Masked s t → Settles n t u → Settles (suc n) s u
