-- ===== src/Files.antt =====
-- The calls of package os and of statfs that the program makes, and what it reads from them.
use proxyctl.Prelude.{ℕ, Option, ◌≡◌, refl, ◌⊎◌, inl, inr}
use proxyctl.Text.{Text}

-- An error is `os.ErrNotExist` or another one.
pub data Got {ℓ} (A : Type ℓ) : Type ℓ where
  absent refused : Got A
  got : A → Got A

pub data Kind : Type 0 where
  symlink directory regular special : Kind

-- What Lstat tells; `owner` is there where `Sys()` is a Stat_t.
pub record Node : Type 0 where
  pub kind : Kind
  pub mode : ℕ
  pub size : ℕ
  pub owner : Option (ℕ × ℕ)

-- The blocks that are free for others than root, and the size of a block.
pub record Space : Type 0 where
  pub available : ℕ
  pub block_size : ℕ

pub record Files : Type 0 where
  pub statfs : Text → Got Space
  pub lstat : Text → Got Node
  pub read_file : Text → Got Text

pub Got-cases {ℓ} :
    {A : Type ℓ} (g : Got A) → (g ≡ absent) ⊎ (g ≡ refused) ⊎ ((a : A) × (g ≡ got a))
Got-cases absent = inl refl
Got-cases refused = inr (inl refl)
Got-cases (got a) = inr (inr (a, refl))

-- A node is a symlink, a directory, or neither.
pub Kind-cases : (k : Kind) → (k ≡ symlink) ⊎ (k ≡ directory) ⊎ (k ≡ regular) ⊎ (k ≡ special)
Kind-cases symlink = inl refl
Kind-cases directory = inr (inl refl)
Kind-cases regular = inr (inr (inl refl))
Kind-cases special = inr (inr (inr refl))
