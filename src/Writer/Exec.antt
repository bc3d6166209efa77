-- ===== src/Writer/Exec.antt =====
-- Calls that change a state and may fail. What was done before an error stays done.
use proxyctl.Safex.Codes.{Result, ok, err}

abbrev pub Exec {ℓ} : Type ℓ → Type 0 → Type ℓ
Exec S A = S → Result A × S

-- What follows a step runs after a success only.
abbrev pub after {ℓ} : {T : Type ℓ} → Result (Unit {0}) → Exec T (Unit {0}) → Exec T (Unit {0})
after (ok _) next t = next t
after (err c m) next t = (err c m, t)

infixr 5 ◌>>◌
abbrev pub ◌>>◌ {ℓ} : {T : Type ℓ} → Exec T (Unit {0}) → Exec T (Unit {0}) → Exec T (Unit {0})
◌>>◌ m next t = let (x, t') = m t in after x next t'
