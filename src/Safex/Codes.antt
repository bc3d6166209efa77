-- ===== src/Safex/Codes.antt =====
-- internal/safex/errors.go: the error codes, their exit codes, and results that may be an error.
-- An error is its code and the format string of its message; the arguments are not carried.
use Prim.Native.String.{String}
use proxyctl.Prelude.{ℕ, ◌≡◌, refl, Bool, true, false, ◌⊎◌, inl, inr, List, [], ◌∷◌, map, All}

pub data Code : Type 0 where
  usage unknown_command unknown_flag invalid_enum not_found permission : Code
  ok_code config_rejected template_rejected render_unsafe io internal : Code

-- `Code.ExitCode`
unfoldable pub exit_code : Code → ℕ
exit_code ok_code = 0
exit_code usage = 2
exit_code unknown_command = 3
exit_code unknown_flag = 4
exit_code invalid_enum = 5
exit_code not_found = 6
exit_code permission = 7
exit_code config_rejected = 8
exit_code template_rejected = 8
exit_code render_unsafe = 8
exit_code io = 9
exit_code internal = 10

pub data Result {ℓ} (A : Type ℓ) : Type ℓ where
  ok : A → Result A
  err : Code → String → Result A

-- `if bad { return safex.New(c, m) }`
abbrev pub reject_if : Bool → Code → String → Result (Unit {0})
reject_if true c m = err c m
reject_if false c m = ok tt

-- The next step runs on the value of the one before, and an error ends the chain.
module _ {ℓ κ} {A : Type ℓ} {B : Type κ} where
  infixl 5 ◌>>=◌
  abbrev pub ◌>>=◌ : (m : Result A) (f : A → Result B) → Result B
  (err c w) >>= f = err c w
  (ok x) >>= f = f x

  -- A chain that ends well went well at its first step.
  pub bind-eq-ok :
      (first : Result A) (next : A → Result B) {end : B}
      → (first >>= next) ≡ ok end
      → (x : A) × (first ≡ ok x) × (next x ≡ ok end)
  bind-eq-ok (err _ _) next h = cc
  bind-eq-ok (ok x) next h = (x, refl, h)

infixl 5 ◌>>◌
abbrev pub ◌>>◌ {κ} : {B : Type κ} (check : Result (Unit {0})) (next : Result B) → Result B
check >> next = check >>= λ _. next

pub Result-cases {ℓ} :
    {A : Type ℓ} (r : Result A)
    → ((a : A) × (r ≡ ok a)) ⊎ ((c : Code) × (m : String) × (r ≡ err c m))
Result-cases (ok a) = inl (a, refl)
Result-cases (err c m) = inr (c, m, refl)

pub reject_if-eq-ok :
    (b : Bool) (c : Code) (m : String) {u : Unit {0}} → reject_if b c m ≡ ok u → b ≡ false
reject_if-eq-ok true c m h = cc
reject_if-eq-ok false c m h = refl

-- A loop whose body returns the first error.
abbrev pub all_of : List (Result (Unit {0})) → Result (Unit {0})
all_of [] = ok tt
all_of (r ∷ rs) = r >> all_of rs

pub all_of-map-eq-ok {ℓ} :
    {A : Type ℓ} (f : A → Result (Unit {0})) (xs : List A)
    → all_of (map f xs) ≡ ok tt
    → All (λ x. f x ≡ ok tt) xs
all_of-map-eq-ok f [] h = tt
all_of-map-eq-ok f (x ∷ xs) h =
    let (u, e, later) = bind-eq-ok (f x) (λ _. all_of (map f xs)) h in
    (e, all_of-map-eq-ok f xs later)
