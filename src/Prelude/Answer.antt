-- ===== src/Prelude/Answer.antt =====
-- What Python code gives back where it may raise an exception of the kind `E`.
use mathlib.Core.Path.{◌≡◌, refl}
use mathlib.Core.Bool.{Bool, true, false}
use mathlib.Core.List.{List, [], ◌∷◌}
use native.Mathlib.Omega.{arith}
use fetech.Prelude.Lists.{All}

pub data Answer {ℓ κ} (E : Type ℓ) (A : Type κ) : Type (ℓ ⊔ κ) where
  raise : E → Answer E A
  give : A → Answer E A

module _ {ℓ} {E : Type ℓ} where
  infixl 5 ◌>>=◌ ◌>>◌
  abbrev pub ◌>>=◌ {κ μ} : {A : Type κ} {B : Type μ} → Answer E A → (A → Answer E B) → Answer E B
  raise e >>= rest = raise e
  give a >>= rest = rest a

  abbrev pub ◌>>◌ {κ μ} : {A : Type κ} {B : Type μ} → Answer E A → Answer E B → Answer E B
  raise e >> rest = raise e
  give a >> rest = rest

  -- if test: raise e
  abbrev pub raise_if : Bool → E → Answer E (Unit {0})
  raise_if true e = raise e
  raise_if false e = give tt

  -- A sequence of such statements
  abbrev pub raise_first : List (Bool × E) → Answer E (Unit {0})
  raise_first [] = give tt
  raise_first ((test, e) ∷ rest) = raise_if test e >> raise_first rest

  pub raise_first-none :
      (checks : List (Bool × E)) → raise_first checks ≡ give tt → All (λ c. c.0 ≡ false) checks
  raise_first-none [] h = tt
  raise_first-none ((true, e) ∷ rest) h = absurd (ground arith)
  raise_first-none ((false, e) ∷ rest) h = (refl, raise_first-none rest h)

  -- When checks and what follows them give a value, no check has raised anything.
  pub passes {κ} :
      {A : Type κ} (checks : List (Bool × E)) (rest : Answer E A) (a : A)
      → (raise_first checks >> rest) ≡ give a
      → All (λ c. c.0 ≡ false) checks × (rest ≡ give a)
  passes [] rest a h = (tt, h)
  passes ((true, e) ∷ checks) rest a h = absurd (ground arith)
  passes ((false, e) ∷ checks) rest a h = let (hs, h') = passes checks rest a h in ((refl, hs), h')

  pub gives {κ μ} :
      {A : Type κ} {B : Type μ} (first : Answer E A) (rest : A → Answer E B) (b : B)
      → (first >>= rest) ≡ give b
      → (a : A) × (first ≡ give a) × (rest a ≡ give b)
  gives (raise e) rest b h = absurd (ground arith)
  gives (give a) rest b h = (a, refl, h)

-- `try` around a computation
abbrev pub catch {ℓ κ} : {E : Type ℓ} {A : Type κ} → Answer E A → (E → A) → A
catch (raise e) handle = handle e
catch (give a) handle = a
