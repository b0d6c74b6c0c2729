-- ===== src/Planner/Result.antt =====
-- The errors of the planner, and computations that may raise them.
use fetech.Prelude.{String, ◌≡◌, refl, Bool, true, List, arith, if◌then◌else◌}

-- `unknown_capability` is a KeyError, the others are ValueErrors.
pub data PlanError : Type 0 where
  invalid_target : PlanError
  several_sessions : PlanError
  several_api_capabilities : PlanError
  rag_without_clean_text : PlanError
  browser_cache_of_bytes : PlanError
  browser_cache_without_playwright : PlanError
  http_denied : PlanError
  mismatched_request : PlanError
  missing_dependencies : String → PlanError
  outputs_denied : List String → PlanError
  outputs_missing : List String → PlanError
  unknown_capability : String → PlanError

pub data Result {ℓ} (A : Type ℓ) : Type ℓ where
  err : PlanError → Result A
  ok : A → Result A

-- if not test: raise error
abbrev pub require : Bool → PlanError → Result (Unit {0})
require test error = if test then ok tt else err error

pub require-ok :
    (test : Bool) (error : PlanError) (x : Unit {0}) → require test error ≡ ok x → test ≡ true
require-ok test error x h = ground arith

module _ {ℓ κ} {A : Type ℓ} {B : Type κ} where
  infixl 5 ◌>>=◌
  -- What raises an error raises it past what would follow.
  abbrev pub ◌>>=◌ : Result A → (A → Result B) → Result B
  err raised >>= next = err raised
  ok value >>= next = next value

  -- The first computation gave a value, and what followed gave `b`.
  pub bind-ok :
      (first : Result A) (next : A → Result B) (b : B)
      → (first >>= next) ≡ ok b
      → (value : A) × (first ≡ ok value) × (next value ≡ ok b)
  bind-ok (err raised) next b h = absurd (ground arith)
  bind-ok (ok value) next b h = (value, refl, h)

infixl 5 ◌>>◌
abbrev pub ◌>>◌ {ℓ} : {B : Type ℓ} → Result (Unit {0}) → Result B → Result B
check >> next = check >>= λ _. next
