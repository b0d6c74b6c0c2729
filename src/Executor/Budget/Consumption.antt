-- ===== src/Executor/Budget/Consumption.antt =====
-- src/fetech/adapters/base.py: what `record_attempt_consumption` adds.
use fetech.Prelude.{
  ℕ, zero, suc, ◌+◌, ◌≡◌, refl, inl, inr, Option, none, some, List, [], ◌∷◌, String, ◌=s=◌,
  if◌then◌else◌, get_elem?, length, Option-cases, eq_iff, arith,
}
use fetech.Prelude.Dict.{Dict, lookup, insert, lookup-insert}
use fetech.Models.Request.{FetchRequest}
use fetech.Models.Record.{FetchAttempt}
use fetech.Executor.Context.{
  ExecutionContext, or_zero, consumption, consumed_budget, set_at, add_all,
  record_attempt_consumption,
}

-- The amounts given under one name, added up.
abbrev pub amount_of : String → Dict ℕ → ℕ
amount_of name [] = 0
amount_of name ((k, n) ∷ rest) = (if k =s= name then n else 0) + amount_of name rest

abbrev pub AddsUp : String → Dict ℕ → Dict ℕ → Option (Dict ℕ) → Type 0
AddsUp name amounts before none = Unit
AddsUp name amounts before (some after) =
    or_zero (lookup name after) ≡ or_zero (lookup name before) + amount_of name amounts

add_all-AddsUp :
    (r : FetchRequest) (name : String) (amounts before after : Dict ℕ)
    → add_all r amounts before ≡ some after
    → or_zero (lookup name after) ≡ or_zero (lookup name before) + amount_of name amounts
add_all-AddsUp r name [] before after e = ground arith
add_all-AddsUp r name ((k, n) ∷ rest) before after e =
    let next = insert k (or_zero (lookup k before) + n) before in
    ground (
      arith,
      add_all-AddsUp r name rest next after,
      lookup-insert k name (or_zero (lookup k before) + n) before,
      eq_iff k name,
    )

consumption-set_at :
    (name : String) (xs : List FetchAttempt) (i : ℕ) (a b : FetchAttempt)
    → get_elem? xs i ≡ some a
    → consumption name (set_at xs i b) + or_zero (lookup name a.consumed_budget)
      ≡ consumption name xs + or_zero (lookup name b.consumed_budget)
consumption-set_at name [] i a b e = absurd (ground arith)
consumption-set_at name (x ∷ xs) zero a b e = let same : x ≡ a = cc in rw same (omega arith)
consumption-set_at name (x ∷ xs) (suc i) a b e = omega (arith, consumption-set_at name xs i a b e)

length-set_at :
    (xs : List FetchAttempt) (i : ℕ) (b : FetchAttempt) → length (set_at xs i b) ≡ length xs
length-set_at [] i b = refl
length-set_at (x ∷ xs) zero b = refl
length-set_at (x ∷ xs) (suc i) b = omega (arith, length-set_at xs i b)

-- When `record_attempt_consumption` succeeds, the consumption of the run under every name grows by
-- exactly the amounts given under it, and the number of attempts stays.
pub record_attempt_consumption_exact :
    (i : ℕ) (amounts : Dict ℕ) (c d : ExecutionContext) (name : String)
    → record_attempt_consumption i amounts c ≡ some d
    → (consumed_budget name d ≡ consumed_budget name c + amount_of name amounts)
      × (length d.attempts ≡ length c.attempts)
unfolding record_attempt_consumption
record_attempt_consumption_exact i amounts c d name e =
    elim (Option-cases (get_elem? c.attempts i)) [
      | inl none' ↦ absurd (ground arith)
      | inr (a, at_i) ↦ elim (Option-cases (add_all c.request amounts a.consumed_budget)) [
        | inl bad ↦ absurd (ground arith)
        | inr (after, good) ↦
            let b : FetchAttempt = record a { consumed_budget = after } in
            let shape : d ≡ record c { attempts = set_at c.attempts i b } = ground arith in
            rw shape (
              omega (
                arith,
                consumption-set_at name c.attempts i a b at_i,
                add_all-AddsUp c.request name amounts a.consumed_budget after good,
              ),
              length-set_at c.attempts i b,
            )
      ]
    ]
