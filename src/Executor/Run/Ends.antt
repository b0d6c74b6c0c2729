-- ===== src/Executor/Run/Ends.antt =====
-- src/fetech/executor.py, `execute`: the loop ends.
use fetech.Prelude.{
  ℕ, zero, suc, ◌+◌, ◌-◌, ◌≤◌, ◌≡◌, ◌≢◌, Bool, true, false, not, ◌&&◌, Option, none, some, List, [],
  ◌∷◌, length, drop, any, ltb, if◌then◌else◌, arith,
}
use fetech.Models.Plan.{PlanNode, FetchPlan}
use fetech.Executor.Context.{ExecutionContext}
use fetech.Executor.Ledger.{Ledger}
use fetech.Executor.Node.{NodeResult, ended, raised, execute_node}
use fetech.Executor.Batch.{Settled, satisfied, is_set, parallel_batch}
use fetech.Executor.Batch.Group.{parallel_batch_pos}
use fetech.Executor.Run.{
  Progress, World, LoopEnd, stopped, out_of_fuel, skip, pass_over, after_node, after_single,
  after_batch, merge_settled, run_batch, run_loop,
}

length-drop {ℓ} : {A : Type ℓ} (n : ℕ) (xs : List A) → length (drop n xs) ≡ length xs - n
length-drop zero xs = omega arith
length-drop (suc n) [] = omega arith
length-drop (suc n) (x ∷ xs) = omega (arith, length-drop n xs)

after_single-ends :
    (node : PlanNode) (rest : List PlanNode) (again : Progress → LoopEnd) (p : Progress)
    (r : NodeResult × ExecutionContext × Ledger)
    → ((q : Progress) → again q ≢ out_of_fuel)
    → after_single node rest again p r ≢ out_of_fuel
after_single-ends node rest again p (raised s, c, g) h = λ e. cc
after_single-ends node rest again p (ended r, c, g) h = pick r.stop
  where
    pick :
        (b : Bool)
        → (if b then stopped rest (after_node node r c g p) else again (after_node node r c g p))
          ≢ out_of_fuel
    pick true = λ e. cc
    pick false = h _

after_batch-ends :
    (w : World) (position : ℕ) (rest : List PlanNode) (again : Progress → LoopEnd) (p : Progress)
    (o : Option (List Settled))
    → ((q : Progress) → again q ≢ out_of_fuel)
    → after_batch w position rest again p o ≢ out_of_fuel
after_batch-ends w position rest again p none h = λ e. cc
after_batch-ends w position rest again p (some ss) h =
    pick (any (λ (s : Settled). s.result.stop) ss)
      (merge_settled p.context ss (record p { ledger = w.ledger_after position p.ledger }))
  where
    pick : (b : Bool) (q : Progress) → (if b then stopped rest q else again q) ≢ out_of_fuel
    pick true q = λ e. cc
    pick false q = h q

-- With as many rounds as there are nodes left, the loop of `execute` ends: after the last node, by a
-- node that says stop, or by an exception that is passed on.
pub run_loop-ends :
    (w : World) (plan : FetchPlan) (root fuel position : ℕ) (nodes : List PlanNode) (p : Progress)
    → length nodes ≤ fuel
    → run_loop w plan root fuel position nodes p ≢ out_of_fuel
unfolding run_loop
run_loop-ends w plan root zero position [] p h = λ e. cc
run_loop-ends w plan root zero position (node ∷ rest) p h = absurd (omega arith)
run_loop-ends w plan root (suc fuel) position [] p h = λ e. cc
run_loop-ends w plan root (suc fuel) position (node ∷ rest) p h =
    pick (not (satisfied p.completed node)) (p.context.accepted && is_set node.fallback_for)
      (ltb 1 (length batch))
      (run_loop-ends w plan root fuel (suc position) rest (skip node p) (omega arith))
      (run_loop-ends w plan root fuel (suc position) rest (pass_over node p) (omega arith))
      (after_batch-ends w position (drop (length batch) (node ∷ rest)) _ p
        (run_batch w plan root position batch p)
        (λ q.
          run_loop-ends w plan root fuel (position + length batch)
            (drop (length batch) (node ∷ rest)) q
            (omega (
              arith,
              length-drop (length batch) (node ∷ rest),
              parallel_batch_pos node rest p.completed p.context,
            ))))
      (after_single-ends node rest _ p
        (execute_node w.engine plan.request node root (w.elapsed position) p.context p.ledger)
        (λ q. run_loop-ends w plan root fuel (suc position) rest q (omega arith)))
  where
    batch : List PlanNode
    batch = parallel_batch node rest p.completed p.context

    pick :
        (a b c : Bool) {e₁ e₂ e₃ e₄ : LoopEnd}
        → e₁ ≢ out_of_fuel
        → e₂ ≢ out_of_fuel
        → e₃ ≢ out_of_fuel
        → e₄ ≢ out_of_fuel
        → (if a then e₁ else if b then e₂ else if c then e₃ else e₄) ≢ out_of_fuel
    pick true b c h₁ h₂ h₃ h₄ = h₁
    pick false true c h₁ h₂ h₃ h₄ = h₂
    pick false false true h₁ h₂ h₃ h₄ = h₃
    pick false false false h₁ h₂ h₃ h₄ = h₄
