-- ===== src/Executor/Run/Order.antt =====
-- src/fetech/executor.py, `execute`: a node completes only after its dependencies.
pub mod Nodes
use fetech.Prelude.{
  ℕ, zero, suc, ◌+◌, ◌<◌, ◌≤◌, ◌≡◌, ◌≢◌, refl, subst, inl, inr, Bool, true, false, not, ◌&&◌, ◌||◌,
  Option, none, some, List, [], ◌∷◌, ◌++◌, String, ◌=s=◌, length, drop, any, all, elem, ltb, ltb→lt,
  All, In, All-In, All-map, Bool-cases, if◌then◌else◌, arith,
}
use fetech.Models.Plan.{PlanNode, FetchPlan}
use fetech.Executor.Context.{ExecutionContext}
use fetech.Executor.Ledger.{Ledger}
use fetech.Executor.Node.{NodeExecution, NodeResult, ended, raised, execute_node}
use fetech.Executor.Batch.{
  capture, merge_parallel_context, Settled, satisfied, is_set, parallel_batch,
}
use fetech.Executor.Batch.Group.{StartsWith, MayRun, parallel_batch_lem}
use fetech.Executor.Run.{
  Progress, World, LoopEnd, all_done, stopped, gave_up, out_of_fuel, add_if, add_flags, skip,
  pass_over, after_node, after_single, after_batch, merge_settled, run_batch, run_loop,
  first_progress,
}
use Nodes.{AllIf, run_batch-nodes}

-- `id` is the identifier of a node of the plan all of whose dependencies are among `completed`.
abbrev pub Justifies : List PlanNode → List String → String → Type 0
Justifies nodes completed id =
    (n : PlanNode) × In n nodes × (n.id ≡ id) × (satisfied completed n ≡ true)

abbrev pub Justified : List PlanNode → List String → Type 0
Justified nodes completed = All (Justifies nodes completed) completed

satisfied-cons :
    (id : String) (completed deps : List String)
    → all (λ d. elem d completed) deps ≡ true
    → all (λ d. elem d (id ∷ completed)) deps ≡ true
satisfied-cons id completed [] h = refl
satisfied-cons id completed (d ∷ ds) h = ground (arith, satisfied-cons id completed ds)

module _ (nodes : List PlanNode) where
  Justified-cons :
      (n : PlanNode) (completed : List String)
      → In n nodes
      → satisfied completed n ≡ true
      → Justified nodes completed
      → Justified nodes (n.id ∷ completed)
  Justified-cons n completed i h j = (
    (n, i, refl, satisfied-cons n.id completed n.dependencies h),
    All-map (Justifies nodes completed) (Justifies nodes (n.id ∷ completed))
        (λ id (m, i', e, s). (m, i', e, satisfied-cons n.id completed m.dependencies s)) completed
        j,
  )

  Justified-add_if :
      (b : Bool) (n : PlanNode) (completed : List String)
      → In n nodes
      → satisfied completed n ≡ true
      → Justified nodes completed
      → Justified nodes (add_if b n.id completed)
  Justified-add_if true n completed i h j = Justified-cons n completed i h j
  Justified-add_if false n completed i h j = j

  -- A settled task of a node of the plan whose dependencies are completed.
  abbrev MaySettle : List String → Settled → Type 0
  MaySettle completed s = In s.node nodes × (satisfied completed s.node ≡ true)

  MaySettle-add_if :
      (b : Bool) (id : String) (completed : List String) (s : Settled)
      → MaySettle completed s
      → MaySettle (add_if b id completed) s
  MaySettle-add_if true id completed s (i, h) =
      (i, satisfied-cons id completed s.node.dependencies h)
  MaySettle-add_if false id completed s h = h

  merge_settled-Justified :
      (before : ExecutionContext) (ss : List Settled) (p : Progress)
      → All (MaySettle p.completed) ss
      → Justified nodes p.completed
      → Justified nodes (merge_settled before ss p).completed
  unfolding merge_settled
  merge_settled-Justified before [] p h j = j
  merge_settled-Justified before (s ∷ ss) p h j =
      merge_settled-Justified before ss _
        (All-map (MaySettle p.completed)
          (MaySettle (add_if s.result.completed s.node.id p.completed))
          (MaySettle-add_if s.result.completed s.node.id p.completed) ss h.1)
        (Justified-add_if s.result.completed s.node p.completed h.0.0 h.0.1 j)

  abbrev pub EndsJustified : LoopEnd → Type 0
  EndsJustified (all_done p) = Justified nodes p.completed
  EndsJustified (stopped rest p) = Justified nodes p.completed
  EndsJustified (gave_up s) = Unit
  EndsJustified out_of_fuel = Unit

  after_single-Justified :
      (node : PlanNode) (rest : List PlanNode) (again : Progress → LoopEnd) (p : Progress)
      (r : NodeResult × ExecutionContext × Ledger)
      → ((q : Progress) → Justified nodes q.completed → EndsJustified (again q))
      → In node nodes
      → satisfied p.completed node ≡ true
      → Justified nodes p.completed
      → EndsJustified (after_single node rest again p r)
  after_single-Justified node rest again p (raised s, c, g) h i d j = tt
  after_single-Justified node rest again p (ended r, c, g) h i d j = pick r.stop
    where
      after : Justified nodes (add_if r.completed node.id p.completed)
      after = Justified-add_if r.completed node p.completed i d j

      pick :
          (b : Bool)
          → EndsJustified (
              if b then stopped rest (after_node node r c g p) else again (after_node node r c g p))
      pick true = after
      pick false = h (after_node node r c g p) after

  after_batch-Justified :
      (w : World) (position : ℕ) (rest : List PlanNode) (again : Progress → LoopEnd) (p : Progress)
      (ss : List Settled)
      → ((q : Progress) → Justified nodes q.completed → EndsJustified (again q))
      → All (MaySettle p.completed) ss
      → Justified nodes p.completed
      → EndsJustified (after_batch w position rest again p (some ss))
  after_batch-Justified w position rest again p ss h m j =
      pick (any (λ (s : Settled). s.result.stop) ss)
    where
      q : Progress
      q = merge_settled p.context ss (record p { ledger = w.ledger_after position p.ledger })

      after : Justified nodes q.completed
      after =
          merge_settled-Justified p.context ss
            (record p { ledger = w.ledger_after position p.ledger }) m j

      pick : (b : Bool) → EndsJustified (if b then stopped rest q else again q)
      pick true = after
      pick false = h q after

  after_run_batch-Justified :
      (w : World) (position : ℕ) (rest : List PlanNode) (again : Progress → LoopEnd) (p : Progress)
      (o : Option (List Settled))
      → ((q : Progress) → Justified nodes q.completed → EndsJustified (again q))
      → AllIf (MaySettle p.completed) o
      → Justified nodes p.completed
      → EndsJustified (after_batch w position rest again p o)
  after_run_batch-Justified w position rest again p none h m j = tt
  after_run_batch-Justified w position rest again p (some ss) h m j =
      after_batch-Justified w position rest again p ss h m j

All-left {ℓ κ} : {A : Type ℓ} (P : A → Type κ) (xs ys : List A) → All P (xs ++ ys) → All P xs
All-left P [] ys h = tt
All-left P (x ∷ xs) ys h = (h.0, All-left P xs ys h.1)

All-drop {ℓ κ} : {A : Type ℓ} (P : A → Type κ) (n : ℕ) (xs : List A) → All P xs → All P (drop n xs)
All-drop P zero xs h = h
All-drop P (suc n) [] h = tt
All-drop P (suc n) (x ∷ xs) h = All-drop P n xs h.1

All-both {ℓ κ μ} :
    {A : Type ℓ} (P : A → Type κ) (Q : A → Type μ) (xs : List A)
    → All P xs
    → All Q xs
    → All (λ x. P x × Q x) xs
All-both P Q [] h k = tt
All-both P Q (x ∷ xs) h k = ((h.0, k.0), All-both P Q xs h.1 k.1)

pick_branch {ℓ} :
    (P : LoopEnd → Type ℓ) (a b c : Bool) (e₁ e₂ e₃ e₄ : LoopEnd)
    → P e₁
    → (a ≡ false → P e₂)
    → (a ≡ false → c ≡ true → P e₃)
    → (a ≡ false → P e₄)
    → P (if a then e₁ else if b then e₂ else if c then e₃ else e₄)
pick_branch P true b c e₁ e₂ e₃ e₄ h₁ h₂ h₃ h₄ = h₁
pick_branch P false true c e₁ e₂ e₃ e₄ h₁ h₂ h₃ h₄ = h₂ refl
pick_branch P false false true e₁ e₂ e₃ e₄ h₁ h₂ h₃ h₄ = h₃ refl refl
pick_branch P false false false e₁ e₂ e₃ e₄ h₁ h₂ h₃ h₄ = h₄ refl

module _ (nodes : List PlanNode) (w : World) (plan : FetchPlan) (root : ℕ) where
  batch-MayRun :
      (node : PlanNode) (rest : List PlanNode) (completed : List String) (c : ExecutionContext)
      → All (λ (n : PlanNode). In n nodes) (node ∷ rest)
      → 1 < length (parallel_batch node rest completed c)
      → All
          (λ (n : PlanNode). In n nodes × (satisfied completed n ≡ true))
          (parallel_batch node rest completed c)
  batch-MayRun node rest completed c are big =
      let (start, small, may) = parallel_batch_lem node rest completed c big in
      let batch = parallel_batch node rest completed c in
      All-both (λ (n : PlanNode). In n nodes) (λ (n : PlanNode). satisfied completed n ≡ true) batch
        (All-left (λ (n : PlanNode). In n nodes) batch start.0
          (subst (All (λ (n : PlanNode). In n nodes)) start.1 are))
        (All-map (MayRun completed c) (λ (n : PlanNode). satisfied completed n ≡ true) (λ n h. h.0)
          batch may)

  run_loop-Justified :
      (fuel position : ℕ) (rest : List PlanNode) (p : Progress)
      → All (λ (n : PlanNode). In n nodes) rest
      → Justified nodes p.completed
      → EndsJustified nodes (run_loop w plan root fuel position rest p)
  unfolding run_loop skip pass_over
  run_loop-Justified zero position [] p are j = j
  run_loop-Justified zero position (node ∷ rest) p are j = tt
  run_loop-Justified (suc fuel) position [] p are j = j
  run_loop-Justified (suc fuel) position (node ∷ rest) p are j =
      pick_branch (EndsJustified nodes) (not (satisfied p.completed node))
        (p.context.accepted && is_set node.fallback_for) (ltb 1 (length batch)) _ _ _ _
        (run_loop-Justified fuel (suc position) rest (skip node p) are.1 j)
        (λ e.
          run_loop-Justified fuel (suc position) rest (pass_over node p) are.1
            (Justified-cons nodes node p.completed are.0 (ground arith) j))
        (λ e big.
          after_run_batch-Justified nodes w position (drop (length batch) (node ∷ rest)) _ p
            (run_batch w plan root position batch p)
            (λ q k.
              run_loop-Justified fuel (position + length batch) (drop (length batch) (node ∷ rest))
                q (All-drop (λ (n : PlanNode). In n nodes) (length batch) (node ∷ rest) are) k)
            (run_batch-nodes (λ (n : PlanNode). In n nodes × (satisfied p.completed n ≡ true)) w
              plan root position batch p
              (batch-MayRun node rest p.completed p.context are (ltb→lt 1 (length batch) big)))
            j)
        (λ e.
          after_single-Justified nodes node rest _ p
            (execute_node w.engine plan.request node root (w.elapsed position) p.context p.ledger)
            (λ q k. run_loop-Justified fuel (suc position) rest q are.1 k) are.0 (ground arith) j)
    where
      batch : List PlanNode
      batch = parallel_batch node rest p.completed p.context

All-In_self {ℓ} :
    {A : Type ℓ} (all' xs : List A)
    → ((a : A) → In a xs → In a all')
    → All (λ (a : A). In a all') xs
All-In_self all' [] h = tt
All-In_self all' (x ∷ xs) h = (h x (inl refl), All-In_self all' xs (λ a i. h a (inr i)))

-- When the loop of a run that begins with nothing completed is done with its nodes or stopped by one,
-- each identifier that it counts as completed is that of a node of the plan all of whose
-- dependencies are completed too, whether it ran alone, in a batch, or was passed over.
pub dependencies_first :
    (w : World) (plan : FetchPlan) (root fuel : ℕ) (p : Progress)
    → p.completed ≡ []
    → EndsJustified plan.nodes (run_loop w plan root fuel 0 plan.nodes p)
dependencies_first w plan root fuel p e =
    run_loop-Justified plan.nodes w plan root fuel 0 plan.nodes p
      (All-In_self plan.nodes plan.nodes (λ a i. i)) (rw e tt)
