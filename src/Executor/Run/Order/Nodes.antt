-- ===== src/Executor/Run/Order/Nodes.antt =====
-- The settled tasks of a batch are those of its nodes.
use fetech.Prelude.{
  ℕ, zero, suc, ◌==◌, ◌≡◌, refl, Bool, true, false, ◌&&◌, ◌||◌, Option, none, some, List, [], ◌∷◌,
  length, get_elem?, any, All, All-append, All-get_elem?, if◌then◌else◌,
}
use fetech.Models.Plan.{PlanNode, FetchPlan}
use fetech.Executor.Node.{NodeExecution, NodeResult}
use fetech.Executor.Context.{ExecutionContext}
use fetech.Executor.Batch.{
  Branch, Settled, of_result, is_stop, wins, loser, losers, settled_tasks, results_of, join,
  prepend, has_more, settle, find_index, in_order,
}
use fetech.Executor.Run.{Progress, World, branch_of, pick_tasks, pick_rounds, run_batch}

-- Every value of an optional list.
abbrev pub AllIf {ℓ κ} : {A : Type ℓ} → (A → Type κ) → Option (List A) → Type κ
AllIf P none = Unit
AllIf P (some xs) = All P xs

module _ (Q : PlanNode → Type 0) where
  abbrev OfBranch : Branch → Type 0
  OfBranch b = Q b.node

  abbrev pub OfSettled : Settled → Type 0
  OfSettled s = Q s.node

  abbrev AllRounds : List (List Branch) → Type 0
  AllRounds = All (All OfBranch)

  settled_tasks-nodes :
      (counts : NodeResult → Option NodeExecution) (how : Branch → NodeResult × ExecutionContext)
      (bs : List Branch)
      → All OfBranch bs
      → AllIf OfSettled (settled_tasks counts how bs)
  settled_tasks-nodes counts how [] h = tt
  settled_tasks-nodes counts how (b ∷ bs) h =
      tail (settled_tasks counts how bs) (settled_tasks-nodes counts how bs h.1)
    where
      head :
          (rest : List Settled) (o : Option NodeExecution)
          → All OfSettled rest
          → AllIf OfSettled (elim o [
            | none ↦ none
            | some r ↦
                some (
                  record { index = b.index; node = b.node; result = r; context = (how b).1 } ∷ rest)
          ])
      head rest none t = tt
      head rest (some r) t = (h.0, t)

      tail :
          (o : Option (List Settled))
          → AllIf OfSettled o
          → AllIf OfSettled (elim o [
            | none ↦ none
            | some rest ↦ elim (counts (how b).0) [
              | none ↦ none
              | some r ↦ some (
                  record { index = b.index; node = b.node; result = r; context = (how b).1 } ∷ rest)
            ]
          ])
      tail none t = tt
      tail (some rest) t = head rest (counts (how b).0) t

  join-nodes : (gs : List (List Branch)) → AllRounds gs → All OfBranch (join gs)
  join-nodes [] h = tt
  join-nodes (g ∷ gs) h = All-append OfBranch g (join gs) h.0 (join-nodes gs h.1)

  prepend-nodes :
      (o p : Option (List Settled))
      → AllIf OfSettled o
      → AllIf OfSettled p
      → AllIf OfSettled (prepend o p)
  prepend-nodes none p h k = tt
  prepend-nodes (some xs) none h k = tt
  prepend-nodes (some xs) (some ys) h k = All-append OfSettled xs ys h k

  if-nodes :
      (b : Bool) (o p : Option (List Settled))
      → AllIf OfSettled o
      → AllIf OfSettled p
      → AllIf OfSettled (if b then o else p)
  if-nodes true o p h k = h
  if-nodes false o p h k = k

  settle-nodes :
      (accepted : Bool) (gs : List (List Branch))
      → AllRounds gs
      → AllIf OfSettled (settle accepted gs)
  unfolding settle
  settle-nodes accepted [] h = tt
  settle-nodes accepted (done ∷ pending) h =
      let won = any (wins accepted) done in
      let stopped = any (λ (b : Branch). is_stop b.finished.0) done in
      let why = if won then "early_stop" else "parallel_sibling_stopped_execution" in
      prepend-nodes (results_of done) _ (settled_tasks-nodes of_result (λ b. b.finished) done h.0) (
        if-nodes (has_more pending && (won || stopped)) (losers why (join pending))
          (settle accepted pending)
          (settled_tasks-nodes loser (λ b. b.cancelled why) (join pending) (join-nodes pending h.1))
          (settle-nodes accepted pending h.1))

  abbrev OneIf : Option Settled → Type 0
  OneIf none = Unit
  OneIf (some s) = OfSettled s

  find_index-nodes : (i : ℕ) (ss : List Settled) → All OfSettled ss → OneIf (find_index i ss)
  find_index-nodes i [] h = tt
  find_index-nodes i (s ∷ ss) h = pick (s.index == i) (find_index-nodes i ss h.1)
    where
      pick : (b : Bool) → OneIf (find_index i ss) → OneIf (if b then some s else find_index i ss)
      pick true t = h.0
      pick false t = t

  in_order-nodes :
      (n i : ℕ) (ss : List Settled) → All OfSettled ss → AllIf OfSettled (in_order n i ss)
  in_order-nodes zero i ss h = tt
  in_order-nodes (suc n) i ss h =
      head (find_index i ss) (find_index-nodes i ss h) (in_order-nodes n (suc i) ss h)
    where
      tail :
          (s : Settled) (o : Option (List Settled))
          → OfSettled s
          → AllIf OfSettled o
          → AllIf OfSettled (elim o [ none ↦ none | some rest ↦ some (s ∷ rest) ])
      tail s none q t = tt
      tail s (some rest) q t = (q, t)

      head :
          (o : Option Settled)
          → OneIf o
          → AllIf OfSettled (in_order n (suc i) ss)
          → AllIf OfSettled (elim o [
            | none ↦ none
            | some s ↦ elim (in_order n (suc i) ss) [ none ↦ none | some rest ↦ some (s ∷ rest) ]
          ])
      head none t ih = tt
      head (some s) t ih = tail s (in_order n (suc i) ss) t ih

  pick_tasks-nodes :
      (make : ℕ → PlanNode → Branch)
      → ((i : ℕ) (n : PlanNode) → (make i n).node ≡ n)
      → (nodes : List PlanNode) → All Q nodes
      → (is' : List ℕ) → All OfBranch (pick_tasks make nodes is')
  pick_tasks-nodes make same nodes h [] = tt
  pick_tasks-nodes make same nodes h (i ∷ is') =
      pick (get_elem? nodes i) refl (pick_tasks-nodes make same nodes h is')
    where
      pick :
          (o : Option PlanNode)
          → get_elem? nodes i ≡ o
          → All OfBranch (pick_tasks make nodes is')
          → All OfBranch (elim o [
            | none ↦ pick_tasks make nodes is'
            | some n ↦ make i n ∷ pick_tasks make nodes is'
          ])
      pick none e ih = ih
      pick (some n) e ih = (rw same (All-get_elem? Q nodes i n h e), ih)

  pick_rounds-nodes :
      (make : ℕ → PlanNode → Branch)
      → ((i : ℕ) (n : PlanNode) → (make i n).node ≡ n)
      → (nodes : List PlanNode) → All Q nodes
      → (rs : List (List ℕ)) → AllRounds (pick_rounds make nodes rs)
  pick_rounds-nodes make same nodes h [] = tt
  pick_rounds-nodes make same nodes h (r ∷ rs) =
      (pick_tasks-nodes make same nodes h r, pick_rounds-nodes make same nodes h rs)

  -- Whatever the nodes of a batch have in common, those of its settled tasks have.
  pub run_batch-nodes :
      (w : World) (plan : FetchPlan) (root position : ℕ) (batch : List PlanNode) (p : Progress)
      → All Q batch
      → AllIf OfSettled (run_batch w plan root position batch p)
  unfolding branch_of
  run_batch-nodes w plan root position batch p h =
      go
        (settle p.context.accepted
          (pick_rounds (branch_of w plan root position p (length batch)) batch (w.rounds position)))
        (settle-nodes p.context.accepted _ (
          pick_rounds-nodes (branch_of w plan root position p (length batch)) (λ i n. refl) batch h
            (w.rounds position)))
    where
      go :
          (o : Option (List Settled))
          → AllIf OfSettled o
          → AllIf OfSettled (elim o [ none ↦ none | some ss ↦ in_order (length batch) 0 ss ])
      go none t = tt
      go (some ss) t = in_order-nodes (length batch) 0 ss t
