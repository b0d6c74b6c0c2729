-- ===== src/Executor/Batch/Group.antt =====
-- Which nodes `_parallel_batch` takes.
use fetech.Prelude.{
  ℕ, zero, suc, ◌-◌, ◌<◌, ◌≤◌, ◌≡◌, ◌⊎◌, refl, inl, inr, Bool, true, false, not, ◌||◌, List, [],
  ◌∷◌, ◌++◌, String, length, leb, All, Bool-cases, arith,
}
use fetech.Models.Plan.{PlanNode}
use fetech.Executor.Context.{ExecutionContext}
use fetech.Executor.Batch.{satisfied, is_set, breaks, gather, or_first, in_group, parallel_batch}

-- The list starts with `batch`.
abbrev pub StartsWith : List PlanNode → List PlanNode → Type 0
StartsWith batch nodes = (rest : List PlanNode) × (nodes ≡ batch ++ rest)

abbrev pub MayRun : List String → ExecutionContext → PlanNode → Type 0
MayRun completed c n =
    (satisfied completed n ≡ true)
    × (n.requires_approval ≡ false)
    × ((c.accepted ≡ false) ⊎ (is_set n.fallback_for ≡ false))

module _ (first : PlanNode) (completed : List String) (c : ExecutionContext) where
  not-breaks : (n : PlanNode) → breaks first completed c n ≡ false → MayRun completed c n
  not-breaks n h = (ground arith, ground arith, ground arith)

  gather-MayRun :
      (room : ℕ) (nodes : List PlanNode)
      → All (MayRun completed c) (gather first completed c room nodes)
  unfolding gather
  gather-MayRun zero nodes = tt
  gather-MayRun (suc room) [] = tt
  gather-MayRun (suc room) (n ∷ rest) = elim (Bool-cases (breaks first completed c n)) [
    | inl e ↦ rw e tt
    | inr e ↦ rw e (not-breaks n e, gather-MayRun room rest)
  ]

  gather-StartsWith :
      (room : ℕ) (nodes : List PlanNode) → StartsWith (gather first completed c room nodes) nodes
  unfolding gather
  gather-StartsWith zero nodes = (nodes, refl)
  gather-StartsWith (suc room) [] = ([], refl)
  gather-StartsWith (suc room) (n ∷ rest) = elim (Bool-cases (breaks first completed c n)) [
    | inl e ↦ rw e (n ∷ rest, refl)
    | inr e ↦ let (tail, q) = gather-StartsWith room rest in rw e (tail, (λ i. n ∷ q i))
  ]

  length-gather :
      (room : ℕ) (nodes : List PlanNode) → length (gather first completed c room nodes) ≤ room
  unfolding gather
  length-gather zero nodes = omega arith
  length-gather (suc room) [] = omega arith
  length-gather (suc room) (n ∷ rest) = ground (arith, length-gather room rest)

-- A batch of `_parallel_batch` with more than one node is a run of consecutive nodes from the first
-- on, no more of them than attempts are left; each has its dependencies completed, needs no approval,
-- and is no fallback once something was accepted.
pub parallel_batch_lem :
    (first : PlanNode) (rest : List PlanNode) (completed : List String) (c : ExecutionContext)
    → 1 < length (parallel_batch first rest completed c)
    → StartsWith (parallel_batch first rest completed c) (first ∷ rest)
      × (length (parallel_batch first rest completed c)
          ≤ c.request.budget.attempts - length c.attempts)
      × All (MayRun completed c) (parallel_batch first rest completed c)
unfolding parallel_batch
parallel_batch_lem first rest completed c big = elim (Bool-cases single) [
  | inl e ↦ absurd (let one : 1 < length (first ∷ []) = rw e at big in omega arith)
  | inr e ↦ rw e (
      at_group (gather first completed c room (first ∷ rest)) (rw e at big)
        (gather-StartsWith first completed c room (first ∷ rest))
        (length-gather first completed c room (first ∷ rest))
        (gather-MayRun first completed c room (first ∷ rest)))
]
  where
    room : ℕ
    room = c.request.budget.attempts - length c.attempts

    single : Bool
    single = not (in_group first.parallel_group) || (first.requires_approval || leb room 1)

    at_group :
        (b : List PlanNode)
        → 1 < length (or_first first b)
        → StartsWith b (first ∷ rest)
        → length b ≤ room
        → All (MayRun completed c) b
        → StartsWith (or_first first b) (first ∷ rest)
          × (length (or_first first b) ≤ room)
          × All (MayRun completed c) (or_first first b)
    at_group [] l s n a = absurd (omega arith)
    at_group (n' ∷ ns) l s n a = (s, n, a)

-- A batch has at least one node.
pub parallel_batch_pos :
    (first : PlanNode) (rest : List PlanNode) (completed : List String) (c : ExecutionContext)
    → 0 < length (parallel_batch first rest completed c)
unfolding parallel_batch
parallel_batch_pos first rest completed c = elim (Bool-cases single) [
  | inl e ↦ rw e (omega arith)
  | inr e ↦ rw e (pos (gather first completed c room (first ∷ rest)))
]
  where
    room : ℕ
    room = c.request.budget.attempts - length c.attempts

    single : Bool
    single = not (in_group first.parallel_group) || (first.requires_approval || leb room 1)

    pos : (b : List PlanNode) → 0 < length (or_first first b)
    pos [] = omega arith
    pos (n' ∷ ns) = omega arith
