-- ===== src/Executor/Batch.antt =====
-- src/fetech/executor.py: `_ContextLengths`, `_parallel_batch`, `_parallel_contexts`,
-- `_merge_parallel_context` and `_execute_parallel_batch`.
pub mod Group
pub mod Merge
use fetech.Prelude.{
  ℕ, zero, suc, ◌+◌, ◌-◌, ◌==◌, String, ◌=s=◌, ◌&&◌, ◌||◌, not, Bool, true, false, Option, none,
  some, List, [], ◌∷◌, ◌++◌, map, leb, if◌then◌else◌, elem, any, all, length, drop,
}
use fetech.Prelude.Dict.{insert}
use fetech.Models.Request.{ResourceBudget}
use fetech.Models.Plan.{PlanNode}
use fetech.Models.Record.{CrawlReport}
use fetech.Executor.Context.{ExecutionContext}
use fetech.Executor.Budget.{branch_budget}
use fetech.Executor.Failure.{Signal, cancelled}
use fetech.Executor.Node.{NodeExecution, NodeResult, ended, raised, nothing}

-- _ContextLengths
pub record ContextLengths : Type 0 where
  pub resources : ℕ
  pub artifacts : ℕ
  pub attempts : ℕ
  pub capability_outcomes : ℕ
  pub policy_decisions : ℕ
  pub diagnostics : ℕ
  pub pending_events : ℕ
  pub accepted : Bool

abbrev pub capture : ExecutionContext → ContextLengths
capture c = record {
  resources = length c.resources;
  artifacts = length c.artifacts;
  attempts = length c.attempts;
  capability_outcomes = length c.capability_outcomes;
  policy_decisions = length c.policy_decisions;
  diagnostics = length c.diagnostics;
  pending_events = length c.pending_events;
  accepted = c.accepted;
}

-- set(node.dependencies).issubset(completed)
abbrev pub satisfied : List String → PlanNode → Bool
satisfied completed node = all (λ d. elem d completed) node.dependencies

-- The truth of an optional text: neither missing nor empty.
abbrev pub is_set : Option String → Bool
is_set none = false
is_set (some t) = not (t =s= "")

abbrev pub same_group : Option String → Option String → Bool
same_group none none = true
same_group (some a) (some b) = a =s= b
same_group _ _ = false

-- The candidate is where the `for` loop of `_parallel_batch` breaks.
abbrev pub breaks : PlanNode → List String → ExecutionContext → PlanNode → Bool
breaks first completed c candidate =
    not (same_group candidate.parallel_group first.parallel_group)
    || (candidate.requires_approval
        || (not (satisfied completed candidate) || (c.accepted && is_set candidate.fallback_for)))

-- The loop; `room` is how many more nodes the remaining attempts allow.
unfoldable pub gather :
    PlanNode → List String → ExecutionContext → ℕ → List PlanNode → List PlanNode
gather first completed c zero nodes = []
gather first completed c (suc room) [] = []
gather first completed c (suc room) (candidate ∷ rest) =
    let more = gather first completed c room rest in
    if breaks first completed c candidate then [] else candidate ∷ more

abbrev pub or_first : PlanNode → List PlanNode → List PlanNode
or_first first [] = first ∷ []
or_first first (n ∷ ns) = n ∷ ns

abbrev pub in_group : Option String → Bool
in_group none = false
in_group (some g) = true

-- _parallel_batch of the nodes from `start` on, the first of which is `first`
unfoldable pub parallel_batch :
    PlanNode → List PlanNode → List String → ExecutionContext → List PlanNode
parallel_batch first rest completed c =
    let room = c.request.budget.attempts - length c.attempts in
    if not (in_group first.parallel_group) || (first.requires_approval || leb room 1)
    then first ∷ []
    else or_first first (gather first completed c room (first ∷ rest))

abbrev pub with_budget : ExecutionContext → ResourceBudget → ExecutionContext
with_budget c b = record c { request = record c.request { budget = b } }

-- _parallel_contexts: the context of the branch at `index` of `count`
unfoldable pub branch_context : ExecutionContext → ℕ → ℕ → ExecutionContext
branch_context c count index = with_budget c (branch_budget c count index)

abbrev pub newer : Option CrawlReport → Option CrawlReport → Option CrawlReport
newer old none = old
newer old (some r) = some r

abbrev pub update_all : List (String × String) → List (String × String) → List (String × String)
update_all d [] = d
update_all d ((k, v) ∷ rest) = update_all (insert k v d) rest

-- _merge_parallel_context
unfoldable pub merge_parallel_context :
    ContextLengths → ExecutionContext → ExecutionContext → ExecutionContext
merge_parallel_context baseline c branch = record c {
  resources = c.resources ++ drop baseline.resources branch.resources;
  artifacts = c.artifacts ++ drop baseline.artifacts branch.artifacts;
  attempts = c.attempts ++ drop baseline.attempts branch.attempts;
  capability_outcomes =
      c.capability_outcomes ++ drop baseline.capability_outcomes branch.capability_outcomes;
  policy_decisions = c.policy_decisions ++ drop baseline.policy_decisions branch.policy_decisions;
  diagnostics = c.diagnostics ++ drop baseline.diagnostics branch.diagnostics;
  pending_events = c.pending_events ++ drop baseline.pending_events branch.pending_events;
  accepted = c.accepted || branch.accepted;
  crawl_report = newer c.crawl_report branch.crawl_report;
  sensitive_state = update_all c.sensitive_state branch.sensitive_state;
}

-- One task: its position and node, how it ends left alone, and how it ends once it is cancelled with
-- a reason (`early_stop` or `parallel_sibling_stopped_execution`).
pub record Branch : Type 0 where
  pub index : ℕ
  pub node : PlanNode
  pub finished : NodeResult × ExecutionContext
  pub cancelled : String → NodeResult × ExecutionContext

-- A task that is settled, with what `_NodeExecution` stands for it.
pub record Settled : Type 0 where
  pub index : ℕ
  pub node : PlanNode
  pub result : NodeExecution
  pub context : ExecutionContext

abbrev pub of_result : NodeResult → Option NodeExecution
of_result (ended r) = some r
of_result (raised s) = none

abbrev pub is_stop : NodeResult → Bool
is_stop (ended r) = r.stop
is_stop (raised s) = false

abbrev pub is_completed : NodeResult → Bool
is_completed (ended r) = r.completed
is_completed (raised s) = false

abbrev pub wins : Bool → Branch → Bool
wins accepted_before b =
    is_completed b.finished.0
    && (b.node.stop_on_acceptance && (not accepted_before && b.finished.1.accepted))

-- What a task that was cancelled counts as: one that the cancellation ended has completed, one that
-- ended nevertheless keeps its result, and another exception is raised by `task.result()`.
abbrev pub loser : NodeResult → Option NodeExecution
loser (ended r) = some r
loser (raised cancelled) = some (record nothing { completed = true })
loser (raised s) = none

-- The tasks with what they count as; `none` when one raises
abbrev pub settled_tasks :
    (NodeResult → Option NodeExecution)
    → (Branch → NodeResult × ExecutionContext)
    → List Branch
    → Option (List Settled)
settled_tasks counts how [] = some []
settled_tasks counts how (b ∷ bs) = elim (settled_tasks counts how bs) [
  | none ↦ none
  | some rest ↦ elim (counts (how b).0) [
    | none ↦ none
    | some r ↦
        some (record { index = b.index; node = b.node; result = r; context = (how b).1 } ∷ rest)
  ]
]

-- task.result() of the done tasks
abbrev pub results_of : List Branch → Option (List Settled)
results_of bs = settled_tasks of_result (λ b. b.finished) bs

-- What the tasks that are cancelled count as
abbrev pub losers : String → List Branch → Option (List Settled)
losers why bs = settled_tasks loser (λ b. b.cancelled why) bs

abbrev pub join : List (List Branch) → List Branch
join [] = []
join (g ∷ gs) = g ++ join gs

abbrev pub prepend : Option (List Settled) → Option (List Settled) → Option (List Settled)
prepend none _ = none
prepend (some xs) none = none
prepend (some xs) (some ys) = some (xs ++ ys)

abbrev pub has_more : List (List Branch) → Bool
has_more [] = false
has_more (g ∷ gs) = true

-- The `while pending` loop of `_execute_parallel_batch`, over the sets of tasks that `asyncio.wait`
-- reports one after the other. `none` is an exception that the batch raises again.
unfoldable pub settle : Bool → List (List Branch) → Option (List Settled)
settle accepted_before [] = some []
settle accepted_before (done ∷ pending) =
    let later = settle accepted_before pending in
    let won = any (wins accepted_before) done in
    let stopped = any (λ (b : Branch). is_stop b.finished.0) done in
    let why = if won then "early_stop" else "parallel_sibling_stopped_execution" in
    let rest = if has_more pending && (won || stopped) then losers why (join pending) else later in
    prepend (results_of done) rest

abbrev pub find_index : ℕ → List Settled → Option Settled
find_index i [] = none
find_index i (s ∷ ss) = let later = find_index i ss in if s.index == i then some s else later

-- The results in the order of the nodes; `none` is the RuntimeError for a missing one.
abbrev pub in_order : ℕ → ℕ → List Settled → Option (List Settled)
in_order zero i ss = some []
in_order (suc n) i ss = elim (find_index i ss) [
  | none ↦ none
  | some s ↦ elim (in_order n (suc i) ss) [ none ↦ none | some rest ↦ some (s ∷ rest) ]
]
