-- ===== src/Executor/Run.antt =====
-- src/fetech/executor.py: `execute`.
pub mod Order
pub mod Ends
pub mod Report
use Prim.Native.String.{◌++◌ as append}
use fetech.Prelude.{
  ℕ, zero, suc, ◌+◌, ◌-◌, ◌==◌, String, ◌=s=◌, ◌&&◌, ◌||◌, not, Bool, true, false, Option, none,
  some, List, [], ◌∷◌, ◌++◌, leb, ltb, if◌then◌else◌, elem, any, length, drop, get_elem?,
}
use fetech.Prelude.Dict.{Dict, insert}
use fetech.Models.Status.{ResultStatus, OutcomeStatus}
use fetech.Models.Request.{ResourceBudget}
use fetech.Models.Plan.{PlanNode, FetchPlan}
use fetech.Models.Record.{Detail, text, number}
use fetech.Executor.Context.{ExecutionContext, record_outcome}
use fetech.Executor.Budget.{remaining_of_run}
use fetech.Executor.Failure.{Signal, other}
use fetech.Executor.Ledger.{Ledger, emit}
use fetech.Executor.Attempts.{Flags, status_of}
use fetech.Executor.Node.{
  NodeExecution, NodeResult, ended, raised, Engine, add_diagnostic, reason, execute_node,
}
use fetech.Executor.Batch.{
  capture, satisfied, is_set, parallel_batch, branch_context, merge_parallel_context, Branch,
  Settled, settle, in_order,
}

-- What the loop of `execute` keeps. `completed` is a set: order and repetitions are not read.
pub record Progress : Type 0 where
  pub context : ExecutionContext
  pub completed : List String
  pub flags : Flags
  pub ledger : Ledger

-- What the run meets outside: how long it has lasted when a node begins, the sets of tasks that
-- `asyncio.wait` reports for the batch at a position, the adapters as the tasks that are cancelled meet
-- them, and the ledger after the tasks of a batch have appended their events in some order.
pub record World : Type 0 where
  pub engine : Engine
  pub elapsed : ℕ → ℕ
  pub rounds : ℕ → List (List ℕ)
  pub engine_cancelled : Engine
  pub ledger_after : ℕ → Ledger → Ledger

abbrev pub add_if : Bool → String → List String → List String
add_if true id completed = id ∷ completed
add_if false id completed = completed

abbrev pub add_flags : NodeExecution → Flags → Flags
add_flags r f = record {
  policy_blocked = f.policy_blocked || r.policy_blocked;
  dependency_missing = f.dependency_missing || r.dependency_missing;
  budget_exhausted = f.budget_exhausted || r.budget_exhausted;
  auth_required = f.auth_required || r.auth_required;
  not_found = f.not_found || r.not_found;
  failed = f.failed || r.failed;
}

-- A node whose dependencies did not complete.
unfoldable pub skip : PlanNode → Progress → Progress
skip node p = record p {
  context =
      record_outcome node.capability_id OutcomeStatus.not_applicable node.adapter
        (reason "dependencies did not complete")
        (add_diagnostic "dependency_skipped" (append node.id " dependencies did not complete")
          p.context);
}

abbrev pub or_empty : Option String → String
or_empty none = ""
or_empty (some t) = t

-- A fallback after something was accepted.
unfoldable pub pass_over : PlanNode → Progress → Progress
pass_over node p = record p {
  context =
      record_outcome node.capability_id OutcomeStatus.not_applicable node.adapter
        (reason (
          append "accepted artifact made fallback for "
            (append (or_empty node.fallback_for) " unnecessary")))
        p.context;
  completed = node.id ∷ p.completed;
}

abbrev pub after_node : PlanNode → NodeExecution → ExecutionContext → Ledger → Progress → Progress
after_node node r c g p = record {
  context = c;
  completed = add_if r.completed node.id p.completed;
  flags = add_flags r p.flags;
  ledger = g;
}

abbrev pub tasks_of : ℕ → List PlanNode → List (ℕ × PlanNode)
tasks_of i [] = []
tasks_of i (n ∷ ns) = (i, n) ∷ tasks_of (suc i) ns

abbrev pub with_reason : String → ExecutionContext → ExecutionContext
with_reason why c = record c {
  sensitive_state = insert "_parallel_cancellation_reason" why c.sensitive_state;
}

-- The task of one node of a batch, on its own context.
unfoldable pub branch_of : World → FetchPlan → ℕ → ℕ → Progress → ℕ → ℕ → PlanNode → Branch
branch_of w plan root position p count i node =
    let c = branch_context p.context count i in
    record {
      index = i;
      node = node;
      finished =
          (let r = execute_node w.engine plan.request node root (w.elapsed position) c p.ledger in
            (r.0, r.1));
      cancelled = λ why.
          (let r =
              execute_node w.engine_cancelled plan.request node root (w.elapsed position)
                (with_reason why c) p.ledger in
            (r.0, r.1));
    }

abbrev pub pick_tasks : (ℕ → PlanNode → Branch) → List PlanNode → List ℕ → List Branch
pick_tasks make nodes [] = []
pick_tasks make nodes (i ∷ is') = elim (get_elem? nodes i) [
  | none ↦ pick_tasks make nodes is'
  | some n ↦ make i n ∷ pick_tasks make nodes is'
]

abbrev pub pick_rounds :
    (ℕ → PlanNode → Branch) → List PlanNode → List (List ℕ) → List (List Branch)
pick_rounds make nodes [] = []
pick_rounds make nodes (r ∷ rs) = pick_tasks make nodes r ∷ pick_rounds make nodes rs

-- The loop over the branches of a settled batch.
unfoldable pub merge_settled : ExecutionContext → List Settled → Progress → Progress
merge_settled before [] p = p
merge_settled before (s ∷ ss) p = merge_settled before ss (record {
  context = merge_parallel_context (capture before) p.context s.context;
  completed = add_if s.result.completed s.node.id p.completed;
  flags = add_flags s.result p.flags;
  ledger = p.ledger;
})

-- How the loop ends: after the last node, by a node that says stop, or by an exception. The nodes that
-- were not reached are kept in the second case.
pub data LoopEnd : Type 0 where
  all_done : Progress → LoopEnd
  stopped : List PlanNode → Progress → LoopEnd
  gave_up : Signal → LoopEnd
  out_of_fuel : LoopEnd

abbrev pub after_single :
    PlanNode
    → List PlanNode
    → (Progress → LoopEnd)
    → Progress
    → NodeResult × ExecutionContext × Ledger
    → LoopEnd
after_single node rest again p (raised s, c, g) = gave_up s
after_single node rest again p (ended r, c, g) =
    let q = after_node node r c g p in let next = again q in if r.stop then stopped rest q else next

abbrev pub after_batch :
    World → ℕ → List PlanNode → (Progress → LoopEnd) → Progress → Option (List Settled) → LoopEnd
after_batch w position rest again p none = gave_up other
after_batch w position rest again p (some ss) =
    let q = merge_settled p.context ss (record p { ledger = w.ledger_after position p.ledger }) in
    let next = again q in if any (λ (s : Settled). s.result.stop) ss then stopped rest q else next

-- An exception of a batch is passed on; which one is left open.
abbrev pub run_batch : World → FetchPlan → ℕ → ℕ → List PlanNode → Progress → Option (List Settled)
run_batch w plan root position batch p =
    elim (settle p.context.accepted
      (pick_rounds (branch_of w plan root position p (length batch)) batch (w.rounds position))) [
        | none ↦ none
        | some ss ↦ in_order (length batch) 0 ss
      ]

-- The `while` loop from `position` on. Each round takes at least one node, so as many rounds as there
-- are nodes are enough; `out_of_fuel` does not occur then.
unfoldable pub run_loop : World → FetchPlan → ℕ → ℕ → ℕ → List PlanNode → Progress → LoopEnd
run_loop w plan root zero position [] p = all_done p
run_loop w plan root zero position (node ∷ rest) p = out_of_fuel
run_loop w plan root (suc fuel) position [] p = all_done p
run_loop w plan root (suc fuel) position (node ∷ rest) p =
    let skipped = run_loop w plan root fuel (suc position) rest (skip node p) in
    let passed = run_loop w plan root fuel (suc position) rest (pass_over node p) in
    let batch = parallel_batch node rest p.completed p.context in
    let left = drop (length batch) (node ∷ rest) in
    let together =
      after_batch w position left
        (λ (q : Progress). run_loop w plan root fuel (position + length batch) left q) p
        (run_batch w plan root position batch p) in
    let alone =
      after_single node rest (λ (q : Progress). run_loop w plan root fuel (suc position) rest q) p
        (execute_node w.engine plan.request node root (w.elapsed position) p.context p.ledger) in
    if not (satisfied p.completed node)
    then skipped
    else if p.context.accepted && is_set node.fallback_for
    then passed
    else if ltb 1 (length batch)
    then together
    else alone

abbrev pub no_flags : Flags
no_flags = record {
  policy_blocked = false;
  dependency_missing = false;
  budget_exhausted = false;
  auth_required = false;
  not_found = false;
  failed = false;
}

abbrev empty_context : FetchPlan → ExecutionContext
empty_context plan = record {
  request = plan.execution_request;
  resources = [];
  artifacts = [];
  attempts = [];
  capability_outcomes = [];
  policy_decisions = [];
  diagnostics = [];
  accepted = false;
  crawl_report = none;
  sensitive_state = [];
  pending_events = [];
}

-- The outcomes that `execute` adds after its loop.
unfoldable pub closing_outcomes : FetchPlan → ExecutionContext → ExecutionContext
closing_outcomes plan c =
    let logged =
      record_outcome "fetch_attempt_logging" OutcomeStatus.applied "ledger"
        (("attempts", number (length c.attempts)) ∷ []) c in
    let timed =
      record_outcome "timeout_diagnostics" OutcomeStatus.applied "executor"
        (("deadline_seconds", number plan.request.budget.deadline_seconds) ∷ []) logged in
    let expiry =
      record_outcome "cache_expiry_check" OutcomeStatus.not_applicable "cache"
        (reason "no validated cache record was consulted") timed in
    if any (λ o. o.capability_id =s= "cache_expiry_check") timed.capability_outcomes
    then timed
    else expiry

-- FetchResult, before it is sanitized
pub record FetchResult : Type 0 where
  pub status : ResultStatus
  pub context : ExecutionContext
  pub remaining_budget : ResourceBudget
  pub ledger : Ledger

abbrev pub status_text : ResultStatus → String
status_text ResultStatus.succeeded = "SUCCEEDED"
status_text ResultStatus.partial = "PARTIAL"
status_text ResultStatus.blocked_by_policy = "BLOCKED_BY_POLICY"
status_text ResultStatus.auth_required = "AUTH_REQUIRED"
status_text ResultStatus.dependency_missing = "DEPENDENCY_MISSING"
status_text ResultStatus.budget_exhausted = "BUDGET_EXHAUSTED"
status_text ResultStatus.low_quality = "LOW_QUALITY"
status_text ResultStatus.not_found = "NOT_FOUND"
status_text ResultStatus.failed = "FAILED"

unfoldable pub conclude : FetchPlan → ℕ → ℕ → ℕ → Progress → FetchResult
conclude plan root least elapsed p =
    let c = closing_outcomes plan p.context in
    let status = status_of c p.flags in
    record {
      status = status;
      context = c;
      remaining_budget = remaining_of_run plan.request.budget least elapsed c;
      ledger =
          emit "run.finished" "executor" (("status", text (status_text status)) ∷ []) (root ∷ [])
            p.ledger;
    }

-- The result of the run, or the exception that it passes on.
pub data RunEnd : Type 0 where
  result : FetchResult → RunEnd
  failure : Signal → RunEnd

abbrev pub end_run : FetchPlan → ℕ → ℕ → ℕ → LoopEnd → RunEnd
end_run plan root least elapsed (all_done p) = result (conclude plan root least elapsed p)
end_run plan root least elapsed (stopped rest p) = result (conclude plan root least elapsed p)
end_run plan root least elapsed (gave_up s) = failure s
end_run plan root least elapsed out_of_fuel = failure other

-- The identifier of the plan is left out of the payload; a plan of the planner has this classifier.
abbrev pub first_progress : FetchPlan → Ledger → Progress
first_progress plan g = record {
  context = empty_context plan;
  completed = [];
  flags = no_flags;
  ledger = emit "plan.started" "planner" (("classifier", text "rules-v1") ∷ []) [] g;
}

-- execute, which lasts `elapsed` in all; the events of the run start empty
unfoldable pub execute : World → FetchPlan → ℕ → ℕ → Ledger → RunEnd
execute w plan least elapsed g =
    end_run plan g.next_id least elapsed
      (run_loop w plan g.next_id (length plan.nodes) 0 plan.nodes (first_progress plan g))
