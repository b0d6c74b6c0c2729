-- ===== src/Executor/Node.antt =====
-- src/fetech/executor.py: `_NodeExecution` and `_execute_node`.
pub mod Outcomes
pub mod Events
use Prim.Native.String.{◌++◌ as append}
use fetech.Prelude.{
  ℕ, suc, ◌==◌, String, Bool, true, false, Option, none, some, List, [], ◌∷◌, ◌++◌, leb,
  if◌then◌else◌, length, last?,
}
use fetech.Prelude.Dict.{Dict, lookup, remove}
use fetech.Models.Status.{OutcomeStatus}
use fetech.Models.Request.{FetchRequest}
use fetech.Models.Plan.{PlanNode}
use fetech.Models.Record.{Detail, text, number, PolicyDecision, Diagnostic, Artifact}
use fetech.Executor.Context.{ExecutionContext, record_outcome}
use fetech.Executor.Failure.{
  Signal, ExecutionFailure, returned, budget_exceeded, policy_blocked, dependency, auth_expired,
  auth_required, not_found, timeout, cancelled, execution, invalid, other,
}
use fetech.Executor.Retry.{Operation, Pauses, with_retries}
use fetech.Executor.Ledger.{Ledger, emit, flush_pending_events}
use fetech.Executor.Attempts.{
  mark_running_attempt_failed, mark_running_attempt_cancelled, ensure_deadline_attempt_failed,
  ensure_outcome, enforce_approval,
}

-- _NodeExecution
pub record NodeExecution : Type 0 where
  pub completed : Bool
  pub dependency_missing : Bool
  pub policy_blocked : Bool
  pub budget_exhausted : Bool
  pub auth_required : Bool
  pub not_found : Bool
  pub failed : Bool
  pub stop : Bool

abbrev pub nothing : NodeExecution
nothing = record {
  completed = false;
  dependency_missing = false;
  policy_blocked = false;
  budget_exhausted = false;
  auth_required = false;
  not_found = false;
  failed = false;
  stop = false;
}

-- How the method ends: it returns, or it raises what the `except` clauses do not turn into a result.
pub data NodeResult : Type 0 where
  ended : NodeExecution → NodeResult
  raised : Signal → NodeResult

-- What the engine is given: the adapters, how the pauses between tries end, and the sanitized target
-- of the request, once for policy decisions and once for attempts.
pub record Engine : Type 0 where
  pub adapter : String → Option (PlanNode → Operation)
  pub pauses : PlanNode → Pauses
  pub decision_destination : String
  pub attempt_destination : String

abbrev pub add_diagnostic : String → String → ExecutionContext → ExecutionContext
add_diagnostic code message c = record c {
  diagnostics = c.diagnostics ++ record { code = code; message = message } ∷ [];
}

abbrev pub reason : String → Dict Detail
reason why = ("reason", text why) ∷ []

abbrev pub payload_of : PlanNode → Dict Detail
payload_of node = ("capability_id", text node.capability_id) ∷ []

-- The common body of the `except` clauses.
unfoldable pub give_up :
    PlanNode
    → ℕ
    → String
    → String
    → String
    → OutcomeStatus
    → String
    → ExecutionContext
    → ExecutionContext
give_up node outcome_count failure_code code message status why c =
    ensure_outcome node outcome_count status (reason why)
      (add_diagnostic code message (mark_running_attempt_failed failure_code c))

abbrev expired_message : String
expired_message = "credential material is expired or was rejected as expired"

abbrev required_message : String
required_message = "authentication is required or the supplied material was rejected"

abbrev pub or_default : Option String → String
or_default none = "execution_cancelled"
or_default (some s) = s

abbrev cancel_key : String
cancel_key = "_parallel_cancellation_reason"

abbrev pub add_decisions : List PolicyDecision → ExecutionContext → ExecutionContext
add_decisions ds c = record c { policy_decisions = c.policy_decisions ++ ds }

-- The `except` clause for each signal but `returned`: the new context, the event it emits, if any,
-- with what its payload has besides the capability, and the result.
pub record Handled : Type 0 where
  pub context : ExecutionContext
  pub event : Option (String × Dict Detail)
  pub result : NodeResult

unfoldable pub handle : Engine → PlanNode → ℕ → ℕ → Signal → ExecutionContext → Handled
handle engine node attempt_count outcome_count returned c = record {
  context = c;
  event = none;
  result = ended (record nothing { completed = true });
}
handle engine node attempt_count outcome_count (budget_exceeded m) c = record {
  context =
      give_up node outcome_count "budget_exhausted" "budget_exhausted" m OutcomeStatus.failed m c;
  event = some ("attempt.budget_exhausted", []);
  result = ended (record nothing { budget_exhausted = true; stop = true });
}
handle engine node attempt_count outcome_count (policy_blocked m ds) c = record {
  context =
      give_up node outcome_count "policy" "policy_blocked" m OutcomeStatus.blocked m
        (add_decisions ds c);
  event = some ("attempt.blocked", []);
  result = ended (record nothing { policy_blocked = true; stop = true });
}
handle engine node attempt_count outcome_count (dependency m) c = record {
  context =
      give_up node outcome_count "dependency_missing" "dependency_missing" m
        OutcomeStatus.dependency_missing m c;
  event = some ("attempt.unavailable", []);
  result = ended (record nothing { dependency_missing = true });
}
handle engine node attempt_count outcome_count auth_expired c = record {
  context =
      give_up node outcome_count "auth_expired" "auth_expired" expired_message OutcomeStatus.failed
        expired_message c;
  event = some ("attempt.auth_expired", []);
  result = ended (record nothing { auth_required = true; stop = true });
}
handle engine node attempt_count outcome_count auth_required c = record {
  context =
      give_up node outcome_count "auth_required" "auth_required" required_message
        OutcomeStatus.failed required_message c;
  event = some ("attempt.auth_required", []);
  result = ended (record nothing { auth_required = true; stop = true });
}
handle engine node attempt_count outcome_count (not_found m) c = record {
  context = give_up node outcome_count "not_found" "not_found" m OutcomeStatus.failed m c;
  event = some ("attempt.not_found", []);
  result = ended (record nothing { not_found = true; stop = true });
}
handle engine node attempt_count outcome_count timeout c = record {
  context =
      ensure_outcome node outcome_count OutcomeStatus.failed (reason "deadline budget exhausted") (
        add_diagnostic "budget_exhausted" (append node.id " exhausted the deadline budget")
          (ensure_deadline_attempt_failed engine.attempt_destination node attempt_count c));
  event = some ("attempt.budget_exhausted", ("code", text "budget_exhausted") ∷ []);
  result = ended (record nothing { budget_exhausted = true; stop = true });
}
handle engine node attempt_count outcome_count cancelled c =
    let why = or_default (lookup cancel_key c.sensitive_state) in
    let popped = record c { sensitive_state = remove cancel_key c.sensitive_state } in
    record {
      context =
          ensure_outcome node outcome_count OutcomeStatus.not_applicable (reason why)
            (mark_running_attempt_cancelled why popped);
      event = some ("attempt.cancelled", []);
      result = raised cancelled;
    }
handle engine node attempt_count outcome_count (execution e) c = record {
  context =
      give_up node outcome_count e.type_name "adapter_failed" e.message OutcomeStatus.failed
        e.message c;
  event = some ("attempt.failed", ("code", text e.type_name) ∷ []);
  result = ended (record nothing { failed = true });
}
handle engine node attempt_count outcome_count (invalid type_name m) c = record {
  context = give_up node outcome_count type_name "adapter_failed" m OutcomeStatus.failed m c;
  event = some ("attempt.failed", ("code", text type_name) ∷ []);
  result = ended (record nothing { failed = true });
}
handle engine node attempt_count outcome_count other c = record {
  context = c;
  event = none;
  result = raised other;
}

-- The `try` body: the approval, the deadline, and the tries of the adapter.
unfoldable pub try_node :
    Engine → FetchRequest → PlanNode → ℕ → Operation → ExecutionContext → Signal × ExecutionContext
try_node engine request node elapsed operation c =
    elim (enforce_approval engine.decision_destination request node) [
      | some signal ↦ (signal, c)
      | none ↦
          let run = with_retries operation node.retry (engine.pauses node) c in
          let late =
            ensure_deadline_attempt_failed engine.attempt_destination node (length c.attempts) c in
          if leb request.budget.deadline_seconds elapsed
          then (budget_exceeded "run deadline budget exhausted", late)
          else run
    ]

abbrev pub is_returned : Signal → Bool
is_returned returned = true
is_returned _ = false

abbrev pub with_artifact : Option Artifact → Dict Detail → Dict Detail
with_artifact none d = d
with_artifact (some a) d = d ++ ("artifact_id", number a.artifact_id) ∷ []

abbrev pub emit_handled : PlanNode → ℕ → Option (String × Dict Detail) → Ledger → Ledger
emit_handled node event none g = g
emit_handled node event (some (event_type, details)) g =
    emit event_type node.adapter (payload_of node ++ details) (event ∷ []) g

-- After the `try` statement: what follows when the adapter returned, and the handlers otherwise,
-- each with the flush of its `finally`.
unfoldable pub finish_node :
    Engine
    → PlanNode
    → ExecutionContext
    → ℕ
    → Ledger
    → Signal × ExecutionContext
    → NodeResult × ExecutionContext × Ledger
finish_node engine node before event g (signal, c) =
    let outcome_count = length before.capability_outcomes in
    let start = length before.pending_events in
    let h = handle engine node (length before.attempts) outcome_count signal c in
    let applied = ensure_outcome node outcome_count OutcomeStatus.applied [] c in
    let closing =
      emit "attempt.finished" node.adapter
        (with_artifact (last? applied.artifacts) (payload_of node)) (event ∷ [])
        (flush_pending_events start event c g) in
    if is_returned signal
    then (ended (record nothing { completed = true }), applied, closing)
    else (
      h.result,
      h.context,
      flush_pending_events start event h.context (emit_handled node event h.event g),
    )

unfoldable pub missing_adapter : PlanNode → ExecutionContext → ExecutionContext
missing_adapter node c =
    record_outcome node.capability_id OutcomeStatus.dependency_missing node.adapter
      (reason "adapter is not registered")
      (add_diagnostic "adapter_missing" (append "no adapter registered for " node.adapter) c)

-- _execute_node, when `elapsed` has passed since the run began
unfoldable pub execute_node :
    Engine
    → FetchRequest
    → PlanNode
    → ℕ
    → ℕ
    → ExecutionContext
    → Ledger
    → NodeResult × ExecutionContext × Ledger
execute_node engine request node root elapsed c g = elim (engine.adapter node.adapter) [
  | none ↦ (ended (record nothing { dependency_missing = true }), missing_adapter node c, g)
  | some adapter ↦
      finish_node engine node c g.next_id
        (emit "attempt.started" node.adapter (payload_of node) (root ∷ []) g)
        (try_node engine request node elapsed (adapter node) c)
]
