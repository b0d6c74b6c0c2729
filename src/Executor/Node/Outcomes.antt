-- ===== src/Executor/Node/Outcomes.antt =====
-- src/fetech/executor.py, `_execute_node`: every node that ends has an outcome.
use fetech.Prelude.{
  ℕ, ◌≤◌, ◌≡◌, ◌≢◌, refl, inl, inr, true, some, String, ◌=s=◌, =s=_refl, length, drop, any,
  any-drop_snoc, Bool-cases, Option-cases, arith,
}
use fetech.Prelude.Dict.{Dict}
use fetech.Models.Status.{OutcomeStatus}
use fetech.Models.Request.{FetchRequest}
use fetech.Models.Plan.{PlanNode}
use fetech.Models.Record.{Detail, CapabilityOutcome}
use fetech.Executor.Context.{ExecutionContext, record_outcome}
use fetech.Executor.Failure.{
  Signal, returned, budget_exceeded, policy_blocked, dependency, auth_expired, auth_required,
  not_found, timeout, cancelled, execution, invalid, other,
}
use fetech.Executor.Retry.{Operation}
use fetech.Executor.Retry.Tries.{with_retries_inv}
use fetech.Executor.Ledger.{Ledger}
use fetech.Executor.Attempts.{
  mark_running_attempt_failed, mark_running_attempt_cancelled, ensure_deadline_attempt_failed,
  ensure_outcome,
}
use fetech.Executor.Node.{
  NodeExecution, ended, raised, Engine, give_up, handle, try_node, finish_node, missing_adapter,
  execute_node,
}

-- An outcome of the node's capability stands at position `n` or later.
abbrev pub Recorded : PlanNode → ℕ → ExecutionContext → Type 0
Recorded node n c =
    any (λ (o : CapabilityOutcome). o.capability_id =s= node.capability_id)
      (drop n c.capability_outcomes)
    ≡ true

abbrev pub AtLeast : ℕ → ExecutionContext → Type 0
AtLeast n c = n ≤ length c.capability_outcomes

-- An adapter never takes an outcome back.
abbrev pub KeepsOutcomes : Operation → Type 0
KeepsOutcomes operation =
    (n k : ℕ) (d : ExecutionContext) → AtLeast n d → AtLeast n (operation k d).1

module _ (node : PlanNode) (n : ℕ) where
  ensure_outcome-Recorded :
      (status : OutcomeStatus) (details : Dict Detail) (c : ExecutionContext)
      → AtLeast n c
      → Recorded node n (ensure_outcome node n status details c)
  unfolding ensure_outcome record_outcome
  ensure_outcome-Recorded status details c h =
      elim (Bool-cases (
        any (λ (o : CapabilityOutcome). o.capability_id =s= node.capability_id)
          (drop n c.capability_outcomes))) [
            | inl there ↦ rw there there
            | inr new ↦ rw new (
                any-drop_snoc (λ (o : CapabilityOutcome). o.capability_id =s= node.capability_id) n
                  c.capability_outcomes _ h (=s=_refl node.capability_id))
          ]

  deadline-AtLeast :
      (destination : String) (m : ℕ) (c : ExecutionContext)
      → AtLeast n c
      → AtLeast n (ensure_deadline_attempt_failed destination node m c)
  unfolding ensure_deadline_attempt_failed
  deadline-AtLeast destination m c h = ground arith

  give_up-Recorded :
      (failure_code code message why : String) (status : OutcomeStatus) (c : ExecutionContext)
      → AtLeast n c
      → Recorded node n (give_up node n failure_code code message status why c)
  unfolding give_up mark_running_attempt_failed
  give_up-Recorded failure_code code message why status c h = ensure_outcome-Recorded status _ _ h

  -- Each handler records an outcome, where it does not just pass the exception on.
  handle-Recorded :
      (engine : Engine) (m : ℕ) (signal : Signal) (c : ExecutionContext)
      → signal ≢ returned
      → signal ≢ other
      → AtLeast n c
      → Recorded node n (handle engine node m n signal c).context
  unfolding handle mark_running_attempt_cancelled
  handle-Recorded engine m returned c r o h = absurd (r refl)
  handle-Recorded engine m (budget_exceeded e) c r o h = give_up-Recorded _ _ _ _ _ c h
  handle-Recorded engine m (policy_blocked e ds) c r o h = give_up-Recorded _ _ _ _ _ _ h
  handle-Recorded engine m (dependency e) c r o h = give_up-Recorded _ _ _ _ _ c h
  handle-Recorded engine m auth_expired c r o h = give_up-Recorded _ _ _ _ _ c h
  handle-Recorded engine m auth_required c r o h = give_up-Recorded _ _ _ _ _ c h
  handle-Recorded engine m (not_found e) c r o h = give_up-Recorded _ _ _ _ _ c h
  handle-Recorded engine m timeout c r o h =
      ensure_outcome-Recorded _ _ _ (deadline-AtLeast engine.attempt_destination m c h)
  handle-Recorded engine m cancelled c r o h = ensure_outcome-Recorded _ _ _ h
  handle-Recorded engine m (execution e) c r o h = give_up-Recorded _ _ _ _ _ c h
  handle-Recorded engine m (invalid t e) c r o h = give_up-Recorded _ _ _ _ _ c h
  handle-Recorded engine m other c r o h = absurd (o refl)

try_node-AtLeast :
    (engine : Engine) (request : FetchRequest) (node : PlanNode) (elapsed n : ℕ)
    (operation : Operation) (c : ExecutionContext)
    → KeepsOutcomes operation
    → AtLeast n c
    → AtLeast n (try_node engine request node elapsed operation c).1
unfolding try_node
try_node-AtLeast engine request node elapsed n operation c keeps h = ground (
  arith,
  with_retries_inv operation node.retry (engine.pauses node) (AtLeast n)
      (λ (k : ℕ) (d : ExecutionContext) (q : AtLeast n d). keeps n k d q) c h,
  deadline-AtLeast node n engine.attempt_destination (length c.attempts) c h,
)

finish_node-Recorded :
    (engine : Engine) (node : PlanNode) (before : ExecutionContext) (event : ℕ) (g : Ledger)
    (signal : Signal) (c : ExecutionContext)
    → signal ≢ other
    → AtLeast (length before.capability_outcomes) c
    → Recorded node
        (length before.capability_outcomes)
        (finish_node engine node before event g (signal, c)).1
unfolding finish_node
finish_node-Recorded engine node before event g returned c o h =
    ensure_outcome-Recorded node (length before.capability_outcomes) _ _ c h
finish_node-Recorded engine node before event g signal c o h =
    handle-Recorded node (length before.capability_outcomes) engine _ signal c (λ e. cc) o h

NodeResult-other :
    (engine : Engine) (node : PlanNode) (before : ExecutionContext) (event : ℕ) (g : Ledger)
    (signal : Signal) (c : ExecutionContext) (r : NodeExecution)
    → (finish_node engine node before event g (signal, c)).0 ≡ ended r
    → signal ≢ other
unfolding finish_node handle
NodeResult-other engine node before event g other c r e =
    absurd (let bad : raised other ≡ ended r = e in cc)
NodeResult-other engine node before event g signal c r e = λ h. cc

-- When `_execute_node` returns, whether the adapter is missing, succeeded or failed, an outcome of the
-- node's capability has been recorded since its start, if the adapter takes no outcome back.
pub execute_node-Recorded :
    (engine : Engine) (request : FetchRequest) (node : PlanNode) (root elapsed : ℕ)
    (c : ExecutionContext) (g : Ledger) (r : NodeExecution)
    → ((adapter : PlanNode → Operation)
        → engine.adapter node.adapter ≡ some adapter
        → KeepsOutcomes (adapter node))
    → (execute_node engine request node root elapsed c g).0 ≡ ended r
    → Recorded node
        (length c.capability_outcomes)
        (execute_node engine request node root elapsed c g).1
unfolding execute_node missing_adapter record_outcome
execute_node-Recorded engine request node root elapsed c g r keeps e =
    elim (Option-cases (engine.adapter node.adapter)) [
      | inl gone ↦
          rw (gone, execute_node)
            (any-drop_snoc (λ (o : CapabilityOutcome). o.capability_id =s= node.capability_id)
              (length c.capability_outcomes) c.capability_outcomes _ (omega arith)
              (=s=_refl node.capability_id))
      | inr (adapter, found) ↦
          let n = length c.capability_outcomes in
          let tried = try_node engine request node elapsed (adapter node) c in
          let kept : AtLeast n tried.1 =
            try_node-AtLeast engine request node elapsed n (adapter node) c (keeps adapter found)
              (omega arith) in
          rw (found, execute_node)
            (finish_node-Recorded engine node c g.next_id _ tried.0 tried.1
              (NodeResult-other engine node c g.next_id _ tried.0 tried.1 r
                (rw (found, execute_node) at e))
              kept)
    ]
