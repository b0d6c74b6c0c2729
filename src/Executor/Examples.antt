-- ===== src/Executor/Examples.antt =====
-- Runs of the executor on a small request, for src/fetech/executor.py.
use fetech.Prelude.Text.{lower}
use fetech.Prelude.{
  map, ℕ, zero, suc, ◌+◌, ◌-◌, ◌<◌, ◌≤◌, ◌≡◌, ◌≢◌, refl, subst, String, true, false, Option, none,
  some, List, [], ◌∷◌, ◌++◌, length, All, arith,
}
use fetech.Prelude.Dict.{lookup, insert}
use fetech.Models.Status.{AttemptStatus, PageState}
use fetech.Models.Request.{ResourceBudget, FetchRequest, budget_field}
use fetech.Models.Plan.{RetryRule, PlanNode, FetchPlan}
use fetech.Models.Record.{FetchAttempt, ProvenanceEvent, CapabilityOutcome, QualityAssessment}
use fetech.Executor.Context.{
  ExecutionContext, consumed_budget, record_outcome, record_attempt_consumption,
}
use fetech.Executor.Quality.{
  record_quality_outcomes, recorded_ids, observed_ids, record_quality_outcomes_exact,
}
use fetech.Executor.Budget.{share, branch_budget}
use fetech.Executor.Budget.Consumption.{amount_of, record_attempt_consumption_exact}
use fetech.Executor.Budget.Shares.{sum_below, extra, shares_add_up}
use fetech.Executor.Failure.{
  ExecutionFailure, returned, execution, adapter_retry_code, retry_code_allowed,
}
use fetech.Executor.Retry.{Operation, Pauses, with_retries, tries_from, retryable}
use fetech.Executor.Retry.Tries.{Ran, with_retries_lem}
use fetech.Executor.Ledger.{Ledger, emit, flush_pending_events}
use fetech.Executor.Attempts.{Flags, enforce_approval, ensure_outcome}
use fetech.Executor.Node.{Engine, ended, nothing, execute_node, finish_node, try_node}
use fetech.Executor.Node.Outcomes.{Recorded, KeepsOutcomes, execute_node-Recorded}
use fetech.Executor.Node.Events.{ChildOf, started, execute_node-provenance}
use fetech.Executor.Batch.{
  parallel_batch, gather, capture, settle, branch_context, merge_parallel_context,
}
use fetech.Executor.Batch.Group.{StartsWith, MayRun, parallel_batch_lem}
use fetech.Executor.Batch.Merge.{
  bytes, Extends, RespectBudgets, RespectAttempts, batch_within_budget, batch_within_attempts,
  merge_all,
}
use fetech.Executor.Run.{
  World, Progress, out_of_fuel, run_loop, FetchResult, RunEnd, result, failure, conclude,
  closing_outcomes, execute, branch_of,
}
use fetech.Executor.Run.Report.{Reports, execute-Reports}
use fetech.Executor.Run.Ends.{run_loop-ends}
use fetech.Executor.Run.Order.{EndsJustified, dependencies_first}

abbrev budget : ResourceBudget
budget = record {
  deadline_seconds = 1000;
  attempts = 4;
  redirects = 5;
  bytes = 101;
  decompressed_bytes = 200;
  crawl_pages = 1;
  crawl_depth = 1;
  browser_seconds = 10;
  archive_members = 10;
  archive_ratio = 10;
  model_tokens = 0;
  monetary_ceiling = 0;
}

abbrev request : FetchRequest
request = record {
  target = "https://example.org/";
  intent = "fetch";
  output_requirements = [];
  authentication_ref = none;
  privacy_profile = "public";
  policy_profile = "default";
  freshness_seconds = none;
  language = none;
  region = none;
  allow_capabilities = [];
  deny_capabilities = [];
  approved_capabilities = [];
  budget = budget;
  metadata = [];
}

abbrev empty_context : ExecutionContext
empty_context = record {
  request = request;
  resources = [];
  artifacts = [];
  attempts = [];
  capability_outcomes = [];
  policy_decisions = [];
  diagnostics = [];
  accepted = false;
  crawl_report = none;
  sensitive_state = [];
  pending_events = [];
}

abbrev attempt_of : ℕ → FetchAttempt
attempt_of n = record {
  capability_id = "http_get";
  sanitized_destination = "https://example.org/";
  status = AttemptStatus.running;
  is_finished = false;
  failure_code = none;
  consumed_budget = ("bytes", n) ∷ [];
}

-- A context whose one attempt has consumed `n` bytes.
abbrev used : ℕ → ExecutionContext
used n = record empty_context { attempts = attempt_of n ∷ [] }

abbrev retry : RetryRule
retry = record { maximum = 2; backoff_seconds = 1; retryable_codes = "503" ∷ [] }

abbrev node : String → List String → Option String → PlanNode
node id dependencies group = record {
  id = id;
  capability_id = "http_get";
  adapter = "http";
  dependencies = dependencies;
  parallel_group = group;
  retry = retry;
  fallback_for = none;
  stop_on_acceptance = false;
  requires_approval = false;
  reserved_budget = [];
  parameters = [];
}

abbrev unavailable : ExecutionFailure
unavailable = record { message = "unavailable"; code = some "503"; chain = []; type_name = "error" }

-- An adapter whose first call fails with a code that is tried again.
abbrev flaky : Operation
flaky zero c = (execution unavailable, c)
flaky (suc k) c = (returned, c)

abbrev pauses : Pauses
pauses k = none

abbrev ledger : Ledger
ledger = record { events = []; next_id = 7 }

abbrev engine : Engine
engine = record {
  adapter = λ name. some (λ n. flaky);
  pauses = λ n. pauses;
  decision_destination = "https://example.org/";
  attempt_destination = "https://example.org/";
}

abbrev world : World
world = record {
  engine = engine;
  elapsed = λ i. i;
  rounds = λ i. (0 ∷ []) ∷ (1 ∷ []) ∷ [];
  engine_cancelled = engine;
  ledger_after = λ i g. g;
}

abbrev fan : List PlanNode
fan = node "left" ("start" ∷ []) (some "g") ∷ node "right" ("start" ∷ []) (some "g") ∷ []

abbrev plan : FetchPlan
plan = record { request = request; nodes = node "start" [] none ∷ fan; execution_request = request }

abbrev calm : Flags
calm = record {
  policy_blocked = false;
  dependency_missing = false;
  budget_exhausted = false;
  auth_required = false;
  not_found = false;
  failed = false;
}

abbrev progress : Progress
progress = record { context = empty_context; completed = []; flags = calm; ledger = ledger }

consumes : record_attempt_consumption 0 (("bytes", 4) ∷ []) (used 3) ≡ some (used 7)
unfolding record_attempt_consumption lookup insert budget_field
consumes = refl

record_attempt_consumption_exact_example :
    (consumed_budget "bytes" (used 7)
      ≡ consumed_budget "bytes" (used 3) + amount_of "bytes" (("bytes", 4) ∷ []))
    × (length (used 7).attempts ≡ length (used 3).attempts)
record_attempt_consumption_exact_example =
    record_attempt_consumption_exact 0 (("bytes", 4) ∷ []) (used 3) (used 7) "bytes" consumes

shares_add_up_example : sum_below 2 (extra 101 0 2) ≡ 101 - 0
shares_add_up_example = shares_add_up 101 0 2 (omega arith)

with_retries_lem_example :
    Ran flaky retry pauses empty_context (with_retries flaky retry pauses empty_context)
with_retries_lem_example = with_retries_lem flaky retry pauses empty_context

run_loop-ends_example : run_loop world plan 1 3 0 plan.nodes progress ≢ out_of_fuel
run_loop-ends_example = run_loop-ends world plan 1 3 0 plan.nodes progress (omega arith)

dependencies_first_example :
    EndsJustified plan.nodes (run_loop world plan 1 3 0 plan.nodes progress)
dependencies_first_example = dependencies_first world plan 1 3 progress refl

-- The adapter `flaky` leaves the outcomes as they are.
flaky-KeepsOutcomes : KeepsOutcomes flaky
flaky-KeepsOutcomes n zero d h = h
flaky-KeepsOutcomes n (suc k) d h = h

registered :
    (a : PlanNode → Operation)
    → engine.adapter "http" ≡ some a
    → KeepsOutcomes (a (node "start" [] none))
registered a e =
    let same : (λ (n : PlanNode). flaky) ≡ a = cc in
    subst (λ b. KeepsOutcomes (b (node "start" [] none))) same flaky-KeepsOutcomes

run_start :
    (execute_node engine request (node "start" [] none) 1 0 empty_context ledger).0
    ≡ ended (record nothing { completed = true })
unfolding execute_node finish_node try_node with_retries tries_from enforce_approval retryable lower
    adapter_retry_code retry_code_allowed ensure_outcome record_outcome emit flush_pending_events
run_start = refl

execute_node-Recorded_example :
    Recorded
      (node "start" [] none)
      0
      (execute_node engine request (node "start" [] none) 1 0 empty_context ledger).1
execute_node-Recorded_example =
    execute_node-Recorded engine request (node "start" [] none) 1 0 empty_context ledger
      (record nothing { completed = true }) registered run_start

execute_node-provenance_example :
    (rest : List ProvenanceEvent) × ((execute_node engine request
        (node "start" [] none)
        1
        0
        empty_context
        ledger).2.events
      ≡ ledger.events ++ started (node "start" [] none) 7 1 ∷ rest)
    × All (ChildOf 7) rest
execute_node-provenance_example =
    execute_node-provenance engine request (node "start" [] none) 1 0 empty_context ledger
      (λ n. flaky) refl

abbrev ready_fan : List PlanNode
ready_fan =
    parallel_batch (node "left" ("start" ∷ []) (some "g"))
      (node "right" ("start" ∷ []) (some "g") ∷ []) ("start" ∷ []) empty_context

two_ready : 1 < length ready_fan
unfolding parallel_batch gather
two_ready = omega arith

parallel_batch_lem_example :
    StartsWith ready_fan fan
    × (length ready_fan ≤ 4 - 0)
    × All (MayRun ("start" ∷ []) empty_context) ready_fan
parallel_batch_lem_example =
    parallel_batch_lem (node "left" ("start" ∷ []) (some "g"))
      (node "right" ("start" ∷ []) (some "g") ∷ []) ("start" ∷ []) empty_context two_ready

abbrev branches : List ExecutionContext
branches = used 51 ∷ used 50 ∷ []

branches-Extends : All (Extends empty_context) branches
branches-Extends = ((attempt_of 51 ∷ [], refl), ((attempt_of 50 ∷ [], refl), tt))

branches-RespectBudgets : RespectBudgets bytes empty_context 2 0 branches
unfolding branch_budget budget_field share lookup
branches-RespectBudgets = ((λ limit e. ground arith), ((λ limit e. ground arith), tt))

branches-RespectAttempts : RespectAttempts empty_context 2 0 branches
unfolding branch_budget share
branches-RespectAttempts = (omega arith, (omega arith, tt))

within_bytes : consumed_budget "bytes" empty_context ≤ 101
within_bytes = omega arith

has_bytes : budget_field "bytes" request.budget ≡ some 101
unfolding budget_field
has_bytes = refl

batch_within_budget_example :
    consumed_budget "bytes" (merge_all (capture empty_context) empty_context branches) ≤ 101
batch_within_budget_example =
    batch_within_budget bytes empty_context 101 branches has_bytes within_bytes (omega arith)
      branches-Extends branches-RespectBudgets

batch_within_attempts_example :
    length (merge_all (capture empty_context) empty_context branches).attempts ≤ 4
batch_within_attempts_example =
    batch_within_attempts empty_context branches (omega arith) (omega arith) branches-Extends
      branches-RespectAttempts

abbrev result_or : FetchResult → RunEnd → FetchResult
result_or r (result s) = s
result_or r (failure s) = r

abbrev report : FetchResult
report = result_or (conclude plan 7 1 5 progress) (execute world plan 1 5 ledger)

returns : execute world plan 1 5 ledger ≡ result report
unfolding execute run_loop parallel_batch gather execute_node finish_node try_node with_retries
    tries_from enforce_approval retryable lower adapter_retry_code retry_code_allowed ensure_outcome
    record_outcome emit flush_pending_events branch_of settle merge_parallel_context conclude
    closing_outcomes branch_context branch_budget share
returns = refl

execute-Reports_example : Reports 7 report
execute-Reports_example = execute-Reports world plan 1 5 ledger report returns

-- A page behind a paywall that is a duplicate of another.
abbrev assessment : QualityAssessment
assessment = record {
  page_state = PageState.paywall;
  score = 10;
  accepted = false;
  language = none;
  completeness = 5;
  duplicate_of = some 3;
  reasons = [];
}

record_quality_outcomes_exact_example :
    (added : List CapabilityOutcome) × ((record_quality_outcomes assessment "http"
        empty_context).capability_outcomes
      ≡ [] ++ added)
    × (map (λ o. o.capability_id) added ≡ recorded_ids)
    × (observed_ids added ≡ "paywall_detection" ∷ "duplicate_detection" ∷ [])
record_quality_outcomes_exact_example =
    record_quality_outcomes_exact assessment "http" empty_context
