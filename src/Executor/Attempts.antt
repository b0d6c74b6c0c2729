-- ===== src/Executor/Attempts.antt =====
-- src/fetech/executor.py: the static methods that close attempts and outcomes, approval, and the
-- status of a run.
pub mod Status
use Prim.Native.String.{◌++◌ as append}
use fetech.Prelude.{
  ℕ, zero, suc, ◌==◌, String, ◌=s=◌, ◌&&◌, ◌||◌, not, Bool, true, false, Option, none, some, List,
  [], ◌∷◌, ◌++◌, if◌then◌else◌, length, drop, any, elem,
}
use fetech.Prelude.Dict.{Dict, lookup}
use fetech.Prelude.Text.{folds_to}
use fetech.Models.Status.{ResultStatus, AttemptStatus, OutcomeStatus}
use fetech.Models.Request.{FetchRequest}
use fetech.Models.Plan.{FetchPlan, PlanNode}
use fetech.Models.Record.{FetchAttempt, Detail, text, PolicyDecision}
use fetech.Executor.Context.{ExecutionContext, record_outcome}
use fetech.Executor.Failure.{Signal, policy_blocked}

-- xs[-1] = f(xs[-1]); nothing for an empty list
abbrev pub update_last : (FetchAttempt → FetchAttempt) → List FetchAttempt → List FetchAttempt
update_last f [] = []
update_last f (a ∷ []) = f a ∷ []
update_last f (a ∷ b ∷ rest) = a ∷ update_last f (b ∷ rest)

abbrev pub close_as : AttemptStatus → String → FetchAttempt → FetchAttempt
close_as status code a = record a { status = status; is_finished = true; failure_code = some code }

abbrev pub close_running : AttemptStatus → String → AttemptStatus → FetchAttempt → FetchAttempt
close_running status code AttemptStatus.running a = close_as status code a
close_running status code _ a = a

-- _mark_running_attempt_failed
unfoldable pub mark_running_attempt_failed : String → ExecutionContext → ExecutionContext
mark_running_attempt_failed code c = record c {
  attempts = update_last (λ a. close_running AttemptStatus.failed code a.status a) c.attempts;
}

-- _mark_running_attempt_cancelled
unfoldable pub mark_running_attempt_cancelled : String → ExecutionContext → ExecutionContext
mark_running_attempt_cancelled code c = record c {
  attempts = update_last (λ a. close_running AttemptStatus.cancelled code a.status a) c.attempts;
}

abbrev pub close_open : AttemptStatus → FetchAttempt → FetchAttempt
close_open AttemptStatus.cancelled a = close_as AttemptStatus.failed "budget_exhausted" a
close_open AttemptStatus.planned a = close_as AttemptStatus.failed "budget_exhausted" a
close_open AttemptStatus.running a = close_as AttemptStatus.failed "budget_exhausted" a
close_open _ a = a

-- _ensure_deadline_attempt_failed; `destination` is the sanitized target of the request
unfoldable pub ensure_deadline_attempt_failed :
    String → PlanNode → ℕ → ExecutionContext → ExecutionContext
ensure_deadline_attempt_failed destination node attempt_count c =
    if length c.attempts == attempt_count
    then record c {
      attempts =
          c.attempts
          ++ record {
            capability_id = node.capability_id;
            sanitized_destination = destination;
            status = AttemptStatus.failed;
            is_finished = true;
            failure_code = some "budget_exhausted";
            consumed_budget = [];
          }
            ∷ [];
    }
    else record c { attempts = update_last (λ a. close_open a.status a) c.attempts }

-- _ensure_outcome
unfoldable pub ensure_outcome :
    PlanNode → ℕ → OutcomeStatus → Dict Detail → ExecutionContext → ExecutionContext
ensure_outcome node outcome_count status details c =
    if any (λ o. o.capability_id =s= node.capability_id) (drop outcome_count c.capability_outcomes)
    then c
    else record_outcome node.capability_id status node.adapter details c

abbrev pub is_true : Option String → Bool
is_true none = false
is_true (some v) = folds_to v "true"

-- _enforce_approval; `destination` is the sanitized target. `none` is a plain return.
unfoldable pub enforce_approval : String → FetchRequest → PlanNode → Option Signal
enforce_approval destination request node =
    let reason = append node.capability_id " requires explicit approval" in
    if not node.requires_approval
      || (elem node.capability_id request.approved_capabilities
          || is_true (lookup (append node.capability_id "_approved") request.metadata))
    then none
    else some (
        policy_blocked reason (
          record {
            policy_id = "capability_approval";
            allowed = false;
            reason = reason;
            destination = some destination;
          }
          ∷ []))

-- The flags that the loop of `execute` gathers from the nodes.
pub record Flags : Type 0 where
  pub policy_blocked : Bool
  pub dependency_missing : Bool
  pub budget_exhausted : Bool
  pub auth_required : Bool
  pub not_found : Bool
  pub failed : Bool

-- _status
unfoldable pub status_of : ExecutionContext → Flags → ResultStatus
status_of c f =
    if c.accepted
    then (if f.failed
          || (f.dependency_missing
              || (f.budget_exhausted || (f.auth_required || (f.policy_blocked || f.not_found))))
        then ResultStatus.partial
        else ResultStatus.succeeded)
    else if f.policy_blocked
    then ResultStatus.blocked_by_policy
    else if f.auth_required
    then ResultStatus.auth_required
    else if f.not_found
    then ResultStatus.not_found
    else if f.budget_exhausted
    then ResultStatus.budget_exhausted
    else if not (length c.artifacts == 0)
    then (if f.failed || f.dependency_missing
        then ResultStatus.partial
        else ResultStatus.low_quality)
    else if f.dependency_missing
    then ResultStatus.dependency_missing
    else ResultStatus.failed
