-- ===== src/Executor/Context.antt =====
-- src/fetech/adapters/base.py: `ExecutionContext` and its methods.
use fetech.Prelude.{
  ℕ, zero, suc, ◌+◌, ◌-◌, String, Bool, Option, none, some, List, [], ◌∷◌, ◌++◌, ltb, if◌then◌else◌,
  elem, get_elem?,
}
use mathlib.Core.List.{reverse}
use fetech.Prelude.Dict.{Dict, lookup, insert}
use fetech.Models.Status.{OutcomeStatus}
use fetech.Models.Request.{FetchRequest, budget_field}
use fetech.Models.Record.{
  FetchAttempt, Resource, Artifact, PolicyDecision, Detail, CapabilityOutcome, Diagnostic,
  CrawlReport,
}

-- An event that an adapter queues: its type, its actor and its payload.
pub record PendingEvent : Type 0 where
  pub event_type : String
  pub actor : String
  pub payload : Dict Detail

pub record ExecutionContext : Type 0 where
  pub request : FetchRequest
  pub resources : List Resource
  pub artifacts : List Artifact
  pub attempts : List FetchAttempt
  pub capability_outcomes : List CapabilityOutcome
  pub policy_decisions : List PolicyDecision
  pub diagnostics : List Diagnostic
  pub accepted : Bool
  pub crawl_report : Option CrawlReport
  pub sensitive_state : Dict String
  pub pending_events : List PendingEvent

abbrev first_of_kind : List String → List Artifact → Option Artifact
first_of_kind allowed [] = none
first_of_kind [] (a ∷ rest) = some a
first_of_kind (k ∷ ks) (a ∷ rest) =
    let later = first_of_kind (k ∷ ks) rest in
    if elem a.representation (k ∷ ks) then some a else later

-- latest_artifact
unfoldable pub latest_artifact : List String → ExecutionContext → Option Artifact
latest_artifact representations c = first_of_kind representations (reverse c.artifacts)

abbrev pub or_zero : Option ℕ → ℕ
or_zero none = 0
or_zero (some n) = n

abbrev pub consumption : String → List FetchAttempt → ℕ
consumption name [] = 0
consumption name (a ∷ rest) = or_zero (lookup name a.consumed_budget) + consumption name rest

-- consumed_budget
abbrev pub consumed_budget : String → ExecutionContext → ℕ
consumed_budget name c = consumption name c.attempts

pub data BudgetError : Type 0 where
  unknown_field exceeded out_of_range : BudgetError

-- remaining_budget; `none` is the error for a name that is no numeric field
unfoldable pub remaining_budget : String → ExecutionContext → Option ℕ
remaining_budget name c = elim (budget_field name c.request.budget) [
  | none ↦ none
  | some ceiling ↦ some (ceiling - consumed_budget name c)
]

-- require_budget; an amount is a number, so it is not negative. `none` is a plain return.
unfoldable pub require_budget : String → ℕ → ExecutionContext → Option BudgetError
require_budget name amount c = elim (remaining_budget name c) [
  | none ↦ some BudgetError.unknown_field
  | some rest ↦ if ltb rest amount then some BudgetError.exceeded else none
]

abbrev pub set_at : List FetchAttempt → ℕ → FetchAttempt → List FetchAttempt
set_at [] i a = []
set_at (x ∷ xs) zero a = a ∷ xs
set_at (x ∷ xs) (suc i) a = x ∷ set_at xs i a

abbrev pub add_all : FetchRequest → Dict ℕ → Dict ℕ → Option (Dict ℕ)
add_all r [] updated = some updated
add_all r ((name, amount) ∷ rest) updated =
    let later = add_all r rest (insert name (or_zero (lookup name updated) + amount) updated) in
    elim (budget_field name r.budget) [ none ↦ none | some ceiling ↦ later ]

abbrev pub with_consumption :
    ℕ → FetchAttempt → Option (Dict ℕ) → ExecutionContext → Option ExecutionContext
with_consumption i a none c = none
with_consumption i a (some updated) c =
    some (record c { attempts = set_at c.attempts i (record a { consumed_budget = updated }) })

-- record_attempt_consumption; `none` is one of its errors, and nothing has changed then
unfoldable pub record_attempt_consumption : ℕ → Dict ℕ → ExecutionContext → Option ExecutionContext
record_attempt_consumption i amounts c = elim (get_elem? c.attempts i) [
  | none ↦ none
  | some a ↦ with_consumption i a (add_all c.request amounts a.consumed_budget) c
]

-- record_outcome
unfoldable pub record_outcome :
    String → OutcomeStatus → String → Dict Detail → ExecutionContext → ExecutionContext
record_outcome capability_id status stage details c = record c {
  capability_outcomes =
      c.capability_outcomes
      ++ record { capability_id = capability_id; status = status; stage = stage; details = details }
        ∷ [];
}

-- record_runtime_event
unfoldable pub record_runtime_event :
    String → String → Dict Detail → ExecutionContext → ExecutionContext
record_runtime_event event_type actor payload c = record c {
  pending_events =
      c.pending_events ++ record { event_type = event_type; actor = actor; payload = payload } ∷ [];
}
