-- ===== src/Models/Plan.antt =====
-- src/fetech/models.py: `RetryRule`, `PlanNode` and `FetchPlan`.
use fetech.Prelude.{ℕ, String, Bool, Option, List}
use fetech.Prelude.Dict.{Dict}
use fetech.Models.Request.{FetchRequest}

pub record RetryRule : Type 0 where
  pub maximum : ℕ
  pub backoff_seconds : ℕ
  pub retryable_codes : List String

pub record PlanNode : Type 0 where
  pub id : String
  pub capability_id : String
  pub adapter : String
  pub dependencies : List String
  pub parallel_group : Option String
  pub retry : RetryRule
  pub fallback_for : Option String
  pub stop_on_acceptance : Bool
  pub requires_approval : Bool
  pub reserved_budget : Dict ℕ
  pub parameters : Dict String

-- `execution_request` is the private raw request that `bind_execution_request` stores.
pub record FetchPlan : Type 0 where
  pub request : FetchRequest
  pub nodes : List PlanNode
  pub execution_request : FetchRequest
