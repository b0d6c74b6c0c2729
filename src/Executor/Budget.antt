-- ===== src/Executor/Budget.antt =====
-- src/fetech/executor.py: `_partition_parallel_budgets` and `_remaining_budget`.
pub mod Consumption
pub mod Shares
use fetech.Prelude.{
  ℕ, zero, suc, ◌+◌, ◌-◌, ◌/◌, ◌%◌, max, String, Option, none, some, List, [], ◌∷◌, ltb, length,
  if◌then◌else◌,
}
use fetech.Models.Request.{ResourceBudget}
use fetech.Executor.Context.{ExecutionContext, consumed_budget}

-- consumed + share + (1 if index < remainder else 0), with `max(0, ceiling - consumed)` by the
-- subtraction on ℕ, which stops at 0
unfoldable pub share : ℕ → ℕ → ℕ → ℕ → ℕ
share ceiling consumed count index =
    let remaining = ceiling - consumed in
    consumed + remaining / count + (if ltb index (remaining % count) then 1 else 0)

-- A float is shared out in equal parts, rounded down to the unit here.
unfoldable pub float_share : ℕ → ℕ → ℕ → ℕ
float_share ceiling consumed count = consumed + (ceiling - consumed) / count

-- The budget of the branch at `index` of `count`.
unfoldable pub branch_budget : ExecutionContext → ℕ → ℕ → ResourceBudget
branch_budget c count index = record b {
  attempts = share b.attempts (length c.attempts) count index;
  redirects = share b.redirects (consumed_budget "redirects" c) count index;
  bytes = share b.bytes (consumed_budget "bytes" c) count index;
  decompressed_bytes =
      share b.decompressed_bytes (consumed_budget "decompressed_bytes" c) count index;
  archive_members = share b.archive_members (consumed_budget "archive_members" c) count index;
  model_tokens = share b.model_tokens (consumed_budget "model_tokens" c) count index;
  browser_seconds = float_share b.browser_seconds (consumed_budget "browser_seconds" c) count;
  monetary_ceiling = float_share b.monetary_ceiling (consumed_budget "monetary_ceiling" c) count;
}
  where
    open c.request use {budget as b}

abbrev budgets_from : ExecutionContext → ℕ → ℕ → ℕ → List ResourceBudget
budgets_from c count index zero = []
budgets_from c count index (suc left) =
    branch_budget c count index ∷ budgets_from c count (suc index) left

-- _partition_parallel_budgets; `none` is the ValueError for no branch
pub partition_parallel_budgets : ExecutionContext → ℕ → Option (List ResourceBudget)
partition_parallel_budgets c zero = none
partition_parallel_budgets c (suc n) = some (budgets_from c (suc n) 0 (suc n))

-- _remaining_budget, when `elapsed` has passed; `least` stands for 0.001 s
pub remaining_of_run : ResourceBudget → ℕ → ℕ → ExecutionContext → ResourceBudget
remaining_of_run budget least elapsed c = record budget {
  deadline_seconds = max least (budget.deadline_seconds - elapsed);
  attempts = budget.attempts - length c.attempts;
  redirects = budget.redirects - consumed_budget "redirects" c;
  bytes = budget.bytes - consumed_budget "bytes" c;
  decompressed_bytes = budget.decompressed_bytes - consumed_budget "decompressed_bytes" c;
  archive_members = budget.archive_members - consumed_budget "archive_members" c;
  browser_seconds = budget.browser_seconds - consumed_budget "browser_seconds" c;
  model_tokens = budget.model_tokens - consumed_budget "model_tokens" c;
  monetary_ceiling = budget.monetary_ceiling - consumed_budget "monetary_ceiling" c;
}
