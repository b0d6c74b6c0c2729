-- ===== src/Executor/Batch/Merge.antt =====
-- The branches of a batch together stay within the budget of the run.
use fetech.Prelude.{
  ℕ, suc, ◌+◌, ◌-◌, ◌<◌, ◌≤◌, ◌≡◌, ap, some, List, [], ◌∷◌, ◌++◌, String, length, length-append,
  drop-append, All, arith,
}
use fetech.Models.Record.{FetchAttempt}
use fetech.Executor.Context.{ExecutionContext, consumption, consumed_budget}
use fetech.Executor.Budget.{share, branch_budget}
use fetech.Models.Request.{budget_field}
use fetech.Executor.Budget.Shares.{sum_below, extra, shares_add_up}
use fetech.Executor.Batch.{ContextLengths, capture, merge_parallel_context}

-- The loop of `execute` over the branches, in the order of their nodes.
unfoldable pub merge_all :
    ContextLengths → ExecutionContext → List ExecutionContext → ExecutionContext
merge_all baseline c [] = c
merge_all baseline c (b ∷ bs) = merge_all baseline (merge_parallel_context baseline c b) bs

-- A branch keeps the attempts that it started with and adds its own.
abbrev pub Extends : ExecutionContext → ExecutionContext → Type 0
Extends c b = (own : List FetchAttempt) × (b.attempts ≡ c.attempts ++ own)

-- Branch number `i`, and those after it, keep to their shares of the ceiling.
abbrev Within :
    (List FetchAttempt → ℕ) → ExecutionContext → ℕ → ℕ → ℕ → List ExecutionContext → Type 0
Within m c ceiling count i [] = Unit
Within m c ceiling count i (b ∷ bs) =
    (m b.attempts ≤ share ceiling (m c.attempts) count i) × Within m c ceiling count (suc i) bs

module _ (m : List FetchAttempt → ℕ)
    (m-append : (xs ys : List FetchAttempt) → m (xs ++ ys) ≡ m xs + m ys)
    (c : ExecutionContext) where
  merge-measure :
      (d b : ExecutionContext)
      → Extends c b
      → m (merge_parallel_context (capture c) d b).attempts + m c.attempts
        ≡ m d.attempts + m b.attempts
  unfolding merge_parallel_context
  merge-measure d b (own, e) =
      rw (e, drop-append) (omega (arith, m-append d.attempts own, m-append c.attempts own))

  -- From number `i` on the branches add no more than their extra shares.
  merge_all-measure :
      (ceiling count i j : ℕ) (d : ExecutionContext) (bs : List ExecutionContext)
      → i + length bs ≡ j
      → All (Extends c) bs
      → Within m c ceiling count i bs
      → m (merge_all (capture c) d bs).attempts + sum_below i (extra ceiling (m c.attempts) count)
        ≤ m d.attempts + sum_below j (extra ceiling (m c.attempts) count)
  unfolding merge_all
  merge_all-measure ceiling count i j d [] e h w =
      let same : i ≡ j = omega arith in
      omega (arith, ap (λ (n : ℕ). sum_below n (extra ceiling (m c.attempts) count)) same)
  merge_all-measure ceiling count i j d (b ∷ bs) e h w = omega (
    arith,
    merge-measure d b h.0,
    w.0,
    merge_all-measure ceiling count (suc i) j (merge_parallel_context (capture c) d b) bs
        (omega arith) h.1 w.1,
  )

  -- When every branch keeps to its share, all of them together add at most what was left of the
  -- ceiling before the batch.
  merged-Within :
      (ceiling : ℕ) (bs : List ExecutionContext)
      → 0 < length bs
      → All (Extends c) bs
      → Within m c ceiling (length bs) 0 bs
      → m (merge_all (capture c) c bs).attempts ≤ m c.attempts + (ceiling - m c.attempts)
  merged-Within ceiling bs pos h w = omega (
    arith,
    merge_all-measure ceiling (length bs) 0 (length bs) c bs (omega arith) h w,
    shares_add_up ceiling (m c.attempts) (length bs) pos,
  )

consumption-append :
    (name : String) (xs ys : List FetchAttempt)
    → consumption name (xs ++ ys) ≡ consumption name xs + consumption name ys
consumption-append name [] ys = omega arith
consumption-append name (x ∷ xs) ys = omega (arith, consumption-append name xs ys)

-- The integer fields that `_partition_parallel_budgets` shares out.
pub data SharedField : Type 0 where
  redirects bytes decompressed_bytes archive_members model_tokens : SharedField

abbrev pub field_name : SharedField → String
field_name redirects = "redirects"
field_name bytes = "bytes"
field_name decompressed_bytes = "decompressed_bytes"
field_name archive_members = "archive_members"
field_name model_tokens = "model_tokens"

-- The field's ceiling in the budget of a branch.
branch_ceiling :
    (f : SharedField) (c : ExecutionContext) (count i ceiling : ℕ)
    → budget_field (field_name f) c.request.budget ≡ some ceiling
    → budget_field (field_name f) (branch_budget c count i)
      ≡ some (share ceiling (consumed_budget (field_name f) c) count i)
unfolding branch_budget budget_field
branch_ceiling redirects c count i ceiling e = cc
branch_ceiling bytes c count i ceiling e = cc
branch_ceiling decompressed_bytes c count i ceiling e = cc
branch_ceiling archive_members c count i ceiling e = cc
branch_ceiling model_tokens c count i ceiling e = cc

-- Branch number `i`, and those after it, consume no more than the ceilings in their own budgets.
abbrev pub RespectBudgets : SharedField → ExecutionContext → ℕ → ℕ → List ExecutionContext → Type 0
RespectBudgets f c count i [] = Unit
RespectBudgets f c count i (b ∷ bs) =
    ((limit : ℕ)
      → budget_field (field_name f) (branch_budget c count i) ≡ some limit
      → consumed_budget (field_name f) b ≤ limit)
    × RespectBudgets f c count (suc i) bs

RespectBudgets-Within :
    (f : SharedField) (c : ExecutionContext) (ceiling count i : ℕ) (bs : List ExecutionContext)
    → budget_field (field_name f) c.request.budget ≡ some ceiling
    → RespectBudgets f c count i bs
    → Within (consumption (field_name f)) c ceiling count i bs
RespectBudgets-Within f c ceiling count i [] e h = tt
RespectBudgets-Within f c ceiling count i (b ∷ bs) e h = (
  h.0 _ (branch_ceiling f c count i ceiling e),
  RespectBudgets-Within f c ceiling count (suc i) bs e h.1,
)

-- When every branch of a batch keeps the attempts before it and consumes no more of a shared field than
-- the budget that `_partition_parallel_budgets` gives it, the merged run stays within the ceiling of
-- the request, if it was within it before the batch.
pub batch_within_budget :
    (f : SharedField) (c : ExecutionContext) (ceiling : ℕ) (bs : List ExecutionContext)
    → budget_field (field_name f) c.request.budget ≡ some ceiling
    → consumed_budget (field_name f) c ≤ ceiling
    → 0 < length bs
    → All (Extends c) bs
    → RespectBudgets f c (length bs) 0 bs
    → consumed_budget (field_name f) (merge_all (capture c) c bs) ≤ ceiling
batch_within_budget f c ceiling bs e fits pos h r = omega (
  arith,
  merged-Within (consumption (field_name f)) (consumption-append (field_name f)) c ceiling bs pos h
      (RespectBudgets-Within f c ceiling (length bs) 0 bs e r),
)

-- Each branch makes no more attempts in all than its own budget allows.
abbrev pub RespectAttempts : ExecutionContext → ℕ → ℕ → List ExecutionContext → Type 0
RespectAttempts c count i [] = Unit
RespectAttempts c count i (b ∷ bs) =
    (length b.attempts ≤ (branch_budget c count i).attempts) × RespectAttempts c count (suc i) bs

RespectAttempts-Within :
    (c : ExecutionContext) (count i : ℕ) (bs : List ExecutionContext)
    → RespectAttempts c count i bs
    → Within length c c.request.budget.attempts count i bs
unfolding branch_budget
RespectAttempts-Within c count i [] h = tt
RespectAttempts-Within c count i (b ∷ bs) h = (h.0, RespectAttempts-Within c count (suc i) bs h.1)

-- When every branch of a batch keeps the attempts before it and makes no more attempts in all than the
-- budget that `_partition_parallel_budgets` gives it allows, the merged run has no more attempts than
-- the request allows, if it had no more before the batch.
pub batch_within_attempts :
    (c : ExecutionContext) (bs : List ExecutionContext)
    → length c.attempts ≤ c.request.budget.attempts
    → 0 < length bs
    → All (Extends c) bs
    → RespectAttempts c (length bs) 0 bs
    → length (merge_all (capture c) c bs).attempts ≤ c.request.budget.attempts
batch_within_attempts c bs fits pos h r = omega (
  arith,
  merged-Within length length-append c c.request.budget.attempts bs pos h
      (RespectAttempts-Within c (length bs) 0 bs r),
)
