-- ===== src/Executor/Retry.antt =====
-- src/fetech/executor.py: `_with_retries`.
pub mod Tries
use fetech.Prelude.Text.{lower}
use fetech.Prelude.{
  map, ℕ, zero, suc, ◌==◌, String, not, ◌&&◌, ◌||◌, Bool, true, false, Option, none, some, List,
  leb, ltb, length, if◌then◌else◌,
}
use fetech.Models.Plan.{RetryRule}
use fetech.Executor.Context.{ExecutionContext}
use fetech.Executor.Failure.{
  Signal, ExecutionFailure, execution, budget_exceeded, adapter_retry_code, retry_code_allowed,
}

-- The call of an adapter on one node. Calls are numbered, so that each can end in its own way; the
-- adapter changes the context that it shares with the executor.
abbrev pub Operation : Type 0
Operation = ℕ → ExecutionContext → Signal × ExecutionContext

-- How the pause after call `index` ends: `none` when it passes, and else what interrupts it.
abbrev pub Pauses : Type 0
Pauses = ℕ → Option Signal

-- The code of the failure is one of the rule's, whose codes are taken case-folded.
unfoldable pub retryable : RetryRule → ExecutionFailure → Bool
retryable retry e = elim (adapter_retry_code e) [
  | none ↦ false
  | some code ↦ retry_code_allowed code (map lower retry.retryable_codes)
]

-- A pause is made only for a positive backoff.
abbrev pub pause_of : RetryRule → Pauses → ℕ → Option Signal
pause_of retry pauses index = if ltb 0 retry.backoff_seconds then pauses index else none

-- What follows call `index`: `again` is the next round, if there is one.
abbrev pub after_call :
    RetryRule
    → Pauses
    → Option (ExecutionContext → Signal × ExecutionContext)
    → ℕ
    → Signal × ExecutionContext
    → Signal × ExecutionContext
after_call retry pauses none index (signal, c) = (signal, c)
after_call retry pauses (some again) index (execution e, c) =
    let next = again c in
    let paused : Signal × ExecutionContext = elim (pause_of retry pauses index) [
      | none ↦ next
      | some s ↦ (s, c)
    ] in
    if retryable retry e then paused else (execution e, c)
after_call retry pauses (some again) index (signal, c) = (signal, c)

-- The `for` loop from `index` on, with `left` more rounds after this one.
unfoldable pub tries_from :
    Operation → RetryRule → Pauses → ℕ → ℕ → ExecutionContext → Signal × ExecutionContext
tries_from operation retry pauses zero index c =
    let ended = after_call retry pauses none index (operation index c) in
    if leb c.request.budget.attempts (length c.attempts)
    then (budget_exceeded "attempt budget exhausted", c)
    else ended
tries_from operation retry pauses (suc left) index c =
    let again = λ (d : ExecutionContext). tries_from operation retry pauses left (suc index) d in
    let ended = after_call retry pauses (some again) index (operation index c) in
    if leb c.request.budget.attempts (length c.attempts)
    then (budget_exceeded "attempt budget exhausted", c)
    else ended

-- _with_retries
unfoldable pub with_retries :
    Operation → RetryRule → Pauses → ExecutionContext → Signal × ExecutionContext
with_retries operation retry pauses c = tries_from operation retry pauses retry.maximum 0 c
