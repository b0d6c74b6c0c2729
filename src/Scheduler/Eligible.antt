-- ===== src/Scheduler/Eligible.antt =====
-- src/fetech/scheduling.py: `_prune_host_history` and `_next_eligible_waiter`.
use fetech.Prelude.{
  ℕ, suc, ◌+◌, ◌&&◌, Option, none, some, List, [], ◌∷◌, ltb, leb, ◌==◌, if◌then◌else◌, length, min,
  String,
}
use fetech.Prelude.Dict.{Dict, lookup}
use fetech.Scheduler.Config.{Limits}
use fetech.Scheduler.State.{State, Waiter, active}

-- The `while` loop over the oldest entry; it stops at the first that is younger than the interval.
unfoldable pub prune : ℕ → ℕ → Dict ℕ → Dict ℕ
prune interval now [] = []
prune interval now ((host, started_at) ∷ rest) =
    let later = prune interval now rest in
    if ltb now (started_at + interval) then (host, started_at) ∷ rest else later

-- _prune_host_history
unfoldable pub prune_host_history : Limits → ℕ → State → State
prune_host_history l now s =
    if l.min_interval == 0
    then record s { last_started_at = [] }
    else record s { last_started_at = prune l.min_interval now s.last_started_at }

-- What the loop body of `_next_eligible_waiter` finds for one waiter: its host is full, it may
-- start at a later time, or it is the one to return.
pub data Verdict : Type 0 where
  full : Verdict
  at : ℕ → Verdict
  ready : Verdict

-- `next(iter(values))`: the history is not empty where this is read, since its limit is positive.
abbrev pub oldest : Dict ℕ → ℕ
oldest [] = 0
oldest ((host, started_at) ∷ rest) = started_at

abbrev pub history_verdict : Limits → Dict ℕ → Option ℕ → ℕ → Verdict
history_verdict l history (some last) now =
    if ltb now (last + l.min_interval) then at (last + l.min_interval) else ready
history_verdict l history none now =
    if ltb 0 l.min_interval && leb l.host_history_limit (length history)
    then at (oldest history + l.min_interval)
    else ready

unfoldable pub verdict : Limits → State → ℕ → String → Verdict
verdict l s now host =
    if leb l.per_host_concurrency (active s host)
    then full
    else history_verdict l s.last_started_at (lookup host s.last_started_at) now

abbrev pub earlier : Option ℕ → ℕ → ℕ
earlier none t = t
earlier (some w) t = min w t

-- _next_eligible_waiter, from position `index` on
unfoldable pub next_from : Limits → State → ℕ → List Waiter → ℕ → Option ℕ → Option ℕ × Option ℕ
next_from l s now [] index wake_at = (none, wake_at)
next_from l s now (w ∷ ws) index wake_at = elim (verdict l s now w.host) [
  | full ↦ next_from l s now ws (suc index) wake_at
  | at t ↦ next_from l s now ws (suc index) (some (earlier wake_at t))
  | ready ↦ (some index, wake_at)
]

unfoldable pub next_eligible_waiter : Limits → State → ℕ → Option ℕ × Option ℕ
unfolding next_from
next_eligible_waiter l s now = next_from l s now s.waiters 0 none
