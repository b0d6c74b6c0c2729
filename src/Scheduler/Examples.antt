-- ===== src/Scheduler/Examples.antt =====
-- Runs of the scheduler at concrete limits, for src/fetech/scheduling.py.
use fetech.Prelude.{ℕ, ◌+◌, ◌≤◌, ◌≡◌, ◌≢◌, ◌↔◌, refl, inl, inr, String, false, some, arith, In}
use fetech.Prelude.Dict.{lookup, insert, insert_last, remove}
use fetech.Scheduler.Config.{Limits, integer, real, configure, IsSound, configure-IsSound}
use fetech.Scheduler.State.{Waiter, done, active}
use fetech.Scheduler.Eligible.{next_eligible_waiter, next_from, verdict, prune_host_history, prune}
use fetech.Scheduler.Pump.{pump, pump_loop, round, admit, discard_cancelled_waiters}
use fetech.Scheduler.Slots.{
  System, Reach, here, next, entering, enter, acquire, event_loop, start, release,
  accounting_underflow,
}
use fetech.Scheduler.Capacity.{capacity, accounting, release_no_underflow}
use fetech.Scheduler.Counts.{granted}
use fetech.Scheduler.Invariant.Grant.{any_host, on_host}
use fetech.Scheduler.Fairness.{oldest_ready_first, pump-Settled, Settled}
use fetech.Scheduler.Invariant.Found.{FirstReady}
use fetech.Scheduler.History.{history-Bounded, starts_spaced, Bounded, Remembers}

abbrev limits : Limits
limits = record {
  global_concurrency = 2;
  per_host_concurrency = 1;
  min_interval = 5;
  host_history_limit = 3;
}

abbrev ticking : ℕ → ℕ
ticking k = k + 10

-- Two calls for one host: the first has its slot, the second waits.
abbrev busy : System
busy = enter limits 0 ticking "a" (enter limits 0 ticking "a" start)

busy-Reach : Reach limits busy
busy-Reach = next (next here (entering 0 ticking "a")) (entering 0 ticking "a")

abbrev first_call : Waiter
first_call = record { id = 0; host = "a" }

busy_counts : busy.sched.active_global ≡ 1
unfolding enter acquire event_loop pump pump_loop round admit discard_cancelled_waiters
    prune_host_history prune next_eligible_waiter next_from verdict active lookup insert insert_last
    remove
busy_counts = refl

first_call_done : busy.sched.future 0 ≡ done
unfolding enter acquire event_loop pump pump_loop round admit discard_cancelled_waiters
    prune_host_history prune next_eligible_waiter next_from verdict active lookup insert insert_last
    remove
first_call_done = refl

first_call-In : In first_call busy.calls
unfolding enter acquire event_loop pump pump_loop round admit discard_cancelled_waiters
    prune_host_history prune next_eligible_waiter next_from verdict active lookup insert insert_last
    remove
first_call-In = inr (inl refl)

started_at : lookup "a" busy.sched.last_started_at ≡ some 10
unfolding enter acquire event_loop pump pump_loop round admit discard_cancelled_waiters
    prune_host_history prune next_eligible_waiter next_from verdict active lookup insert insert_last
    remove
started_at = refl

one_active : active busy.sched "a" ≡ 1
unfolding enter acquire event_loop pump pump_loop round admit discard_cancelled_waiters
    prune_host_history prune next_eligible_waiter next_from verdict active lookup insert insert_last
    remove
one_active = refl

configured : configure 1000 (integer 2) (integer 1) (real false 5) (integer 3) ≡ some limits
unfolding configure
configured = refl

configure-IsSound_example : IsSound 1000 (integer 2) (integer 1) (real false 5) (integer 3) limits
configure-IsSound_example =
    configure-IsSound 1000 (integer 2) (integer 1) (real false 5) (integer 3) limits configured

capacity_example : (busy.sched.active_global ≤ 2) × ((h : String) → active busy.sched h ≤ 1)
capacity_example = capacity limits busy busy-Reach

accounting_example :
    (busy.sched.active_global ≡ granted any_host busy.sched.future busy.calls)
    × ((h : String) → active busy.sched h ≡ granted (on_host h) busy.sched.future busy.calls)
accounting_example = accounting limits busy busy-Reach

release_no_underflow_example :
    (release limits 0 ticking "a" busy.sched).0 ≢ some accounting_underflow
release_no_underflow_example =
    release_no_underflow limits busy first_call 0 ticking busy-Reach first_call-In first_call_done

oldest_ready_first_example :
    ((next_eligible_waiter limits busy.sched 20).0 ≡ some 0)
    ↔ FirstReady limits busy.sched 20 busy.sched.waiters 0
oldest_ready_first_example = oldest_ready_first limits busy.sched 20 0

pump-Settled_example : Settled limits ticking (pump limits ticking busy.sched)
pump-Settled_example = pump-Settled limits ticking busy.sched

history-Bounded_example : Bounded limits busy.sched
history-Bounded_example = history-Bounded limits busy busy-Reach

starts_spaced_example : Remembers "a" 10 1 (pump limits (λ k. 12) busy.sched)
starts_spaced_example =
    starts_spaced limits (omega arith) "a" 10 1 (λ k. 12) busy.sched (λ k. omega arith) started_at
      one_active
