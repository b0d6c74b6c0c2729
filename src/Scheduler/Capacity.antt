-- ===== src/Scheduler/Capacity.antt =====
-- src/fetech/scheduling.py: the limits hold and the accounting is exact in every reachable state.
use fetech.Prelude.{ℕ, ◌≤◌, ◌≡◌, ◌≢◌, String, Option, none, some, In, arith}
use fetech.Scheduler.Config.{Limits}
use fetech.Scheduler.State.{State, Waiter, done, active}
use fetech.Scheduler.Slots.{
  SlotError, accounting_underflow, event_loop, pumped, give_back, release, System, Reach,
}
use fetech.Scheduler.Counts.{granted}
use fetech.Scheduler.Invariant.Grant.{any_host, on_host}
use fetech.Scheduler.Invariant.Leave.{release_lem}
use fetech.Scheduler.Invariant.Steps.{Reach-Inv}

-- In every state that calls, cancellations, releases and timers can reach, whatever the loops and
-- clocks, the active operations do not exceed the global limit, and those of no host exceed the
-- limit of a host.
pub capacity :
    (l : Limits) (y : System)
    → Reach l y
    → (y.sched.active_global ≤ l.global_concurrency)
      × ((h : String) → active y.sched h ≤ l.per_host_concurrency)
capacity l y r = ((Reach-Inv l y r).within, (Reach-Inv l y r).host_within)

-- In every reachable state the global counter is the number of the live calls whose future is done,
-- and the counter of each host is the number of those on that host.
pub accounting :
    (l : Limits) (y : System)
    → Reach l y
    → (y.sched.active_global ≡ granted any_host y.sched.future y.calls)
      × ((h : String) → active y.sched h ≡ granted (on_host h) y.sched.future y.calls)
accounting l y r = ((Reach-Inv l y r).counted, (Reach-Inv l y r).host_counted)

event_loop-ne-underflow :
    (running : ℕ) (s : State) → (event_loop running s).0 ≢ some accounting_underflow
unfolding event_loop
event_loop-ne-underflow running s = ground arith

pumped-ne-underflow :
    (l : Limits) (clock : ℕ → ℕ) (r : Option SlotError × State)
    → r.0 ≢ some accounting_underflow
    → (pumped l clock r).0 ≢ some accounting_underflow
pumped-ne-underflow l clock (none, s) h = h
pumped-ne-underflow l clock (some e, s) h = h

-- A live call whose future is done gives its slot back without the error for an accounting
-- underflow, in every reachable state and in any loop.
pub release_no_underflow :
    (l : Limits) (y : System) (w : Waiter) (running : ℕ) (clock : ℕ → ℕ)
    → Reach l y
    → In w y.calls
    → y.sched.future w.id ≡ done
    → (release l running clock w.host y.sched).0 ≢ some accounting_underflow
release_no_underflow l y w running clock r i held =
    rw (release_lem l y.calls w y.sched (Reach-Inv l y r) i held running clock) (
      pumped-ne-underflow l clock (event_loop running (give_back w.host y.sched))
        (event_loop-ne-underflow running (give_back w.host y.sched)))
