-- ===== src/Scheduler/Slots.antt =====
-- src/fetech/scheduling.py: `_event_loop`, `_acquire`, `_release` and `slot`, cut at their `await`s,
-- and the relation of one scheduler step to the next.
use fetech.Prelude.{
  ℕ, suc, ◌-◌, ◌==◌, ◌≡◌, String, Bool, true, false, ◌||◌, not, Option, none, some, List, [], ◌∷◌,
  ◌++◌, if◌then◌else◌, In,
}
use fetech.Prelude.Dict.{insert, remove}
use fetech.Scheduler.Config.{Limits}
use fetech.Scheduler.State.{
  State, Waiter, FutureState, pending, done, cancelled, active, is_done, set_future, initial,
}
use fetech.Scheduler.Pump.{pump, wake, discard_waiter, drop_first}

pub data SlotError : Type 0 where
  accounting_underflow spans_loops : SlotError

abbrev pub is_empty : List Waiter → Bool
is_empty [] = true
is_empty (w ∷ ws) = false

-- The loop of the state is not the running one.
abbrev pub change_loop : ℕ → State → Option SlotError × State
change_loop running s =
    if not (s.active_global == 0) || not (is_empty s.waiters)
    then (some spans_loops, s)
    else (none, record s { wake_handle = none; last_started_at = []; loop = some running })

-- _event_loop, in the loop `running`
unfoldable pub event_loop : ℕ → State → Option SlotError × State
event_loop running s = elim s.loop [
  | none ↦ (none, record s { loop = some running })
  | some known ↦ if known == running then (none, s) else change_loop running s
]

abbrev pub pumped : Limits → (ℕ → ℕ) → Option SlotError × State → Option SlotError × State
pumped l clock (none, s) = (none, pump l clock s)
pumped l clock (some e, s) = (some e, s)

abbrev pub give_back : String → State → State
give_back host s = record s {
  active_global = s.active_global - 1;
  active_by_host =
      if active s host == 1
      then remove host s.active_by_host
      else insert host (active s host - 1) s.active_by_host;
}

-- _release: what was given back stays so when `_event_loop` raises.
unfoldable pub release : Limits → ℕ → (ℕ → ℕ) → String → State → Option SlotError × State
release l running clock host s =
    if s.active_global == 0 || active s host == 0
    then (some accounting_underflow, s)
    else pumped l clock (event_loop running (give_back host s))

abbrev pub enqueue : Waiter → State → State
enqueue w s = record s {
  waiters = s.waiters ++ w ∷ [];
  future = set_future w.id pending s.future;
  next_id = suc s.next_id;
}

abbrev pub new_waiter : String → State → Waiter
new_waiter host s = record { id = s.next_id; host = host }

abbrev pub queued : String → Option SlotError × State → Option SlotError × State
queued host (none, s) = (none, enqueue (new_waiter host s) s)
queued host (some e, s) = (some e, s)

-- _acquire, up to `await waiter.future`
unfoldable pub acquire : Limits → ℕ → (ℕ → ℕ) → String → State → Option SlotError × State
acquire l running clock host s = pumped l clock (queued host (event_loop running s))

abbrev pub cancelled_from : FutureState → ℕ → State → State
cancelled_from pending id s = record s { future = set_future id cancelled s.future }
cancelled_from done id s = s
cancelled_from cancelled id s = s

-- A task that waits is cancelled through the future it waits for; one that is done stays done.
unfoldable pub cancel : ℕ → State → State
cancel id s = cancelled_from (s.future id) id s

-- _acquire, `except BaseException`: the call raises again afterwards.
unfoldable pub abandon : Limits → ℕ → (ℕ → ℕ) → Waiter → State → Option SlotError × State
abandon l running clock w s =
    if is_done (s.future w.id)
    then release l running clock w.host s
    else (none, pump l clock (discard_waiter w.id s))

-- The scheduler, and the calls of `slot` that have queued a waiter and not ended yet.
pub record System : Type 0 where
  pub sched : State
  pub calls : List Waiter

abbrev pub start : System
start = record { sched = initial; calls = [] }

-- A call of `slot` that could not queue its waiter has ended.
abbrev pub entered : Waiter → List Waiter → Option SlotError × State → System
entered w calls (none, s) = record { sched = s; calls = w ∷ calls }
entered w calls (some e, s) = record { sched = s; calls = calls }

unfoldable pub enter : Limits → ℕ → (ℕ → ℕ) → String → System → System
enter l running clock host y =
    entered (new_waiter host y.sched) y.calls (acquire l running clock host y.sched)

abbrev pub ended : Waiter → System → Option SlotError × State → System
ended w y r = record { sched = r.1; calls = drop_first w.id y.calls }

-- One step between two `await`s: a call enters `slot`, the task of a call is cancelled, a call ends
-- by an exception while it waits, a call that got its slot leaves `slot` (its `finally`), and the
-- timer fires. The loop that runs and the readings of its clock are free.
pub data Step (l : Limits) (y : System) : System → Type 0 where
  entering : (running : ℕ) (clock : ℕ → ℕ) (host : String) → Step l y (enter l running clock host y)
  cancelling : (w : Waiter) → In w y.calls → Step l y (record y { sched = cancel w.id y.sched })
  abandoning :
      (running : ℕ) (clock : ℕ → ℕ) (w : Waiter)
      → In w y.calls
      → Step l y (ended w y (abandon l running clock w y.sched))
  leaving :
      (running : ℕ) (clock : ℕ → ℕ) (w : Waiter)
      → In w y.calls
      → y.sched.future w.id ≡ done
      → Step l y (ended w y (release l running clock w.host y.sched))
  waking : (clock : ℕ → ℕ) → Step l y (record y { sched = wake l clock y.sched })

pub data Reach (l : Limits) : System → Type 0 where
  here : Reach l start
  next : {y z : System} → Reach l y → Step l y z → Reach l z
