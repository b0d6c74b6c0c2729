-- ===== src/Scheduler/Pump.antt =====
-- src/fetech/scheduling.py: `_pump`, `_wake`, `_discard_waiter` and `_discard_cancelled_waiters`.
use fetech.Prelude.{
  ℕ, zero, suc, ◌+◌, ◌==◌, not, Option, none, some, List, [], ◌∷◌, ltb, if◌then◌else◌, length,
  get_elem?, remove_at, keep,
}
use fetech.Prelude.Dict.{insert, insert_last}
use fetech.Scheduler.Config.{Limits}
use fetech.Scheduler.State.{State, Waiter, done, active, is_cancelled, set_future}
use fetech.Scheduler.Eligible.{prune_host_history, next_eligible_waiter}

-- self._waiters.remove(waiter), a missing one suppressed: the first that is the same object
abbrev pub drop_first : ℕ → List Waiter → List Waiter
drop_first id [] = []
drop_first id (w ∷ ws) = if w.id == id then ws else w ∷ drop_first id ws

-- _discard_waiter
unfoldable pub discard_waiter : ℕ → State → State
discard_waiter id s = record s { waiters = drop_first id s.waiters }

-- _discard_cancelled_waiters
unfoldable pub discard_cancelled_waiters : State → State
discard_cancelled_waiters s = record s {
  waiters = keep (λ w. not (is_cancelled (s.future w.id))) s.waiters;
}

-- The end of the loop body of `_pump`: the waiter at `index` leaves the queue and gets its slot.
unfoldable pub admit : Limits → ℕ → ℕ → Waiter → State → State
admit l now index w s = record s {
  waiters = remove_at s.waiters index;
  active_global = s.active_global + 1;
  active_by_host = insert w.host (active s w.host + 1) s.active_by_host;
  last_started_at =
      if ltb 0 l.min_interval then insert_last w.host now s.last_started_at else s.last_started_at;
  future = set_future w.id done s.future;
}

abbrev pub arm : Option ℕ → State → State
arm none s = s
arm (some t) s = record s { wake_handle = some t }

-- What the loop body does with the position that `_next_eligible_waiter` returned; `again` is the
-- next round. A position out of range does not occur (IndexError in the source).
abbrev pub chosen : Limits → ℕ → State → (State → State) → Option ℕ × Option ℕ → State
chosen l now s again (none, wake_at) = arm wake_at s
chosen l now s again (some i, wake_at) = elim (get_elem? s.waiters i) [
  | none ↦ s
  | some w ↦ again (admit l now i w s)
]

-- The loop body, at the reading `now` and with the queue `ws`; an empty queue ends the loop.
unfoldable pub round : Limits → ℕ → State → (State → State) → List Waiter → State
round l now s again [] = s
round l now s again (w ∷ ws) =
    let pruned = prune_host_history l now s in
    chosen l now pruned again (next_eligible_waiter l pruned now)

-- The `while` loop. `clock` gives the successive readings of `loop.time()`. Each round that goes on
-- takes one waiter out of the queue, so as many rounds as there are waiters are enough.
unfoldable pub pump_loop : Limits → ℕ → (ℕ → ℕ) → State → State
pump_loop l zero clock s = s
pump_loop l (suc fuel) clock s =
    let go = λ (t : State). pump_loop l fuel (λ k. clock (suc k)) t in
    let next = round l (clock 0) s go s.waiters in
    if ltb s.active_global l.global_concurrency then next else s

-- _pump
unfoldable pub pump : Limits → (ℕ → ℕ) → State → State
pump l clock s =
    let t = discard_cancelled_waiters (record s { wake_handle = none }) in
    pump_loop l (length t.waiters) clock t

abbrev pub woken : Limits → (ℕ → ℕ) → State → Option ℕ → State
woken l clock s none = s
woken l clock s (some known) = pump l clock s

-- _wake, the callback of the timer
unfoldable pub wake : Limits → (ℕ → ℕ) → State → State
wake l clock s = woken l clock (record s { wake_handle = none }) s.loop
