-- ===== src/Scheduler/Invariant/Leave.antt =====
-- A call that ends: its slot is given back, or its waiter leaves the queue.
use mathlib.Core.Path.{◌∙◌}
use fetech.Prelude.{
  ℕ, ◌+◌, ◌-◌, ◌<◌, ◌≡◌, refl, Bool, true, false, List, String, ◌=s=◌, In, eq_iff, arith,
}
use fetech.Prelude.Dict.{lookup-insert, lookup-remove}
use fetech.Scheduler.Config.{Limits}
use fetech.Scheduler.State.{State, Waiter, done, active, is_done}
use fetech.Scheduler.Pump.{drop_first, discard_waiter}
use fetech.Scheduler.Slots.{event_loop, pumped, give_back, release}
use fetech.Scheduler.Counts.{
  granted, one_if, granted-drop_first, All-drop_first, Distinct-drop_first,
}
use fetech.Scheduler.Invariant.Grant.{Inv, Waits, IsCall, any_host, on_host}
use fetech.Scheduler.Invariant.Ops.{pumped-Inv, event_loop-Inv}
use fetech.Scheduler.Invariant.Queue.{drop_first-Other, queued-drop_first, waiting-Other}

active-give_back :
    (host h : String) (s : State)
    → 0 < active s host
    → active (give_back host s) h + one_if (host =s= h) ≡ active s h
unfolding active
active-give_back host h s pos = ground (
  arith,
  eq_iff host h,
  lookup-remove host h s.active_by_host,
  lookup-insert host h (active s host - 1) s.active_by_host,
)

module _ (l : Limits) (calls : List Waiter) (w : Waiter) (s : State) (v : Inv l calls s)
    (call : In w calls) where
  module _ (held : s.future w.id ≡ done) where
    holds :
        (p : Waiter → Bool)
        → granted p s.future calls ≡ granted p s.future (drop_first w.id calls) + one_if (p w)
    holds p =
        let e : is_done (s.future w.id) ≡ true = rw held refl in
        ground (arith, granted-drop_first p s.future w calls v.calls_distinct call)

    pub some_active : 0 < s.active_global
    some_active = omega (arith, v.counted, holds any_host)

    pub host_active : 0 < active s w.host
    host_active =
        ground (arith, v.host_counted w.host, holds (on_host w.host), eq_iff w.host w.host)

    give_back-Inv : Inv l (drop_first w.id calls) (give_back w.host s)
    give_back-Inv = record {
      within = omega (arith, v.within);
      host_within = λ h. omega (arith, active-give_back w.host h s host_active, v.host_within h);
      counted = omega (arith, v.counted, holds any_host, some_active);
      host_counted = λ h.
          omega
            (arith, active-give_back w.host h s host_active, v.host_counted h, holds (on_host h));
      queued =
          queued-drop_first w.id calls s.waiters
            (waiting-Other s.future w.id s.waiters (rw held refl) v.waiting) v.queued;
      waiting = v.waiting;
      waiters_distinct = v.waiters_distinct;
      calls_distinct = Distinct-drop_first w.id calls v.calls_distinct;
      fresh = All-drop_first (λ (u : Waiter). u.id < s.next_id) w.id calls v.fresh;
    }

    pub release_lem :
        (running : ℕ) (clock : ℕ → ℕ)
        → release l running clock w.host s
          ≡ pumped l clock (event_loop running (give_back w.host s))
    unfolding release
    release_lem running clock = ground (arith, some_active, host_active)

    pub release-Inv :
        (running : ℕ) (clock : ℕ → ℕ)
        → Inv l (drop_first w.id calls) (release l running clock w.host s).1
    release-Inv running clock = rw (release_lem running clock) (
        pumped-Inv l (drop_first w.id calls) clock (event_loop running (give_back w.host s))
          (event_loop-Inv l (drop_first w.id calls) running (give_back w.host s) give_back-Inv))

  module _ (undone : is_done (s.future w.id) ≡ false) where
    lets_go :
        (p : Waiter → Bool) → granted p s.future calls ≡ granted p s.future (drop_first w.id calls)
    lets_go p = ground (arith, granted-drop_first p s.future w calls v.calls_distinct call)

    pub discard-Inv : Inv l (drop_first w.id calls) (discard_waiter w.id s)
    unfolding discard_waiter active
    discard-Inv = record {
      within = v.within;
      host_within = v.host_within;
      counted = v.counted ∙ lets_go any_host;
      host_counted = λ h. v.host_counted h ∙ lets_go (on_host h);
      queued =
          queued-drop_first w.id calls (drop_first w.id s.waiters)
            (drop_first-Other w.id s.waiters v.waiters_distinct)
            (All-drop_first (IsCall calls) w.id s.waiters v.queued);
      waiting = All-drop_first (Waits s.future) w.id s.waiters v.waiting;
      waiters_distinct = Distinct-drop_first w.id s.waiters v.waiters_distinct;
      calls_distinct = Distinct-drop_first w.id calls v.calls_distinct;
      fresh = All-drop_first (λ (u : Waiter). u.id < s.next_id) w.id calls v.fresh;
    }
