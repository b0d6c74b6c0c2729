-- ===== src/Scheduler/Invariant/Ops.antt =====
-- Each operation of the scheduler keeps the invariant, and so does each step.
use mathlib.Core.Path.{◌∙◌}
use fetech.Prelude.{
  ℕ, suc, ◌<◌, ◌≡◌, refl, sym, inl, false, Option, none, some, List, [], ◌∷◌, String, All, All-In,
  All-keep, All-map, All-append, arith,
}
use fetech.Scheduler.Config.{Limits}
use fetech.Scheduler.State.{
  State, Waiter, FutureState, pending, done, cancelled, active, is_done, set_future,
}
use fetech.Scheduler.Eligible.{prune_host_history}
use fetech.Scheduler.Pump.{discard_cancelled_waiters, pump, woken, wake}
use fetech.Scheduler.Slots.{
  SlotError, event_loop, pumped, enqueue, new_waiter, cancelled_from, cancel,
}
use fetech.Scheduler.Counts.{granted-set_ne, granted-set_cancelled}
use fetech.Scheduler.Invariant.Grant.{Inv, Waits, IsCall, any_host, on_host, admit-Inv}
use fetech.Scheduler.Invariant.Rounds.{pump_loop_inv}
use fetech.Scheduler.Invariant.Queue.{Other, Distinct-keep, Distinct-snoc, queued-cons, waiting-set}

-- The fields that the invariant does not read may change.
pub Inv-other_fields :
    (l : Limits) (calls : List Waiter) (s t : State)
    → t.active_global ≡ s.active_global
    → t.active_by_host ≡ s.active_by_host
    → t.waiters ≡ s.waiters
    → t.future ≡ s.future
    → t.next_id ≡ s.next_id
    → Inv l calls s
    → Inv l calls t
unfolding active
Inv-other_fields l calls s t g a w f n v = record {
  within = rw g v.within;
  host_within = λ h. rw a (v.host_within h);
  counted = rw (g, f) v.counted;
  host_counted = λ h. rw (a, f) (v.host_counted h);
  queued = rw w v.queued;
  waiting = rw (w, f) v.waiting;
  waiters_distinct = rw w v.waiters_distinct;
  calls_distinct = v.calls_distinct;
  fresh = rw n v.fresh;
}

module _ (l : Limits) (calls : List Waiter) where
  prune_host_history-Inv :
      (now : ℕ) (s : State) → Inv l calls s → Inv l calls (prune_host_history l now s)
  unfolding prune_host_history
  prune_host_history-Inv now s =
      Inv-other_fields l calls s (prune_host_history l now s) (ground arith) (ground arith)
        (ground arith) (ground arith) (ground arith)

  discard_cancelled-Inv : (s : State) → Inv l calls s → Inv l calls (discard_cancelled_waiters s)
  unfolding discard_cancelled_waiters active
  discard_cancelled-Inv s v = record {
    within = v.within;
    host_within = v.host_within;
    counted = v.counted;
    host_counted = v.host_counted;
    queued = All-keep (IsCall calls) _ s.waiters v.queued;
    waiting = All-keep (Waits s.future) _ s.waiters v.waiting;
    waiters_distinct = Distinct-keep _ s.waiters v.waiters_distinct;
    calls_distinct = v.calls_distinct;
    fresh = v.fresh;
  }

  pub pump-Inv : (clock : ℕ → ℕ) (s : State) → Inv l calls s → Inv l calls (pump l clock s)
  unfolding pump
  pump-Inv clock s v =
      pump_loop_inv l (λ _. Unit {0}) (Inv l calls) (λ now t _ u. prune_host_history-Inv now t u)
        (λ t s' v'.
          Inv-other_fields l calls s' (record s' { wake_handle = some t }) refl refl refl refl refl
            v')
        (λ now i w s' _ v' room at_i r. admit-Inv l calls now i w s' v' room at_i r) _ clock _
        (λ k. tt)
        (discard_cancelled-Inv (record s { wake_handle = none })
          (Inv-other_fields l calls s (record s { wake_handle = none }) refl refl refl refl refl v))

  woken-Inv :
      (clock : ℕ → ℕ) (s : State) (known : Option ℕ)
      → Inv l calls s
      → Inv l calls (woken l clock s known)
  woken-Inv clock s none v = v
  woken-Inv clock s (some r) v = pump-Inv clock s v

  pub wake-Inv : (clock : ℕ → ℕ) (s : State) → Inv l calls s → Inv l calls (wake l clock s)
  unfolding wake
  wake-Inv clock s v =
      woken-Inv clock (record s { wake_handle = none }) s.loop
        (Inv-other_fields l calls s (record s { wake_handle = none }) refl refl refl refl refl v)

  pub event_loop-Inv :
      (running : ℕ) (s : State) → Inv l calls s → Inv l calls (event_loop running s).1
  unfolding event_loop
  event_loop-Inv running s =
      Inv-other_fields l calls s (event_loop running s).1 (ground arith) (ground arith)
        (ground arith) (ground arith) (ground arith)

  pub pumped-Inv :
      (clock : ℕ → ℕ) (r : Option SlotError × State)
      → Inv l calls r.1
      → Inv l calls (pumped l clock r).1
  pumped-Inv clock (none, s) v = pump-Inv clock s v
  pumped-Inv clock (some e, s) v = v

  cancelled_from-Inv :
      (f : FutureState) (id : ℕ) (s : State)
      → s.future id ≡ f
      → Inv l calls s
      → Inv l calls (cancelled_from f id s)
  unfolding active
  cancelled_from-Inv pending id s e v =
      let undone : is_done (s.future id) ≡ false = rw e refl in
      record {
        within = v.within;
        host_within = v.host_within;
        counted = v.counted ∙ sym (granted-set_cancelled any_host s.future id calls undone);
        host_counted = λ h.
            v.host_counted h ∙ sym (granted-set_cancelled (on_host h) s.future id calls undone);
        queued = v.queued;
        waiting = waiting-set s.future id cancelled s.waiters refl v.waiting;
        waiters_distinct = v.waiters_distinct;
        calls_distinct = v.calls_distinct;
        fresh = v.fresh;
      }
  cancelled_from-Inv done id s e v = v
  cancelled_from-Inv cancelled id s e v = v

  pub cancel-Inv : (id : ℕ) (s : State) → Inv l calls s → Inv l calls (cancel id s)
  unfolding cancel
  cancel-Inv id s v = cancelled_from-Inv (s.future id) id s refl v

  fresh-Other :
      (s : State) (ws : List Waiter)
      → All (λ (w : Waiter). w.id < s.next_id) ws
      → All (Other s.next_id) ws
  fresh-Other s =
      All-map (λ (w : Waiter). w.id < s.next_id) (Other s.next_id) (λ w h e. absurd (omega arith))

  pub enqueue-Inv :
      (host : String) (s : State)
      → Inv l calls s
      → Inv l (new_waiter host s ∷ calls) (enqueue (new_waiter host s) s)
  unfolding active
  enqueue-Inv host s v = record {
    within = v.within;
    host_within = v.host_within;
    counted =
        ground (arith, v.counted, granted-set_ne any_host s.future s.next_id pending calls others);
    host_counted = λ h. ground (
      arith,
      v.host_counted h,
      granted-set_ne (on_host h) s.future s.next_id pending calls others,
    );
    queued =
        All-append (IsCall (w ∷ calls)) s.waiters (w ∷ []) (queued-cons w calls s.waiters v.queued)
          (inl refl, tt);
    waiting =
        All-append (Waits f') s.waiters (w ∷ [])
          (waiting-set s.future s.next_id pending s.waiters refl v.waiting) (ground arith, tt);
    waiters_distinct = Distinct-snoc s.waiters w v.waiters_distinct (
        All-map (IsCall calls) (Other s.next_id) (λ u i. All-In (Other s.next_id) calls u others i)
          s.waiters v.queued);
    calls_distinct = (others, v.calls_distinct);
    fresh = (
      omega arith,
      All-map (λ (u : Waiter). u.id < s.next_id) (λ (u : Waiter). u.id < suc s.next_id)
          (λ u h. omega arith) calls v.fresh,
    );
  }
    where
      w : Waiter
      w = new_waiter host s

      f' : ℕ → FutureState
      f' = set_future s.next_id pending s.future

      others : All (Other s.next_id) calls
      others = fresh-Other s calls v.fresh
