-- ===== src/Scheduler/Invariant/Steps.antt =====
-- Each step between two `await`s keeps the invariant.
use fetech.Prelude.{
  ℕ, ◌≡◌, ◌⊎◌, refl, inl, inr, true, false, Option, none, some, List, ◌∷◌, String, In, arith,
}
use fetech.Prelude.Dict.{lookup}
use fetech.Scheduler.Config.{Limits}
use fetech.Scheduler.State.{State, Waiter, FutureState, pending, done, cancelled, active, is_done}
use fetech.Scheduler.Pump.{drop_first, discard_waiter}
use fetech.Scheduler.Slots.{
  SlotError, event_loop, pumped, enqueue, new_waiter, queued, acquire, abandon, System, start,
  entered, enter, Step, entering, cancelling, abandoning, leaving, waking, Reach, here, next,
}
use fetech.Scheduler.Invariant.Grant.{Inv}
use fetech.Scheduler.Invariant.Ops.{pump-Inv, wake-Inv, cancel-Inv, event_loop-Inv, enqueue-Inv}
use fetech.Scheduler.Invariant.Leave.{release-Inv, discard-Inv}

FutureState-cases : (f : FutureState) → (f ≡ done) ⊎ (is_done f ≡ false)
FutureState-cases pending = inr refl
FutureState-cases done = inl refl
FutureState-cases cancelled = inr refl

abandon-Inv :
    (l : Limits) (running : ℕ) (clock : ℕ → ℕ) (calls : List Waiter) (w : Waiter) (s : State)
    → In w calls
    → Inv l calls s
    → Inv l (drop_first w.id calls) (abandon l running clock w s).1
unfolding abandon
abandon-Inv l running clock calls w s i v = elim (FutureState-cases (s.future w.id)) [
  | inl e ↦
      let d : is_done (s.future w.id) ≡ true = rw e refl in
      rw d (release-Inv l calls w s v i e running clock)
  | inr e ↦ rw e (
      pump-Inv l (drop_first w.id calls) clock (discard_waiter w.id s)
        (discard-Inv l calls w s v i e))
]

abbrev pub SystemInv : Limits → System → Type 0
SystemInv l y = Inv l y.calls y.sched

next_id-event_loop : (running : ℕ) (s : State) → (event_loop running s).1.next_id ≡ s.next_id
unfolding event_loop
next_id-event_loop running s = ground arith

entered-Inv :
    (l : Limits) (clock : ℕ → ℕ) (host : String) (calls : List Waiter) (id : ℕ)
    (r : Option SlotError × State)
    → r.1.next_id ≡ id
    → Inv l calls r.1
    → SystemInv l (entered (record { id = id; host = host }) calls (pumped l clock (queued host r)))
entered-Inv l clock host calls id (none, s) e v = rw (← e) (
    pump-Inv l (new_waiter host s ∷ calls) clock (enqueue (new_waiter host s) s)
      (enqueue-Inv l calls host s v))
entered-Inv l clock host calls id (some x, s) e v = v

-- Each step keeps the invariant.
pub Step-Inv : (l : Limits) (y z : System) → Step l y z → SystemInv l y → SystemInv l z
unfolding enter acquire
Step-Inv l y z (entering running clock host) v =
    entered-Inv l clock host y.calls y.sched.next_id (event_loop running y.sched)
      (next_id-event_loop running y.sched) (event_loop-Inv l y.calls running y.sched v)
Step-Inv l y z (cancelling w i) v = cancel-Inv l y.calls w.id y.sched v
Step-Inv l y z (abandoning running clock w i) v = abandon-Inv l running clock y.calls w y.sched i v
Step-Inv l y z (leaving running clock w i held) v =
    release-Inv l y.calls w y.sched v i held running clock
Step-Inv l y z (waking clock) v = wake-Inv l y.calls clock y.sched v

start-Inv : (l : Limits) → SystemInv l start
unfolding active lookup
start-Inv l = record {
  within = omega arith;
  host_within = λ h. omega arith;
  counted = refl;
  host_counted = λ h. refl;
  queued = tt;
  waiting = tt;
  waiters_distinct = tt;
  calls_distinct = tt;
  fresh = tt;
}

pub Reach-Inv : (l : Limits) (y : System) → Reach l y → SystemInv l y
Reach-Inv l y here = start-Inv l
Reach-Inv l y (next {y = x} r st) = Step-Inv l x y st (Reach-Inv l x r)
