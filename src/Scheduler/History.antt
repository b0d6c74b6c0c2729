-- ===== src/Scheduler/History.antt =====
-- src/fetech/scheduling.py: the history of starts stays bounded and spaces the starts of a host.
use fetech.Prelude.{
  ℕ, ◌+◌, ◌<◌, ◌≤◌, ◌≡◌, inl, inr, Option, none, some, List, [], ◌∷◌, String, ◌=s=◌, length,
  Bool-cases, Option-cases, eq_iff, arith,
}
use fetech.Prelude.Dict.{
  Dict, lookup, lookup-insert, lookup-insert_last, length-remove, length-remove_of_some,
  length-insert_last,
}
use fetech.Scheduler.Config.{Limits}
use fetech.Scheduler.State.{State, Waiter, active}
use fetech.Scheduler.Eligible.{prune, prune_host_history, verdict, ready}
use fetech.Scheduler.Pump.{admit, pump, wake, woken, discard_cancelled_waiters, discard_waiter}
use fetech.Scheduler.Slots.{
  SlotError, event_loop, pumped, give_back, release, new_waiter, queued, acquire, cancel, abandon,
  System, entered, enter, Step, entering, cancelling, abandoning, leaving, waking, Reach, here,
  next,
}
use fetech.Scheduler.Invariant.Rounds.{pump_loop_inv}

-- The history of starts is within its limit.
abbrev pub Bounded : Limits → State → Type 0
Bounded l s = length s.last_started_at ≤ l.host_history_limit

length-prune : (interval now : ℕ) (d : Dict ℕ) → length (prune interval now d) ≤ length d
unfolding prune
length-prune interval now [] = omega arith
length-prune interval now ((h, t) ∷ d) = ground (arith, length-prune interval now d)

prune_host_history-Bounded :
    (l : Limits) (now : ℕ) (s : State) → Bounded l s → Bounded l (prune_host_history l now s)
unfolding prune_host_history
prune_host_history-Bounded l now s h =
    ground (arith, length-prune l.min_interval now s.last_started_at)

admit-Bounded :
    (l : Limits) (now i : ℕ) (w : Waiter) (s : State)
    → verdict l s now w.host ≡ ready
    → Bounded l s
    → Bounded l (admit l now i w s)
unfolding verdict admit
admit-Bounded l now i w s r h = elim (Option-cases (lookup w.host s.last_started_at)) [
  | inl e ↦ ground (
    arith,
    length-insert_last w.host now s.last_started_at,
    length-remove w.host s.last_started_at,
  )
  | inr (t, e) ↦ ground (
    arith,
    length-insert_last w.host now s.last_started_at,
    length-remove_of_some w.host s.last_started_at e,
  )
]

module _ (l : Limits) where
  pump-Bounded : (clock : ℕ → ℕ) (s : State) → Bounded l s → Bounded l (pump l clock s)
  unfolding pump discard_cancelled_waiters
  pump-Bounded clock s h =
      pump_loop_inv l (λ _. Unit {0}) (Bounded l)
        (λ now t _ b. prune_host_history-Bounded l now t b) (λ t s' b. b)
        (λ now i w s' _ b room at_i r. admit-Bounded l now i w s' r b) _ clock _ (λ k. tt) h

  pumped-Bounded :
      (clock : ℕ → ℕ) (r : Option SlotError × State)
      → Bounded l r.1
      → Bounded l (pumped l clock r).1
  pumped-Bounded clock (none, s) h = pump-Bounded clock s h
  pumped-Bounded clock (some e, s) h = h

  event_loop-Bounded : (running : ℕ) (s : State) → Bounded l s → Bounded l (event_loop running s).1
  unfolding event_loop
  event_loop-Bounded running s h = ground arith

  release-Bounded :
      (running : ℕ) (clock : ℕ → ℕ) (host : String) (s : State)
      → Bounded l s
      → Bounded l (release l running clock host s).1
  unfolding release
  release-Bounded running clock host s h = ground (
    arith,
    pumped-Bounded clock (event_loop running (give_back host s))
        (event_loop-Bounded running (give_back host s) h),
  )

  queued-Bounded :
      (host : String) (r : Option SlotError × State) → Bounded l r.1 → Bounded l (queued host r).1
  queued-Bounded host (none, s) h = h
  queued-Bounded host (some e, s) h = h

  entered-Bounded :
      (w : Waiter) (calls : List Waiter) (r : Option SlotError × State)
      → Bounded l r.1
      → Bounded l (entered w calls r).sched
  entered-Bounded w calls (none, s) h = h
  entered-Bounded w calls (some e, s) h = h

  woken-Bounded :
      (clock : ℕ → ℕ) (s : State) (o : Option ℕ) → Bounded l s → Bounded l (woken l clock s o)
  woken-Bounded clock s none h = h
  woken-Bounded clock s (some r) h = pump-Bounded clock s h

  Step-Bounded : (y z : System) → Step l y z → Bounded l y.sched → Bounded l z.sched
  unfolding enter acquire cancel abandon wake discard_waiter
  Step-Bounded y z (entering running clock host) h =
      let s = y.sched in
      let r = queued host (event_loop running s) in
      entered-Bounded (new_waiter host s) y.calls (pumped l clock r) (
        pumped-Bounded clock r
          (queued-Bounded host (event_loop running s) (event_loop-Bounded running s h)))
  Step-Bounded y z (cancelling w i) h = ground arith
  Step-Bounded y z (abandoning running clock w i) h = ground (
    arith,
    release-Bounded running clock w.host y.sched h,
    pump-Bounded clock (discard_waiter w.id y.sched) h,
  )
  Step-Bounded y z (leaving running clock w i held) h =
      release-Bounded running clock w.host y.sched h
  Step-Bounded y z (waking clock) h =
      woken-Bounded clock (record y.sched { wake_handle = none }) y.sched.loop h

  -- In every reachable state the history of starts holds at most as many hosts as its limit.
  pub history-Bounded : (y : System) → Reach l y → Bounded l y.sched
  history-Bounded y here = omega arith
  history-Bounded y (next {y = x} r st) = Step-Bounded x y st (history-Bounded x r)

-- The entry of a host, and how many of its operations are active.
abbrev pub Remembers : String → ℕ → ℕ → State → Type 0
Remembers host t n s = (lookup host s.last_started_at ≡ some t) × (active s host ≡ n)

lookup-prune :
    (interval now : ℕ) (host : String) (t : ℕ) (d : Dict ℕ)
    → now < t + interval
    → lookup host d ≡ some t
    → lookup host (prune interval now d) ≡ some t
unfolding prune lookup
lookup-prune interval now host t [] h e = absurd (ground arith)
lookup-prune interval now host t ((k, u) ∷ d) h e =
    ground (arith, lookup-prune interval now host t d h, eq_iff k host)

module _ (l : Limits) (spaced : 0 < l.min_interval) (host : String) (t n : ℕ) where
  abbrev TooEarly : ℕ → Type 0
  TooEarly now = now < t + l.min_interval

  prune-Remembers :
      (now : ℕ) (s : State)
      → TooEarly now
      → Remembers host t n s
      → Remembers host t n (prune_host_history l now s)
  unfolding prune_host_history active
  prune-Remembers now s early (e, a) = (
    ground (arith, lookup-prune l.min_interval now host t s.last_started_at early e),
    ground arith,
  )

  admit-Remembers :
      (now i : ℕ) (w : Waiter) (s : State)
      → TooEarly now
      → verdict l s now w.host ≡ ready
      → Remembers host t n s
      → Remembers host t n (admit l now i w s)
  unfolding admit verdict active
  admit-Remembers now i w s early r (e, a) = elim (Bool-cases (w.host =s= host)) [
    | inl q ↦
        let same : w.host ≡ host = (eq_iff w.host host).0 q in
        let e' : lookup w.host s.last_started_at ≡ some t = rw same e in absurd (ground arith)
    | inr q ↦ (
      ground (arith, lookup-insert_last w.host host now s.last_started_at),
      ground (arith, lookup-insert w.host host (active s w.host + 1) s.active_by_host),
    )
  ]

  -- With a positive interval, while every reading of the clock is earlier than the interval after the last start on a host,
  -- `_pump` starts nothing more on that host and remembers its start.
  pub starts_spaced :
      (clock : ℕ → ℕ) (s : State)
      → ((k : ℕ) → clock k < t + l.min_interval)
      → lookup host s.last_started_at ≡ some t
      → active s host ≡ n
      → Remembers host t n (pump l clock s)
  unfolding pump discard_cancelled_waiters active
  starts_spaced clock s early e a =
      pump_loop_inv l TooEarly (Remembers host t n) prune-Remembers (λ u s' b. b)
        (λ now i w s' q b room at_i r. admit-Remembers now i w s' q r b) _ clock _ early (e, a)
