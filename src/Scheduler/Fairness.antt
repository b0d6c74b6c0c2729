-- ===== src/Scheduler/Fairness.antt =====
-- src/fetech/scheduling.py: which waiter is admitted, and what `_pump` leaves behind.
use fetech.Prelude.{
  ℕ, zero, suc, ◌+◌, ◌≤◌, ◌≡◌, ◌↔◌, refl, ap, inl, inr, Option, none, some, List, [], ◌∷◌, length,
  length-remove_at, All, Bool-cases, ltb, ltb→ge, arith,
}
use fetech.Scheduler.Config.{Limits}
use fetech.Scheduler.State.{State, Waiter, active}
use fetech.Scheduler.Eligible.{
  at, ready, verdict, next_from, next_eligible_waiter, earlier, prune_host_history,
}
use fetech.Scheduler.Pump.{admit, arm, chosen, round, pump_loop, pump, discard_cancelled_waiters}
use fetech.Scheduler.Invariant.Found.{
  Verdict-cases, NotReady, FirstReady, next_eligible_waiter-some, next_from-none,
}

module _ (l : Limits) (s : State) (now : ℕ) where
  next_from-first :
      (ws : List Waiter) (index : ℕ) (wake_at : Option ℕ) (k : ℕ)
      → FirstReady l s now ws k
      → (next_from l s now ws index wake_at).0 ≡ some (k + index)
  unfolding next_from
  next_from-first [] index wake_at k r = absurd (ground (arith, r.at_k))
  next_from-first (w ∷ ws) index wake_at zero r =
      let same : w ≡ r.found = cc r.at_k in
      let e : verdict l s now w.host ≡ ready = rw same r.is_ready in
      rw (e, next_from) (ground arith)
  next_from-first (w ∷ ws) index wake_at (suc k) r =
      let rest : FirstReady l s now ws k = record {
        found = r.found;
        at_k = r.at_k;
        is_ready = r.is_ready;
        none_before = r.none_before.1;
      } in
      elim (Verdict-cases (verdict l s now w.host)) [
        | inl e ↦ rw (e, next_from) (ground (arith, next_from-first ws (suc index) wake_at k rest))
        | inr (inl (t, e)) ↦
            rw (e, next_from)
              (ground (arith, next_from-first ws (suc index) (some (earlier wake_at t)) k rest))
        | inr (inr e) ↦ absurd (r.none_before.0 e)
      ]

-- `_next_eligible_waiter` returns position `i` exactly when the waiter there is ready and no waiter
-- before it is: the oldest ready waiter goes first, and one that is blocked holds up nobody.
pub oldest_ready_first :
    (l : Limits) (s : State) (now i : ℕ)
    → ((next_eligible_waiter l s now).0 ≡ some i) ↔ FirstReady l s now s.waiters i
unfolding next_eligible_waiter
oldest_ready_first l s now i = (
  next_eligible_waiter-some l s now i,
  λ r. ground (arith, next_from-first l s now s.waiters 0 none i r),
)

-- The timer is set for `t` or earlier.
abbrev pub Wakes : Option ℕ → ℕ → Type 0
Wakes o t = (u : ℕ) × (o ≡ some u) × (u ≤ t)

-- Whoever only waits for a time is woken by then.
abbrev pub Woken : Limits → State → ℕ → Option ℕ → Waiter → Type 0
Woken l s now o w = (t : ℕ) → verdict l s now w.host ≡ at t → Wakes o t

Wakes-le : (o : Option ℕ) (a b : ℕ) → Wakes o a → a ≤ b → Wakes o b
Wakes-le o a b (u, e, h) k = (u, e, omega arith)

module _ (l : Limits) (s : State) (now : ℕ) where
  next_from-Wakes :
      (ws : List Waiter) (index : ℕ) (wake_at o : Option ℕ)
      → next_from l s now ws index wake_at ≡ (none, o)
      → ((t : ℕ) → wake_at ≡ some t → Wakes o t) × All (Woken l s now o) ws
  unfolding next_from
  next_from-Wakes [] index wake_at o h = ((λ t e. (t, ground arith, omega arith)), tt)
  next_from-Wakes (w ∷ ws) index wake_at o h = elim (Verdict-cases (verdict l s now w.host)) [
    | inl e ↦
        let r = next_from-Wakes ws (suc index) wake_at o (rw (e, next_from) at h) in
        (r.0, ((λ t c. absurd (ground arith)), r.1))
    | inr (inl (t, e)) ↦
        let wake' = some (earlier wake_at t) in
        let r = next_from-Wakes ws (suc index) wake' o (rw (e, next_from) at h) in
        let soon : Wakes o (earlier wake_at t) = r.0 (earlier wake_at t) refl in
        (
          (λ t' c. Wakes-le o (earlier wake_at t) t' soon (ground arith)),
          ((λ t' c. Wakes-le o (earlier wake_at t) t' soon (ground arith)), r.1),
        )
    | inr (inr e) ↦
        let h' : ◌≡◌ {A = Option ℕ × Option ℕ} (some index, wake_at) (none, o) =
          rw (e, next_from) at h in
        absurd (ground arith)
  ]

-- Nothing more can start: the global limit is reached, nobody waits, or at one reading of the clock
-- no waiter is ready and the timer is set for each that only waits for a time.
pub data Settled (l : Limits) (clock : ℕ → ℕ) (s : State) : Type 0 where
  no_room : l.global_concurrency ≤ s.active_global → Settled l clock s
  no_waiter : s.waiters ≡ [] → Settled l clock s
  all_blocked :
      (k : ℕ)
      → All (NotReady l s (clock k)) s.waiters
      → All (Woken l s (clock k) s.wake_handle) s.waiters
      → Settled l clock s

Settled-later :
    {l : Limits} {clock : ℕ → ℕ} {s : State} → Settled l (λ k. clock (suc k)) s → Settled l clock s
Settled-later (no_room h) = no_room h
Settled-later (no_waiter h) = no_waiter h
Settled-later (all_blocked k h w) = all_blocked (suc k) h w

waiters-prune :
    (l : Limits) (now : ℕ) (s : State) → (prune_host_history l now s).waiters ≡ s.waiters
unfolding prune_host_history
waiters-prune l now s = ground arith

wake_handle-prune :
    (l : Limits) (now : ℕ) (s : State) → (prune_host_history l now s).wake_handle ≡ s.wake_handle
unfolding prune_host_history
wake_handle-prune l now s = ground arith

module _ (l : Limits) (clock : ℕ → ℕ) (s : State) where
  -- Arming the timer changes no verdict.
  arm-Settled :
      (o : Option ℕ)
      → s.wake_handle ≡ none
      → All (NotReady l s (clock 0)) s.waiters
      → All (Woken l s (clock 0) o) s.waiters
      → Settled l clock (arm o s)
  unfolding verdict active
  arm-Settled none e n w = all_blocked 0 n (rw e w)
  arm-Settled (some t) e n w = all_blocked 0 n w

  chosen-Settled :
      (fuel : ℕ) (again : State → State) (r : Option ℕ × Option ℕ)
      → next_eligible_waiter l s (clock 0) ≡ r
      → ((t : State)
          → length t.waiters ≤ fuel
          → t.wake_handle ≡ none
          → Settled l (λ k. clock (suc k)) (again t))
      → length s.waiters ≤ suc fuel
      → s.wake_handle ≡ none
      → Settled l clock (chosen l (clock 0) s again r)
  unfolding next_eligible_waiter admit
  chosen-Settled fuel again (none, o) e ih small idle =
      let q = next_from-Wakes l s (clock 0) s.waiters 0 none o e in
      arm-Settled o idle
        (next_from-none l s (clock 0) s.waiters 0 none (ap (λ (p : Option ℕ × Option ℕ). p.0) e))
        q.1
  chosen-Settled fuel again (some i, o) e ih small idle =
      let r = next_eligible_waiter-some l s (clock 0) i (ap (λ (p : Option ℕ × Option ℕ). p.0) e) in
      rw (r.at_k, chosen)
        (Settled-later (
          ih (admit l (clock 0) i r.found s)
            (omega (arith, length-remove_at s.waiters i r.found r.at_k)) idle))

pub pump_loop-Settled :
    (l : Limits) (fuel : ℕ) (clock : ℕ → ℕ) (s : State)
    → length s.waiters ≤ fuel
    → s.wake_handle ≡ none
    → Settled l clock (pump_loop l fuel clock s)
unfolding pump_loop round
pump_loop-Settled l zero clock s small idle = no_waiter (empty s.waiters small)
  where
    empty : (ws : List Waiter) → length ws ≤ 0 → ws ≡ []
    empty [] h = refl
    empty (w ∷ ws) h = absurd (omega arith)
pump_loop-Settled l (suc fuel) clock s small idle =
    elim (Bool-cases (ltb s.active_global l.global_concurrency)) [
      | inr e ↦ rw e (no_room (ltb→ge s.active_global l.global_concurrency e))
      | inl e ↦ rw e (go s.waiters refl (λ t. pump_loop-Settled l fuel (λ k. clock (suc k)) t))
    ]
  where
    go :
        (ws : List Waiter)
        → s.waiters ≡ ws
        → ((t : State)
            → length t.waiters ≤ fuel
            → t.wake_handle ≡ none
            → Settled l (λ k. clock (suc k)) (pump_loop l fuel (λ k. clock (suc k)) t))
        → Settled l clock (round l (clock 0) s (λ t. pump_loop l fuel (λ k. clock (suc k)) t) ws)
    go [] e ih = no_waiter e
    go (w ∷ ws) e ih =
        let p = prune_host_history l (clock 0) s in
        chosen-Settled l clock p fuel (λ t. pump_loop l fuel (λ k. clock (suc k)) t)
          (next_eligible_waiter l p (clock 0)) refl ih (rw waiters-prune small)
          (rw wake_handle-prune idle)

-- `_pump` ends with nothing left to start, whatever state it finds: the global limit is reached, or
-- nobody waits, or at the last reading no waiter is ready and the timer fires in time for each
-- waiter that is held back by an interval only. The rounds given are enough.
pub pump-Settled : (l : Limits) (clock : ℕ → ℕ) (s : State) → Settled l clock (pump l clock s)
unfolding pump discard_cancelled_waiters
pump-Settled l clock s = pump_loop-Settled l _ clock _ (omega arith) refl
