-- ===== src/Scheduler/Invariant/Rounds.antt =====
-- The induction rule for the rounds of `_pump`.
use fetech.Prelude.{
  ℕ, zero, suc, ◌<◌, ◌≡◌, refl, inl, inr, Option, none, some, List, [], ◌∷◌, Bool-cases, ltb,
  ltb→lt, get_elem?, arith,
}
use fetech.Scheduler.Config.{Limits}
use fetech.Scheduler.State.{State, Waiter}
use fetech.Scheduler.Eligible.{ready, verdict, prune_host_history, next_eligible_waiter}
use fetech.Scheduler.Pump.{admit, arm, chosen, round, pump_loop}
use fetech.Scheduler.Invariant.Found.{FirstReady, next_eligible_waiter-some}

-- A round reads only the history anew before it chooses.
pub active_global-prune :
    (l : Limits) (now : ℕ) (s : State)
    → (prune_host_history l now s).active_global ≡ s.active_global
unfolding prune_host_history
active_global-prune l now s = ground arith

module _ {ℓ} (l : Limits) (Q : ℕ → Type 0) (P : State → Type ℓ)
    (on_prune : (now : ℕ) (s : State) → Q now → P s → P (prune_host_history l now s))
    (on_arm : (t : ℕ) (s : State) → P s → P (record s { wake_handle = some t }))
    (on_admit : (now i : ℕ) (w : Waiter) (s : State)
      → Q now
      → P s
      → s.active_global < l.global_concurrency
      → get_elem? s.waiters i ≡ some w
      → verdict l s now w.host ≡ ready
      → P (admit l now i w s)) where
  arm_inv : (wake_at : Option ℕ) (s : State) → P s → P (arm wake_at s)
  arm_inv none s h = h
  arm_inv (some t) s h = on_arm t s h

  chosen_inv :
      (now : ℕ) (s : State) (again : State → State) (r : Option ℕ × Option ℕ)
      → ((t : State) → P t → P (again t))
      → ((i : ℕ) → r.0 ≡ some i → FirstReady l s now s.waiters i)
      → Q now
      → P s
      → s.active_global < l.global_concurrency
      → P (chosen l now s again r)
  chosen_inv now s again (none, wake_at) step found q h room = arm_inv wake_at s h
  chosen_inv now s again (some i, wake_at) step found q h room =
      let r = found i refl in
      rw (r.at_k, chosen)
        (step (admit l now i r.found s) (on_admit now i r.found s q h room r.at_k r.is_ready))

  round_inv :
      (now : ℕ) (s : State) (again : State → State) (ws : List Waiter)
      → ((t : State) → P t → P (again t))
      → Q now
      → P s
      → s.active_global < l.global_concurrency
      → P (round l now s again ws)
  unfolding round
  round_inv now s again [] step q h room = h
  round_inv now s again (w ∷ ws) step q h room =
      let pruned = prune_host_history l now s in
      chosen_inv now pruned again (next_eligible_waiter l pruned now) step
        (λ i e. next_eligible_waiter-some l pruned now i e) q (on_prune now s q h)
        (rw active_global-prune room)

  pub pump_loop_inv :
      (fuel : ℕ) (clock : ℕ → ℕ) (s : State)
      → ((k : ℕ) → Q (clock k))
      → P s
      → P (pump_loop l fuel clock s)
  unfolding pump_loop
  pump_loop_inv zero clock s q h = h
  pump_loop_inv (suc fuel) clock s q h =
      elim (Bool-cases (ltb s.active_global l.global_concurrency)) [
        | inr e ↦ rw e h
        | inl e ↦ rw e (
            round_inv (clock 0) s (λ t. pump_loop l fuel (λ k. clock (suc k)) t) s.waiters
              (λ t p. pump_loop_inv fuel (λ k. clock (suc k)) t (λ k. q (suc k)) p) (q 0) h
              (ltb→lt s.active_global l.global_concurrency e))
      ]
