-- ===== src/Scheduler/Invariant/Grant.antt =====
-- The invariant of a scheduler and its calls, and that granting a slot keeps it.
use mathlib.Core.Path.{◌∙◌}
use fetech.Prelude.{
  ℕ, zero, suc, ◌+◌, ◌<◌, ◌≤◌, ◌≡◌, ◌≢◌, refl, sym, ap, inl, inr, Bool, true, false, some, List, [],
  ◌∷◌, String, ◌=s=◌, get_elem?, remove_at, All, In, All-get_elem?, All-remove_at, Bool-cases,
  eq_iff, arith,
}
use fetech.Prelude.Dict.{lookup-insert}
use fetech.Scheduler.Config.{Limits}
use fetech.Scheduler.State.{State, Waiter, FutureState, done, active, is_done, set_future}
use fetech.Scheduler.Eligible.{ready, verdict}
use fetech.Scheduler.Pump.{admit}
use fetech.Scheduler.Counts.{Distinct, granted, one_if, granted-set_done}

abbrev pub any_host : Waiter → Bool
any_host w = true

abbrev pub on_host : String → Waiter → Bool
on_host h w = w.host =s= h

abbrev pub Waits : (ℕ → FutureState) → Waiter → Type 0
Waits f w = is_done (f w.id) ≡ false

abbrev pub IsCall : List Waiter → Waiter → Type 0
IsCall calls w = In w calls

pub record Inv (l : Limits) (calls : List Waiter) (s : State) : Type 0 where
  pub within : s.active_global ≤ l.global_concurrency
  pub host_within : (h : String) → active s h ≤ l.per_host_concurrency
  pub counted : s.active_global ≡ granted any_host s.future calls
  pub host_counted : (h : String) → active s h ≡ granted (on_host h) s.future calls
  pub queued : All (IsCall calls) s.waiters
  pub waiting : All (Waits s.future) s.waiters
  pub waiters_distinct : Distinct s.waiters
  pub calls_distinct : Distinct calls
  pub fresh : All (λ (w : Waiter). w.id < s.next_id) calls

pub Distinct-remove_at : (ws : List Waiter) (i : ℕ) → Distinct ws → Distinct (remove_at ws i)
Distinct-remove_at [] i d = tt
Distinct-remove_at (w ∷ ws) zero d = d.1
Distinct-remove_at (w ∷ ws) (suc i) d =
    (All-remove_at (λ (v : Waiter). v.id ≢ w.id) ws i d.0, Distinct-remove_at ws i d.1)

-- The waiter taken out differs from those that stay.
Distinct-others :
    (ws : List Waiter) (i : ℕ) (w : Waiter)
    → Distinct ws
    → get_elem? ws i ≡ some w
    → All (λ (v : Waiter). v.id ≢ w.id) (remove_at ws i)
Distinct-others [] i w d e = absurd (ground arith)
Distinct-others (x ∷ ws) zero w d e = let e' : x ≡ w = cc in rw (← e') d.0
Distinct-others (x ∷ ws) (suc i) w d e =
    let other : w.id ≢ x.id = All-get_elem? (λ (v : Waiter). v.id ≢ x.id) ws i w d.0 e in
    (λ c. other (sym c), Distinct-others ws i w d.1 e)

Waits-set_done :
    (f : ℕ → FutureState) (id : ℕ) (ws : List Waiter)
    → All (λ (v : Waiter). v.id ≢ id) ws
    → All (Waits f) ws
    → All (Waits (set_future id done f)) ws
Waits-set_done f id [] n h = tt
Waits-set_done f id (w ∷ ws) n h = (ground (arith, n.0, h.0), Waits-set_done f id ws n.1 h.1)

active-admit :
    (l : Limits) (now i : ℕ) (w : Waiter) (s : State) (h : String)
    → active (admit l now i w s) h ≡ active s h + one_if (on_host h w)
unfolding active admit
active-admit l now i w s h = rw lookup-insert (elim (Bool-cases (w.host =s= h)) [
  | inl e ↦ let same : w.host ≡ h = (eq_iff w.host h).0 e in rw (e, same) refl
  | inr e ↦ rw e (ground arith)
])

-- A waiter that is ready has room on its host.
pub verdict-ready_room :
    (l : Limits) (s : State) (now : ℕ) (host : String)
    → verdict l s now host ≡ ready
    → active s host < l.per_host_concurrency
unfolding verdict
verdict-ready_room l s now host h = ground arith

module _ (l : Limits) (calls : List Waiter) (now i : ℕ) (w : Waiter) (s : State) (v : Inv l calls s)
    (room : s.active_global < l.global_concurrency) (at_i : get_elem? s.waiters i ≡ some w)
    (is_ready : verdict l s now w.host ≡ ready) where
  is_call : In w calls
  is_call = All-get_elem? (IsCall calls) s.waiters i w v.queued at_i

  undone : is_done (s.future w.id) ≡ false
  undone = All-get_elem? (Waits s.future) s.waiters i w v.waiting at_i

  host_room : (h : String) → active s h + one_if (on_host h w) ≤ l.per_host_concurrency
  host_room h = elim (Bool-cases (w.host =s= h)) [
    | inl e ↦
        let same : w.host ≡ h = (eq_iff w.host h).0 e in
        rw e (
          let r : active s h < l.per_host_concurrency =
            rw same at (verdict-ready_room l s now w.host is_ready) in
          omega arith)
    | inr e ↦ rw e (omega (arith, v.host_within h))
  ]

  pub admit-Inv : Inv l calls (admit l now i w s)
  unfolding admit
  admit-Inv = record {
    within = omega arith;
    host_within = λ h. rw (active-admit l now i w s h) (host_room h);
    counted =
        rw (granted-set_done any_host s.future w calls v.calls_distinct is_call undone)
          (omega (arith, v.counted));
    host_counted = λ h.
        rw (granted-set_done (on_host h) s.future w calls v.calls_distinct is_call undone) (
          active-admit l now i w s h ∙ ap (λ (n : ℕ). n + one_if (on_host h w)) (v.host_counted h));
    queued = All-remove_at (IsCall calls) s.waiters i v.queued;
    waiting =
        Waits-set_done s.future w.id (remove_at s.waiters i)
          (Distinct-others s.waiters i w v.waiters_distinct at_i)
          (All-remove_at (Waits s.future) s.waiters i v.waiting);
    waiters_distinct = Distinct-remove_at s.waiters i v.waiters_distinct;
    calls_distinct = v.calls_distinct;
    fresh = v.fresh;
  }
