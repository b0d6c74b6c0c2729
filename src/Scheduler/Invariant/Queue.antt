-- ===== src/Scheduler/Invariant/Queue.antt =====
-- The queue of waiters beside the calls: a call joins, and a call is dropped.
use fetech.Prelude.{
  ℕ, ◌==◌, ◌≡◌, ◌≢◌, sym, inl, inr, Bool, true, false, List, [], ◌∷◌, ◌++◌, if◌then◌else◌, keep,
  All, In, All-keep, All-map, Bool-cases, arith,
}
use fetech.Scheduler.State.{Waiter, FutureState, is_done, set_future}
use fetech.Scheduler.Pump.{drop_first}
use fetech.Scheduler.Counts.{Distinct}
use fetech.Scheduler.Invariant.Grant.{Waits, IsCall}

abbrev pub Other : ℕ → Waiter → Type 0
Other id v = v.id ≢ id

pub Distinct-keep : (p : Waiter → Bool) (ws : List Waiter) → Distinct ws → Distinct (keep p ws)
Distinct-keep p [] d = tt
Distinct-keep p (w ∷ ws) d = pick (p w) (Distinct-keep p ws d.1)
  where
    pick : (b : Bool) → Distinct (keep p ws) → Distinct (if b then w ∷ keep p ws else keep p ws)
    pick true r = (All-keep (Other w.id) p ws d.0, r)
    pick false r = r

pub Distinct-snoc :
    (ws : List Waiter) (w : Waiter) → Distinct ws → All (Other w.id) ws → Distinct (ws ++ w ∷ [])
Distinct-snoc [] w d n = (tt, tt)
Distinct-snoc (x ∷ ws) w d n = (others ws d.0, Distinct-snoc ws w d.1 n.1)
  where
    others : (vs : List Waiter) → All (Other x.id) vs → All (Other x.id) (vs ++ w ∷ [])
    others [] h = ((λ c. n.0 (sym c)), tt)
    others (v ∷ vs) h = (h.0, others vs h.1)

pub drop_first-Other : (id : ℕ) (ws : List Waiter) → Distinct ws → All (Other id) (drop_first id ws)
drop_first-Other id [] d = tt
drop_first-Other id (w ∷ ws) d = elim (Bool-cases (w.id == id)) [
  | inl e ↦ let same : w.id ≡ id = ground arith in rw e (rw same at d.0)
  | inr e ↦ rw e (ground arith, drop_first-Other id ws d.1)
]

pub In-drop_first :
    (id : ℕ) (ws : List Waiter) (v : Waiter) → v.id ≢ id → In v ws → In v (drop_first id ws)
In-drop_first id [] v n i = i
In-drop_first id (w ∷ ws) v n (inr i) = pick (w.id == id) (In-drop_first id ws v n i)
  where
    pick : (b : Bool) → In v (drop_first id ws) → In v (if b then ws else w ∷ drop_first id ws)
    pick true r = i
    pick false r = inr r
In-drop_first id (w ∷ ws) v n (inl e) = elim (Bool-cases (w.id == id)) [
  | inl q ↦ absurd (n (let same : w.id ≡ id = ground arith in rw e at same))
  | inr q ↦ rw q (inl e)
]

-- Waiters other than a dropped call are calls still.
pub queued-drop_first :
    (id : ℕ) (calls ws : List Waiter)
    → All (Other id) ws
    → All (IsCall calls) ws
    → All (IsCall (drop_first id calls)) ws
queued-drop_first id calls [] n q = tt
queued-drop_first id calls (w ∷ ws) n q =
    (In-drop_first id calls w n.0 q.0, queued-drop_first id calls ws n.1 q.1)

pub queued-cons :
    (w : Waiter) (calls ws : List Waiter) → All (IsCall calls) ws → All (IsCall (w ∷ calls)) ws
queued-cons w calls = All-map (IsCall calls) (IsCall (w ∷ calls)) (λ v i. inr i)

-- A waiter that waits is not the call that is done.
pub waiting-Other :
    (f : ℕ → FutureState) (id : ℕ) (ws : List Waiter)
    → is_done (f id) ≡ true
    → All (Waits f) ws
    → All (Other id) ws
waiting-Other f id [] h q = tt
waiting-Other f id (w ∷ ws) h q = (
  (λ e. let u : is_done (f id) ≡ false = rw e at q.0 in ground arith),
  waiting-Other f id ws h q.1,
)

pub waiting-set :
    (f : ℕ → FutureState) (id : ℕ) (v : FutureState) (ws : List Waiter)
    → is_done v ≡ false
    → All (Waits f) ws
    → All (Waits (set_future id v f)) ws
waiting-set f id v [] h q = tt
waiting-set f id v (w ∷ ws) h q = (ground (arith, q.0), waiting-set f id v ws h q.1)
