-- ===== src/Scheduler/Invariant/Found.antt =====
-- What `_next_eligible_waiter` returns.
use fetech.Prelude.{
  ℕ, zero, suc, ◌+◌, ◌≡◌, ◌≢◌, ◌⊎◌, refl, inl, inr, Option, none, some, List, [], ◌∷◌, get_elem?,
  All, arith,
}
use fetech.Scheduler.Config.{Limits}
use fetech.Scheduler.State.{State, Waiter}
use fetech.Scheduler.Eligible.{
  Verdict, full, at, ready, verdict, next_from, next_eligible_waiter, earlier,
}

pub Verdict-cases : (v : Verdict) → (v ≡ full) ⊎ ((t : ℕ) × (v ≡ at t)) ⊎ (v ≡ ready)
Verdict-cases full = inl refl
Verdict-cases (at t) = inr (inl (t, refl))
Verdict-cases ready = inr (inr refl)

abbrev pub NotReady : Limits → State → ℕ → Waiter → Type 0
NotReady l s now w = verdict l s now w.host ≢ ready

-- No waiter before position `k` is ready.
abbrev pub NoneBefore : Limits → State → ℕ → ℕ → List Waiter → Type 0
NoneBefore l s now zero ws = Unit
NoneBefore l s now (suc k) [] = Unit
NoneBefore l s now (suc k) (w ∷ ws) = NotReady l s now w × NoneBefore l s now k ws

-- The waiter at `k` of `ws` is ready and the first such.
pub record FirstReady (l : Limits) (s : State) (now : ℕ) (ws : List Waiter) (k : ℕ) : Type 0 where
  pub found : Waiter
  pub at_k : get_elem? ws k ≡ some found
  pub is_ready : verdict l s now found.host ≡ ready
  pub none_before : NoneBefore l s now k ws

module _ (l : Limits) (s : State) (now : ℕ) where
  FirstReady-cons :
      (w : Waiter) (ws : List Waiter) (k : ℕ)
      → NotReady l s now w
      → FirstReady l s now ws k
      → FirstReady l s now (w ∷ ws) (suc k)
  FirstReady-cons w ws k n r = record {
    found = r.found;
    at_k = r.at_k;
    is_ready = r.is_ready;
    none_before = (n, r.none_before);
  }

  pub next_from-some :
      (ws : List Waiter) (index : ℕ) (wake_at : Option ℕ) (i : ℕ)
      → (next_from l s now ws index wake_at).0 ≡ some i
      → (k : ℕ) × (i ≡ k + index) × FirstReady l s now ws k
  unfolding next_from
  next_from-some [] index wake_at i h = absurd (ground arith)
  next_from-some (w ∷ ws) index wake_at i h = elim (Verdict-cases (verdict l s now w.host)) [
    | inl e ↦
        let (k, eq, r) = next_from-some ws (suc index) wake_at i (rw (e, next_from) at h) in
        (suc k, omega arith, FirstReady-cons w ws k (λ c. cc) r)
    | inr (inl (t, e)) ↦
        let (k, eq, r) =
          next_from-some ws (suc index) (some (earlier wake_at t)) i (rw (e, next_from) at h) in
        (suc k, omega arith, FirstReady-cons w ws k (λ c. cc) r)
    | inr (inr e) ↦
        let h' : some index ≡ some i = rw (e, next_from) at h in
        (0, ground arith, record { found = w; at_k = refl; is_ready = e; none_before = tt })
  ]

  pub next_from-none :
      (ws : List Waiter) (index : ℕ) (wake_at : Option ℕ)
      → (next_from l s now ws index wake_at).0 ≡ none
      → All (NotReady l s now) ws
  unfolding next_from
  next_from-none [] index wake_at h = tt
  next_from-none (w ∷ ws) index wake_at h = elim (Verdict-cases (verdict l s now w.host)) [
    | inl e ↦ (λ c. cc, next_from-none ws (suc index) wake_at (rw (e, next_from) at h))
    | inr (inl (t, e)) ↦
        (λ c. cc, next_from-none ws (suc index) (some (earlier wake_at t)) (rw (e, next_from) at h))
    | inr (inr e) ↦ let h' : some index ≡ none = rw (e, next_from) at h in absurd (ground arith)
  ]

  pub next_eligible_waiter-some :
      (i : ℕ) → (next_eligible_waiter l s now).0 ≡ some i → FirstReady l s now s.waiters i
  unfolding next_eligible_waiter
  next_eligible_waiter-some i h =
      let (k, e, r) = next_from-some s.waiters 0 none i h in
      let same : i ≡ k = omega arith in rw same r

  pub next_eligible_waiter-none :
      (next_eligible_waiter l s now).0 ≡ none → All (NotReady l s now) s.waiters
  unfolding next_eligible_waiter
  next_eligible_waiter-none h = next_from-none s.waiters 0 none h
