-- ===== src/Scheduler/Counts.antt =====
-- How many of the calls hold a slot, under updates of the futures and the removal of a call.
use fetech.Prelude.{
  ℕ, ◌+◌, ◌==◌, ◌≡◌, ◌≢◌, refl, ap, subst, inl, inr, Bool, true, false, ◌&&◌, List, [], ◌∷◌,
  if◌then◌else◌, All, In, All-In, Bool-cases, arith,
}
use fetech.Scheduler.State.{Waiter, FutureState, done, cancelled, is_done, set_future}
use fetech.Scheduler.Pump.{drop_first}

abbrev pub Distinct : List Waiter → Type 0
Distinct [] = Unit
Distinct (w ∷ ws) = All (λ (v : Waiter). v.id ≢ w.id) ws × Distinct ws

abbrev pub one_if : Bool → ℕ
one_if true = 1
one_if false = 0

-- The calls that `p` picks and whose future is done.
abbrev pub granted : (Waiter → Bool) → (ℕ → FutureState) → List Waiter → ℕ
granted p f [] = 0
granted p f (w ∷ ws) = one_if (p w && is_done (f w.id)) + granted p f ws

module _ (p : Waiter → Bool) (f : ℕ → FutureState) where
  pub granted-set_ne :
      (id : ℕ) (v : FutureState) (ws : List Waiter)
      → All (λ (w : Waiter). w.id ≢ id) ws
      → granted p (set_future id v f) ws ≡ granted p f ws
  granted-set_ne id v [] h = refl
  granted-set_ne id v (w ∷ ws) h = ground (arith, h.0, granted-set_ne id v ws h.1)

  -- What is not done may become cancelled.
  pub granted-set_cancelled :
      (id : ℕ) (ws : List Waiter)
      → is_done (f id) ≡ false
      → granted p (set_future id cancelled f) ws ≡ granted p f ws
  granted-set_cancelled id [] h = refl
  granted-set_cancelled id (w ∷ ws) h = elim (Bool-cases (id == w.id)) [
    | inl e ↦
        let same : id ≡ w.id = ground arith in
        let undone : is_done (f w.id) ≡ false = rw (← same) h in
        rw e (ground (arith, undone, granted-set_cancelled id ws h))
    | inr e ↦
        rw e (ap (λ (n : ℕ). one_if (p w && is_done (f w.id)) + n) (granted-set_cancelled id ws h))
  ]

  pub granted-set_done :
      (w : Waiter) (ws : List Waiter)
      → Distinct ws
      → In w ws
      → is_done (f w.id) ≡ false
      → granted p (set_future w.id done f) ws ≡ granted p f ws + one_if (p w)
  granted-set_done w [] d i h = absurd i.1
  granted-set_done w (x ∷ ws) d (inl e) h =
      subst
        (λ (v : Waiter).
          granted p (set_future v.id done f) (x ∷ ws) ≡ granted p f (x ∷ ws) + one_if (p v))
        e
        (ground (
          arith,
          granted-set_ne x.id done ws d.0,
          (let u : is_done (f x.id) ≡ false = rw e h in u),
        ))
  granted-set_done w (x ∷ ws) d (inr i) h =
      let other : w.id ≢ x.id = All-In (λ (v : Waiter). v.id ≢ x.id) ws w d.0 i in
      ground (arith, other, granted-set_done w ws d.1 i h)

  pub granted-drop_first :
      (w : Waiter) (ws : List Waiter)
      → Distinct ws
      → In w ws
      → granted p f ws ≡ granted p f (drop_first w.id ws) + one_if (p w && is_done (f w.id))
  granted-drop_first w [] d i = absurd i.1
  granted-drop_first w (x ∷ ws) d (inl e) = rw (← e) (ground arith)
  granted-drop_first w (x ∷ ws) d (inr i) =
      let other : w.id ≢ x.id = All-In (λ (v : Waiter). v.id ≢ x.id) ws w d.0 i in
      ground (arith, other, granted-drop_first w ws d.1 i)

pub All-drop_first {ℓ} :
    (P : Waiter → Type ℓ) (id : ℕ) (ws : List Waiter) → All P ws → All P (drop_first id ws)
All-drop_first P id [] h = tt
All-drop_first P id (w ∷ ws) h = pick (w.id == id) (All-drop_first P id ws h.1)
  where
    pick : (b : Bool) → All P (drop_first id ws) → All P (if b then ws else w ∷ drop_first id ws)
    pick true r = h.1
    pick false r = (h.0, r)

pub Distinct-drop_first : (id : ℕ) (ws : List Waiter) → Distinct ws → Distinct (drop_first id ws)
Distinct-drop_first id [] d = tt
Distinct-drop_first id (w ∷ ws) d = pick (w.id == id) (Distinct-drop_first id ws d.1)
  where
    pick :
        (b : Bool) → Distinct (drop_first id ws) → Distinct (if b then ws else w ∷ drop_first id ws)
    pick true r = d.1
    pick false r = (All-drop_first (λ (v : Waiter). v.id ≢ w.id) id ws d.0, r)
