-- ===== src/Ledger/Stream/Events.antt =====
-- src/fetech/ledger.py: lists of events whose identifiers differ.
use fetech.Prelude.{
  ℕ, zero, suc, ◌≡◌, refl, ap, ◌⊎◌, inl, inr, true, false, ◌||◌, some, List, [], ◌∷◌, ◌++◌, ◌==◌,
  ==→eq, get_elem?, remove_at, In, All, All-map, arith, Bool-cases,
}
use fetech.Ledger.Stream.{Event, has_id, events}

module _ {ℓ} {A : Type ℓ} where
  pub In-left : (x : A) (xs ys : List A) → In x xs → In x (xs ++ ys)
  In-left x [] ys i = absurd i.1
  In-left x (y ∷ xs) ys (inl e) = inl e
  In-left x (y ∷ xs) ys (inr i) = inr (In-left x xs ys i)

  pub In-right : (x : A) (xs ys : List A) → In x ys → In x (xs ++ ys)
  In-right x [] ys i = i
  In-right x (y ∷ xs) ys i = inr (In-right x xs ys i)

  pub In-last : (x : A) (xs : List A) → In x (xs ++ x ∷ [])
  In-last x xs = In-right x xs (x ∷ []) (inl refl)

  pub append_assoc : (xs : List A) (y : A) (ys : List A) → (xs ++ y ∷ []) ++ ys ≡ xs ++ y ∷ ys
  append_assoc [] y ys = refl
  append_assoc (x ∷ xs) y ys = ap (λ zs. x ∷ zs) (append_assoc xs y ys)

  -- What is taken from a list stands in it, or in what is left.
  pub In-remove_at :
      (xs : List A) (i : ℕ) (a x : A)
      → get_elem? xs i ≡ some a
      → In x xs
      → (x ≡ a) ⊎ In x (remove_at xs i)
  In-remove_at [] i a x h m = absurd m.1
  In-remove_at (y ∷ xs) zero a x h (inl e) = inl cc
  In-remove_at (y ∷ xs) zero a x h (inr m) = inr m
  In-remove_at (y ∷ xs) (suc i) a x h (inl e) = inr (inl e)
  In-remove_at (y ∷ xs) (suc i) a x h (inr m) = elim (In-remove_at xs i a x h m) [
    | inl e ↦ inl e
    | inr m' ↦ inr (inr m')
  ]

  pub All-In-refl : (xs : List A) → All (λ x. In x xs) xs
  All-In-refl [] = tt
  All-In-refl (x ∷ xs) =
      (inl refl, All-map (λ y. In y xs) (λ y. In y (x ∷ xs)) (λ y i. inr i) xs (All-In-refl xs))

unfoldable pub Unique : List Event → Type 0
Unique [] = Unit
Unique (e ∷ es) = (has_id e.event_id es ≡ false) × Unique es

pub has_id-append :
    (n : ℕ) (xs ys : List Event) → has_id n (xs ++ ys) ≡ (has_id n xs || has_id n ys)
has_id-append n [] ys = refl
has_id-append n (x ∷ xs) ys = ground (arith, has_id-append n xs ys)

pub In-has_id : (e : Event) (es : List Event) → In e es → has_id e.event_id es ≡ true
In-has_id e [] i = absurd i.1
In-has_id e (x ∷ es) (inl is) = rw is (ground arith)
In-has_id e (x ∷ es) (inr i) = ground (arith, In-has_id e es i)

pub has_id-In :
    (n : ℕ) (es : List Event) → has_id n es ≡ true → (e : Event) × In e es × (e.event_id ≡ n)
has_id-In n [] h = absurd (ground arith)
has_id-In n (e ∷ es) h = elim (Bool-cases (e.event_id == n)) [
  | inl is ↦ (e, inl refl, ==→eq e.event_id n is)
  | inr is ↦ let (x, i, same) = has_id-In n es (ground arith) in (x, inr i, same)
]

-- Events of a list without repetition that have the same identifier are the same.
pub same_event :
    (es : List Event) (a b : Event)
    → Unique es
    → In a es
    → In b es
    → a.event_id ≡ b.event_id
    → a ≡ b
unfolding Unique
same_event [] a b u i j same = absurd i.1
same_event (e ∷ es) a b u (inl i) (inl j) same = cc
same_event (e ∷ es) a b u (inl i) (inr j) same =
    let there : has_id e.event_id es ≡ true = rw (i, same) (In-has_id b es j) in
    absurd (ground arith)
same_event (e ∷ es) a b u (inr i) (inl j) same =
    let there : has_id e.event_id es ≡ true = rw (j, ← same) (In-has_id a es i) in
    absurd (ground arith)
same_event (e ∷ es) a b u (inr i) (inr j) same = same_event es a b u.1 i j same

pub Unique-snoc :
    (es : List Event) (e : Event) → Unique es → has_id e.event_id es ≡ false → Unique (es ++ e ∷ [])
unfolding Unique
Unique-snoc [] e u h = (refl, tt)
Unique-snoc (x ∷ es) e u h =
    (ground (arith, has_id-append x.event_id es (e ∷ [])), Unique-snoc es e u.1 (ground arith))

-- The events of a run, as rows are added
pub events-own :
    (run_id : ℕ) (rows : List Event) (e : Event)
    → e.run_id ≡ run_id
    → events run_id (rows ++ e ∷ []) ≡ events run_id rows ++ e ∷ []
unfolding events
events-own run_id [] e h = rw h (ground arith)
events-own run_id (x ∷ rows) e h = elim (Bool-cases (x.run_id == run_id)) [
  | inl is ↦ rw (is, events-own run_id rows e h) refl
  | inr is ↦ rw (is, events-own run_id rows e h) refl
]

pub events-other :
    (run_id : ℕ) (rows : List Event) (e : Event)
    → (e.run_id == run_id) ≡ false
    → events run_id (rows ++ e ∷ []) ≡ events run_id rows
unfolding events
events-other run_id [] e h = rw h refl
events-other run_id (x ∷ rows) e h = elim (Bool-cases (x.run_id == run_id)) [
  | inl is ↦ rw (is, events-other run_id rows e h) refl
  | inr is ↦ rw (is, events-other run_id rows e h) refl
]

pub has_id-events :
    (run_id n : ℕ) (rows : List Event)
    → has_id n rows ≡ false
    → has_id n (events run_id rows) ≡ false
unfolding events
has_id-events run_id n [] h = refl
has_id-events run_id n (x ∷ rows) h = elim (Bool-cases (x.run_id == run_id)) [
  | inl is ↦ rw is (ground (arith, has_id-events run_id n rows))
  | inr is ↦ rw is (has_id-events run_id n rows (ground arith))
]

pub Unique-prefix : (xs ys : List Event) → Unique (xs ++ ys) → Unique xs
unfolding Unique
Unique-prefix [] ys u = tt
Unique-prefix (x ∷ xs) ys u =
    (ground (arith, has_id-append x.event_id xs ys), Unique-prefix xs ys u.1)

pub All-prefix {ℓ} : (P : Event → Type ℓ) (xs ys : List Event) → All P (xs ++ ys) → All P xs
All-prefix P [] ys h = tt
All-prefix P (x ∷ xs) ys h = (h.0, All-prefix P xs ys h.1)
