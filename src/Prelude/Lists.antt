-- ===== src/Prelude/Lists.antt =====
-- Lists over the native numbers: lengths, positions, and predicates by recursion.
use Prim.Native.Nat.{ℕ, zero, suc, ◌+◌, ◌≤◌}
use Prim.Native.String.{String}
use mathlib.Core.Path.{◌≡◌, refl}
use mathlib.Core.Logic.{◌⊎◌, inl, inr}
use mathlib.Core.Bool.{Bool, true, false, ◌||◌, ◌&&◌}
use mathlib.Core.Option.{Option, none, some}
use mathlib.Core.List.{List, [], ◌∷◌, ◌++◌}
use native.Mathlib.Omega.{arith}
use fetech.Prelude.Tests.{if◌then◌else◌, ◌=s=◌}

module _ {ℓ} {A : Type ℓ} where
  abbrev pub length : List A → ℕ
  length [] = 0
  length (x ∷ xs) = suc (length xs)

  abbrev pub get_elem? : List A → ℕ → Option A
  get_elem? [] i = none
  get_elem? (x ∷ xs) zero = some x
  get_elem? (x ∷ xs) (suc i) = get_elem? xs i

  -- `del xs[i]`
  abbrev pub remove_at : List A → ℕ → List A
  remove_at [] i = []
  remove_at (x ∷ xs) zero = xs
  remove_at (x ∷ xs) (suc i) = x ∷ remove_at xs i

  -- `xs[-1]`, if there is one
  abbrev pub last? : List A → Option A
  last? [] = none
  last? (x ∷ []) = some x
  last? (x ∷ y ∷ xs) = last? (y ∷ xs)

  -- `xs[n:]`
  abbrev pub drop : ℕ → List A → List A
  drop zero xs = xs
  drop (suc n) [] = []
  drop (suc n) (x ∷ xs) = drop n xs

  abbrev pub any : (A → Bool) → List A → Bool
  any p [] = false
  any p (x ∷ xs) = p x || any p xs

  abbrev pub all : (A → Bool) → List A → Bool
  all p [] = true
  all p (x ∷ xs) = p x && all p xs

  abbrev pub keep : (A → Bool) → List A → List A
  keep p [] = []
  keep p (x ∷ xs) = let rest = keep p xs in if p x then x ∷ rest else rest

  pub length-append : (xs ys : List A) → length (xs ++ ys) ≡ length xs + length ys
  length-append [] ys = omega arith
  length-append (x ∷ xs) ys = omega (arith, length-append xs ys)

  pub length-remove_at :
      (xs : List A) (i : ℕ) (a : A)
      → get_elem? xs i ≡ some a
      → suc (length (remove_at xs i)) ≡ length xs
  length-remove_at [] i a h = absurd (ground arith)
  length-remove_at (x ∷ xs) zero a h = refl
  length-remove_at (x ∷ xs) (suc i) a h = omega (arith, length-remove_at xs i a h)

  pub length-keep : (p : A → Bool) (xs : List A) → length (keep p xs) ≤ length xs
  length-keep p [] = omega arith
  length-keep p (x ∷ xs) = ground (arith, length-keep p xs)

  pub drop-append : (xs ys : List A) → drop (length xs) (xs ++ ys) ≡ ys
  drop-append [] ys = refl
  drop-append (x ∷ xs) ys = drop-append xs ys

module _ {ℓ} {A : Type ℓ} (p : A → Bool) where
  pub any-snoc : (xs : List A) (y : A) → p y ≡ true → any p (xs ++ y ∷ []) ≡ true
  any-snoc [] y h = ground arith
  any-snoc (x ∷ xs) y h = ground (arith, any-snoc xs y h)

  -- What is added at the end stands behind each earlier length.
  pub any-drop_snoc :
      (n : ℕ) (xs : List A) (y : A)
      → n ≤ length xs
      → p y ≡ true
      → any p (drop n (xs ++ y ∷ [])) ≡ true
  any-drop_snoc zero xs y h e = any-snoc xs y e
  any-drop_snoc (suc n) [] y h e = absurd (omega arith)
  any-drop_snoc (suc n) (x ∷ xs) y h e = any-drop_snoc n xs y (omega arith) e

abbrev pub All {ℓ κ} : {A : Type ℓ} → (A → Type κ) → List A → Type κ
All P [] = Unit
All P (x ∷ xs) = P x × All P xs

-- `a` stands in the list; the proof says where.
abbrev pub In {ℓ} : {A : Type ℓ} → A → List A → Type ℓ
In a [] = Unit × ⊥
In a (x ∷ xs) = (x ≡ a) ⊎ In a xs

abbrev pub elem : String → List String → Bool
elem a [] = false
elem a (x ∷ xs) = (x =s= a) || elem a xs

module _ {ℓ κ} {A : Type ℓ} (P : A → Type κ) where
  pub All-keep : (p : A → Bool) (xs : List A) → All P xs → All P (keep p xs)
  All-keep p [] h = tt
  All-keep p (x ∷ xs) h = if_All (p x) h.0 (All-keep p xs h.1)
    where
      if_All : (b : Bool) → P x → All P (keep p xs) → All P (if b then x ∷ keep p xs else keep p xs)
      if_All true a r = (a, r)
      if_All false a r = r

  pub All-remove_at : (xs : List A) (i : ℕ) → All P xs → All P (remove_at xs i)
  All-remove_at [] i h = tt
  All-remove_at (x ∷ xs) zero h = h.1
  All-remove_at (x ∷ xs) (suc i) h = (h.0, All-remove_at xs i h.1)

  pub All-get_elem? : (xs : List A) (i : ℕ) (a : A) → All P xs → get_elem? xs i ≡ some a → P a
  All-get_elem? [] i a h e = absurd (ground arith)
  All-get_elem? (x ∷ xs) zero a h e = let e' : x ≡ a = cc in rw (← e') h.0
  All-get_elem? (x ∷ xs) (suc i) a h e = All-get_elem? xs i a h.1 e

  pub All-append : (xs ys : List A) → All P xs → All P ys → All P (xs ++ ys)
  All-append [] ys hx hy = hy
  All-append (x ∷ xs) ys hx hy = (hx.0, All-append xs ys hx.1 hy)

  pub All-In : (xs : List A) (a : A) → All P xs → In a xs → P a
  All-In [] a h i = absurd i.1
  All-In (x ∷ xs) a h (inl e) = rw (← e) h.0
  All-In (x ∷ xs) a h (inr i) = All-In xs a h.1 i

module _ {ℓ κ μ} {A : Type ℓ} (P : A → Type κ) (Q : A → Type μ) where
  pub All-map : ((a : A) → P a → Q a) → (xs : List A) → All P xs → All Q xs
  All-map f [] h = tt
  All-map f (x ∷ xs) h = (f x h.0, All-map f xs h.1)
