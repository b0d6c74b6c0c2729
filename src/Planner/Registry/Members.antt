-- ===== src/Planner/Registry/Members.antt =====
-- src/fetech/registry.py: the lists that `_validate` compares with their sets.
use fetech.Prelude.{
  suc, ◌≤◌, String, ◌=s=◌, =s=→eq, ◌≡◌, refl, ◌∙◌, ◌⊎◌, inl, inr, Bool, true, false, ◌||◌, List, [],
  ◌∷◌, ◌++◌, elem, length, Bool-cases, arith,
}
use fetech.Planner.Registry.Validate.{members}

-- No text stands twice in the list.
unfoldable pub Distinct : List String → Type 0
Distinct [] = Unit
Distinct (x ∷ xs) = (elem x xs ≡ false) × Distinct xs

length-members : (xs : List String) → length (members xs) ≤ length xs
unfolding members
length-members [] = omega arith
length-members (x ∷ xs) = ground (arith, length-members xs)

pub members-Distinct : (xs : List String) → length xs ≡ length (members xs) → Distinct xs
unfolding members Distinct
members-Distinct [] h = tt
members-Distinct (x ∷ xs) h = elim (Bool-cases (elem x xs)) [
  | inl e ↦
      let h' : suc (length xs) ≡ length (members xs) = h ∙ rw e refl in
      absurd (omega (arith, length-members xs))
  | inr e ↦
      let h' : suc (length xs) ≡ suc (length (members xs)) = h ∙ rw e refl in
      (e, members-Distinct xs (omega arith))
]

pub neither : (a b : Bool) → (a || b) ≡ false → (a ≡ false) × (b ≡ false)
neither a b h = (ground arith, ground arith)

pub either : (a b : Bool) → (a || b) ≡ true → (a ≡ true) ⊎ (b ≡ true)
either true b h = inl refl
either false b h = inr h

pub or_right : (a b : Bool) → b ≡ true → (a || b) ≡ true
or_right a b h = ground arith

pub elem-members : (c : String) (xs : List String) → elem c xs ≡ true → elem c (members xs) ≡ true
unfolding members
elem-members c [] h = absurd (ground arith)
elem-members c (x ∷ xs) h = elim (Bool-cases (elem x xs)) [
  | inl e ↦ rw e (elem-members c xs (in_tail e (either (x =s= c) (elem c xs) h)))
  | inr e ↦ rw e (in_cons (λ there. elem-members c xs there) (either (x =s= c) (elem c xs) h))
]
  where
    in_tail : elem x xs ≡ true → ((x =s= c) ≡ true) ⊎ (elem c xs ≡ true) → elem c xs ≡ true
    in_tail e (inl same) = rw (← =s=→eq x c same) e
    in_tail e (inr there) = there

    in_cons :
        (elem c xs ≡ true → elem c (members xs) ≡ true)
        → ((x =s= c) ≡ true) ⊎ (elem c xs ≡ true)
        → ((x =s= c) || elem c (members xs)) ≡ true
    in_cons below (inl same) = rw same refl
    in_cons below (inr there) = or_right (x =s= c) _ (below there)

pub elem-append_left :
    (c : String) (xs ys : List String) → elem c xs ≡ true → elem c (xs ++ ys) ≡ true
elem-append_left c [] ys h = absurd (ground arith)
elem-append_left c (x ∷ xs) ys h = ground (arith, elem-append_left c xs ys)

pub elem-append_right :
    (c : String) (xs ys : List String) → elem c ys ≡ true → elem c (xs ++ ys) ≡ true
elem-append_right c [] ys h = h
elem-append_right c (x ∷ xs) ys h = ground (arith, elem-append_right c xs ys h)

pub elem-absent_left :
    (c : String) (xs ys : List String) → elem c (xs ++ ys) ≡ false → elem c xs ≡ false
elem-absent_left c xs ys h = elim (Bool-cases (elem c xs)) [
  | inl e ↦ let there = elem-append_left c xs ys e in absurd (ground arith)
  | inr e ↦ e
]

pub elem-absent_right :
    (c : String) (xs ys : List String) → elem c (xs ++ ys) ≡ false → elem c ys ≡ false
elem-absent_right c xs ys h = elim (Bool-cases (elem c ys)) [
  | inl e ↦ let there = elem-append_right c xs ys e in absurd (ground arith)
  | inr e ↦ e
]

pub Distinct-right : (xs ys : List String) → Distinct (xs ++ ys) → Distinct ys
unfolding Distinct
Distinct-right [] ys h = h
Distinct-right (x ∷ xs) ys h = Distinct-right xs ys h.1

-- What stands in the first part of a list without repetitions is not in the second.
pub Distinct-apart :
    (c : String) (xs ys : List String) → Distinct (xs ++ ys) → elem c xs ≡ true → elem c ys ≡ false
unfolding Distinct
Distinct-apart c [] ys h e = absurd (ground arith)
Distinct-apart c (x ∷ xs) ys h e = elim (Bool-cases (x =s= c)) [
  | inl same ↦ elim (Bool-cases (elem c ys)) [
    | inr no_c ↦ no_c
    | inl there ↦
        let x_is : x ≡ c = =s=→eq x c same in
        let again : elem x (xs ++ ys) ≡ true = rw x_is (elem-append_right c xs ys there) in
        absurd (ground (arith, h.0))
  ]
  | inr other ↦ Distinct-apart c xs ys h.1 (ground arith)
]
