-- ===== src/Planner/Registry/Unambiguous.antt =====
-- src/fetech/registry.py: a registry that `_validate` lets pass has one entry for each name.
use fetech.Prelude.{
  String, ◌=s=◌, =s=_refl, =s=→eq, ◌≡◌, refl, subst, sym, ◌∙◌, ◌⊎◌, inl, inr, Bool, true, false,
  not, none, some, List, [], ◌∷◌, ◌++◌, map, keep, elem, length, ◌==◌, ==→eq, In, Bool-cases, arith,
}
use fetech.Prelude.Answer.{give}
use fetech.Planner.Result.{ok}
use fetech.Planner.Lookup.{by_id-resolves, by_id-get}
use fetech.Planner.Registry.{Entry, Registry, by_id, by_alias, resolve_id, get}
use fetech.Planner.Registry.Validate.{
  Flaw, wrong_categories, wrong_capabilities, repeated_ids, repeated_aliases, collisions,
  expected_categories, expected_capabilities, members, entry_ids, all_aliases, is_repeated, common,
  is_empty_set, flaw_if, flaws, raise_any, validate,
}
use fetech.Planner.Registry.Members.{
  Distinct, members-Distinct, neither, either, or_right, elem-members, elem-append_left,
  elem-append_right, elem-absent_left, elem-absent_right, Distinct-right, Distinct-apart,
}

unrepeated-Distinct : (xs : List String) → is_repeated xs ≡ false → Distinct xs
unfolding is_repeated
unrepeated-Distinct xs h =
    members-Distinct xs (elim (Bool-cases (length xs == length (members xs))) [
      | inl e ↦ ==→eq (length xs) (length (members xs)) e
      | inr e ↦ let repeated : is_repeated xs ≡ true = rw e refl in absurd (ground arith)
    ])

by_id-absent : (c : String) (g : Registry) → elem c (entry_ids g) ≡ false → by_id c g ≡ none
by_id-absent c [] h = refl
by_id-absent c (e ∷ es) h =
    let (other, absent) = neither (e.id =s= c) (elem c (entry_ids es)) h in
    rw (by_id-absent c es absent, other) refl

by_alias-absent : (c : String) (g : Registry) → elem c (all_aliases g) ≡ false → by_alias c g ≡ none
by_alias-absent c [] h = refl
by_alias-absent c (e ∷ es) h =
    let other = elem-absent_left c e.aliases (all_aliases es) h in
    let absent = elem-absent_right c e.aliases (all_aliases es) h in
    rw (by_alias-absent c es absent, other) refl

elem-entry_ids : (e : Entry) (g : Registry) → In e g → elem e.id (entry_ids g) ≡ true
elem-entry_ids e [] i = absurd i.1
elem-entry_ids e (x ∷ xs) (inl same) = rw (same, =s=_refl e.id) refl
elem-entry_ids e (x ∷ xs) (inr i) = or_right (x.id =s= e.id) _ (elem-entry_ids e xs i)

elem-all_aliases :
    (c : String) (e : Entry) (g : Registry)
    → In e g
    → elem c e.aliases ≡ true
    → elem c (all_aliases g) ≡ true
elem-all_aliases c e [] i h = absurd i.1
elem-all_aliases c e (x ∷ xs) (inl same) h =
    elem-append_left c x.aliases (all_aliases xs) (rw same h)
elem-all_aliases c e (x ∷ xs) (inr i) h =
    elem-append_right c x.aliases (all_aliases xs) (elem-all_aliases c e xs i h)

-- With no id twice, an entry is found by its id.
by_id-In : (e : Entry) (g : Registry) → Distinct (entry_ids g) → In e g → by_id e.id g ≡ some e
unfolding Distinct
by_id-In e [] d i = absurd i.1
by_id-In e (x ∷ xs) d (inl same) =
    subst (λ y. by_id y.id (x ∷ xs) ≡ some y) same
      (rw (by_id-absent x.id xs d.0, =s=_refl x.id) refl)
by_id-In e (x ∷ xs) d (inr i) = rw (by_id-In e xs d.1 i) refl

-- With no alias twice, an entry's id is found by each of its aliases.
by_alias-In :
    (c : String) (e : Entry) (g : Registry)
    → Distinct (all_aliases g)
    → In e g
    → elem c e.aliases ≡ true
    → by_alias c g ≡ some e.id
by_alias-In c e [] d i h = absurd i.1
by_alias-In c e (x ∷ xs) d (inl same) h =
    let h' : elem c x.aliases ≡ true = rw same h in
    let gone = by_alias-absent c xs (Distinct-apart c x.aliases (all_aliases xs) d h') in
    rw (gone, h', same) refl
by_alias-In c e (x ∷ xs) d (inr i) h =
    rw (by_alias-In c e xs (Distinct-right x.aliases (all_aliases xs) d) i h) refl

kept_none :
    (ys xs : List String) (c : String)
    → is_empty_set (keep (λ x. elem x ys) xs) ≡ true
    → elem c xs ≡ true
    → elem c ys ≡ false
kept_none ys [] c n h = absurd (ground arith)
kept_none ys (x ∷ xs) c n h = elim (Bool-cases (elem x ys)) [
  | inl e ↦
      let full : is_empty_set (keep (λ x. elem x ys) (x ∷ xs)) ≡ false = rw e refl in
      absurd (ground arith)
  | inr e ↦
      let n' : is_empty_set (keep (λ x. elem x ys) xs) ≡ true = sym (rw e refl) ∙ n in
      go e (λ there. kept_none ys xs c n' there) (either (x =s= c) (elem c xs) h)
]
  where
    go :
        elem x ys ≡ false
        → (elem c xs ≡ true → elem c ys ≡ false)
        → ((x =s= c) ≡ true) ⊎ (elem c xs ≡ true)
        → elem c ys ≡ false
    go e below (inl same) = rw (← =s=→eq x c same) e
    go e below (inr there) = below there

no_flaw :
    (b : Bool) (flaw : Flaw) (rest : List Flaw)
    → raise_any (flaw_if b flaw ++ rest) ≡ give tt
    → (b ≡ false) × (raise_any rest ≡ give tt)
no_flaw true flaw rest h = absurd (ground arith)
no_flaw false flaw rest h = (refl, h)

last_flaw : (b : Bool) (flaw : Flaw) → raise_any (flaw_if b flaw) ≡ give tt → b ≡ false
last_flaw true flaw h = absurd (ground arith)
last_flaw false flaw h = refl

-- What `validate` has tested once it raises nothing
validated :
    (g : Registry)
    → validate g ≡ give tt
    → (length g ≡ expected_capabilities)
      × (is_repeated (entry_ids g) ≡ false)
      × (is_repeated (all_aliases g) ≡ false)
      × (is_empty_set (common (entry_ids g) (all_aliases g)) ≡ true)
unfolding validate flaws
validated g h =
    let size = length (members (map (λ e. e.category) g)) in
    let both = common (entry_ids g) (all_aliases g) in
    let last = flaw_if (not (is_empty_set both)) (collisions both) in
    let third = flaw_if (is_repeated (all_aliases g)) repeated_aliases ++ last in
    let second = flaw_if (is_repeated (entry_ids g)) repeated_ids ++ third in
    let first =
      flaw_if (not (length g == expected_capabilities)) (wrong_capabilities (length g)) ++ second in
    let (h1, r1) = no_flaw (not (size == expected_categories)) (wrong_categories size) first h in
    let (h2, r2) =
      no_flaw (not (length g == expected_capabilities)) (wrong_capabilities (length g)) second r1 in
    let (h3, r3) = no_flaw (is_repeated (entry_ids g)) repeated_ids third r2 in
    let (h4, r4) = no_flaw (is_repeated (all_aliases g)) repeated_aliases last r3 in
    let h5 = last_flaw (not (is_empty_set both)) (collisions both) r4 in
    (==→eq (length g) expected_capabilities (un_not _ h2), h3, h4, un_not _ h5)
  where
    un_not : (b : Bool) → not b ≡ false → b ≡ true
    un_not true h = refl
    un_not false h = absurd (ground arith)

-- A name that is no id resolves to what it is an alias of.
by_alias-resolves :
    (g : Registry) (c id : String)
    → by_id c g ≡ none
    → by_alias c g ≡ some id
    → resolve_id g c ≡ ok id
unfolding resolve_id
by_alias-resolves g c id no_id its_id = ground arith

-- Where no text is both an id and an alias, an alias is no id.
alias-no_id :
    (g : Registry) (c : String)
    → is_empty_set (common (entry_ids g) (all_aliases g)) ≡ true
    → elem c (all_aliases g) ≡ true
    → by_id c g ≡ none
unfolding common
alias-no_id g c apart known = by_id-absent c g (elim (Bool-cases (elem c (entry_ids g))) [
  | inr e ↦ e
  | inl e ↦
      let gone =
        kept_none (all_aliases g) (members (entry_ids g)) c apart
          (elem-members c (entry_ids g) e) in
      absurd (ground arith)
])

-- In a registry of a manifest that `_validate` lets pass, each entry is what is found by its id and by
-- each of its aliases, and its aliases resolve to its id.
pub validate-unambiguous :
    (g : Registry) (e : Entry)
    → validate g ≡ give tt
    → In e g
    → (get g e.id ≡ ok e)
      × ((c : String)
          → (elem c e.aliases ≡ false) ⊎ ((resolve_id g c ≡ ok e.id) × (get g c ≡ ok e)))
validate-unambiguous g e h i =
    let (size, d, da, apart) = validated g h in
    let found = by_id-In e g (unrepeated-Distinct (entry_ids g) d) i in
    (
      by_id-get g e.id e.id e (by_id-resolves g e.id e found) found,
      λ c. elim (Bool-cases (elem c e.aliases)) [
        | inr other ↦ inl other
        | inl there ↦
            let no_id = alias-no_id g c apart (elem-all_aliases c e g i there) in
            let its_id = by_alias-In c e g (unrepeated-Distinct (all_aliases g) da) i there in
            let resolved = by_alias-resolves g c e.id no_id its_id in
            inr (resolved, by_id-get g c e.id e resolved found)
      ],
    )
