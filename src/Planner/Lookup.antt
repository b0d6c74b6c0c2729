-- ===== src/Planner/Lookup.antt =====
-- src/fetech/registry.py: what `resolve_id` and `get` find.
use fetech.Prelude.{
  String, ◌=s=◌, ◌≡◌, refl, subst, inl, inr, Bool-cases, Option-cases, true, none, some, [], ◌∷◌,
  elem, eq_iff, arith,
}
use fetech.Planner.Result.{ok}
use fetech.Planner.Registry.{Entry, Registry, by_id, by_alias, resolve_id, get}

text_of : (a b : String) → (a =s= b) ≡ true → a ≡ b
text_of a b h = ground (arith, eq_iff a b)

same_text : (a b : String) → a ≡ b → (a =s= b) ≡ true
same_text a b h = ground (arith, eq_iff a b)

by_id-id : (c : String) (g : Registry) (e : Entry) → by_id c g ≡ some e → e.id ≡ c
by_id-id c [] e h = absurd (ground arith)
by_id-id c (x ∷ xs) e h = elim (Option-cases (by_id c xs)) [
  | inr (f, k) ↦
      let same : some f ≡ some e = rw (← h, k) refl in
      let same' : f ≡ e = cc in by_id-id c xs e (rw (k, same') refl)
  | inl k ↦ elim (Bool-cases (x.id =s= c)) [
    | inl t ↦
        let same : some x ≡ some e = rw (← h, k, t) refl in
        let same' : x ≡ e = cc in rw (← same') (text_of x.id c t)
    | inr f ↦ let never : none ≡ some e = rw (← h, k, f) refl in absurd (ground arith)
  ]
]

-- What an alias stands for is the id of an entry.
by_alias-by_id :
    (c : String) (g : Registry) (id : String)
    → by_alias c g ≡ some id
    → (e : Entry) × (by_id id g ≡ some e)
by_alias-by_id c [] id h = absurd (ground arith)
by_alias-by_id c (x ∷ xs) id h = elim (Option-cases (by_alias c xs)) [
  | inr (f, k) ↦
      let same : some f ≡ some id = rw (← h, k) refl in
      let same' : f ≡ id = cc in
      let (e, there) = by_alias-by_id c xs f k in
      (e, subst (λ i. by_id i (x ∷ xs) ≡ some e) same' (rw there refl))
  | inl k ↦ elim (Bool-cases (elem c x.aliases)) [
    | inr f ↦ let never : none ≡ some id = rw (← h, k, f) refl in absurd (ground arith)
    | inl t ↦
        let same : some x.id ≡ some id = rw (← h, k, t) refl in
        let same' : x.id ≡ id = cc in
        elim (Option-cases (by_id id xs)) [
          | inr (e, there) ↦ (e, rw there refl)
          | inl missing ↦ (x, rw (missing, same_text x.id id same') refl)
        ]
  ]
]

-- Where an entry is found by a name, the name resolves to itself.
pub by_id-resolves :
    (g : Registry) (id : String) (e : Entry) → by_id id g ≡ some e → resolve_id g id ≡ ok id
unfolding resolve_id
by_id-resolves g id e h = ground arith

pub by_id-get :
    (g : Registry) (c id : String) (e : Entry)
    → resolve_id g c ≡ ok id
    → by_id id g ≡ some e
    → get g c ≡ ok e
unfolding get
by_id-get g c id e r h = rw r (ground arith)

resolve_id-found :
    (g : Registry) (c id : String) → resolve_id g c ≡ ok id → (e : Entry) × (by_id id g ≡ some e)
unfolding resolve_id
resolve_id-found g c id h = elim (Option-cases (by_id c g)) [
  | inr (e, k) ↦
      let same : ok c ≡ ok id = ground arith in
      let same' : c ≡ id = cc in (e, subst (λ i. by_id i g ≡ some e) same' k)
  | inl k ↦ elim (Option-cases (by_alias c g)) [
    | inl none' ↦ absurd (ground arith)
    | inr (a, there) ↦
        let same : ok a ≡ ok id = ground arith in
        let same' : a ≡ id = cc in
        by_alias-by_id c g id (subst (λ i. by_alias c g ≡ some i) same' there)
  ]
]

-- A name that resolves, by id or by alias, has an entry, whose id is what it resolves to, and that id
-- resolves to itself.
pub resolve_id-canonical :
    (g : Registry) (c id : String)
    → resolve_id g c ≡ ok id
    → (e : Entry) × (get g c ≡ ok e) × (e.id ≡ id) × (resolve_id g id ≡ ok id)
resolve_id-canonical g c id h =
    let (e, there) = resolve_id-found g c id h in
    (e, by_id-get g c id e h there, by_id-id id g e there, by_id-resolves g id e there)
