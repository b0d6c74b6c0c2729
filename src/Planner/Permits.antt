-- ===== src/Planner/Permits.antt =====
-- src/fetech/planning.py: what the checks at the end of `plan` make certain of.
use fetech.Prelude.{
  String, ◌≡◌, refl, subst, sym, Bool-cases, Option-cases, ◌=s=◌, ◌⊎◌, inl, inr, Bool, true, false,
  Option, none, some, List, [], ◌∷◌, arith, elem, any, all, All, if◌then◌else◌,
}
use fetech.Models.Request.{FetchRequest}
use fetech.Models.Plan.{PlanNode, FetchPlan}
use fetech.Planner.Result.{
  Result, ok, err, invalid_target, require, missing_dependencies, http_denied, ◌>>=◌, ◌>>◌, bind-ok,
  require-ok,
}
use fetech.Planner.Registry.{Registry, Entry, get, resolve_id}
use fetech.Planner.Classify.{Urls, Family, classify_target, http_capability}
use fetech.Planner.Stages.{permits, permitted, keep_permitted, exempt_capabilities, is_empty}
use fetech.Planner.Plan.{
  ids, draft, checked_nodes, plan, plan_of, canonical_request, with_target, bound_to,
  bind_execution_request, is_http_node, validate_nodes, validate_outputs,
}

-- The canonical name is not denied, and it is allowed if the request lists what is.
pub Permitted : Registry → FetchRequest → String → Type 0
Permitted g r c =
    (id : String) × (resolve_id g c ≡ ok id)
    × ((elem id r.deny_capabilities ≡ false)
        × ((is_empty r.allow_capabilities ≡ true)
            ⊎ ((elem id r.allow_capabilities ≡ true) ⊎ (elem id exempt_capabilities ≡ true))))

permits-Allowed :
    (r : FetchRequest) (id : String)
    → permits r id ≡ true
    → (elem id r.deny_capabilities ≡ false)
      × ((is_empty r.allow_capabilities ≡ true)
          ⊎ ((elem id r.allow_capabilities ≡ true) ⊎ (elem id exempt_capabilities ≡ true)))
permits-Allowed r id h = elim (Bool-cases (elem id r.deny_capabilities)) [
  | inl d ↦ absurd (ground arith)
  | inr d ↦ elim (Bool-cases (is_empty r.allow_capabilities)) [
    | inl e ↦ (d, inl e)
    | inr e ↦ elim (Bool-cases (elem id r.allow_capabilities)) [
      | inl a ↦ (d, inr (inl a))
      | inr a ↦ (d, inr (inr (ground arith)))
    ]
  ]
]

permitted-Permitted :
    (g : Registry) (r : FetchRequest) (c : String) → permitted g r c ≡ ok true → Permitted g r c
unfolding Permitted permitted
permitted-Permitted g r c h =
    let (id, found, e) = bind-ok (resolve_id g c) (λ id. ok (permits r id)) true h in
    (id, found, permits-Allowed r id cc)

-- A filter that answers keeps what is permitted, and nothing else.
pub keep_permitted-All {ℓ} :
    {A : Type ℓ} (g : Registry) (r : FetchRequest) (name : A → String) (xs ys : List A)
    → keep_permitted g r name xs ≡ ok ys
    → All (λ y. Permitted g r (name y)) ys
unfolding keep_permitted
keep_permitted-All g r name [] ys h = let e : [] ≡ ys = cc in rw (← e) tt
keep_permitted-All {A = A} g r name (x ∷ xs) ys h =
    let (b, e, k) =
      bind-ok (permitted g r (name x))
        (λ b. keep_permitted g r name xs >>= λ rest. ok (if b then x ∷ rest else rest)) ys h in
    let (rest, e', k') =
      bind-ok (keep_permitted g r name xs) (λ rest. ok (if b then x ∷ rest else rest)) ys k in
    joined b rest e (keep_permitted-All g r name xs rest e') k'
  where
    joined :
        (b : Bool) (rest : List A)
        → permitted g r (name x) ≡ ok b
        → All (λ y. Permitted g r (name y)) rest
        → ok (if b then x ∷ rest else rest) ≡ ok ys
        → All (λ y. Permitted g r (name y)) ys
    joined true rest e a k =
        let k' : x ∷ rest ≡ ys = cc in rw (← k') (permitted-Permitted g r (name x) e, a)
    joined false rest e a k = let k' : rest ≡ ys = cc in rw (← k') a

-- Each dependency is the id of a node, and each capability is known.
pub Grounded : Registry → List String → PlanNode → Type 0
Grounded g present n =
    ((e : Entry) × (get g n.capability_id ≡ ok e))
    × (all (λ d. elem d present) n.dependencies ≡ true)

pub validate_nodes-All :
    (g : Registry) (present : List String) (ns : List PlanNode)
    → validate_nodes g present ns ≡ ok tt
    → All (Grounded g present) ns
unfolding validate_nodes Grounded
validate_nodes-All g present [] h = tt
validate_nodes-All g present (n ∷ ns) h =
    let t : Bool = all (λ d. elem d present) n.dependencies in
    let (e, found, k) =
      bind-ok (get g n.capability_id)
        (λ e. require t (missing_dependencies n.id) >> validate_nodes g present ns) tt h in
    let (x, k', rest) =
      bind-ok (require t (missing_dependencies n.id)) (λ x. validate_nodes g present ns) tt k in
    (
      ((e, found), require-ok t (missing_dependencies n.id) x k'),
      validate_nodes-All g present ns rest,
    )

-- What the checks of `plan` establish for the nodes of a request.
pub IsSound : Registry → FetchRequest → List PlanNode → Type 0
IsSound g r ns =
    All (λ n. Permitted g r n.capability_id) ns
    × (any is_http_node ns ≡ true)
    × All (Grounded g (ids ns)) ns

-- Each step of `checked_nodes` when it answers.
unfoldable pub Passes : Registry → Urls → FetchRequest → List PlanNode → List PlanNode → Type 0
Passes g u r nodes ns =
    (draft g u r (classify_target u r.target r.output_requirements) (http_capability r) ≡ ok nodes)
    × (keep_permitted g r (λ n. n.capability_id) nodes ≡ ok ns)
    × (any is_http_node ns ≡ true)
    × (validate_nodes g (ids ns) ns ≡ ok tt)
    × (validate_outputs g r ns (classify_target u r.target r.output_requirements) ≡ ok tt)

pub checked_nodes-Passes :
    (g : Registry) (u : Urls) (r : FetchRequest) (ns : List PlanNode)
    → checked_nodes g u r ≡ ok ns
    → (nodes : List PlanNode) × Passes g u r nodes ns
unfolding checked_nodes Passes
checked_nodes-Passes g u r ns h =
    let (nodes, d, k) =
      bind-ok (draft g u r family (http_capability r))
        (λ nodes. keep_permitted g r (λ n. n.capability_id) nodes >>= checks) ns h in
    let (kept, e, k') = bind-ok (keep_permitted g r (λ n. n.capability_id) nodes) checks ns k in
    let (x, t, k'') =
      bind-ok (require (any is_http_node kept) http_denied) (λ _. after kept) ns k' in
    let (y, v, k₃) = bind-ok (validate_nodes g (ids kept) kept) (λ _. outputs kept) ns k'' in
    let (z, o, k₄) = bind-ok (validate_outputs g r kept family) (λ _. ok kept) ns k₃ in
    let same : kept ≡ ns = cc in
    (
      nodes,
      subst (λ ms. Passes g u r nodes ms) same
          (d, e, require-ok (any is_http_node kept) http_denied x t, v, o),
    )
  where
    family : Family
    family = classify_target u r.target r.output_requirements

    outputs : List PlanNode → Result (List PlanNode)
    outputs kept = validate_outputs g r kept family >> ok kept

    after : List PlanNode → Result (List PlanNode)
    after kept = validate_nodes g (ids kept) kept >> outputs kept

    checks : List PlanNode → Result (List PlanNode)
    checks kept = require (any is_http_node kept) http_denied >> after kept

checked_nodes-IsSound :
    (g : Registry) (u : Urls) (r : FetchRequest) (ns : List PlanNode)
    → checked_nodes g u r ≡ ok ns
    → IsSound g r ns
unfolding Passes IsSound
checked_nodes-IsSound g u r ns h =
    let (nodes, (_, e, t, v, _)) = checked_nodes-Passes g u r ns h in
    (
      keep_permitted-All g r (λ n. n.capability_id) nodes ns e,
      t,
      validate_nodes-All g (ids ns) ns v,
    )

-- A bound plan has the nodes and, but for its target, the request it was given.
bind_execution_request-keeps :
    (u : Urls) (public : FetchRequest) (ns : List PlanNode) (r : FetchRequest) (p : FetchPlan)
    → bind_execution_request u public ns r ≡ ok p
    → (p.nodes ≡ ns) × (p.execution_request ≡ with_target r p.execution_request.target)
unfolding bind_execution_request
bind_execution_request-keeps u public ns r p h = by_target (u.normalize r.target) h
  where
    by_target :
        (t : Option String)
        → (elim t [
          | none ↦ err invalid_target
          | some again ↦ bound_to u public ns (with_target r again)
        ])
          ≡ ok p
        → (p.nodes ≡ ns) × (p.execution_request ≡ with_target r p.execution_request.target)
    by_target none k = absurd (ground arith)
    by_target (some again) k =
        let n : FetchRequest = with_target r again in
        elim (Bool-cases (u.sanitize n n.target =s= public.target)) [
          | inr e ↦ absurd (ground arith)
          | inl e ↦
              let q : FetchPlan = record { request = public; nodes = ns; execution_request = n } in
              let k' : ok q ≡ ok p = rw (← k, e) refl in
              let same : q ≡ p = cc in
              subst
                (λ x.
                  (x.nodes ≡ ns) × (x.execution_request ≡ with_target r x.execution_request.target))
                same (refl, refl)
        ]

-- The nodes of a plan are the checked nodes of the canonical request, which is the private request of
-- the plan but for the target.
pub plan-checked :
    (g : Registry) (u : Urls) (request : FetchRequest) (p : FetchPlan) (target : String)
    → u.normalize request.target ≡ some target
    → plan g u request ≡ ok p
    → (checked_nodes g u (canonical_request g request target) ≡ ok p.nodes)
      × (p.execution_request
          ≡ with_target (canonical_request g request target) p.execution_request.target)
unfolding plan plan_of
plan-checked g u request p target t h =
    let r : FetchRequest = canonical_request g request target in
    let public : FetchRequest = with_target r (u.sanitize r target) in
    let h' : plan_of g u request (some target) ≡ ok p =
      subst (λ o. plan_of g u request o ≡ ok p) t h in
    let (ns, e, k) =
      bind-ok (checked_nodes g u r) (λ ns. bind_execution_request u public ns r) p h' in
    let (same, x) = bind_execution_request-keeps u public ns r p k in (rw same e, x)

plan-normalized :
    (g : Registry) (u : Urls) (request : FetchRequest) (p : FetchPlan)
    → plan g u request ≡ ok p
    → (target : String) × (u.normalize request.target ≡ some target)
unfolding plan plan_of
plan-normalized g u request p h = elim (Option-cases (u.normalize request.target)) [
  | inl e ↦ absurd (ground arith)
  | inr found ↦ found
]

-- Every plan for a request keeps to the capability policy of the request it will run: each node has a
-- known capability whose canonical name is not denied and, if the request lists what is allowed,
-- is in that list or exempt. Some node is an HTTP operation, and whatever a node depends on is
-- the id of a node of the plan.
pub plan-IsSound :
    (g : Registry) (u : Urls) (request : FetchRequest) (p : FetchPlan)
    → plan g u request ≡ ok p
    → IsSound g p.execution_request p.nodes
unfolding IsSound Permitted
plan-IsSound g u request p h =
    let (target, t) = plan-normalized g u request p h in
    let (e, x) = plan-checked g u request p target t h in
    let s : IsSound g (canonical_request g request target) p.nodes =
      checked_nodes-IsSound g u (canonical_request g request target) p.nodes e in
    subst (λ q. IsSound g q p.nodes) (sym x) s
