-- ===== src/Planner/Topology.antt =====
-- src/fetech/planning.py: `plan` appends each node after the nodes it depends on.
pub mod Order
mod Lists
mod Steps
use fetech.Prelude.{
  String, ◌=s=◌, ◌&&◌, ◌||◌, not, ◌≡◌, refl, sym, subst, Bool-cases, inl, inr, Bool, true, false,
  Option, none, some, List, [], ◌∷◌, ◌++◌, arith, elem, all, All, All-map, All-append,
  if◌then◌else◌, keep,
}
use fetech.Prelude.Dict.{Dict}
use fetech.Models.Request.{FetchRequest}
use fetech.Models.Plan.{PlanNode}
use fetech.Planner.Result.{
  Result, ok, err, require, ◌>>=◌, ◌>>◌, bind-ok, rag_without_clean_text, browser_cache_of_bytes,
}
use fetech.Planner.Registry.{Registry}
use fetech.Planner.Tables
use fetech.Planner.Nodes
use fetech.Planner.Classify.{Urls, Family, requested_cache_capabilities, classify_target}
use fetech.Planner.Stages.{
  session_stage, form_stage, family_stage, rag_stage, browser_cache_stage, post_stage, last_id,
  last_id?, last_such, is_clean_text_reader, is_browser_engine, is_document, is_bytes, producer_or,
  browser_allowed, permitted, http_stage, ids_by_capability,
}
use fetech.Planner.Plan.{entry_nodes, cache_nodes, pre_acquisition, draft}
use fetech.Planner.Topology.Order.{
  Ordered, after, so_far, after-append, Ordered-extend, so_far-old, so_far-new, last_id-after,
  Waits, Waits-Ordered,
}
use fetech.Planner.Topology.Lists.{pre_cache_nodes-Waits, post_stage-Waits, Known}
use fetech.Planner.Topology.Steps.{
  one-Ordered, session_stage-Ordered, form_stage-Ordered, family_stage-Ordered,
  ids_by_capability-Known, producer_or-Known, ids-after,
}

Known-old :
    (ms ns : List PlanNode) (d : Dict String) → Known (so_far ms) d → Known (so_far (ms ++ ns)) d
unfolding Known
Known-old ms ns d h =
    All-map (λ kv. elem kv.1 (so_far ms) ≡ true) (λ kv. elem kv.1 (so_far (ms ++ ns)) ≡ true)
      (λ kv. so_far-old ms ns kv.1) d h

head-Ordered : Ordered [] Nodes.head_nodes
unfolding Ordered
head-Ordered = (refl, (refl, tt))

module _ (r : FetchRequest) (f : Family) (capability : String) (s : List PlanNode × String)
    (pre : List String) where
  caches : List PlanNode
  caches = Nodes.pre_cache_nodes r s.1 0 none pre

  http : PlanNode
  http = http_stage r f capability (requested_cache_capabilities r) s.1 (last_id? caches)

  start : List PlanNode
  start = entry_nodes r f capability s pre

  http-Waits : (seen : List String) → elem s.1 seen ≡ true → Waits seen http
  unfolding Waits http http_stage
  http-Waits seen h = rw h refl

  http-there : (seen : List String) → elem "http" (after seen (http ∷ [])) ≡ true
  unfolding http http_stage
  http-there seen = refl

  entry_nodes-Ordered :
      session_stage r ≡ ok s
      → Ordered [] start
        × (elem "http" (so_far start) ≡ true)
        × Known (so_far start) (ids_by_capability caches)
  unfolding start caches http
  entry_nodes-Ordered e =
      let ms : List PlanNode = Nodes.head_nodes ++ s.0 in
      let (o, t) = session_stage-Ordered (so_far Nodes.head_nodes) r s e refl in
      let t' : elem s.1 (so_far ms) ≡ true = so_far-new Nodes.head_nodes s.0 s.1 t in
      let o' : Ordered [] (ms ++ caches) =
        Ordered-extend ms caches (Ordered-extend Nodes.head_nodes s.0 head-Ordered o) (
          Waits-Ordered (so_far ms) caches
            (pre_cache_nodes-Waits r (so_far ms) s.1 t' 0 none pre)) in
      (
        Ordered-extend (ms ++ caches) (http ∷ []) o' (
            one-Ordered (so_far (ms ++ caches)) http
              (http-Waits (so_far (ms ++ caches)) (so_far-old ms caches s.1 t'))),
        so_far-new (ms ++ caches) (http ∷ []) "http" (http-there (so_far (ms ++ caches))),
        Known-old (ms ++ caches) (http ∷ []) (ids_by_capability caches) (
            ids_by_capability-Known (so_far (ms ++ caches)) caches
              (rw (after-append [] ms caches) (ids-after (so_far ms) caches))),
      )

-- A producer stage's result: its nodes wait for what is there, and its id is there after it.
Produces : List PlanNode → List PlanNode × Dict String → Type 0
Produces ns x = Ordered (so_far ns) x.0 × Known (after (so_far ns) x.0) x.1

nothing-Produces : (ns : List PlanNode) → Produces ns ([], [])
unfolding Produces Ordered Known
nothing-Produces ns = (tt, tt)

added-Produces :
    (ns : List PlanNode) (p : PlanNode → Bool) (c : String) (n : PlanNode)
    → Waits (so_far ns) n
    → Produces ns (producer_or c (last_such p ns) n)
unfolding Produces
added-Produces ns p c n h = producer_or-Known (so_far ns) [] p ns c n refl h

rag_stage-Produces :
    (g : Registry) (r : FetchRequest) (ns : List PlanNode) (f : Family) (a t : String)
    (x : List PlanNode × Dict String)
    → rag_stage g r ns f a t ≡ ok x
    → elem a (so_far ns) ≡ true
    → elem t (so_far ns) ≡ true
    → Produces ns x
unfolding rag_stage Waits
rag_stage-Produces g r ns f a t x e ha ht =
    elim (Bool-cases (elem "rag_document_cache" r.output_requirements)) [
      | inr k ↦
          let e' : ok ([], []) ≡ ok x = rw (← e, k) refl in
          let same : ([], []) ≡ x = cc in subst (Produces ns) same (nothing-Produces ns)
      | inl k ↦
          let d : String = if is_document f then t else a in
          let out : List PlanNode × Dict String =
            producer_or "rag_document_cache" (last_such is_clean_text_reader ns)
              (Nodes.rag_producer r d) in
          let (b, _, e₁) =
            bind-ok (permitted g r "clean_text") (λ b. require b rag_without_clean_text >> ok out) x
              (rw (← e, k) refl) in
          let (u, _, e₂) = bind-ok (require b rag_without_clean_text) (λ _. ok out) x e₁ in
          let same : out ≡ x = cc in
          subst (Produces ns) same (
            added-Produces ns is_clean_text_reader "rag_document_cache" (Nodes.rag_producer r d)
              (rw (chosen (is_document f)) refl))
    ]
  where
    chosen : (b : Bool) → elem (if b then t else a) (so_far ns) ≡ true
    chosen true = ht
    chosen false = ha

browser_cache_stage-Produces :
    (g : Registry) (u : Urls) (r : FetchRequest) (ns : List PlanNode) (f : Family) (a : String)
    (x : List PlanNode × Dict String)
    → browser_cache_stage g u r ns f a ≡ ok x
    → elem a (so_far ns) ≡ true
    → Produces ns x
unfolding browser_cache_stage Waits
browser_cache_stage-Produces g u r ns f a x e ha =
    elim (Bool-cases (elem "browser_cache" r.output_requirements)) [
      | inr k ↦
          let e' : ok ([], []) ≡ ok x = rw (← e, k) refl in
          let same : ([], []) ≡ x = cc in subst (Produces ns) same (nothing-Produces ns)
      | inl k ↦
          let fits : Bool = not (is_bytes f || is_bytes (classify_target u r.target [])) in
          let there : Option String = last_such is_browser_engine ns in
          let out : List PlanNode × Dict String =
            producer_or "browser_cache" there (Nodes.browser_producer r a) in
          let (b, _, e₁) =
            bind-ok (require fits browser_cache_of_bytes) (λ _. browser_allowed g r there >> ok out)
              x (rw (← e, k) refl) in
          let (v, _, e₂) = bind-ok (browser_allowed g r there) (λ _. ok out) x e₁ in
          let same : out ≡ x = cc in
          subst (Produces ns) same (
            added-Produces ns is_browser_engine "browser_cache" (Nodes.browser_producer r a)
              (rw ha refl))
    ]

cache_nodes-Ordered :
    (g : Registry) (u : Urls) (r : FetchRequest) (f : Family) (a t : String) (pre : Dict String)
    (ns out : List PlanNode)
    → Ordered [] ns
    → elem a (so_far ns) ≡ true
    → elem t (so_far ns) ≡ true
    → Known (so_far ns) pre
    → cache_nodes g u r f a t pre ns ≡ ok out
    → Ordered [] out
unfolding cache_nodes Produces Known
cache_nodes-Ordered g u r f a t pre ns out o ha ht hp e =
    let (x, ex, e₁) = bind-ok (rag_stage g r ns f a t) (λ x. then_browser x) out e in
    let ms : List PlanNode = ns ++ x.0 in
    let (y, ey, e₂) = bind-ok (browser_cache_stage g u r ms f a) (λ y. ok (finish x y)) out e₁ in
    let px : Produces ns x = rag_stage-Produces g r ns f a t x ex ha ht in
    let py : Produces ms y =
      browser_cache_stage-Produces g u r ms f a y ey (so_far-old ns x.0 a ha) in
    let ks : List PlanNode = ms ++ y.0 in
    let same : finish x y ≡ out = cc in
    let kx : Known (so_far ks) x.1 =
      Known-old ms y.0 x.1 (subst (λ l. Known l x.1) (sym (after-append [] ns x.0)) px.1) in
    let ky : Known (so_far ks) y.1 = subst (λ l. Known l y.1) (sym (after-append [] ms y.0)) py.1 in
    let kp : Known (so_far ks) pre = Known-old ms y.0 pre (Known-old ns x.0 pre hp) in
    subst (Ordered []) same (
      Ordered-extend ks (last x y) (Ordered-extend ms y.0 (Ordered-extend ns x.0 o px.0) py.0) (
        Waits-Ordered (so_far ks) (last x y) (
          post_stage-Waits r (so_far ks) (x.1 ++ y.1) pre t 0 cs
            (All-append (λ kv. elem kv.1 (so_far ks) ≡ true) x.1 y.1 kx ky) kp
            (so_far-old ms y.0 t (so_far-old ns x.0 t ht)))))
  where
    cs : List String
    cs =
        keep (λ c. elem c (requested_cache_capabilities r))
          Tables.post_acquisition_cache_capabilities

    last : List PlanNode × Dict String → List PlanNode × Dict String → List PlanNode
    last x y = post_stage r (x.1 ++ y.1) pre t 0 cs

    finish : List PlanNode × Dict String → List PlanNode × Dict String → List PlanNode
    finish x y = ns ++ x.0 ++ y.0 ++ last x y

    then_browser : List PlanNode × Dict String → Result (List PlanNode)
    then_browser x = browser_cache_stage g u r (ns ++ x.0) f a >>= λ y. ok (finish x y)

-- The list of nodes that the planner drafts for a request, before the policy filters it, is in
-- topological order: every dependency of a node is the id of a node before it.
pub draft-Ordered :
    (g : Registry) (u : Urls) (r : FetchRequest) (f : Family) (capability : String)
    (out : List PlanNode)
    → draft g u r f capability ≡ ok out
    → Ordered [] out
unfolding draft start caches
draft-Ordered g u r f c out e =
    let (s, es, e₁) =
      bind-ok (session_stage r) (λ s. pre_acquisition g r >>= λ pre. go s pre) out e in
    let (pre, ep, e₂) = bind-ok (pre_acquisition g r) (λ pre. go s pre) out e₁ in
    let ns : List PlanNode = entry_nodes r f c s pre in
    let (fs, ef, e₃) = bind-ok (family_stage g u r f c a) (λ fs. rest s pre fs) out e₂ in
    let (o, h, k) = entry_nodes-Ordered r f c s pre es in
    let ms : List PlanNode = ns ++ form_stage r in
    let om : Ordered [] ms =
      Ordered-extend ns (form_stage r) o (form_stage-Ordered (so_far ns) r h) in
    let ha : elem a (so_far ms) ≡ true =
      so_far-new ns (form_stage r) a (last_id-after "http" (so_far ns) (form_stage r) h) in
    let of' : Ordered [] (ms ++ fs) =
      Ordered-extend ms fs om (family_stage-Ordered g u r (so_far ms) a ha f c fs ef) in
    cache_nodes-Ordered g u r f a (last_id a fs) (known s pre) (ms ++ fs) out of'
      (so_far-old ms fs a ha) (so_far-new ms fs (last_id a fs) (last_id-after a (so_far ms) fs ha))
      (Known-old ms fs (known s pre) (Known-old ns (form_stage r) (known s pre) k)) e₃
  where
    a : String
    a = last_id "http" (form_stage r)

    known : List PlanNode × String → List String → Dict String
    known s pre = ids_by_capability (Nodes.pre_cache_nodes r s.1 0 none pre)

    rest : List PlanNode × String → List String → List PlanNode → Result (List PlanNode)
    rest s pre fs =
        cache_nodes g u r f a (last_id a fs) (known s pre)
          (entry_nodes r f c s pre ++ form_stage r ++ fs)

    go : List PlanNode × String → List String → Result (List PlanNode)
    go s pre = family_stage g u r f c a >>= λ fs. rest s pre fs
