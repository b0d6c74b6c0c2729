-- ===== src/Planner/Topology/Steps.antt =====
-- The stages of `plan`: each adds nodes that wait for nodes that are there.
use fetech.Prelude.{
  String, ◌=s=◌, ◌≡◌, refl, subst, Bool-cases, inl, inr, Bool, true, false, Option, none, some,
  List, [], ◌∷◌, ◌++◌, arith, elem, All, All-keep, if◌then◌else◌, keep, eq_iff,
}
use fetech.Models.Request.{FetchRequest}
use fetech.Models.Plan.{PlanNode}
use fetech.Planner.Result.{ok, bind-ok}
use fetech.Planner.Registry.{Registry, get}
use fetech.Planner.Tables
use fetech.Planner.Nodes
use fetech.Planner.Classify.{
  Urls, Family, cache, document, media, archive, api, web, is_some, requested_of,
  document_capabilities_of, media_capabilities_of, api_capability,
}
use fetech.Planner.Stages.{
  session_stage, session_of, form_stage, web_stage, family_stage, nodes_by_family, last_id,
  last_id?, last_such, producer_or, ids_by_capability, reader_nodes, selected_readers,
  browser_stage,
}
use fetech.Planner.Topology.Order.{
  Ordered, after, Ordered-append, elem-after, last_id-after, Waits, Waits-Ordered,
}
use fetech.Planner.Topology.Lists.{
  reader_nodes_from-Waits, document_nodes-Waits, media_nodes-Waits, Known,
}

-- One node that waits for one id.
pub one-Ordered : (seen : List String) (n : PlanNode) → Waits seen n → Ordered seen (n ∷ [])
unfolding Ordered Waits
one-Ordered seen n h = (h, tt)

session_of-Ordered :
    (seen : List String) (cs : List String) (s : List PlanNode × String)
    → session_of cs ≡ ok s
    → elem "policy" seen ≡ true
    → Ordered seen s.0 × (elem s.1 (after seen s.0) ≡ true)
unfolding Ordered
session_of-Ordered seen [] s h p = let e : ([], "policy") ≡ s = cc in rw (← e) (tt, p)
session_of-Ordered seen (c ∷ []) s h p =
    let n : PlanNode = Nodes.session_node c in
    let e : (n ∷ [], n.id) ≡ s = cc in
    rw (← e) ((ground arith, tt), ground (arith, eq_iff n.id n.id))
session_of-Ordered seen (c ∷ d ∷ cs) s h p = absurd (ground arith)

pub session_stage-Ordered :
    (seen : List String) (r : FetchRequest) (s : List PlanNode × String)
    → session_stage r ≡ ok s
    → elem "policy" seen ≡ true
    → Ordered seen s.0 × (elem s.1 (after seen s.0) ≡ true)
unfolding session_stage
session_stage-Ordered seen r s h p =
    session_of-Ordered seen (requested_of Tables.auth_session_capabilities r) s h p

pub form_stage-Ordered :
    (seen : List String) (r : FetchRequest) → elem "http" seen ≡ true → Ordered seen (form_stage r)
unfolding form_stage Ordered
form_stage-Ordered seen r h = elim (Bool-cases (elem "csrf_token" r.output_requirements)) [
  | inl e ↦ elim (Bool-cases (elem "form_submit" r.output_requirements)) [
    | inl f ↦ rw (e, f) (ground arith, (refl, tt))
    | inr f ↦ rw (e, f) (ground arith, tt)
  ]
  | inr e ↦ elim (Bool-cases (elem "form_submit" r.output_requirements)) [
    | inl f ↦ rw (e, f) (ground arith, tt)
    | inr f ↦ rw (e, f) tt
  ]
]

module _ (g : Registry) (u : Urls) (r : FetchRequest) (seen : List String) (d : String)
    (h : elem d seen ≡ true) where
  one : (n : PlanNode) → n.dependencies ≡ d ∷ [] → Ordered seen (n ∷ [])
  unfolding Waits
  one n e = one-Ordered seen n (rw e (rw h refl))

  alternatives : Bool → List PlanNode
  alternatives b = if b then [] else Nodes.alternatives_node d ∷ []

  alternatives-Ordered : (b : Bool) → Ordered seen (alternatives b)
  unfolding alternatives Ordered
  alternatives-Ordered true = tt
  alternatives-Ordered false = one (Nodes.alternatives_node d) refl

  rendered : Bool → String → List PlanNode
  rendered b reader = if b then browser_stage r reader ∷ [] else []

  rendered-Ordered :
      (before : List String) (b : Bool) (reader : String)
      → elem reader before ≡ true
      → Ordered before (rendered b reader)
  unfolding rendered browser_stage Ordered
  rendered-Ordered before false reader k = tt
  rendered-Ordered before true reader k = (ground arith, tt)

  web_stage-Ordered : (ns : List PlanNode) → web_stage g r d ≡ ok ns → Ordered seen ns
  unfolding web_stage alternatives rendered reader_nodes
  web_stage-Ordered ns e =
      let alts : List PlanNode = alternatives (is_some r.authentication_ref) in
      let readers : List PlanNode = reader_nodes r (last_id d alts) in
      let (entry, _, k) =
        bind-ok (get g "playwright")
          (λ e. ok (alts ++ (readers ++ rendered e.implementation_available (last_id d readers))))
          ns e in
      let same : alts ++ (readers ++ rendered entry.implementation_available (last_id d readers))
          ≡ ns =
        cc in
      let a : elem (last_id d alts) (after seen alts) ≡ true = last_id-after d seen alts h in
      let o : Ordered (after seen alts) readers = Waits-Ordered (after seen alts) readers (
        reader_nodes_from-Waits r (after seen alts) (last_id d alts) a 0 none
          (selected_readers (requested_of Tables.reader_capabilities r))) in
      let b : elem (last_id d readers) (after (after seen alts) readers) ≡ true =
        last_id-after d (after seen alts) readers (elem-after d seen alts h) in
      subst (Ordered seen) same (
        Ordered-append seen alts
          (readers ++ rendered entry.implementation_available (last_id d readers))
          (alternatives-Ordered (is_some r.authentication_ref))
          (Ordered-append (after seen alts) readers
            (rendered entry.implementation_available (last_id d readers)) o
            (rendered-Ordered (after (after seen alts) readers) entry.implementation_available
              (last_id d readers) b)))

  nodes_by_family-Ordered :
      (c : String) (f : Family) (ns : List PlanNode)
      → nodes_by_family g u r c d f ≡ ok ns
      → Ordered seen ns
  unfolding nodes_by_family Ordered
  nodes_by_family-Ordered c web ns e = elim (Bool-cases (c =s= "http_head")) [
    | inl t ↦ let k : ok [] ≡ ok ns = rw (← e, t) refl in let k' : [] ≡ ns = cc in rw (← k') tt
    | inr t ↦ web_stage-Ordered ns (rw (← e, t) refl)
  ]
  nodes_by_family-Ordered c document ns e =
      let cs : List String = document_capabilities_of u r.target r in
      let k : Nodes.document_nodes r d 0 cs ≡ ns = cc in
      rw (← k)
        (Waits-Ordered seen (Nodes.document_nodes r d 0 cs) (document_nodes-Waits r seen d h 0 cs))
  nodes_by_family-Ordered c media ns e =
      let cs : List String = media_capabilities_of u r.target r in
      let k : Nodes.media_nodes r d 0 cs ≡ ns = cc in
      rw (← k) (Waits-Ordered seen (Nodes.media_nodes r d 0 cs) (media_nodes-Waits r seen d h 0 cs))
  nodes_by_family-Ordered c archive ns e =
      let k : Nodes.archive_node r d ∷ [] ≡ ns = cc in rw (← k) (one (Nodes.archive_node r d) refl)
  nodes_by_family-Ordered c api ns e =
      let (a, _, k) =
        bind-ok (api_capability u r.target r) (λ c. ok (Nodes.structured_node c d ∷ [])) ns e in
      let k' : Nodes.structured_node a d ∷ [] ≡ ns = cc in
      rw (← k') (one (Nodes.structured_node a d) refl)
  nodes_by_family-Ordered c cache ns e = let k : [] ≡ ns = cc in rw (← k) tt

  pub family_stage-Ordered :
      (f : Family) (c : String) (ns : List PlanNode)
      → family_stage g u r f c d ≡ ok ns
      → Ordered seen ns
  unfolding family_stage
  family_stage-Ordered f c ns e = elim (Bool-cases (r.intent =s= "crawl")) [
    | inl t ↦
        let k : ok (Nodes.crawl_node r d ∷ []) ≡ ok ns = rw (← e, t) refl in
        let k' : Nodes.crawl_node r d ∷ [] ≡ ns = cc in rw (← k') (one (Nodes.crawl_node r d) refl)
    | inr t ↦ nodes_by_family-Ordered c f ns (rw (← e, t) refl)
  ]

-- Each node's own id is there after the list.
pub ids-after :
    (seen : List String) (ns : List PlanNode) → All (λ n. elem n.id (after seen ns) ≡ true) ns
ids-after seen [] = tt
ids-after seen (n ∷ ns) = (
  elem-after n.id (n.id ∷ seen) ns (ground (arith, eq_iff n.id n.id)),
  ids-after (n.id ∷ seen) ns,
)

pub ids_by_capability-Known :
    (all_ids : List String) (ns : List PlanNode)
    → All (λ n. elem n.id all_ids ≡ true) ns
    → Known all_ids (ids_by_capability ns)
unfolding Known
ids_by_capability-Known all_ids [] h = tt
ids_by_capability-Known all_ids (n ∷ ns) h = (h.0, ids_by_capability-Known all_ids ns h.1)

last_id?-seen :
    (all_ids : List String) (ns : List PlanNode) (id : String)
    → All (λ n. elem n.id all_ids ≡ true) ns
    → last_id? ns ≡ some id
    → elem id all_ids ≡ true
last_id?-seen all_ids [] id h e = absurd (ground arith)
last_id?-seen all_ids (n ∷ []) id h e = let k : n.id ≡ id = cc in rw (← k) h.0
last_id?-seen all_ids (n ∷ m ∷ ns) id h e = last_id?-seen all_ids (m ∷ ns) id h.1 e

-- The producer of a cache strategy: it is there already, or it is the one node that is added.
pub producer_or-Known :
    (seen before : List String) (p : PlanNode → Bool) (nodes : List PlanNode) (c : String)
    (n : PlanNode)
    → seen ≡ after before nodes
    → Waits seen n
    → Ordered seen (producer_or c (last_such p nodes) n).0
      × Known
          (after seen (producer_or c (last_such p nodes) n).0)
          (producer_or c (last_such p nodes) n).1
unfolding last_such Ordered Known Waits
producer_or-Known seen before p nodes c n same h = by_last (last_such p nodes) refl
  where
    by_last :
        (o : Option String)
        → last_such p nodes ≡ o
        → Ordered seen (producer_or c o n).0
          × Known (after seen (producer_or c o n).0) (producer_or c o n).1
    by_last none e = ((h, tt), (ground (arith, eq_iff n.id n.id), tt))
    by_last (some id) e = (
      tt,
      (
        rw same (
            last_id?-seen (after before nodes) (keep p nodes) id
              (All-keep (λ m. elem m.id (after before nodes) ≡ true) p nodes
                (ids-after before nodes))
              e),
        tt,
      ),
    )
