-- ===== src/Planner/Topology/Lists.antt =====
-- The lists of nodes that the loops of `plan` make: each node waits for the one id they are given.
use fetech.Prelude.{
  ℕ, suc, String, ◌=s=◌, ◌≡◌, refl, true, Bool-cases, inl, inr, Option, none, some, List, [], ◌∷◌,
  arith, elem, All,
}
use fetech.Prelude.Dict.{Dict, lookup}
use fetech.Models.Request.{FetchRequest}
use fetech.Planner.Nodes
use fetech.Planner.Stages.{post_stage, post_dependency}
use fetech.Planner.Topology.Order.{Waits}

module _ (r : FetchRequest) (seen : List String) (d : String) (h : elem d seen ≡ true) where
  pub pre_cache_nodes-Waits :
      (i : ℕ) (previous : Option String) (cs : List String)
      → All (Waits seen) (Nodes.pre_cache_nodes r d i previous cs)
  unfolding Waits
  pre_cache_nodes-Waits i previous [] = tt
  pre_cache_nodes-Waits i previous (c ∷ cs) = (ground arith, pre_cache_nodes-Waits (suc i) _ cs)

  pub reader_nodes_from-Waits :
      (i : ℕ) (previous : Option String) (cs : List String)
      → All (Waits seen) (Nodes.reader_nodes_from d i previous cs)
  unfolding Waits
  reader_nodes_from-Waits i previous [] = tt
  reader_nodes_from-Waits i previous (c ∷ cs) = (ground arith, reader_nodes_from-Waits (suc i) _ cs)

  pub document_nodes-Waits :
      (i : ℕ) (cs : List String) → All (Waits seen) (Nodes.document_nodes r d i cs)
  unfolding Waits
  document_nodes-Waits i [] = tt
  document_nodes-Waits i (c ∷ cs) = (ground arith, document_nodes-Waits (suc i) cs)

  pub media_nodes-Waits : (i : ℕ) (cs : List String) → All (Waits seen) (Nodes.media_nodes r d i cs)
  unfolding Waits
  media_nodes-Waits i [] = tt
  media_nodes-Waits i (c ∷ cs) = (ground arith, media_nodes-Waits (suc i) cs)

-- The values of a dictionary are ids that were seen.
unfoldable pub Known : List String → Dict String → Type 0
Known seen d = All (λ kv. elem kv.1 seen ≡ true) d

-- What is found in such a dictionary, or a default that was seen.
found_or-seen :
    (seen : List String) (k default : String) (d : Dict String)
    → Known seen d
    → elem default seen ≡ true
    → elem (elim (lookup k d) [ some id ↦ id | none ↦ default ]) seen ≡ true
unfolding Known lookup
found_or-seen seen k default [] a h = h
found_or-seen seen k default ((j, v) ∷ d) a h = elim (Bool-cases (j =s= k)) [
  | inl e ↦ rw e a.0
  | inr e ↦ rw e (found_or-seen seen k default d a.1 h)
]

pub post_dependency-seen :
    (seen : List String) (producers pre : Dict String) (terminal c : String)
    → Known seen producers
    → Known seen pre
    → elem terminal seen ≡ true
    → elem (post_dependency producers pre terminal c) seen ≡ true
unfolding post_dependency
post_dependency-seen seen producers pre terminal c a b h =
    let produced : String = elim (lookup c producers) [ some id ↦ id | none ↦ terminal ] in
    let p : elem produced seen ≡ true = found_or-seen seen c terminal producers a h in
    let alternate : String = elim (lookup "alternate_search_cache_adapter" pre) [
      | some id ↦ id
      | none ↦ produced
    ] in
    elim (Bool-cases (elem c ("search_snippet_cache" ∷ "search_cache" ∷ []))) [
      | inl e ↦ rw e (
          found_or-seen seen "search_engine_cache_adapter" alternate pre b
            (found_or-seen seen "alternate_search_cache_adapter" produced pre b p))
      | inr e ↦ rw e p
    ]

pub post_stage-Waits :
    (r : FetchRequest) (seen : List String) (producers pre : Dict String) (terminal : String)
    (i : ℕ) (cs : List String)
    → Known seen producers
    → Known seen pre
    → elem terminal seen ≡ true
    → All (Waits seen) (post_stage r producers pre terminal i cs)
unfolding Waits post_stage
post_stage-Waits r seen producers pre terminal i [] a b h = tt
post_stage-Waits r seen producers pre terminal i (c ∷ cs) a b h =
    let e : elem (post_dependency producers pre terminal c) seen ≡ true =
      post_dependency-seen seen producers pre terminal c a b h in
    (rw e refl, post_stage-Waits r seen producers pre terminal (suc i) cs a b h)
