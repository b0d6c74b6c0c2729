-- ===== src/Planner/Plan.antt =====
-- src/fetech/planning.py: `plan`, `_validate_nodes` and `_validate_requested_schedulable_outputs`.
use fetech.Prelude.{
  String, ◌=s=◌, ◌&&◌, ◌||◌, not, Bool, true, false, Option, none, some, List, [], ◌∷◌, ◌++◌,
  if◌then◌else◌, elem, any, all, keep, map,
}
use fetech.Prelude.Dict.{Dict}
use fetech.Models.Request.{FetchRequest}
use fetech.Models.Status.{CapabilityKind}
use fetech.Models.Plan.{PlanNode, FetchPlan}
use fetech.Planner.Result.{
  Result, ok, err, require, ◌>>=◌, ◌>>◌, invalid_target, mismatched_request, http_denied,
  missing_dependencies, outputs_denied, outputs_missing,
}
use fetech.Planner.Registry.{Registry, Entry, get, resolve_id}
use fetech.Planner.Tables
use fetech.Planner.Classify.{
  Urls, Family, web, classify_target, requested_cache_capabilities, http_capability,
}
use fetech.Planner.Nodes
use fetech.Planner.Stages.{
  permitted, keep_permitted, session_stage, requested_pre_cache, last_id, last_id?,
  ids_by_capability, http_stage, form_stage, family_stage, rag_stage, browser_cache_stage,
  post_stage, is_empty,
}

-- dict.fromkeys
abbrev pub unique : List String → List String
unique [] = []
unique (c ∷ cs) = c ∷ keep (λ d. not (d =s= c)) (unique cs)

-- _canonical_output_requirement
unfoldable pub canonical_output : Registry → String → String
canonical_output g c = elim (resolve_id g c) [ ok id ↦ id | err e ↦ c ]

abbrev pub ids : List PlanNode → List String
ids = map (λ n. n.id)

-- _validate_nodes
unfoldable pub validate_nodes : Registry → List String → List PlanNode → Result (Unit {0})
validate_nodes g present [] = ok tt
validate_nodes g present (n ∷ ns) = do
  entry ← get g n.capability_id
  require (all (λ d. elem d present) n.dependencies) (missing_dependencies n.id)
  validate_nodes g present ns

-- _SCHEDULABLE_KINDS
abbrev pub is_schedulable : CapabilityKind → Bool
is_schedulable CapabilityKind.operation = true
is_schedulable CapabilityKind.variant_generator = true
is_schedulable CapabilityKind.extractor = true
is_schedulable CapabilityKind.format_handler = true
is_schedulable CapabilityKind.connector = true
is_schedulable CapabilityKind.storage_strategy = true
is_schedulable _ = false

-- {self.registry.resolve_id(node.capability_id) for node in nodes}
unfoldable pub scheduled_ids : Registry → List PlanNode → Result (List String)
scheduled_ids g [] = ok []
scheduled_ids g (n ∷ ns) = do
  id ← resolve_id g n.capability_id
  rest ← scheduled_ids g ns
  ok (id ∷ rest)

abbrev pub is_web : Family → Bool
is_web web = true
is_web _ = false

abbrev pub uses_adapter : String → List PlanNode → Bool
uses_adapter adapter nodes = any (λ n. n.adapter =s= adapter) nodes

abbrev pub is_only_clean_text : List String → Bool
is_only_clean_text (c ∷ []) = c =s= "clean_text"
is_only_clean_text _ = false

-- The `continue`s of the loop over the outputs.
abbrev pub is_embedded : List PlanNode → Entry → Bool
is_embedded nodes e =
    (elem e.id Tables.browser_embedded_capabilities && uses_adapter "browser" nodes)
    || (elem e.id Tables.http_embedded_auth_capabilities && uses_adapter "http" nodes)

-- Whether an output that is asked for is `denied`, `missing`, or neither.
pub data Verdict : Type 0 where
  fine : Verdict
  denied missing : String → Verdict

unfoldable pub entry_verdict :
    Registry → FetchRequest → List PlanNode → List String → Entry → Result Verdict
entry_verdict g r nodes scheduled e =
    if not (is_schedulable e.kind) then ok fine else if is_embedded nodes e then ok fine else do
      b ← permitted g r e.id
      ok (if not b then denied e.id else if elem e.id scheduled then fine else missing e.id)

unfoldable pub output_verdict :
    Registry → FetchRequest → List PlanNode → Family → List String → String → Result Verdict
unfolding entry_verdict
output_verdict g r nodes family scheduled c =
    if (c =s= "clean_text")
      && (is_only_clean_text r.output_requirements
          && (not (is_web family) || (r.intent =s= "crawl")))
    then ok fine
    else elim (get g c) [ err e ↦ ok fine | ok e ↦ entry_verdict g r nodes scheduled e ]

unfoldable pub verdicts :
    Registry
    → FetchRequest
    → List PlanNode
    → Family
    → List String
    → List String
    → Result (List Verdict)
verdicts g r nodes family scheduled [] = ok []
verdicts g r nodes family scheduled (c ∷ cs) = do
  v ← output_verdict g r nodes family scheduled c
  rest ← verdicts g r nodes family scheduled cs
  ok (v ∷ rest)

abbrev pub denied_of : List Verdict → List String
denied_of [] = []
denied_of (denied c ∷ vs) = c ∷ denied_of vs
denied_of (fine ∷ vs) = denied_of vs
denied_of (missing c ∷ vs) = denied_of vs

abbrev pub missing_of : List Verdict → List String
missing_of [] = []
missing_of (missing c ∷ vs) = c ∷ missing_of vs
missing_of (fine ∷ vs) = missing_of vs
missing_of (denied c ∷ vs) = missing_of vs

-- _validate_requested_schedulable_outputs; its messages sort the names
unfoldable pub validate_outputs :
    Registry → FetchRequest → List PlanNode → Family → Result (Unit {0})
unfolding scheduled_ids verdicts
validate_outputs g r nodes family = do
  scheduled ← scheduled_ids g nodes
  vs ← verdicts g r nodes family scheduled r.output_requirements
  require (is_empty (denied_of vs)) (outputs_denied (denied_of vs))
  require (is_empty (missing_of vs)) (outputs_missing (missing_of vs))

-- The list `nodes` of `plan` up to the `http` node, and what it makes known: the id that `http`
-- waits for, and the nodes of the caches.
abbrev pub entry_nodes :
    FetchRequest → Family → String → List PlanNode × String → List String → List PlanNode
entry_nodes r family capability session pre =
    let caches : List PlanNode = Nodes.pre_cache_nodes r session.1 0 none pre in
    Nodes.head_nodes
    ++ session.0
    ++ caches
    ++ (http_stage r family capability (requested_cache_capabilities r) session.1 (last_id? caches)
        ∷ [])

-- pre_acquisition_cache
unfoldable pub pre_acquisition : Registry → FetchRequest → Result (List String)
unfolding keep_permitted
pre_acquisition g r =
    keep_permitted g r (λ c. c)
      (keep (λ c. elem c (requested_pre_cache (requested_cache_capabilities r)))
        Tables.pre_acquisition_cache_capabilities)

-- The nodes after `family_stage`: the producers of the caches, and the caches after the acquisition.
unfoldable pub cache_nodes :
    Registry
    → Urls
    → FetchRequest
    → Family
    → String
    → String
    → Dict String
    → List PlanNode
    → Result (List PlanNode)
unfolding rag_stage browser_cache_stage post_stage
cache_nodes g u r family acquired terminal pre nodes = do
  rag ← rag_stage g r nodes family acquired terminal
  browser ← browser_cache_stage g u r (nodes ++ rag.0) family acquired
  ok (
      nodes
      ++ rag.0
      ++ browser.0
      ++ post_stage r (rag.1 ++ browser.1) pre terminal 0 (
          keep (λ c. elem c (requested_cache_capabilities r))
            Tables.post_acquisition_cache_capabilities))

-- The list `nodes` of `plan` before the filter.
unfoldable pub draft : Registry → Urls → FetchRequest → Family → String → Result (List PlanNode)
unfolding session_stage pre_acquisition family_stage cache_nodes
draft g u r family capability = do
  session ← session_stage r
  pre ← pre_acquisition g r
  let start : List PlanNode = entry_nodes r family capability session pre
  let acquired : String = last_id "http" (form_stage r)
  family_nodes ← family_stage g u r family capability acquired
  cache_nodes g u r family acquired (last_id acquired family_nodes)
      (ids_by_capability (Nodes.pre_cache_nodes r session.1 0 none pre))
      (start ++ form_stage r ++ family_nodes)

abbrev pub is_http_node : PlanNode → Bool
is_http_node n =
    elem n.capability_id
      ("http_get" ∷ "http_head" ∷ "http_post" ∷ "browser_header_http" ∷ "range_request" ∷ [])

-- From the canonical request on: the nodes that are permitted, if they make a plan.
unfoldable pub checked_nodes : Registry → Urls → FetchRequest → Result (List PlanNode)
unfolding draft keep_permitted validate_nodes validate_outputs
checked_nodes g u r = do
  let family : Family = classify_target u r.target r.output_requirements
  nodes ← draft g u r family (http_capability r)
  filtered ← keep_permitted g r (λ n. n.capability_id) nodes
  require (any is_http_node filtered) http_denied
  validate_nodes g (ids filtered) filtered
  validate_outputs g r filtered family
  ok filtered

abbrev pub with_target : FetchRequest → String → FetchRequest
with_target r target = record r { target = target }

abbrev pub canonical_request : Registry → FetchRequest → String → FetchRequest
canonical_request g r target = record r {
  target = target;
  output_requirements = unique (map (canonical_output g) r.output_requirements);
}

abbrev pub bound_to : Urls → FetchRequest → List PlanNode → FetchRequest → Result FetchPlan
bound_to u public nodes normalized =
    if u.sanitize normalized normalized.target =s= public.target
    then ok (record { request = public; nodes = nodes; execution_request = normalized })
    else err mismatched_request

-- FetchPlan(request=public, nodes=nodes).bind_execution_request(r). The two requests that it
-- compares differ at most in their targets.
unfoldable pub bind_execution_request :
    Urls → FetchRequest → List PlanNode → FetchRequest → Result FetchPlan
bind_execution_request u public nodes r = elim (u.normalize r.target) [
  | none ↦ err invalid_target
  | some again ↦ bound_to u public nodes (with_target r again)
]

-- plan, from the normalised target on
unfoldable pub plan_of : Registry → Urls → FetchRequest → Option String → Result FetchPlan
unfolding checked_nodes bind_execution_request
plan_of g u request none = err invalid_target
plan_of g u request (some target) = do
  let r : FetchRequest = canonical_request g request target
  nodes ← checked_nodes g u r
  bind_execution_request u (with_target r (u.sanitize r target)) nodes r

-- plan
unfoldable pub plan : Registry → Urls → FetchRequest → Result FetchPlan
unfolding plan_of
plan g u request = plan_of g u request (u.normalize request.target)
