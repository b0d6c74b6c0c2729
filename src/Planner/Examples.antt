-- ===== src/Planner/Examples.antt =====
-- Plans for small requests, for src/fetech/planning.py.
use fetech.Prelude.{◌≡◌, refl, inl, String, true, false, none, some, List, [], ◌∷◌, ◌++◌, elem, In}
use fetech.Models.Status.{CapabilityKind}
use fetech.Models.Request.{ResourceBudget, FetchRequest}
use fetech.Models.Plan.{PlanNode, FetchPlan}
use fetech.Planner.Result.{ok, err, http_denied}
use fetech.Planner.Registry.{Registry, Entry, get, resolve_id}
use fetech.Planner.Classify.{Urls, web, classify_target, http_capability}
use fetech.Planner.Nodes
use fetech.Planner.Stages.{
  permitted, keep_permitted, session_stage, http_stage, form_stage, family_stage, web_stage,
  nodes_by_family, reader_nodes, browser_stage, rag_stage, browser_cache_stage, post_stage,
  requested_pre_cache,
}
use fetech.Planner.Plan.{
  plan, plan_of, checked_nodes, draft, pre_acquisition, cache_nodes, validate_nodes,
  validate_outputs, scheduled_ids, verdicts, output_verdict, entry_verdict, canonical_output,
  bind_execution_request, canonical_request,
}
use fetech.Planner.Lookup.{resolve_id-canonical}
use fetech.Planner.Permits.{IsSound, plan-IsSound}
use fetech.Planner.Serves.{is_excused, plan-serves}
use fetech.Planner.Topology.{draft-Ordered}
use fetech.Planner.Topology.Order.{Ordered}

abbrev budget : ResourceBudget
budget = record {
  deadline_seconds = 60000;
  attempts = 8;
  redirects = 5;
  bytes = 1000;
  decompressed_bytes = 2000;
  crawl_pages = 1;
  crawl_depth = 1;
  browser_seconds = 10000;
  archive_members = 10;
  archive_ratio = 10;
  model_tokens = 0;
  monetary_ceiling = 0;
}

-- A page of which the main text is asked for.
abbrev request : FetchRequest
request = record {
  target = "https://example.org/page";
  intent = "fetch";
  output_requirements = "article" ∷ "article" ∷ [];
  authentication_ref = some "vault";
  privacy_profile = "public";
  policy_profile = "default";
  freshness_seconds = none;
  language = none;
  region = none;
  allow_capabilities = [];
  deny_capabilities = "pdf" ∷ [];
  approved_capabilities = [];
  budget = budget;
  metadata = [];
}

abbrev entry : String → List String → Entry
entry id aliases = record {
  category = "web_acquisition";
  id = id;
  aliases = aliases;
  kind = CapabilityKind.operation;
  implementation_available = false;
}

abbrev article : Entry
article = entry "main_article" ("article" ∷ [])

abbrev registry : Registry
registry =
    entry "url_normalisation" []
    ∷ entry "url_validation" []
    ∷ entry "http_get" []
    ∷ article
    ∷ entry "playwright" []
    ∷ []

abbrev urls : Urls
urls = record {
  normalize = λ t. some t;
  sanitize = λ r t. t;
  suffix = λ t. "";
  named_api = λ t. none;
}

abbrev canonical : FetchRequest
canonical = record request { output_requirements = "main_article" ∷ [] }

abbrev nodes : List PlanNode
nodes =
    Nodes.head_nodes
    ++ Nodes.http_node canonical "http_get" "policy" none false
      ∷ Nodes.reader_nodes_from "http" 0 none ("main_article" ∷ [])

abbrev expected : FetchPlan
expected = record { request = canonical; nodes = nodes; execution_request = canonical }

planned : plan registry urls request ≡ ok expected
unfolding plan plan_of bind_execution_request checked_nodes draft pre_acquisition cache_nodes
    validate_nodes validate_outputs scheduled_ids verdicts output_verdict entry_verdict
    canonical_output permitted keep_permitted session_stage http_stage form_stage family_stage
    web_stage nodes_by_family reader_nodes browser_stage rag_stage browser_cache_stage post_stage
    requested_pre_cache get resolve_id classify_target http_capability
planned = refl

drafted : draft registry urls canonical web "http_get" ≡ ok nodes
unfolding plan plan_of bind_execution_request checked_nodes draft pre_acquisition cache_nodes
    validate_nodes validate_outputs scheduled_ids verdicts output_verdict entry_verdict
    canonical_output permitted keep_permitted session_stage http_stage form_stage family_stage
    web_stage nodes_by_family reader_nodes browser_stage rag_stage browser_cache_stage post_stage
    requested_pre_cache get resolve_id classify_target http_capability
drafted = refl

known_article : get registry "main_article" ≡ ok article
unfolding get resolve_id
known_article = refl

output_there :
    In "main_article" (canonical_request registry request canonical.target).output_requirements
unfolding canonical_output resolve_id
output_there = inl refl

not_excused :
    is_excused
      (canonical_request registry request canonical.target)
      nodes
      (classify_target urls canonical.target
        (canonical_request registry request canonical.target).output_requirements)
      "main_article"
      article
    ≡ false
unfolding classify_target canonical_output resolve_id
not_excused = refl

-- A request that denies every HTTP operation has no plan.
denied_http :
    plan registry urls (record request { deny_capabilities = "http_get" ∷ [] }) ≡ err http_denied
unfolding plan plan_of bind_execution_request checked_nodes draft pre_acquisition cache_nodes
    validate_nodes validate_outputs scheduled_ids verdicts output_verdict entry_verdict
    canonical_output permitted keep_permitted session_stage http_stage form_stage family_stage
    web_stage nodes_by_family reader_nodes browser_stage rag_stage browser_cache_stage post_stage
    requested_pre_cache get resolve_id classify_target http_capability
denied_http = refl

plan-IsSound_example : IsSound registry canonical nodes
plan-IsSound_example = plan-IsSound registry urls request expected planned

plan-serves_example :
    (scheduled : List String) × (scheduled_ids registry nodes ≡ ok scheduled)
    × (elem "main_article" scheduled ≡ true)
    × (permitted registry (canonical_request registry request canonical.target) "main_article"
        ≡ ok true)
plan-serves_example =
    plan-serves registry urls request expected canonical.target "main_article" article refl planned
      output_there known_article not_excused

draft-Ordered_example : Ordered [] nodes
draft-Ordered_example = draft-Ordered registry urls canonical web "http_get" nodes drafted

resolved : resolve_id registry "article" ≡ ok "main_article"
unfolding resolve_id
resolved = refl

resolve_id-canonical_example :
    (e : Entry) × (get registry "article" ≡ ok e)
    × (e.id ≡ "main_article")
    × (resolve_id registry "main_article" ≡ ok "main_article")
resolve_id-canonical_example = resolve_id-canonical registry "article" "main_article" resolved
