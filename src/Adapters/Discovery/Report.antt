-- ===== src/Adapters/Discovery/Report.antt =====
-- src/fetech/adapters/discovery.py: `execute` before and after its loop, and `_record_outcomes`.
use fetech.Prelude.{
  ℕ, ◌+◌, ◌-◌, min, String, ◌=s=◌, Bool, true, false, not, ◌&&◌, ◌||◌, Option, none, some, List, [],
  ◌∷◌, ◌++◌, length, ◌==◌, if◌then◌else◌, any, last?,
}
use fetech.Prelude.Dict.{Dict, lookup}
use fetech.Prelude.Answer.{Answer, raise, give, ◌>>=◌, ◌>>◌, raise_first}
use fetech.Models.Status.{AttemptStatus, OutcomeStatus}
use fetech.Models.Request.{FetchRequest}
use fetech.Models.Record.{FetchAttempt, text, number, flag, CrawlReport}
use fetech.Executor.Context.{ExecutionContext, latest_artifact, record_outcome, or_zero}
use fetech.Executor.Quality.{observed_if}
use fetech.Adapters.Discovery.{
  Item, CrawlLibrary, Frontier, count, bit, enqueue, discover_from, FetchEnd,
}
use fetech.Adapters.Discovery.Loop.{Crawl, is_nil, accepts, crawl}

-- A ValueError of `normalize_url`, and the two refusals at the beginning
pub data CrawlError : Type 0 where
  wrong_capability no_root_resource invalid_root : CrawlError

-- The search provider: none, one that fails with an error of a type, or its answer
pub data Search : Type 0 where
  unconfigured : Search
  search_failed : String → Search
  search_results : List String → Search

abbrev pub is_configured : Search → Bool
is_configured unconfigured = false
is_configured (search_failed name) = true
is_configured (search_results urls) = true

abbrev pub is_missing {ℓ} : {A : Type ℓ} → Option A → Bool
is_missing none = true
is_missing (some a) = false

-- Whether the request allows a search
abbrev pub allows_search : FetchRequest → Bool
allows_search r =
    r.policy_profile =s= "allow_search_discovery"
    && (r.privacy_profile =s= "public" && is_missing r.authentication_ref)

-- min(crawl_pages, 1 + max(0, attempts - len(context.attempts)))
unfoldable pub page_limit : ExecutionContext → ℕ
page_limit c =
    min c.request.budget.crawl_pages (1 + (c.request.budget.attempts - length c.attempts))

abbrev pub new_counters : Dict ℕ
new_counters =
    ("internal", 0)
    ∷ ("related", 0)
    ∷ ("pagination", 0)
    ∷ ("next", 0)
    ∷ ("category", 0)
    ∷ ("sitemap", 0)
    ∷ ("variants", 0)
    ∷ ("domain_blocked", 0)
    ∷ ("depth_blocked", 0)
    ∷ ("search", 0)
    ∷ ("search_configured", 0)
    ∷ []

-- The attempt of the crawl, as it begins
abbrev pub crawl_attempt : String → FetchAttempt
crawl_attempt destination = record {
  capability_id = "depth_limited_crawl";
  sanitized_destination = destination;
  status = AttemptStatus.running;
  is_finished = false;
  failure_code = none;
  consumed_budget = [];
}

abbrev pub with_attempt : String → ExecutionContext → ExecutionContext
with_attempt destination c = record c { attempts = c.attempts ++ crawl_attempt destination ∷ [] }

module _ (lib : CrawlLibrary) (root : String) (maximum_depth : ℕ) where
  -- The `for` loop over the search results
  abbrev pub count_search : Bool × Frontier → Frontier
  count_search (admitted, f) = count "search" (bit admitted) f

  unfoldable pub search_items : List String → Frontier → Frontier
  search_items [] f = f
  search_items (url ∷ urls) f = search_items urls (
      count_search (
        enqueue lib (lib.site_host root) maximum_depth
          (record { url = url; depth = 1; parent_url = some root; relation = "search" }) f))

  -- The search, when the request allows it
  abbrev pub searched : Search → Frontier → Frontier
  searched (search_results urls) f = search_items urls f
  searched (search_failed name) f = f
  searched unconfigured f = f

  abbrev pub search_outcome : Search → ExecutionContext → ExecutionContext
  search_outcome (search_results urls) c = c
  search_outcome unconfigured c = c
  search_outcome (search_failed name) c =
      record_outcome "search_provider_discovery" OutcomeStatus.failed "discovery"
        (("reason", text name) ∷ []) c

  abbrev pub search_blocked : ExecutionContext → ExecutionContext
  search_blocked c =
      record_outcome "search_provider_discovery" OutcomeStatus.blocked "discovery"
        (("reason", text "search discovery requires an explicit public, unauthenticated policy")
          ∷ [])
        c

  -- The frontier before the loop: the site's sitemap, what the root page links to, and what a provider
  -- finds
  unfoldable pub first_frontier : String → Search → ExecutionContext → Frontier
  unfolding search_items
  first_frontier default_sitemap provider c =
      let f0 : Frontier = record { seen = root ∷ []; items = []; counters = new_counters } in
      let (_, f1) =
        enqueue lib (lib.site_host root) maximum_depth
          (record {
            url = default_sitemap;
            depth = 0;
            parent_url = some root;
            relation = "sitemap";
          })
          f0 in
      let f2 =
        discover_from lib (lib.site_host root) maximum_depth root 0 (latest_artifact ("raw" ∷ []) c)
          f1 in
      if is_configured provider && allows_search c.request
      then searched provider (count "search_configured" 1 f2)
      else f2

  abbrev pub search_context : Search → ExecutionContext → ExecutionContext
  search_context provider c =
      if is_configured provider
      then if allows_search c.request then search_outcome provider c else search_blocked c
      else c

  -- What the loop begins with
  unfoldable pub first_crawl : String → Search → Bool → ExecutionContext → Crawl
  unfolding first_frontier
  first_crawl default_sitemap provider root_accepted c = record {
    context = search_context provider c;
    frontier = first_frontier default_sitemap provider c;
    targets =
        record {
          url = lib.sanitize root;
          depth = 0;
          parent_url = none;
          relation = "root";
          fetched = true;
          accepted = root_accepted;
          failure_code = none;
        }
        ∷ [];
    pages_checked = 1;
    pages_fetched = 1;
    pages_failed = 0;
    depth_reached = 0;
    requested = [];
  }

abbrev pub or_invalid : Option String → Answer CrawlError String
or_invalid none = raise invalid_root
or_invalid (some url) = give url

abbrev pub crawl_checks : String → ExecutionContext → List (Bool × CrawlError)
crawl_checks capability_id c =
    (not (capability_id =s= "depth_limited_crawl"), wrong_capability)
    ∷ (is_nil c.resources || is_missing (latest_artifact ("raw" ∷ []) c), no_root_resource)
    ∷ []

-- The crawl of `execute`, from its guards to the end of its loop. Each round of the loop checks a
-- page, so the loop needs no more fuel than the greatest number of pages.
unfoldable pub execute :
    CrawlLibrary
    → (Item → ExecutionContext → ExecutionContext × FetchEnd)
    → ℕ
    → Search
    → String
    → ExecutionContext
    → Answer CrawlError Crawl
unfolding first_crawl page_limit
execute lib http batch_size provider capability_id c = do
  raise_first (crawl_checks capability_id c)
  let c1 = with_attempt (lib.sanitize c.request.target) c
  root ← or_invalid (lib.normalize c.request.target)
  default_sitemap ← or_invalid (lib.normalize (lib.join root "/sitemap.xml"))
  give (
      crawl lib http (lib.site_host root) (page_limit c1) batch_size (page_limit c1) (
        first_crawl lib root c.request.budget.crawl_depth default_sitemap provider
          (accepts lib (last? c.artifacts)) c1))

-- `CrawlReport`, less its targets
unfoldable pub report_of : CrawlLibrary → String → Crawl → CrawlReport
report_of lib root c = record {
  root_url = lib.sanitize root;
  pages_fetched = c.pages_fetched;
  pages_failed = c.pages_failed;
}

abbrev pub counted : String → Dict ℕ → ℕ
counted name counters = or_zero (lookup name counters)

-- `observations`: the capabilities with the names of their counters
abbrev pub observations : List (String × String)
observations =
    ("sitemap_discovery", "sitemap")
    ∷ ("internal_link_discovery", "internal")
    ∷ ("related_link_discovery", "related")
    ∷ ("pagination_discovery", "pagination")
    ∷ ("next_page_discovery", "next")
    ∷ ("category_tag_discovery", "category")
    ∷ ("candidate_url_expansion", "variants")
    ∷ []

abbrev pub record_observations :
    Dict ℕ → List (String × String) → ExecutionContext → ExecutionContext
record_observations counters [] c = c
record_observations counters ((capability, name) ∷ rest) c = record_observations counters rest (
    record_outcome capability (observed_if (not (counted name counters == 0))) "discovery"
      (("count", number (counted name counters)) ∷ []) c)

abbrev pub record_search : Dict ℕ → ExecutionContext → ExecutionContext
record_search counters c =
    record_outcome "search_provider_discovery" (observed_if (not (counted "search" counters == 0)))
      "discovery"
      (("count", number (counted "search" counters))
        ∷ ("configured", flag (not (counted "search_configured" counters == 0)))
        ∷ [])
      c

-- `_record_outcomes`, with the host of the report's root
unfoldable pub record_outcomes : ℕ → String → Dict ℕ → ExecutionContext → ExecutionContext
record_outcomes depth_reached root_host counters c =
    let c1 = record_observations counters observations c in
    let c2 =
      record_outcome "robots_discovery" OutcomeStatus.applied "discovery"
        (("policy_checked", flag true) ∷ []) c1 in
    let c3 =
      record_outcome "depth_limited_crawl" OutcomeStatus.applied "discovery"
        (("maximum_depth", number depth_reached)
          ∷ ("blocked", number (counted "depth_blocked" counters))
          ∷ [])
        c2 in
    let c4 =
      record_outcome "domain_limited_crawl" OutcomeStatus.applied "discovery"
        (("blocked", number (counted "domain_blocked" counters)) ∷ []) c3 in
    let c5 =
      record_outcome "official_domain_discovery" OutcomeStatus.observed "discovery"
        (("host", text root_host) ∷ []) c4 in
    if any (λ o. o.capability_id =s= "search_provider_discovery") c5.capability_outcomes
    then c5
    else record_search counters c5
