-- ===== src/Adapters/CrawlExamples.antt =====
-- src/fetech/adapters/discovery.py: a crawl of a site of two pages.
use fetech.Prelude.{String, ◌=s=◌, ◌≡◌, refl, true, false, none, some, [], ◌∷◌, if◌then◌else◌}
use fetech.Prelude.Answer.{Answer, raise, give}
use fetech.Prelude.Dict.{lookup, insert}
use fetech.Models.Request.{FetchRequest, ResourceBudget, budget_field}
use fetech.Models.Record.{Artifact, Resource}
use fetech.Executor.Context.{ExecutionContext, latest_artifact, record_outcome}
use fetech.Adapters.Discovery.{
  Item, html, CrawlLibrary, enqueue, discover_links, discover_from, merge_context, page_budget,
  page_context, fetch, FetchEnd, fetched,
}
use fetech.Adapters.Discovery.Loop.{Crawl, page_done, pages_done, round, crawl}
use fetech.Adapters.Discovery.Report.{
  CrawlError, unconfigured, page_limit, with_attempt, search_items, first_frontier, first_crawl,
  execute,
}
use fetech.Adapters.Discovery.Crawled.{IsCrawled, execute-IsCrawled}

abbrev budget : ResourceBudget
budget = record {
  deadline_seconds = 1000;
  attempts = 9;
  redirects = 5;
  bytes = 100;
  decompressed_bytes = 200;
  crawl_pages = 3;
  crawl_depth = 1;
  browser_seconds = 10;
  archive_members = 10;
  archive_ratio = 10;
  model_tokens = 0;
  monetary_ceiling = 0;
}

abbrev request : FetchRequest
request = record {
  target = "site/";
  intent = "crawl";
  output_requirements = [];
  authentication_ref = none;
  privacy_profile = "public";
  policy_profile = "default";
  freshness_seconds = none;
  language = none;
  region = none;
  allow_capabilities = [];
  deny_capabilities = [];
  approved_capabilities = [];
  budget = budget;
  metadata = [];
}

abbrev raw_page : Artifact
raw_page = record { artifact_id = 1; representation = "raw" }

abbrev site : Resource
site = record { resource_id = 1; canonical_url = "site/" }

abbrev context : ExecutionContext
context = record {
  request = request;
  resources = site ∷ [];
  artifacts = raw_page ∷ [];
  attempts = [];
  capability_outcomes = [];
  policy_decisions = [];
  diagnostics = [];
  accepted = false;
  crawl_report = none;
  sensitive_state = [];
  pending_events = [];
}

-- Each page links to the root and to "site/a".
abbrev library : CrawlLibrary
library = record {
  normalize = λ u. some u;
  site_host = λ u. if u =s= "other/" then "other" else "site";
  join = λ page u. u;
  variant_count = λ u. 1;
  page = λ u a. html (("site/", "internal") ∷ ("site/a", "next") ∷ ("other/", "internal") ∷ []);
  is_accepted = λ a. true;
  sanitize = λ u. u;
}

abbrev http : Item → ExecutionContext → ExecutionContext × FetchEnd
http item c = (record c { resources = site ∷ []; artifacts = raw_page ∷ [] }, fetched)

abbrev none_crawled : Crawl
none_crawled = record {
  context = context;
  frontier = record { seen = []; items = []; counters = [] };
  targets = [];
  pages_checked = 0;
  pages_fetched = 0;
  pages_failed = 0;
  depth_reached = 0;
  requested = [];
}

abbrev crawl_of : Answer CrawlError Crawl → Crawl
crawl_of (raise e) = none_crawled
crawl_of (give c) = c

abbrev crawled : Crawl
crawled = crawl_of (execute library http 2 unconfigured "depth_limited_crawl" context)

crawls : execute library http 2 unconfigured "depth_limited_crawl" context ≡ give crawled
unfolding execute latest_artifact
crawls = refl

three_pages : crawled.pages_checked ≡ 3
unfolding execute page_limit first_crawl first_frontier search_items enqueue discover_links
    discover_from latest_artifact crawl round pages_done page_done fetch page_context page_budget
    merge_context record_outcome lookup insert budget_field
three_pages = refl

execute-IsCrawled_example :
    (root : String) × (library.normalize "site/" ≡ some root)
    × IsCrawled library http 2 (with_attempt "site/" context) root crawled
execute-IsCrawled_example =
    execute-IsCrawled library http 2 unconfigured "depth_limited_crawl" context crawled crawls
