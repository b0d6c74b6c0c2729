-- ===== src/Adapters/Discovery.antt =====
-- src/fetech/adapters/discovery.py: `DiscoveryAdapter`, the bounded crawl of one site.
pub mod Site
pub mod Loop
pub mod Report
pub mod Bounds
pub mod Ends
pub mod Crawled
use fetech.Prelude.{
  ℕ, zero, suc, ◌+◌, ◌-◌, ◌/◌, min, max, String, ◌=s=◌, Bool, true, false, not, ◌&&◌, ◌||◌, Option,
  none, some, List, [], ◌∷◌, ◌++◌, map, length, drop, ltb, ◌==◌, if◌then◌else◌, elem,
}
use fetech.Prelude.Dict.{Dict, lookup, insert}
use fetech.Models.Request.{FetchRequest, ResourceBudget}
use fetech.Models.Record.{Artifact, PolicyDecision}
use fetech.Executor.Context.{ExecutionContext, latest_artifact, consumed_budget, or_zero}

-- `_FrontierItem`
pub record Item : Type 0 where
  pub url : String
  pub depth : ℕ
  pub parent_url : Option String
  pub relation : String

-- What a page gives: the links of its parser with their relations, the locations of a sitemap, or
-- nothing to read
pub data Page : Type 0 where
  html : List (String × String) → Page
  sitemap : List String → Page
  unread : Page

-- What is called on texts and artifacts: `normalize_url`, `none` for its ValueError; `_site_host`;
-- `urljoin` with a page; the number of `generate_variants`; what of an artifact's body is read for a
-- page; whether its quality is accepted; `sanitize_url_for_request`.
pub record CrawlLibrary : Type 0 where
  pub normalize : String → Option String
  pub site_host : String → String
  pub join : String → String → String
  pub variant_count : String → ℕ
  pub page : String → Artifact → Page
  pub is_accepted : Artifact → Bool
  pub sanitize : String → String

-- `seen`, `frontier` and `counters`
pub record Frontier : Type 0 where
  pub seen : List String
  pub items : List Item
  pub counters : Dict ℕ

abbrev pub count : String → ℕ → Frontier → Frontier
count name n f = record f {
  counters = insert name (or_zero (lookup name f.counters) + n) f.counters;
}

abbrev pub bit : Bool → ℕ
bit true = 1
bit false = 0

module _ (lib : CrawlLibrary) (root_host : String) (maximum_depth : ℕ) where
  abbrev pub enqueue_url : Item → Option String → Frontier → Bool × Frontier
  enqueue_url item none f = (false, f)
  enqueue_url item (some candidate) f =
      if elem candidate f.seen
      then (false, f)
      else if ltb maximum_depth item.depth
      then (false, count "depth_blocked" 1 f)
      else if not (lib.site_host candidate =s= root_host)
      then (false, count "domain_blocked" 1 f)
      else (
        true,
        record f {
          seen = candidate ∷ f.seen;
          items = f.items ++ record item { url = candidate } ∷ [];
        },
      )

  -- _enqueue
  unfoldable pub enqueue : Item → Frontier → Bool × Frontier
  enqueue item f = enqueue_url item (lib.normalize item.url) f

  -- What is counted for a link that was admitted
  abbrev pub count_link : String → String → Bool × Frontier → Frontier
  count_link candidate relation (false, f) = f
  count_link candidate relation (true, f) =
      count "variants" (lib.variant_count candidate - 1) (count relation 1 f)

  unfoldable pub discover_links : String → ℕ → List (String × String) → Frontier → Frontier
  unfolding enqueue
  discover_links page_url depth [] f = f
  discover_links page_url depth ((candidate, relation) ∷ links) f =
      discover_links page_url depth links (
        count_link candidate relation (
          enqueue
            (record {
              url = candidate;
              depth = depth + 1;
              parent_url = some page_url;
              relation = relation;
            })
            f))

  abbrev pub count_location : Bool × Frontier → Frontier
  count_location (admitted, f) = count "sitemap" (bit admitted) f

  abbrev pub discover_location : String → ℕ → Option String → Frontier → Frontier
  discover_location page_url depth none f = f
  discover_location page_url depth (some candidate) f = count_location (
      enqueue
        (record {
          url = candidate;
          depth = depth + 1;
          parent_url = some page_url;
          relation = "sitemap";
        })
        f)

  unfoldable pub discover_locations : String → ℕ → List String → Frontier → Frontier
  unfolding enqueue
  discover_locations page_url depth [] f = f
  discover_locations page_url depth (location ∷ locations) f =
      discover_locations page_url depth locations
        (discover_location page_url depth (lib.normalize (lib.join page_url location)) f)

  abbrev pub discover_page : String → ℕ → Page → Frontier → Frontier
  discover_page page_url depth (html links) f = discover_links page_url depth links f
  discover_page page_url depth (sitemap locations) f = discover_locations page_url depth locations f
  discover_page page_url depth unread f = f

  -- `_discover_from_latest`, on the context's latest raw artifact
  unfoldable pub discover_from : String → ℕ → Option Artifact → Frontier → Frontier
  unfolding discover_links discover_locations
  discover_from page_url depth none f = f
  discover_from page_url depth (some artifact) f =
      discover_page page_url depth (lib.page page_url artifact) f

-- _merge_context
unfoldable pub merge_context : ExecutionContext → ExecutionContext → ExecutionContext
merge_context c sub = record c {
  resources = c.resources ++ sub.resources;
  artifacts = c.artifacts ++ sub.artifacts;
  attempts = c.attempts ++ sub.attempts;
  capability_outcomes = c.capability_outcomes ++ sub.capability_outcomes;
  policy_decisions = c.policy_decisions ++ sub.policy_decisions;
  diagnostics = c.diagnostics ++ sub.diagnostics;
}

-- The budget of one page of a batch
unfoldable pub page_budget : ℕ → ExecutionContext → ResourceBudget
page_budget batch_size c =
    let remaining_bytes = max 1 (c.request.budget.bytes - consumed_budget "bytes" c) in
    let remaining_decompressed =
      max 1 (c.request.budget.decompressed_bytes - consumed_budget "decompressed_bytes" c) in
    record c.request.budget {
      attempts = 1;
      bytes = max 1 (remaining_bytes / max 1 batch_size);
      decompressed_bytes = max 1 (remaining_decompressed / max 1 batch_size);
    }

unfoldable pub page_context : Item → ℕ → ExecutionContext → ExecutionContext
unfolding page_budget
page_context item batch_size c = record {
  request = record c.request {
    target = item.url;
    intent = "retrieve";
    output_requirements = "raw_html" ∷ [];
    budget = page_budget batch_size c;
  };
  resources = [];
  artifacts = [];
  attempts = [];
  capability_outcomes = [];
  policy_decisions = [];
  diagnostics = [];
  accepted = false;
  crawl_report = none;
  sensitive_state = [];
  pending_events = [];
}

-- How the call of the HTTP adapter ends: with the name of the type of an error, and the decisions of
-- one of the policy
pub data FetchEnd : Type 0 where
  fetched : FetchEnd
  policy_blocked : List PolicyDecision → FetchEnd
  failed : String → FetchEnd

-- An item with what fetching it left, and the name of an error's type
pub record Fetched : Type 0 where
  pub item : Item
  pub context : ExecutionContext
  pub error : Option String

abbrev pub after_fetch : Item → ExecutionContext × FetchEnd → Fetched
after_fetch item (sub, fetched) = record { item = item; context = sub; error = none }
after_fetch item (sub, policy_blocked decisions) = record {
  item = item;
  context = record sub { policy_decisions = sub.policy_decisions ++ decisions };
  error = some "PolicyBlockedError";
}
after_fetch item (sub, failed name) = record { item = item; context = sub; error = some name }

-- `_fetch`, where `http` is the HTTP adapter
unfoldable pub fetch :
    (Item → ExecutionContext → ExecutionContext × FetchEnd) → ExecutionContext → ℕ → Item → Fetched
unfolding page_context
fetch http c batch_size item = after_fetch item (http item (page_context item batch_size c))
