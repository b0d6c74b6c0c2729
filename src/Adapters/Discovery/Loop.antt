-- ===== src/Adapters/Discovery/Loop.antt =====
-- src/fetech/adapters/discovery.py: the loop of `execute` on batches of the frontier.
use fetech.Prelude.{
  ℕ, zero, suc, ◌+◌, ◌-◌, min, max, String, ◌=s=◌, Bool, true, false, not, ◌&&◌, Option, none, some,
  List, [], ◌∷◌, ◌++◌, map, length, drop, ltb, ◌==◌, if◌then◌else◌,
}
use fetech.Models.Record.{Artifact}
use fetech.Executor.Context.{ExecutionContext, latest_artifact}
use fetech.Adapters.Discovery.{
  Item, CrawlLibrary, Frontier, discover_from, merge_context, FetchEnd, Fetched, fetch,
}

-- `DiscoveredTarget`
pub record Target : Type 0 where
  pub url : String
  pub depth : ℕ
  pub parent_url : Option String
  pub relation : String
  pub fetched : Bool
  pub accepted : Bool
  pub failure_code : Option String

-- The local variables of the loop. `requested` are the items that were taken from the frontier, in
-- order; the code keeps them in `targets`, with sanitized URLs.
pub record Crawl : Type 0 where
  pub context : ExecutionContext
  pub frontier : Frontier
  pub targets : List Target
  pub pages_checked : ℕ
  pub pages_fetched : ℕ
  pub pages_failed : ℕ
  pub depth_reached : ℕ
  pub requested : List Item

abbrev pub is_nil {ℓ} : {A : Type ℓ} → List A → Bool
is_nil [] = true
is_nil (x ∷ xs) = false

abbrev pub take_first : ℕ → List Item → List Item
take_first zero items = []
take_first (suc n) [] = []
take_first (suc n) (item ∷ items) = item ∷ take_first n items

abbrev pub or_empty : Option String → String
or_empty none = "empty_response"
or_empty (some name) = name

-- Whether `error is not None or not subcontext.resources`
abbrev pub is_failure : Option String → Bool → Bool
is_failure none no_resources = no_resources
is_failure (some name) no_resources = true

-- bool(artifact and artifact.quality.accepted)
abbrev pub accepts : CrawlLibrary → Option Artifact → Bool
accepts lib none = false
accepts lib (some artifact) = lib.is_accepted artifact

module _ (lib : CrawlLibrary) (http : Item → ExecutionContext → ExecutionContext × FetchEnd)
    (root_host : String) (maximum_pages batch_size : ℕ) where
  abbrev pub shown_parent : Option String → Option String
  shown_parent none = none
  shown_parent (some url) = if url =s= "" then none else some (lib.sanitize url)

  abbrev pub target : Item → Bool → Bool → Option String → Target
  target item was_fetched was_accepted failure_code = record {
    url = lib.sanitize item.url;
    depth = item.depth;
    parent_url = shown_parent item.parent_url;
    relation = item.relation;
    fetched = was_fetched;
    accepted = was_accepted;
    failure_code = failure_code;
  }

  -- What each result changes, failed or not
  abbrev pub checked : Fetched → Crawl → Crawl
  checked r c = record c {
    pages_checked = c.pages_checked + 1;
    context = merge_context c.context r.context;
    depth_reached = max c.depth_reached r.item.depth;
    requested = c.requested ++ r.item ∷ [];
  }

  abbrev pub failed_page : Fetched → Crawl → Crawl
  failed_page r c = record c {
    pages_failed = c.pages_failed + 1;
    targets = c.targets ++ target r.item false false (some (or_empty r.error)) ∷ [];
  }

  abbrev pub fetched_page : ℕ → Fetched → Crawl → Crawl
  fetched_page maximum_depth r c =
      let artifact = latest_artifact ("raw" ∷ []) r.context in
      record c {
        pages_fetched = c.pages_fetched + 1;
        targets = c.targets ++ target r.item true (accepts lib artifact) none ∷ [];
        frontier =
            discover_from lib root_host maximum_depth r.item.url r.item.depth artifact c.frontier;
      }

  -- The body of `for item, subcontext, error in results`
  unfoldable pub page_done : ℕ → Fetched → Crawl → Crawl
  page_done maximum_depth r c =
      if is_failure r.error (is_nil r.context.resources)
      then failed_page r (checked r c)
      else fetched_page maximum_depth r (checked r c)

  unfoldable pub pages_done : ℕ → List Fetched → Crawl → Crawl
  unfolding page_done
  pages_done maximum_depth [] c = c
  pages_done maximum_depth (r ∷ results) c =
      pages_done maximum_depth results (page_done maximum_depth r c)

  -- `remaining_slots`; it is not negative here, and 0 where the code's is 0 or less
  abbrev pub remaining_slots : Crawl → ℕ
  remaining_slots c =
      min (min batch_size (maximum_pages - c.pages_checked))
        (c.context.request.budget.attempts - length c.context.attempts)

  -- The frontier without the items of a batch
  abbrev pub pop_batch : ℕ → Crawl → Crawl
  pop_batch n c = record c { frontier = record c.frontier { items = drop n c.frontier.items } }

  -- The conditions of the `while` loop and of its `break`
  abbrev pub goes_on : Crawl → Bool
  goes_on c =
      (not (is_nil c.frontier.items) && ltb c.pages_checked maximum_pages)
      && not (remaining_slots c == 0)

  -- One round of the loop: a batch is fetched, in the order of the frontier
  unfoldable pub round : Crawl → Crawl
  unfolding pages_done
  round c =
      let n = remaining_slots c in
      let batch = take_first n c.frontier.items in
      pages_done c.context.request.budget.crawl_depth
        (map (fetch http c.context (length batch)) batch) (pop_batch n c)

  -- The `while` loop, on fuel
  unfoldable pub crawl : ℕ → Crawl → Crawl
  unfolding round
  crawl zero c = c
  crawl (suc fuel) c = elim (goes_on c) [ true ↦ crawl fuel (round c) | false ↦ c ]
