-- ===== src/Adapters/Discovery/Crawled.antt =====
-- src/fetech/adapters/discovery.py: what a crawl has done when its loop is over.
use fetech.Prelude.{
  ℕ, ◌+◌, max, ◌≤◌, String, ◌≡◌, refl, sym, subst, inl, inr, Bool, false, ◌&&◌, Option, none, some,
  List, [], ◌∷◌, ◌++◌, length, last?, elem, All, arith, Bool-cases, eq_iff,
}
use fetech.Prelude.Answer.{give, passes, gives}
use fetech.Executor.Context.{ExecutionContext, latest_artifact, record_outcome}
use fetech.Adapters.Discovery.{
  Item, CrawlLibrary, Frontier, count, bit, enqueue, discover_from, FetchEnd,
}
use fetech.Adapters.Discovery.Loop.{Crawl, accepts, goes_on, crawl}
use fetech.Adapters.Discovery.Site.{
  OnSite, DistinctTexts, urls, Tracked, count-Tracked, enqueue-Tracked, discover_from-Tracked,
}
use fetech.Adapters.Discovery.Bounds.{CrawlInv}
use fetech.Adapters.Discovery.Ends.{crawl-CrawlInv, crawl-few, crawl-ends}
use fetech.Adapters.Discovery.Report.{
  Search, unconfigured, search_failed, search_results, is_configured, or_invalid, allows_search,
  page_limit, new_counters, with_attempt, count_search, search_items, searched, search_context,
  first_frontier, first_crawl, crawl_checks, execute,
}

-- A crawl of a site when its loop is over
pub record IsCrawled (lib : CrawlLibrary)
    (http : Item → ExecutionContext → ExecutionContext × FetchEnd) (batch_size : ℕ)
    (start : ExecutionContext) (root : String) (s : Crawl) : Type 0 where
  pub few : s.pages_checked ≤ max 1 (page_limit start)
  pub on_site : All (OnSite lib (lib.site_host root) start.request.budget.crawl_depth) s.requested
  pub distinct : DistinctTexts (root ∷ urls s.requested)
  pub all_checked : length s.requested + 1 ≡ s.pages_checked
  pub all_counted : s.pages_fetched + s.pages_failed ≡ s.pages_checked
  pub all_reported : length s.targets ≡ s.pages_checked
  pub shallow : s.depth_reached ≤ start.request.budget.crawl_depth
  pub over : goes_on lib http (lib.site_host root) (page_limit start) batch_size s ≡ false

All-front {κ} : (P : Item → Type κ) (xs ys : List Item) → All P (xs ++ ys) → All P xs
All-front P [] ys h = tt
All-front P (x ∷ xs) ys h = (h.0, All-front P xs ys h.1)

elem-urls :
    (u : String) (xs ys : List Item) → elem u (urls (xs ++ ys)) ≡ false → elem u (urls xs) ≡ false
elem-urls u [] ys h = refl
elem-urls u (x ∷ xs) ys h = ground (arith, elem-urls u xs ys)

DistinctTexts-front :
    (xs ys : List Item) → DistinctTexts (urls (xs ++ ys)) → DistinctTexts (urls xs)
unfolding DistinctTexts
DistinctTexts-front [] ys d = tt
DistinctTexts-front (x ∷ xs) ys d = (elem-urls x.url xs ys d.0, DistinctTexts-front xs ys d.1)

front_distinct :
    (root : String) (xs ys : List Item)
    → DistinctTexts (root ∷ urls (xs ++ ys))
    → DistinctTexts (root ∷ urls xs)
unfolding DistinctTexts
front_distinct root xs ys d = (elem-urls root xs ys d.0, DistinctTexts-front xs ys d.1)

module _ (lib : CrawlLibrary) (root : String) (limit : ℕ) where
  abbrev Kept : Frontier → Type 0
  Kept f = Tracked lib root limit [] f

  search_items-Tracked :
      (found : List String) (f : Frontier) → Kept f → Kept (search_items lib root limit found f)
  unfolding search_items
  search_items-Tracked [] f t = t
  search_items-Tracked (url ∷ found) f t =
      let item : Item = record {
        url = url;
        depth = 1;
        parent_url = some root;
        relation = "search";
      } in
      let r = enqueue lib (lib.site_host root) limit item f in
      search_items-Tracked found (count_search lib root limit r) (
        count-Tracked lib root limit [] "search" (bit r.0) r.1
          (enqueue-Tracked lib root limit [] item f t))

  searched-Tracked :
      (provider : Search) (f : Frontier) → Kept f → Kept (searched lib root limit provider f)
  searched-Tracked (search_results found) f t = search_items-Tracked found f t
  searched-Tracked (search_failed name) f t = t
  searched-Tracked unconfigured f t = t

  first_frontier-Tracked :
      (default_sitemap : String) (provider : Search) (c : ExecutionContext)
      → Kept (first_frontier lib root limit default_sitemap provider c)
  unfolding first_frontier DistinctTexts
  first_frontier-Tracked default_sitemap provider c =
      let f0 : Frontier = record { seen = root ∷ []; items = []; counters = new_counters } in
      let t0 : Kept f0 = record {
        on_site = tt;
        distinct = (refl, tt);
        all_seen = (ground (arith, eq_iff root root), tt);
      } in
      let item : Item = record {
        url = default_sitemap;
        depth = 0;
        parent_url = some root;
        relation = "sitemap";
      } in
      let f1 = (enqueue lib (lib.site_host root) limit item f0).1 in
      let t1 = enqueue-Tracked lib root limit [] item f0 t0 in
      let raw = latest_artifact ("raw" ∷ []) c in
      let f2 = discover_from lib (lib.site_host root) limit root 0 raw f1 in
      let t2 = discover_from-Tracked lib root limit [] root 0 raw f1 t1 in
      elim (Bool-cases (is_configured provider && allows_search c.request)) [
        | inl e ↦ rw e (
            searched-Tracked provider (count "search_configured" 1 f2)
              (count-Tracked lib root limit [] "search_configured" 1 f2 t2))
        | inr e ↦ rw e t2
      ]

  search_context-request :
      (provider : Search) (c : ExecutionContext)
      → (search_context lib root limit provider c).request ≡ c.request
  unfolding record_outcome
  search_context-request unconfigured c = refl
  search_context-request (search_failed name) c = elim (Bool-cases (allows_search c.request)) [
    | inl e ↦ rw e refl
    | inr e ↦ rw e refl
  ]
  search_context-request (search_results found) c = elim (Bool-cases (allows_search c.request)) [
    | inl e ↦ rw e refl
    | inr e ↦ rw e refl
  ]

  first_crawl-CrawlInv :
      (default_sitemap : String) (provider : Search) (accepted : Bool) (c : ExecutionContext)
      → c.request.budget.crawl_depth ≡ limit
      → CrawlInv lib root c.request []
          (first_crawl lib root limit default_sitemap provider accepted c)
  unfolding first_crawl
  first_crawl-CrawlInv default_sitemap provider accepted c is = record {
    tracked =
        subst
          (λ d. Tracked lib root d [] (first_frontier lib root limit default_sitemap provider c))
          (sym is) (first_frontier-Tracked default_sitemap provider c);
    sums = refl;
    reported = refl;
    asked = refl;
    shallow = omega arith;
    same_request = search_context-request provider c;
  }

valid : (o : Option String) (root : String) → or_invalid o ≡ give root → o ≡ some root
valid none root h = absurd (ground arith)
valid (some url) root h = ground arith

module _ (lib : CrawlLibrary) (http : Item → ExecutionContext → ExecutionContext × FetchEnd)
    (batch_size : ℕ) where
  crawl-IsCrawled :
      (root default_sitemap : String) (provider : Search) (accepted : Bool) (c : ExecutionContext)
      → IsCrawled lib http batch_size c root (
          crawl lib http
            (lib.site_host root)
            (page_limit c)
            batch_size
            (page_limit c)
            (first_crawl lib root c.request.budget.crawl_depth default_sitemap provider accepted c))
  unfolding first_crawl
  crawl-IsCrawled root default_sitemap provider accepted c =
      let first =
        first_crawl lib root c.request.budget.crawl_depth default_sitemap provider accepted c in
      let v =
        first_crawl-CrawlInv lib root c.request.budget.crawl_depth default_sitemap provider accepted
          c refl in
      let limit = page_limit c in
      let w = crawl-CrawlInv lib http root c.request limit batch_size limit first v in
      let s = crawl lib http (lib.site_host root) limit batch_size limit first in
      let on = OnSite lib (lib.site_host root) c.request.budget.crawl_depth in
      record {
        few =
            crawl-few lib http root c.request limit batch_size limit (max 1 limit) first v
              (omega arith) (omega arith);
        on_site =
            All-front on s.requested []
              (All-front on (s.requested ++ []) s.frontier.items w.tracked.on_site);
        distinct =
            front_distinct root s.requested []
              (front_distinct root (s.requested ++ []) s.frontier.items w.tracked.distinct);
        all_checked = w.asked;
        all_counted = w.sums;
        all_reported = w.reported;
        shallow = w.shallow;
        over = crawl-ends lib http root c.request limit batch_size limit first v (omega arith);
      }

  -- Whatever the HTTP adapter, the pages and the search give: a crawl ends by the conditions of its
  -- loop, and it has checked no more pages than the limit, the root included. Each page that it
  -- requested is on the root's site and within the depth of the budget, no URL was requested twice and
  -- the root not again, and each page that it checked counts once as fetched or failed and once among
  -- the targets.
  pub execute-IsCrawled :
      (provider : Search) (capability_id : String) (c : ExecutionContext) (s : Crawl)
      → execute lib http batch_size provider capability_id c ≡ give s
      → (root : String) × (lib.normalize c.request.target ≡ some root)
        × IsCrawled lib http batch_size (with_attempt (lib.sanitize c.request.target) c) root s
  unfolding execute
  execute-IsCrawled provider capability_id c s h =
      let c1 = with_attempt (lib.sanitize c.request.target) c in
      let (_, h1) = passes (crawl_checks capability_id c) _ s h in
      let (root, er, h2) = gives (or_invalid (lib.normalize c.request.target)) _ s h1 in
      let (default_sitemap, _, h3) =
        gives (or_invalid (lib.normalize (lib.join root "/sitemap.xml"))) _ s h2 in
      let accepted = accepts lib (last? c.artifacts) in
      let result =
        crawl lib http (lib.site_host root) (page_limit c1) batch_size (page_limit c1) (
          first_crawl lib root c.request.budget.crawl_depth default_sitemap provider accepted c1) in
      let same : result ≡ s = cc in
      (
        root,
        valid (lib.normalize c.request.target) root er,
        subst (IsCrawled lib http batch_size c1 root) same
            (crawl-IsCrawled root default_sitemap provider accepted c1),
      )
