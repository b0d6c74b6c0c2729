-- ===== src/Adapters/Discovery/Bounds.antt =====
-- src/fetech/adapters/discovery.py: what the loop of a crawl keeps to, and that it ends.
use fetech.Prelude.{
  ℕ, zero, suc, ◌+◌, ◌≤◌, String, ◌≡◌, refl, sym, ap, subst, inl, inr, true, false, none, some,
  List, [], ◌∷◌, ◌++◌, map, length, drop, length-append, All, arith, Bool-cases,
}
use fetech.Models.Request.{FetchRequest}
use fetech.Executor.Context.{ExecutionContext, latest_artifact}
use fetech.Adapters.Discovery.{
  Item, CrawlLibrary, merge_context, FetchEnd, fetched, policy_blocked, failed, Fetched,
  after_fetch, fetch, page_context,
}
use fetech.Adapters.Discovery.Loop.{
  Crawl, or_empty, is_nil, is_failure, take_first, accepts, target, page_done, pages_done,
}
use fetech.Adapters.Discovery.Site.{OnSite, Tracked, append_assoc, discover_from-Tracked}

All-front {ℓ κ} : {A : Type ℓ} (P : A → Type κ) (xs ys : List A) → All P (xs ++ ys) → All P xs
All-front P [] ys h = tt
All-front P (x ∷ xs) ys h = (h.0, All-front P xs ys h.1)

All-middle {ℓ κ} :
    {A : Type ℓ} (P : A → Type κ) (xs : List A) (y : A) (ys : List A) → All P (xs ++ y ∷ ys) → P y
All-middle P [] y ys h = h.0
All-middle P (x ∷ xs) y ys h = All-middle P xs y ys h.1

-- The variables of the loop, with the items of the batch whose results are still to be looked at
pub record CrawlInv (lib : CrawlLibrary) (root : String) (request : FetchRequest)
    (waiting : List Item) (c : Crawl) : Type 0 where
  pub tracked : Tracked lib root request.budget.crawl_depth (c.requested ++ waiting) c.frontier
  pub sums : c.pages_fetched + c.pages_failed ≡ c.pages_checked
  pub reported : length c.targets ≡ c.pages_checked
  pub asked : length c.requested + 1 ≡ c.pages_checked
  pub shallow : c.depth_reached ≤ request.budget.crawl_depth
  pub same_request : c.context.request ≡ request

pub items_of : List Fetched → List Item
items_of [] = []
items_of (r ∷ results) = r.item ∷ items_of results

module _ (lib : CrawlLibrary) (http : Item → ExecutionContext → ExecutionContext × FetchEnd)
    (root : String) (request : FetchRequest) (maximum_pages batch_size : ℕ) where
  abbrev pub depth_limit : ℕ
  depth_limit = request.budget.crawl_depth

  page_done-CrawlInv :
      (r : Fetched) (waiting : List Item) (c : Crawl)
      → CrawlInv lib root request (r.item ∷ waiting) c
      → CrawlInv lib root request waiting
          (page_done lib http (lib.site_host root) maximum_pages batch_size depth_limit r c)
  unfolding page_done merge_context
  page_done-CrawlInv r waiting c v =
      let t =
        subst (λ l. Tracked lib root depth_limit l c.frontier)
          (sym (append_assoc c.requested (r.item ∷ []) waiting)) v.tracked in
      let on = OnSite lib (lib.site_host root) depth_limit in
      let near =
        All-middle on c.requested r.item waiting
          (All-front on (c.requested ++ r.item ∷ waiting) c.frontier.items v.tracked.on_site) in
      let more = length-append c.requested (r.item ∷ []) in
      elim (Bool-cases (is_failure r.error (is_nil r.context.resources))) [
        | inl e ↦ rw e record {
          tracked = t;
          sums = omega (arith, v.sums);
          reported = omega (
            arith,
            v.reported,
            length-append c.targets (
                target lib http (lib.site_host root) maximum_pages batch_size r.item false false
                  (some (or_empty r.error))
                ∷ []),
          );
          asked = omega (arith, v.asked, more);
          shallow = omega (arith, v.shallow, near.1);
          same_request = v.same_request;
        }
        | inr e ↦ rw e record {
          tracked =
              discover_from-Tracked lib root depth_limit ((c.requested ++ r.item ∷ []) ++ waiting)
                r.item.url r.item.depth (latest_artifact ("raw" ∷ []) r.context) c.frontier t;
          sums = omega (arith, v.sums);
          reported = omega (
            arith,
            v.reported,
            length-append c.targets (
                target lib http (lib.site_host root) maximum_pages batch_size r.item true
                  (accepts lib (latest_artifact ("raw" ∷ []) r.context)) none
                ∷ []),
          );
          asked = omega (arith, v.asked, more);
          shallow = omega (arith, v.shallow, near.1);
          same_request = v.same_request;
        }
      ]

  pub pages_done-CrawlInv :
      (results : List Fetched) (c : Crawl)
      → CrawlInv lib root request (items_of results) c
      → CrawlInv lib root request []
          (pages_done lib http (lib.site_host root) maximum_pages batch_size depth_limit results c)
  unfolding pages_done items_of
  pages_done-CrawlInv [] c v = v
  pages_done-CrawlInv (r ∷ results) c v =
      pages_done-CrawlInv results
        (page_done lib http (lib.site_host root) maximum_pages batch_size depth_limit r c)
        (page_done-CrawlInv r (items_of results) c v)

  page_done-checked :
      (d : ℕ) (r : Fetched) (c : Crawl)
      → (page_done lib http (lib.site_host root) maximum_pages batch_size d r c).pages_checked
        ≡ c.pages_checked + 1
  unfolding page_done
  page_done-checked d r c = elim (Bool-cases (is_failure r.error (is_nil r.context.resources))) [
    | inl e ↦ rw e refl
    | inr e ↦ rw e refl
  ]

  pub pages_done-checked :
      (d : ℕ) (results : List Fetched) (c : Crawl)
      → (pages_done lib http
          (lib.site_host root)
          maximum_pages
          batch_size
          d
          results
          c).pages_checked
        ≡ c.pages_checked + length results
  unfolding pages_done
  pages_done-checked d [] c = omega arith
  pages_done-checked d (r ∷ results) c = omega (
    arith,
    pages_done-checked d results
        (page_done lib http (lib.site_host root) maximum_pages batch_size d r c),
    page_done-checked d r c,
  )

  unfoldable pub fetch_all : ExecutionContext → ℕ → List Item → List Fetched
  fetch_all c n items = map (fetch http c n) items

  after_fetch-item : (i : Item) (e : ExecutionContext × FetchEnd) → (after_fetch i e).item ≡ i
  after_fetch-item i (sub, fetched) = refl
  after_fetch-item i (sub, policy_blocked ds) = refl
  after_fetch-item i (sub, failed name) = refl

  pub items_of-fetched :
      (c : ExecutionContext) (n : ℕ) (items : List Item) → items_of (fetch_all c n items) ≡ items
  unfolding items_of fetch_all fetch
  items_of-fetched c n [] = refl
  items_of-fetched c n (i ∷ items) =
      rw (after_fetch-item i (http i (page_context i n c)), items_of-fetched c n items) refl

  pub length-fetched :
      (c : ExecutionContext) (n : ℕ) (items : List Item)
      → length (fetch_all c n items) ≡ length items
  unfolding fetch_all
  length-fetched c n [] = refl
  length-fetched c n (i ∷ items) = ap suc (length-fetched c n items)

pub batch_split : (n : ℕ) (items : List Item) → take_first n items ++ drop n items ≡ items
batch_split zero items = refl
batch_split (suc n) [] = refl
batch_split (suc n) (i ∷ items) = ap (λ l. i ∷ l) (batch_split n items)

pub length-take_first : (n : ℕ) (items : List Item) → length (take_first n items) ≤ n
length-take_first zero items = omega arith
length-take_first (suc n) [] = omega arith
length-take_first (suc n) (i ∷ items) = omega (arith, length-take_first n items)

pub some_taken :
    (n : ℕ) (items : List Item) → is_nil items ≡ false → 1 ≤ n → 1 ≤ length (take_first n items)
some_taken n [] h k = absurd (ground arith)
some_taken zero (i ∷ items) h k = absurd (omega arith)
some_taken (suc n) (i ∷ items) h k = omega arith
