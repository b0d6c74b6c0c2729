-- ===== src/Adapters/Discovery/Ends.antt =====
-- src/fetech/adapters/discovery.py: each round keeps the invariant and checks a page, so the crawl ends.
use fetech.Prelude.{
  ℕ, zero, suc, ◌+◌, ◌≤◌, String, ◌≡◌, refl, sym, ap, subst, inl, inr, Bool, true, false, List, [],
  ◌∷◌, ◌++◌, length, drop, arith, Bool-cases,
}
use fetech.Models.Request.{FetchRequest}
use fetech.Executor.Context.{ExecutionContext}
use fetech.Adapters.Discovery.{Item, CrawlLibrary, FetchEnd}
use fetech.Adapters.Discovery.Loop.{
  Crawl, is_nil, take_first, pages_done, remaining_slots, pop_batch, goes_on, round, crawl,
}
use fetech.Adapters.Discovery.Site.{append_assoc}
use fetech.Adapters.Discovery.Bounds.{
  CrawlInv, pages_done-CrawlInv, pages_done-checked, fetch_all, items_of-fetched, length-fetched,
  batch_split, length-take_first, some_taken,
}

append_nil {ℓ} : {A : Type ℓ} (xs : List A) → xs ++ [] ≡ xs
append_nil [] = refl
append_nil (x ∷ xs) = ap (λ l. x ∷ l) (append_nil xs)

module _ (lib : CrawlLibrary) (http : Item → ExecutionContext → ExecutionContext × FetchEnd)
    (root : String) (request : FetchRequest) (maximum_pages batch_size : ℕ) where
  -- The loop's conditions and its round, at these parameters
  abbrev pub continues : Crawl → Bool
  continues c = goes_on lib http (lib.site_host root) maximum_pages batch_size c

  abbrev next_round : Crawl → Crawl
  next_round c = round lib http (lib.site_host root) maximum_pages batch_size c

  abbrev slots : Crawl → ℕ
  slots c = remaining_slots lib http (lib.site_host root) maximum_pages batch_size c

  -- A batch is taken, and nothing of the frontier is lost.
  popped-CrawlInv :
      (n : ℕ) (c : Crawl)
      → CrawlInv lib root request [] c
      → CrawlInv lib root request
          (take_first n c.frontier.items)
          (pop_batch lib http (lib.site_host root) maximum_pages batch_size n c)
  popped-CrawlInv n c v =
      let batch = take_first n c.frontier.items in
      let left = drop n c.frontier.items in
      let t = v.tracked in
      let same : (c.requested ++ batch) ++ left ≡ (c.requested ++ []) ++ c.frontier.items =
        rw
          (
            append_assoc c.requested batch left,
            batch_split n c.frontier.items,
            append_nil c.requested,
          )
          refl in
      record {
        tracked = record {
          on_site = rw same t.on_site;
          distinct = rw same t.distinct;
          all_seen = rw same t.all_seen;
        };
        sums = v.sums;
        reported = v.reported;
        asked = v.asked;
        shallow = v.shallow;
        same_request = v.same_request;
      }

  round-CrawlInv :
      (c : Crawl) → CrawlInv lib root request [] c → CrawlInv lib root request [] (next_round c)
  unfolding round fetch_all
  round-CrawlInv c v =
      let batch = take_first (slots c) c.frontier.items in
      let popped = pop_batch lib http (lib.site_host root) maximum_pages batch_size (slots c) c in
      let results =
        fetch_all lib http root request maximum_pages batch_size c.context (length batch) batch in
      let w =
        subst (λ l. CrawlInv lib root request l popped)
          (sym (
            items_of-fetched lib http root request maximum_pages batch_size c.context (length batch)
              batch))
          (popped-CrawlInv (slots c) c v) in
      subst
        (λ (r : FetchRequest). CrawlInv lib root request [] (
          pages_done lib http (lib.site_host root) maximum_pages batch_size r.budget.crawl_depth
            results popped))
        (sym v.same_request)
        (pages_done-CrawlInv lib http root request maximum_pages batch_size results popped w)

  -- A round checks at least one page and no more than may be checked.
  round-checked :
      (c : Crawl)
      → CrawlInv lib root request [] c
      → continues c ≡ true
      → (c.pages_checked + 1 ≤ (next_round c).pages_checked)
        × ((next_round c).pages_checked ≤ maximum_pages)
  unfolding round fetch_all
  round-checked c v go =
      let items = c.frontier.items in
      let batch = take_first (slots c) items in
      let popped = pop_batch lib http (lib.site_host root) maximum_pages batch_size (slots c) c in
      let results =
        fetch_all lib http root request maximum_pages batch_size c.context (length batch) batch in
      let count : (next_round c).pages_checked ≡ c.pages_checked + length results =
        pages_done-checked lib http root request maximum_pages batch_size
          c.context.request.budget.crawl_depth results popped in
      let size =
        length-fetched lib http root request maximum_pages batch_size c.context (length batch)
          batch in
      let few = length-take_first (slots c) items in
      let nonempty : is_nil items ≡ false = ground arith in
      let room : 1 ≤ slots c = ground arith in
      let some_page = some_taken (slots c) items nonempty room in
      let below : c.pages_checked + slots c ≤ maximum_pages = ground arith in
      (omega (arith, count, size, some_page), omega (arith, count, size, few, below))

  abbrev pub crawled : ℕ → Crawl → Crawl
  crawled fuel c = crawl lib http (lib.site_host root) maximum_pages batch_size fuel c

  crawl-on :
      (fuel : ℕ) (c : Crawl)
      → continues c ≡ true
      → crawled (suc fuel) c ≡ crawled fuel (next_round c)
  unfolding crawl
  crawl-on fuel c e = ap (λ b. elim b [ true ↦ crawled fuel (next_round c) | false ↦ c ]) e

  crawl-off : (fuel : ℕ) (c : Crawl) → continues c ≡ false → crawled (suc fuel) c ≡ c
  unfolding crawl
  crawl-off fuel c e = ap (λ b. elim b [ true ↦ crawled fuel (next_round c) | false ↦ c ]) e

  pub crawl-CrawlInv :
      (fuel : ℕ) (c : Crawl)
      → CrawlInv lib root request [] c
      → CrawlInv lib root request []
          (crawl lib http (lib.site_host root) maximum_pages batch_size fuel c)
  unfolding crawl
  crawl-CrawlInv zero c v = v
  crawl-CrawlInv (suc fuel) c v = elim (Bool-cases (continues c)) [
    | inl e ↦ rw (crawl-on fuel c e) (crawl-CrawlInv fuel (next_round c) (round-CrawlInv c v))
    | inr e ↦ rw (crawl-off fuel c e) v
  ]

  -- No more pages are checked than may be, or than there were at the start.
  pub crawl-few :
      (fuel bound : ℕ) (c : Crawl)
      → CrawlInv lib root request [] c
      → maximum_pages ≤ bound
      → c.pages_checked ≤ bound
      → (crawl lib http (lib.site_host root) maximum_pages batch_size fuel c).pages_checked ≤ bound
  unfolding crawl
  crawl-few zero bound c v m h = h
  crawl-few (suc fuel) bound c v m h = elim (Bool-cases (continues c)) [
    | inl e ↦
        let (_, few) = round-checked c v e in
        rw (crawl-on fuel c e)
          (crawl-few fuel bound (next_round c) (round-CrawlInv c v) m (omega (arith, few)))
    | inr e ↦ rw (crawl-off fuel c e) h
  ]

  -- With fuel for the pages that may still be checked, the loop ends by its own conditions.
  pub crawl-ends :
      (fuel : ℕ) (c : Crawl)
      → CrawlInv lib root request [] c
      → maximum_pages ≤ fuel + c.pages_checked
      → continues (crawl lib http (lib.site_host root) maximum_pages batch_size fuel c) ≡ false
  unfolding crawl
  crawl-ends zero c v enough = ground arith
  crawl-ends (suc fuel) c v enough = elim (Bool-cases (continues c)) [
    | inl e ↦
        let (more, _) = round-checked c v e in
        rw (crawl-on fuel c e)
          (crawl-ends fuel (next_round c) (round-CrawlInv c v) (omega (arith, more)))
    | inr e ↦ rw (crawl-off fuel c e) e
  ]
