-- ===== src/Adapters/Discovery/Site.antt =====
-- src/fetech/adapters/discovery.py: the frontier stays on the site, within the depth, and meets no
-- URL twice.
use fetech.Prelude.{
  ℕ, ◌+◌, ◌-◌, ◌≤◌, String, ◌≡◌, refl, sym, ap, subst, inl, inr, ◌=s=◌, =s=→eq, Bool, true, false,
  ◌||◌, Option, none, some, List, [], ◌∷◌, ◌++◌, map, elem, All, All-append, All-map, arith, ltb,
  Bool-cases, Option-cases, eq_iff,
}
use fetech.Models.Record.{Artifact}
use fetech.Adapters.Discovery.{
  Item, Page, html, sitemap, unread, CrawlLibrary, Frontier, count, bit, enqueue, count_link,
  discover_links, discover_location, discover_locations, discover_page, discover_from,
}

unfoldable pub DistinctTexts : List String → Type 0
DistinctTexts [] = Unit
DistinctTexts (u ∷ us) = (elem u us ≡ false) × DistinctTexts us

abbrev pub urls : List Item → List String
urls items = map (λ i. i.url) items

-- An item of the site, within the depth
abbrev pub OnSite : CrawlLibrary → String → ℕ → Item → Type 0
OnSite lib root_host maximum_depth i = (lib.site_host i.url ≡ root_host) × (i.depth ≤ maximum_depth)

-- The items met so far, the first of them taken from the frontier before: all are on the site, all
-- have been seen, and no URL, the root's included, stands there twice.
pub record Tracked (lib : CrawlLibrary) (root : String) (maximum_depth : ℕ) (before : List Item)
    (f : Frontier) : Type 0 where
  pub on_site : All (OnSite lib (lib.site_host root) maximum_depth) (before ++ f.items)
  pub distinct : DistinctTexts (root ∷ urls (before ++ f.items))
  pub all_seen : All (λ u. elem u f.seen ≡ true) (root ∷ urls (before ++ f.items))

pub append_assoc {ℓ} : {A : Type ℓ} (xs ys zs : List A) → (xs ++ ys) ++ zs ≡ xs ++ (ys ++ zs)
append_assoc [] ys zs = refl
append_assoc (x ∷ xs) ys zs = ap (λ l. x ∷ l) (append_assoc xs ys zs)

urls-append : (xs ys : List Item) → urls (xs ++ ys) ≡ urls xs ++ urls ys
urls-append [] ys = refl
urls-append (x ∷ xs) ys = ap (λ l. x.url ∷ l) (urls-append xs ys)

elem-append : (u : String) (xs ys : List String) → elem u (xs ++ ys) ≡ (elem u xs || elem u ys)
elem-append u [] ys = refl
elem-append u (x ∷ xs) ys = ground (arith, elem-append u xs ys)

DistinctTexts-snoc :
    (us : List String) (u : String)
    → DistinctTexts us
    → elem u us ≡ false
    → DistinctTexts (us ++ u ∷ [])
unfolding DistinctTexts
DistinctTexts-snoc [] u d h = (refl, tt)
DistinctTexts-snoc (x ∷ us) u d h = (
  ground (arith, elem-append x us (u ∷ []), eq_iff x u, eq_iff u x),
  DistinctTexts-snoc us u d.1 (ground arith),
)

-- What has not been seen stands nowhere among what has.
unseen :
    (us seen : List String) (c : String)
    → All (λ u. elem u seen ≡ true) us
    → elem c seen ≡ false
    → elem c us ≡ false
unseen [] seen c h n = refl
unseen (u ∷ us) seen c h n = elim (Bool-cases (u =s= c)) [
  | inl e ↦
      let there : elem c seen ≡ true = subst (λ x. elem x seen ≡ true) (=s=→eq u c e) h.0 in
      absurd (ground arith)
  | inr e ↦ ground (arith, unseen us seen c h.1 n)
]

seen-more :
    (us seen : List String) (c : String)
    → All (λ u. elem u seen ≡ true) us
    → All (λ u. elem u (c ∷ seen) ≡ true) us
seen-more us seen c h =
    All-map (λ u. elem u seen ≡ true) (λ u. elem u (c ∷ seen) ≡ true) (λ u e. ground arith) us h

-- A new item of the site at the end
Tracked-snoc :
    (lib : CrawlLibrary) (root : String) (maximum_depth : ℕ) (before : List Item) (f : Frontier)
    (i : Item)
    → Tracked lib root maximum_depth before f
    → OnSite lib (lib.site_host root) maximum_depth i
    → elem i.url f.seen ≡ false
    → Tracked lib root maximum_depth before
        (record f { seen = i.url ∷ f.seen; items = f.items ++ i ∷ [] })
unfolding DistinctTexts
Tracked-snoc lib root maximum_depth before f i t on new =
    let all = before ++ f.items in
    let same : before ++ (f.items ++ i ∷ []) ≡ all ++ i ∷ [] =
      sym (append_assoc before f.items (i ∷ [])) in
    let same_urls : urls (before ++ (f.items ++ i ∷ [])) ≡ urls all ++ i.url ∷ [] =
      rw same (urls-append all (i ∷ [])) in
    let old = root ∷ urls all in
    record {
      on_site = rw same (
          All-append (OnSite lib (lib.site_host root) maximum_depth) all (i ∷ []) t.on_site
            (on, tt));
      distinct =
          subst (λ l. DistinctTexts (root ∷ l)) (sym same_urls)
            (DistinctTexts-snoc old i.url t.distinct (unseen old f.seen i.url t.all_seen new));
      all_seen =
          subst (λ l. All (λ u. elem u (i.url ∷ f.seen) ≡ true) (root ∷ l)) (sym same_urls)
            (All-append (λ u. elem u (i.url ∷ f.seen) ≡ true) old (i.url ∷ [])
              (seen-more old f.seen i.url t.all_seen) (ground (arith, eq_iff i.url i.url), tt));
    }

module _ (lib : CrawlLibrary) (root : String) (maximum_depth : ℕ) (before : List Item) where
  pub count-Tracked :
      (name : String) (n : ℕ) (f : Frontier)
      → Tracked lib root maximum_depth before f
      → Tracked lib root maximum_depth before (count name n f)
  count-Tracked name n f t = record {
    on_site = t.on_site;
    distinct = t.distinct;
    all_seen = t.all_seen;
  }

  pub enqueue-Tracked :
      (item : Item) (f : Frontier)
      → Tracked lib root maximum_depth before f
      → Tracked lib root maximum_depth before
          (enqueue lib (lib.site_host root) maximum_depth item f).1
  unfolding enqueue
  enqueue-Tracked item f t = elim (Option-cases (lib.normalize item.url)) [
    | inl e ↦ rw e t
    | inr (candidate, e) ↦ rw e (elim (Bool-cases (elem candidate f.seen)) [
      | inl s ↦ rw s t
      | inr s ↦ rw s (elim (Bool-cases (ltb maximum_depth item.depth)) [
        | inl d ↦ rw d (count-Tracked "depth_blocked" 1 f t)
        | inr d ↦ rw d (elim (Bool-cases (lib.site_host candidate =s= lib.site_host root)) [
          | inl h ↦ rw h (
              Tracked-snoc lib root maximum_depth before f (record item { url = candidate }) t
                (=s=→eq (lib.site_host candidate) (lib.site_host root) h, ground arith) s)
          | inr h ↦ rw h (count-Tracked "domain_blocked" 1 f t)
        ])
      ])
    ])
  ]

  count_link-Tracked :
      (candidate relation : String) (r : Bool × Frontier)
      → Tracked lib root maximum_depth before r.1
      → Tracked lib root maximum_depth before
          (count_link lib (lib.site_host root) maximum_depth candidate relation r)
  count_link-Tracked candidate relation (false, f) t = t
  count_link-Tracked candidate relation (true, f) t =
      count-Tracked "variants" (lib.variant_count candidate - 1) (count relation 1 f)
        (count-Tracked relation 1 f t)

  discover_links-Tracked :
      (page_url : String) (depth : ℕ) (links : List (String × String)) (f : Frontier)
      → Tracked lib root maximum_depth before f
      → Tracked lib root maximum_depth before
          (discover_links lib (lib.site_host root) maximum_depth page_url depth links f)
  unfolding discover_links
  discover_links-Tracked page_url depth [] f t = t
  discover_links-Tracked page_url depth ((candidate, relation) ∷ links) f t =
      let item : Item = record {
        url = candidate;
        depth = depth + 1;
        parent_url = some page_url;
        relation = relation;
      } in
      let r = enqueue lib (lib.site_host root) maximum_depth item f in
      discover_links-Tracked page_url depth links
        (count_link lib (lib.site_host root) maximum_depth candidate relation r)
        (count_link-Tracked candidate relation r (enqueue-Tracked item f t))

  discover_location-Tracked :
      (page_url : String) (depth : ℕ) (o : Option String) (f : Frontier)
      → Tracked lib root maximum_depth before f
      → Tracked lib root maximum_depth before
          (discover_location lib (lib.site_host root) maximum_depth page_url depth o f)
  discover_location-Tracked page_url depth none f t = t
  discover_location-Tracked page_url depth (some candidate) f t =
      let item : Item = record {
        url = candidate;
        depth = depth + 1;
        parent_url = some page_url;
        relation = "sitemap";
      } in
      let r = enqueue lib (lib.site_host root) maximum_depth item f in
      count-Tracked "sitemap" (bit r.0) r.1 (enqueue-Tracked item f t)

  discover_locations-Tracked :
      (page_url : String) (depth : ℕ) (locations : List String) (f : Frontier)
      → Tracked lib root maximum_depth before f
      → Tracked lib root maximum_depth before
          (discover_locations lib (lib.site_host root) maximum_depth page_url depth locations f)
  unfolding discover_locations
  discover_locations-Tracked page_url depth [] f t = t
  discover_locations-Tracked page_url depth (l ∷ locations) f t =
      let o = lib.normalize (lib.join page_url l) in
      discover_locations-Tracked page_url depth locations
        (discover_location lib (lib.site_host root) maximum_depth page_url depth o f)
        (discover_location-Tracked page_url depth o f t)

  discover_page-Tracked :
      (page_url : String) (depth : ℕ) (page : Page) (f : Frontier)
      → Tracked lib root maximum_depth before f
      → Tracked lib root maximum_depth before
          (discover_page lib (lib.site_host root) maximum_depth page_url depth page f)
  discover_page-Tracked page_url depth (html links) f t =
      discover_links-Tracked page_url depth links f t
  discover_page-Tracked page_url depth (sitemap locations) f t =
      discover_locations-Tracked page_url depth locations f t
  discover_page-Tracked page_url depth unread f t = t

  pub discover_from-Tracked :
      (page_url : String) (depth : ℕ) (artifact : Option Artifact) (f : Frontier)
      → Tracked lib root maximum_depth before f
      → Tracked lib root maximum_depth before
          (discover_from lib (lib.site_host root) maximum_depth page_url depth artifact f)
  unfolding discover_from
  discover_from-Tracked page_url depth none f t = t
  discover_from-Tracked page_url depth (some artifact) f t =
      discover_page-Tracked page_url depth (lib.page page_url artifact) f t
