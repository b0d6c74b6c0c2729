-- ===== src/Security/Variants/Upgrade.antt =====
-- src/fetech/variants.py: no alternative of a URL is a downgrade, none is there twice, and none that
-- was generated is lost.
use fetech.Prelude.{
  String, ◌=s=◌, =s=→eq, ◌≡◌, refl, ◌∙◌, sym, subst, ◌⊎◌, inl, inr, Bool, true, false, not, ◌&&◌,
  Option, none, some, List, [], ◌∷◌, keep, any, ==→eq, In, All, All-keep, All-map, arith,
  Bool-cases,
}
use fetech.Prelude.Dict.{Dict}
use fetech.Prelude.Answer.{give, gives}
use fetech.Security.Url.{
  Port, no_port, malformed_port, port, SplitUrl, Target, read_target, UrlLibrary, normalize_url,
  is_downgrade,
}
use fetech.Security.Variants.{
  Wishes, same_port, same_url, filtered, generate_variant_map, present, deduplicate,
  generate_variants,
}

same_port-eq : (p q : Port) → same_port p q ≡ true → p ≡ q
same_port-eq no_port no_port h = refl
same_port-eq malformed_port malformed_port h = refl
same_port-eq (port n) (port m) h = let e = ==→eq n m h in cc
same_port-eq no_port malformed_port h = absurd (ground arith)
same_port-eq no_port (port m) h = absurd (ground arith)
same_port-eq malformed_port no_port h = absurd (ground arith)
same_port-eq malformed_port (port m) h = absurd (ground arith)
same_port-eq (port n) no_port h = absurd (ground arith)
same_port-eq (port n) malformed_port h = absurd (ground arith)

both : (a b : Bool) → (a && b) ≡ true → (a ≡ true) × (b ≡ true)
both true b h = (refl, h)
both false b h = absurd (ground arith)

same_url-eq : (u v : SplitUrl) → same_url u v ≡ true → u ≡ v
same_url-eq u v h =
    let (h1, h2) =
      both (u.scheme =s= v.scheme && (u.username =s= v.username && u.password =s= v.password)) _
        h in
    let (h3, h4) = both (u.hostname =s= v.hostname && same_port u.port v.port) _ h2 in
    let (a, h5) = both (u.scheme =s= v.scheme) _ h1 in
    let (b, c) = both (u.username =s= v.username) _ h5 in
    let (d, e) = both (u.hostname =s= v.hostname) _ h3 in
    let (f, h6) = both (u.path =s= v.path) _ h4 in
    let (g, k) = both (u.query =s= v.query) _ h6 in
    λ i. record {
      scheme = =s=→eq u.scheme v.scheme a i;
      username = =s=→eq u.username v.username b i;
      password = =s=→eq u.password v.password c i;
      hostname = =s=→eq u.hostname v.hostname d i;
      port = same_port-eq u.port v.port e i;
      path = =s=→eq u.path v.path f i;
      query = =s=→eq u.query v.query g i;
      fragment = =s=→eq u.fragment v.fragment k i;
    }

-- No two of the URLs are the same.
pub DistinctUrls : List SplitUrl → Type 0
DistinctUrls [] = Unit
DistinctUrls (u ∷ us) = (any (same_url u) us ≡ false) × DistinctUrls us

any-keep :
    (p q : SplitUrl → Bool) (us : List SplitUrl) → any p us ≡ false → any p (keep q us) ≡ false
any-keep p q [] h = refl
any-keep p q (u ∷ us) h = elim (Bool-cases (q u)) [
  | inl e ↦ rw e (ground (arith, any-keep p q us))
  | inr e ↦ rw e (any-keep p q us (ground arith))
]

keep-DistinctUrls :
    (q : SplitUrl → Bool) (us : List SplitUrl) → DistinctUrls us → DistinctUrls (keep q us)
unfolding DistinctUrls
keep-DistinctUrls q [] d = tt
keep-DistinctUrls q (u ∷ us) d = elim (Bool-cases (q u)) [
  | inl e ↦ rw e (any-keep (same_url u) q us d.0, keep-DistinctUrls q us d.1)
  | inr e ↦ rw e (keep-DistinctUrls q us d.1)
]

none_same :
    (u : SplitUrl) (us : List SplitUrl)
    → any (same_url u) (keep (λ v. not (same_url u v)) us) ≡ false
none_same u [] = refl
none_same u (v ∷ us) = elim (Bool-cases (same_url u v)) [
  | inl e ↦ rw e (none_same u us)
  | inr e ↦ rw (e, e) (none_same u us)
]

deduplicate-DistinctUrls : (us : List SplitUrl) → DistinctUrls (deduplicate us)
unfolding DistinctUrls deduplicate
deduplicate-DistinctUrls [] = tt
deduplicate-DistinctUrls (u ∷ us) = (
  none_same u (deduplicate us),
  keep-DistinctUrls (λ v. not (same_url u v)) (deduplicate us) (deduplicate-DistinctUrls us),
)

deduplicate-All : (P : SplitUrl → Type 0) (us : List SplitUrl) → All P us → All P (deduplicate us)
unfolding deduplicate
deduplicate-All P [] h = tt
deduplicate-All P (u ∷ us) h =
    (h.0, All-keep P (λ v. not (same_url u v)) (deduplicate us) (deduplicate-All P us h.1))

In-keep :
    (q : SplitUrl → Bool) (us : List SplitUrl) (c : SplitUrl)
    → In c us
    → q c ≡ true
    → In c (keep q us)
In-keep q [] c i h = absurd i.1
In-keep q (u ∷ us) c (inl is) h = let e : q u ≡ true = rw is h in rw e (inl is)
In-keep q (u ∷ us) c (inr i) h = elim (Bool-cases (q u)) [
  | inl e ↦ rw e (inr (In-keep q us c i h))
  | inr e ↦ rw e (In-keep q us c i h)
]

deduplicate-In : (us : List SplitUrl) (c : SplitUrl) → In c us → In c (deduplicate us)
unfolding deduplicate
deduplicate-In [] c i = absurd i.1
deduplicate-In (u ∷ us) c (inl is) = inl is
deduplicate-In (u ∷ us) c (inr i) = elim (Bool-cases (same_url u c)) [
  | inl e ↦ inl (same_url-eq u c e)
  | inr e ↦
      inr (
        In-keep (λ v. not (same_url u v)) (deduplicate us) c (deduplicate-In us c i) (ground arith))
]

begins_with :
    (o : SplitUrl) (rest : List SplitUrl)
    → deduplicate (o ∷ rest) ≡ o ∷ keep (λ v. not (same_url o v)) (deduplicate rest)
unfolding deduplicate
begins_with o rest = refl

-- No URL is a downgrade of itself.
not_itself : (scheme : String) → is_downgrade scheme scheme ≡ false
unfolding is_downgrade
not_itself scheme = elim (Bool-cases (scheme =s= "https")) [
  | inl e ↦ rw (=s=→eq scheme "https" e) refl
  | inr e ↦ rw e refl
]

keep-All : (p : SplitUrl → Bool) (us : List SplitUrl) → All (λ u. p u ≡ true) (keep p us)
keep-All p [] = tt
keep-All p (u ∷ us) = elim (Bool-cases (p u)) [
  | inl e ↦ rw e (e, keep-All p us)
  | inr e ↦ rw e (keep-All p us)
]

-- What `filtered` leaves is no downgrade.
filtered-kept :
    (u : SplitUrl) (d : Dict (Option SplitUrl))
    → All (λ v. is_downgrade u.scheme v.scheme ≡ false) (present (filtered u d))
filtered-kept u [] = tt
filtered-kept u ((capability, none) ∷ rest) = filtered-kept u rest
filtered-kept u ((capability, some v) ∷ rest) = elim (Bool-cases (is_downgrade u.scheme v.scheme)) [
  | inl e ↦ rw e (filtered-kept u rest)
  | inr e ↦ rw e (e, filtered-kept u rest)
]

-- The alternatives of a URL, as a caller of `generate_variants` sees them
pub record IsUpgrade (lib : UrlLibrary) (url : Target) (w : Wishes) (us : List SplitUrl)
    : Type 0 where
  pub original : SplitUrl
  pub normalized : normalize_url lib url ≡ give original
  pub others : List SplitUrl
  pub original_first : us ≡ original ∷ others
  pub no_downgrade : All (λ u. is_downgrade original.scheme u.scheme ≡ false) us
  pub distinct : DistinctUrls us
  pub variants : Dict (Option SplitUrl)
  pub generated :
      generate_variant_map lib (read_target lib (lib.urlunsplit original)) w ≡ give variants
  pub none_lost :
      All (λ c. (is_downgrade original.scheme c.scheme ≡ true) ⊎ In c us) (present variants)

none_lost_of :
    (original : SplitUrl) (cs : List SplitUrl)
    → All
        (λ c.
          (is_downgrade original.scheme c.scheme ≡ true)
          ⊎ In c (
              deduplicate
                (keep (λ u. not (is_downgrade original.scheme u.scheme)) (original ∷ cs))))
        cs
none_lost_of original cs = each cs (λ c i. i)
  where
    each :
        (ds : List SplitUrl)
        → ((c : SplitUrl) → In c ds → In c cs)
        → All
            (λ c.
              (is_downgrade original.scheme c.scheme ≡ true)
              ⊎ In c (
                  deduplicate
                    (keep (λ u. not (is_downgrade original.scheme u.scheme)) (original ∷ cs))))
            ds
    each [] sub = tt
    each (d ∷ ds) sub = (
      elim (Bool-cases (is_downgrade original.scheme d.scheme)) [
        | inl e ↦ inl e
        | inr e ↦ inr (
            deduplicate-In (keep (λ u. not (is_downgrade original.scheme u.scheme)) (original ∷ cs))
              d
              (In-keep (λ u. not (is_downgrade original.scheme u.scheme)) (original ∷ cs) d
                (inr (sub d (inl refl))) (rw e refl)))
      ],
      each ds (λ c i. sub c (inr i)),
    )

allowed_by_test :
    (u v : SplitUrl)
    → not (is_downgrade u.scheme v.scheme) ≡ true
    → is_downgrade u.scheme v.scheme ≡ false
allowed_by_test u v h = elim (Bool-cases (is_downgrade u.scheme v.scheme)) [
  | inl e ↦ absurd (ground arith)
  | inr e ↦ e
]

module _ (lib : UrlLibrary) where
  -- The alternatives that `generate_variants` gives begin with the normalized URL, none of them leads
  -- from https to http, no two of them are the same, and each candidate that was generated for the
  -- normalized URL and is no downgrade is among them.
  pub generate_variants-IsUpgrade :
      (url : Target) (w : Wishes) (us : List SplitUrl)
      → generate_variants lib url w ≡ give us
      → IsUpgrade lib url w us
  unfolding generate_variants
  generate_variants-IsUpgrade url w us h =
      let (original, en, h1) = gives (normalize_url lib url) _ us h in
      let (variants, ev, h2) =
        gives (generate_variant_map lib (read_target lib (lib.urlunsplit original)) w) _ us h1 in
      let p = λ (u : SplitUrl). not (is_downgrade original.scheme u.scheme) in
      let kept = keep p (original ∷ present variants) in
      let same : deduplicate kept ≡ us = cc in
      let first : kept ≡ original ∷ keep p (present variants) =
        rw (not_itself original.scheme) refl in
      let allowed =
        All-map (λ u. p u ≡ true) (λ u. is_downgrade original.scheme u.scheme ≡ false)
          (λ u e. allowed_by_test original u e) kept (keep-All p (original ∷ present variants)) in
      record {
        original = original;
        normalized = en;
        others = keep (λ v. not (same_url original v)) (deduplicate (keep p (present variants)));
        original_first = sym same ∙ begins original kept (keep p (present variants)) first;
        no_downgrade =
            subst (All (λ u. is_downgrade original.scheme u.scheme ≡ false)) same
              (deduplicate-All (λ u. is_downgrade original.scheme u.scheme ≡ false) kept allowed);
        distinct = subst DistinctUrls same (deduplicate-DistinctUrls kept);
        variants = variants;
        generated = ev;
        none_lost =
            subst
              (λ l.
                All (λ c. (is_downgrade original.scheme c.scheme ≡ true) ⊎ In c l)
                  (present variants))
              same (none_lost_of original (present variants));
      }
    where
      begins :
          (o : SplitUrl) (kept rest : List SplitUrl)
          → kept ≡ o ∷ rest
          → deduplicate kept ≡ o ∷ keep (λ v. not (same_url o v)) (deduplicate rest)
      begins o kept rest e = rw e (begins_with o rest)
