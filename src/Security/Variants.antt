-- ===== src/Security/Variants.antt =====
-- src/fetech/variants.py: the alternatives of a URL. A URL is its parts; the network location of a
-- normalized URL is its host and port. The brackets of an IPv6 address, which the code leaves out of
-- a changed host, are no part of the model.
pub mod Upgrade
use Prim.Native.Char.{code}
use fetech.Prelude.{
  ℕ, String, ◌=s=◌, Bool, true, false, not, ◌&&◌, ◌||◌, Option, none, some, List, [], ◌∷◌, ◌++◌,
  map, keep, any, ◌==◌, leb, ltb, if◌then◌else◌, elem, zero, suc,
}
use fetech.Prelude.Dict.{Dict}
use fetech.Prelude.Text.{lower, rstrip, is_empty_text, has_prefix, ends_with, append}
use fetech.Prelude.Answer.{Answer, raise, give, ◌>>=◌}
use fetech.Security.Url.{
  Port, no_port, malformed_port, port, SplitUrl, Target, blank, read_target, UrlError, UrlLibrary,
  normalize_url, is_downgrade,
}

-- TRACKING_KEYS
abbrev pub tracking_keys : List String
tracking_keys = "fbclid" ∷ "gclid" ∷ "mc_cid" ∷ "mc_eid" ∷ []

-- TRACKING_PREFIXES
abbrev pub tracking_prefixes : List String
tracking_prefixes = "utm_" ∷ []

unfoldable pub is_tracking : String → Bool
unfolding lower
is_tracking key =
    elem (lower key) tracking_keys
    || any (λ prefix. has_prefix prefix (lower key)) tracking_prefixes

-- s.removeprefix("www.")
abbrev pub drop_prefix : String → String → String
drop_prefix String.[] s = s
drop_prefix (String.◌∷◌ a p) String.[] = String.[]
drop_prefix (String.◌∷◌ a p) (String.◌∷◌ b s) = drop_prefix p s

abbrev pub without_prefix : String → String → String
without_prefix prefix s = if has_prefix prefix s then drop_prefix prefix s else s

-- f":{parts.port}" if parts.port else ""
abbrev pub kept_if_set : Port → Port
kept_if_set no_port = no_port
kept_if_set malformed_port = no_port
kept_if_set (port n) = if n == 0 then no_port else port n

-- A non-empty text, as in `language and …` and `if region`
abbrev pub given : Option String → Option String
given none = none
given (some s) = if is_empty_text s then none else some s

abbrev pub or_root : String → String
or_root path = if is_empty_text path then "/" else path

-- The equality of two normalized URLs, field by field
abbrev pub same_port : Port → Port → Bool
same_port no_port no_port = true
same_port malformed_port malformed_port = true
same_port (port n) (port m) = n == m
same_port no_port malformed_port = false
same_port no_port (port m) = false
same_port malformed_port no_port = false
same_port malformed_port (port m) = false
same_port (port n) no_port = false
same_port (port n) malformed_port = false

abbrev pub same_url : SplitUrl → SplitUrl → Bool
same_url u v =
    (u.scheme =s= v.scheme && (u.username =s= v.username && u.password =s= v.password))
    && ((u.hostname =s= v.hostname && same_port u.port v.port)
        && (u.path =s= v.path && (u.query =s= v.query && u.fragment =s= v.fragment)))

-- What the library and the settings of a request bring: whether a text is a language tag, the
-- requested language and region, and the canonical URL that a page names
pub record Wishes : Type 0 where
  pub is_language : String → Bool
  pub language : Option String
  pub region : Option String
  pub canonical_url : Target

-- _safe_optional_url
abbrev pub safe_url : Answer UrlError SplitUrl → Option SplitUrl
safe_url (raise e) = none
safe_url (give u) = some u

abbrev pub when : Bool → SplitUrl → Option SplitUrl
when true u = some u
when false u = none

-- `candidate if candidate is None or not _downgrades(original, candidate) else None`
abbrev pub without_downgrade : SplitUrl → Option SplitUrl → Option SplitUrl
without_downgrade u none = none
without_downgrade u (some v) = if is_downgrade u.scheme v.scheme then none else some v

abbrev pub filtered : SplitUrl → Dict (Option SplitUrl) → Dict (Option SplitUrl)
filtered u [] = []
filtered u ((capability, o) ∷ rest) = (capability, without_downgrade u o) ∷ filtered u rest

abbrev pub present : Dict (Option SplitUrl) → List SplitUrl
present [] = []
present ((capability, none) ∷ rest) = present rest
present ((capability, some u) ∷ rest) = u ∷ present rest

-- `dict.fromkeys`: the first of those that are the same stays
abbrev pub insert_first : SplitUrl → List SplitUrl → List SplitUrl
insert_first u vs = u ∷ keep (λ v. not (same_url u v)) vs

unfoldable pub deduplicate : List SplitUrl → List SplitUrl
deduplicate [] = []
deduplicate (u ∷ us) = insert_first u (deduplicate us)

module _ (lib : UrlLibrary) where
  unfoldable pub clean_query_parameters : SplitUrl → SplitUrl
  unfolding is_tracking
  clean_query_parameters u = record u {
    query = lib.urlencode (keep (λ p. not (is_tracking p.0)) (lib.parse_qsl true u.query));
    fragment = "";
  }

  abbrev pub language_variant : SplitUrl → (String → Bool) → Option String → Option SplitUrl
  language_variant u is_language none = none
  language_variant u is_language (some l) = when (is_language l) (record u {
    path =
        append "/" (append (lower l) (if has_prefix "/" u.path then u.path else append "/" u.path));
    fragment = "";
  })

  abbrev pub region_variant : SplitUrl → Option String → Option SplitUrl
  region_variant u none = none
  region_variant u (some r) = some (record u {
    query = lib.urlencode (lib.parse_qsl true u.query ++ ("region", r) ∷ []);
    fragment = "";
  })

  -- `candidates` of `generate_variant_map`, for the normalized URL
  unfoldable pub candidates : SplitUrl → Wishes → Dict (Option SplitUrl)
  unfolding clean_query_parameters lower rstrip normalize_url
  candidates u w =
      let plain : SplitUrl = record u { fragment = "" } in
      let host = u.hostname in
      let bare = without_prefix "www." host in
      let clean = clean_query_parameters u in
      let stripped = rstrip 47 u.path in
      ("http_to_https", when (u.scheme =s= "http") (record plain { scheme = "https" }))
      ∷ ("https_to_http", none)
      ∷ (
        "www_to_non_www",
        when (has_prefix "www." host) (record plain { hostname = bare; port = kept_if_set u.port }),
      )
      ∷ (
        "non_www_to_www",
        when (not (is_empty_text host) && not (has_prefix "www." host))
            (record plain { hostname = append "www." host; port = kept_if_set u.port }),
      )
      ∷ (
        "trailing_slash",
        when (not (ends_with "/" u.path)) (record plain { path = append u.path "/" }),
      )
      ∷ (
        "remove_trailing_slash",
        when (ends_with "/" u.path && not (u.path =s= "/"))
            (record plain { path = or_root stripped }),
      )
      ∷ ("clean_query_parameters", when (not (same_url clean u)) clean)
      ∷ ("canonical_url_variant", safe_url (normalize_url lib w.canonical_url))
      ∷ (
        "mobile_variant",
        when (not (is_empty_text host) && not (has_prefix "m." host))
            (record plain { hostname = append "m." bare; port = kept_if_set u.port }),
      )
      ∷ (
        "amp_variant",
        when (not (ends_with "/amp" stripped)) (record plain { path = append stripped "/amp" }),
      )
      ∷ (
        "print_variant",
        some (record plain {
          query = lib.urlencode (lib.parse_qsl true u.query ++ ("output", "1") ∷ []);
        }),
      )
      ∷ ("language_variant", language_variant u w.is_language (given w.language))
      ∷ ("region_variant", region_variant u (given w.region))
      ∷ []

  unfoldable pub generate_variant_map : Target → Wishes → Answer UrlError (Dict (Option SplitUrl))
  unfolding candidates normalize_url is_downgrade
  generate_variant_map url w = do
    original ← normalize_url lib url
    give (filtered original (candidates original w))

  unfoldable pub generate_variants : Target → Wishes → Answer UrlError (List SplitUrl)
  unfolding generate_variant_map deduplicate normalize_url is_downgrade
  generate_variants url w = do
    original ← normalize_url lib url
    variants ← generate_variant_map (read_target lib (lib.urlunsplit original)) w
    give (
        deduplicate
          (keep (λ u. not (is_downgrade original.scheme u.scheme)) (original ∷ present variants)))
