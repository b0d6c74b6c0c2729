-- ===== src/Security/Url/Redact.antt =====
-- src/fetech/security.py: what `sanitize_url` leaves of a URL.
use fetech.Prelude.{
  String, ◌≡◌, refl, ◌⊎◌, inl, inr, Bool, false, ◌||◌, List, [], ◌∷◌, map, elem, All, arith,
  Bool-cases,
}
use fetech.Prelude.Text.{lower}
use fetech.Prelude.Answer.{give, gives}
use fetech.Security.Url.{
  SplitUrl, UrlLibrary, read_port, redact_pair, sensitive_query_keys, sanitize_url,
}

-- A value that is shown stands under a key that is not sensitive.
pub Redacted : Bool → String × String → Type 0
Redacted redact_query (key, value) =
    ((redact_query ≡ false) × (elem (lower key) sensitive_query_keys ≡ false))
    ⊎ (value ≡ "[REDACTED]")

redact_pair-Redacted : (b : Bool) (p : String × String) → Redacted b (redact_pair b p)
unfolding Redacted
redact_pair-Redacted b (key, value) =
    elim (Bool-cases (b || elem (lower key) sensitive_query_keys)) [
      | inl e ↦ inr (rw e refl)
      | inr e ↦ inl (ground arith)
    ]

map-redact_pair-All :
    (b : Bool) (ps : List (String × String)) → All (Redacted b) (map (redact_pair b) ps)
map-redact_pair-All b [] = tt
map-redact_pair-All b (p ∷ ps) = (redact_pair-Redacted b p, map-redact_pair-All b ps)

keys_kept :
    (b : Bool) (ps : List (String × String))
    → map (λ p. p.0) (map (redact_pair b) ps) ≡ map (λ p. p.0) ps
keys_kept b [] = refl
keys_kept b ((key, value) ∷ ps) = rw (keys_kept b ps) refl

-- What may be shown of a URL `parts`.
pub record IsSanitized (lib : UrlLibrary) (redact_query : Bool) (parts shown : SplitUrl)
    : Type 0 where
  pub no_credentials : (shown.username ≡ "") × (shown.password ≡ "")
  pub no_fragment : shown.fragment ≡ ""
  pub same_place :
      (shown.scheme ≡ parts.scheme) × (shown.hostname ≡ parts.hostname) × (shown.path ≡ parts.path)
  pub pairs : List (String × String)
  pub encoded : shown.query ≡ lib.urlencode pairs
  pub redacted : All (Redacted redact_query) pairs
  pub same_keys : map (λ p. p.0) pairs ≡ map (λ p. p.0) (lib.parse_qsl false parts.query)

-- What `sanitize_url` gives has no credentials and no fragment, and the scheme, host and path of the
-- URL. Its query encodes the keys of the URL's query in their order, and each value is "[REDACTED]"
-- but those under keys that are not sensitive, if the query is not redacted as a whole.
pub sanitize_url-IsSanitized :
    (lib : UrlLibrary) (redact_query : Bool) (parts shown : SplitUrl)
    → sanitize_url lib redact_query parts ≡ give shown
    → IsSanitized lib redact_query parts shown
unfolding sanitize_url
sanitize_url-IsSanitized lib redact_query parts shown h =
    let ps = lib.parse_qsl false parts.query in
    let (n, _, k) = gives (read_port parts.port) _ shown h in
    record {
      no_credentials = (cc, cc);
      no_fragment = cc;
      same_place = (cc, cc, cc);
      pairs = map (redact_pair redact_query) ps;
      encoded = cc;
      redacted = map-redact_pair-All redact_query ps;
      same_keys = keys_kept redact_query ps;
    }
