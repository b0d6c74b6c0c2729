-- ===== src/Security/Policy/Safe.antt =====
-- src/fetech/security.py: what it means that `SafeURLPolicy.evaluate` lets a target pass.
use fetech.Prelude.{
  ℕ, String, ◌≡◌, refl, subst, ◌=s=◌, true, false, not, ◌&&◌, ◌||◌, Option, some, List, [], ◌∷◌,
  any, All, elem, arith, =s=_refl,
}
use fetech.Prelude.Dict.{Dict, lookup, insert, lookup-insert}
use fetech.Prelude.Text.{ends_with}
use fetech.Prelude.Answer.{Answer, raise, give, passes, gives}
use fetech.Models.Record.{PolicyDecision}
use fetech.Security.Url.{
  Target, SplitUrl, UrlLibrary, normalize_url, read_port, sanitize_url, is_downgrade,
}
use fetech.Security.Policy.{
  Address, is_public_address, DestinationPolicy, Refusal, blocked_hostnames, resolve, member,
  effective_port, destination_checks, port_checks, address_checks, previous_scheme, is_none,
  validated_url, or_url_error, inspect, evaluate, record_addresses, decisions as all_decisions,
}

-- What has been made certain of a destination before its addresses are recorded.
pub record IsSafe (lib : UrlLibrary) (getaddrinfo : String → ℕ → Option (List Address))
    (policy : DestinationPolicy) (target previous_url : Target) (u : SplitUrl)
    (addresses : List Address) : Type 0 where
  pub normalized : normalize_url lib target ≡ give u
  pub previous : String
  pub reads_previous : previous_scheme previous_url ≡ give previous
  pub no_downgrade : is_downgrade previous u.scheme ≡ false
  pub http_allowed : (u.scheme =s= "http" && not policy.allow_public_http) ≡ false
  pub not_local : (elem u.hostname blocked_hostnames || ends_with ".localhost" u.hostname) ≡ false
  pub not_denied : elem u.hostname policy.blocked_threat_hostnames ≡ false
  pub number : Option ℕ
  pub reads_port : or_url_error (read_port u.port) ≡ give number
  pub port_allowed : member (effective_port u.scheme number) policy.allowed_ports ≡ true
  pub resolved : addresses ≡ resolve (getaddrinfo u.hostname (effective_port u.scheme number))
  pub found : is_none addresses ≡ false
  pub all_public : All (λ a. is_public_address a ≡ true) addresses

none_blocked :
    (addresses : List Address)
    → any (λ a. not (is_public_address a)) addresses ≡ false
    → All (λ a. is_public_address a ≡ true) addresses
none_blocked [] h = tt
none_blocked (a ∷ rest) h = (ground arith, none_blocked rest (ground arith))

validated_url-normalized :
    (answer : Answer _ SplitUrl) (u : SplitUrl) → validated_url answer ≡ give u → answer ≡ give u
validated_url-normalized (raise e) u h = absurd (ground arith)
validated_url-normalized (give v) u h = ground arith

module _ (lib : UrlLibrary) (getaddrinfo : String → ℕ → Option (List Address)) where
  lookup-same :
      (k : String) (v : List Address) (d : Dict (List Address)) → lookup k (insert k v d) ≡ some v
  lookup-same k v d = ground (arith, lookup-insert k k v d, =s=_refl k)

  pub inspect-IsSafe :
      (policy : DestinationPolicy) (target previous_url : Target) (u : SplitUrl)
      (addresses : List Address)
      → inspect lib getaddrinfo policy target previous_url ≡ give (u, addresses)
      → IsSafe lib getaddrinfo policy target previous_url u addresses
  unfolding inspect
  inspect-IsSafe policy target previous_url u addresses h =
      let (v, ev, h1) = gives (validated_url (normalize_url lib target)) _ (u, addresses) h in
      let (previous, ep, h2) = gives (previous_scheme previous_url) _ (u, addresses) h1 in
      let ((down, (http, (local, (denied, _)))), h3) =
        passes (destination_checks policy previous v) _ (u, addresses) h2 in
      let (number, en, h4) = gives (or_url_error (read_port v.port)) _ (u, addresses) h3 in
      let port = effective_port v.scheme number in
      let ((allowed, _), h5) = passes (port_checks policy port) _ (u, addresses) h4 in
      let found = resolve (getaddrinfo v.hostname port) in
      let ((some_found, (no_blocked, _)), h6) =
        passes (address_checks found) (give (v, found)) (u, addresses) h5 in
      let same : ◌≡◌ {A = SplitUrl × List Address} (v, found) (u, addresses) = cc in
      subst
        (λ (x : SplitUrl × List Address). IsSafe lib getaddrinfo policy target previous_url x.0 x.1)
        same
        record {
          normalized = validated_url-normalized (normalize_url lib target) v ev;
          previous = previous;
          reads_previous = ep;
          no_downgrade = down;
          http_allowed = http;
          not_local = local;
          not_denied = denied;
          number = number;
          reads_port = en;
          port_allowed = ground arith;
          resolved = refl;
          found = some_found;
          all_public = none_blocked found no_blocked;
        }

  -- When `evaluate` lets a target pass, the URL that it gives is the normalized target, it is no
  -- downgrade from the previous URL, http is not disabled for it, its host is not local and not
  -- denied, its port is allowed, or the port of its scheme if it names none or 0, and the host
  -- resolved to at least one address, all of them public, which are what the policy then holds for
  -- the host. Every decision reported is one that allows.
  pub evaluate-IsSafe :
      (policy : DestinationPolicy) (target previous_url : Target) (validated : Dict (List Address))
      (u : SplitUrl) (decisions : List PolicyDecision)
      → (evaluate lib getaddrinfo policy target previous_url validated).0 ≡ give (u, decisions)
      → (addresses : List Address) × IsSafe lib getaddrinfo policy target previous_url u addresses
        × (lookup u.hostname (evaluate lib getaddrinfo policy target previous_url validated).1
            ≡ some addresses)
        × All (λ d. d.allowed ≡ true) decisions
  unfolding evaluate
  evaluate-IsSafe policy target previous_url validated u decisions h =
      passed (inspect lib getaddrinfo policy target previous_url) refl h
    where
      passed :
          (answer : Answer Refusal (SplitUrl × List Address))
          → inspect lib getaddrinfo policy target previous_url ≡ answer
          → (record_addresses lib getaddrinfo validated answer).0 ≡ give (u, decisions)
          → (addresses : List Address) × IsSafe lib getaddrinfo policy target previous_url u
              addresses
            × (lookup u.hostname (record_addresses lib getaddrinfo validated answer).1
                ≡ some addresses)
            × All (λ d. d.allowed ≡ true) decisions
      passed (raise e) is k = absurd (ground arith)
      passed (give (v, addresses)) is k =
          let (shown, _, k') = gives (or_url_error (sanitize_url lib false v)) _ (u, decisions) k in
          let same : ◌≡◌ {A = SplitUrl × List PolicyDecision}
              (v, all_decisions lib getaddrinfo (lib.urlunsplit shown)) (u, decisions) =
            cc in
          subst
            (λ (x : SplitUrl × List PolicyDecision).
              (held : List Address) × IsSafe lib getaddrinfo policy target previous_url x.0 held
              × (lookup x.0.hostname (insert v.hostname addresses validated) ≡ some held)
              × All (λ d. d.allowed ≡ true) x.1)
            same
            (
              addresses,
              inspect-IsSafe policy target previous_url v addresses is,
              lookup-same v.hostname addresses validated,
              (refl, (refl, (refl, (refl, tt)))),
            )
