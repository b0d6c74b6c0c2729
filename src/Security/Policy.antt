-- ===== src/Security/Policy.antt =====
-- src/fetech/security.py: `SafeURLPolicy`. Its state is the addresses that it has validated, under
-- their host. An address is its text and what `ipaddress` says of it.
pub mod Safe
pub mod Validated
use Prim.Native.String.{◌++◌ as append, compare}
use Prim.Native.Nat.{Ordering}
use fetech.Prelude.{
  ℕ, String, ◌=s=◌, Bool, true, false, not, ◌&&◌, ◌||◌, Option, none, some, List, [], ◌∷◌, ◌==◌,
  if◌then◌else◌, elem, any, keep, all,
}
use fetech.Prelude.Dict.{Dict, lookup, insert}
use fetech.Prelude.Text.{lower, rstrip, ends_with}
use fetech.Prelude.Answer.{Answer, raise, give, ◌>>=◌, ◌>>◌, raise_first, raise_if}
use fetech.Models.Record.{PolicyDecision}
use fetech.Executor.Failure.Text.{decimal}
use fetech.Security.Url.{
  Target, blank, unreadable, split, SplitUrl, UrlError, empty_target, unreadable_target,
  scheme_not_accepted, credentials_forbidden, no_hostname, bad_hostname, bad_port, UrlLibrary,
  read_port, sanitize_url, normalize_url, is_downgrade,
}

pub record Address : Type 0 where
  pub text : String
  pub is_global : Bool
  pub is_multicast : Bool
  pub is_unspecified : Bool

abbrev pub is_public_address : Address → Bool
is_public_address a = a.is_global && (not a.is_multicast && not a.is_unspecified)

-- BLOCKED_HOSTNAMES
abbrev pub blocked_hostnames : List String
blocked_hostnames = "localhost" ∷ "localhost.localdomain" ∷ "metadata.google.internal" ∷ []

pub record DestinationPolicy : Type 0 where
  pub allowed_ports : List ℕ
  pub allow_public_http : Bool
  pub blocked_threat_hostnames : List String

-- DEFAULT_ALLOWED_PORTS and the defaults of the fields
abbrev pub default_policy : DestinationPolicy
default_policy = record {
  allowed_ports = 80 ∷ 443 ∷ [];
  allow_public_http = true;
  blocked_threat_hostnames = [];
}

-- A `PolicyBlockedError` with its reason and decisions, or a ValueError of reading a URL.
pub data Refusal : Type 0 where
  policy_blocked : String → List PolicyDecision → Refusal
  url_error : UrlError → Refusal

abbrev pub url_reason : UrlError → String
url_reason empty_target = "target cannot be empty"
url_reason scheme_not_accepted = "only http and https URL targets are accepted"
url_reason credentials_forbidden = "credentials in URLs are forbidden; use authentication_ref"
url_reason no_hostname = "target must include a hostname"
url_reason unreadable_target = "unreadable URL"
url_reason bad_hostname = "host name that cannot be encoded"
url_reason bad_port = "port that is no number of a port"

abbrev pub denial : String → String → Refusal
denial policy_id reason =
    policy_blocked reason
      (record { policy_id = policy_id; allowed = false; reason = reason; destination = none } ∷ [])

abbrev pub allowance : String → String → String → PolicyDecision
allowance destination policy_id reason = record {
  policy_id = policy_id;
  allowed = true;
  reason = reason;
  destination = some destination;
}

abbrev pub member : ℕ → List ℕ → Bool
member n [] = false
member n (m ∷ ms) = (m == n) || member n ms

abbrev pub scheme_port : String → ℕ
scheme_port scheme = if scheme =s= "https" then 443 else 80

-- parts.port or (443 if parts.scheme == "https" else 80)
abbrev pub effective_port : String → Option ℕ → ℕ
effective_port scheme none = scheme_port scheme
effective_port scheme (some n) = if n == 0 then scheme_port scheme else n

abbrev pub insert_sorted : Address → List Address → List Address
insert_sorted a [] = a ∷ []
insert_sorted a (b ∷ bs) =
    let rest = insert_sorted a bs in
    elim (compare a.text b.text) [
      | Ordering.lt ↦ a ∷ b ∷ bs
      | Ordering.eq ↦ b ∷ bs
      | Ordering.gt ↦ b ∷ rest
    ]

-- sorted({…})
abbrev pub sorted_set : List Address → List Address
sorted_set [] = []
sorted_set (a ∷ bs) = insert_sorted a (sorted_set bs)

-- `_resolve`, from the answer of `getaddrinfo`: `none` for a `gaierror`
unfoldable pub resolve : Option (List Address) → List Address
resolve none = []
resolve (some records) = sorted_set records

-- What the code compares of `previous_url`; it is blank where there is none.
abbrev pub previous_scheme : Target → Answer Refusal String
previous_scheme blank = give ""
previous_scheme unreadable = raise (url_error unreadable_target)
previous_scheme (split parts) = give parts.scheme

abbrev pub is_none : {A : Type 0} → List A → Bool
is_none [] = true
is_none (x ∷ xs) = false

-- `try: normalize_url(target)`
abbrev pub validated_url : Answer UrlError SplitUrl → Answer Refusal SplitUrl
validated_url (raise e) = raise (denial "url_validation" (url_reason e))
validated_url (give u) = give u

abbrev pub or_url_error {ℓ} : {A : Type ℓ} → Answer UrlError A → Answer Refusal A
or_url_error (raise e) = raise (url_error e)
or_url_error (give a) = give a

-- The `if … raise` statements before the port is read
abbrev pub destination_checks : DestinationPolicy → String → SplitUrl → List (Bool × Refusal)
destination_checks policy previous u =
    (
      is_downgrade previous u.scheme,
      denial "redirect_security" "HTTPS downgrade redirects are forbidden",
    )
    ∷ (
      u.scheme =s= "http" && not policy.allow_public_http,
      denial "url_validation" "public HTTP is disabled by the selected policy",
    )
    ∷ (
      elem u.hostname blocked_hostnames || ends_with ".localhost" u.hostname,
      denial "ssrf_private_ip_check" "local and metadata hostnames are blocked",
    )
    ∷ (
      elem u.hostname policy.blocked_threat_hostnames,
      denial "malware_phishing_check"
          "destination is present in the configured malware/phishing deny-list",
    )
    ∷ []

abbrev pub port_checks : DestinationPolicy → ℕ → List (Bool × Refusal)
port_checks policy port =
    (
      not (member port policy.allowed_ports),
      denial "ssrf_private_ip_check"
          (append "destination port " (append (decimal port) " is not allowed")),
    )
    ∷ []

-- The `if … raise` statements on what the host resolved to
abbrev pub address_checks : List Address → List (Bool × Refusal)
address_checks addresses =
    (is_none addresses, denial "dns_resolution_check" "hostname did not resolve")
    ∷ (
      any (λ a. not (is_public_address a)) addresses,
      denial "ssrf_private_ip_check" "destination resolved to a non-public address",
    )
    ∷ []

module _ (lib : UrlLibrary) (getaddrinfo : String → ℕ → Option (List Address)) where
  -- The part of `evaluate` that comes before its state changes
  unfoldable pub inspect :
      DestinationPolicy → Target → Target → Answer Refusal (SplitUrl × List Address)
  inspect policy target previous_url = do
    normalized ← validated_url (normalize_url lib target)
    previous ← previous_scheme previous_url
    raise_first (destination_checks policy previous normalized)
    number ← or_url_error (read_port normalized.port)
    let port = effective_port normalized.scheme number
    raise_first (port_checks policy port)
    let addresses = resolve (getaddrinfo normalized.hostname port)
    raise_first (address_checks addresses)
    give (normalized, addresses)

  abbrev pub decisions : String → List PolicyDecision
  decisions destination =
      allowance destination "url_validation" "valid HTTP(S) target"
      ∷ allowance destination "dns_resolution_check" "hostname resolved"
      ∷ allowance destination "ssrf_private_ip_check" "all resolved addresses are public"
      ∷ allowance destination "malware_phishing_check"
          "destination is not in the configured threat deny-list"
      ∷ []

  -- What `evaluate` gives back, and `_validated_addresses` after it
  abbrev pub Evaluated : Type 0
  Evaluated = Answer Refusal (SplitUrl × List PolicyDecision) × Dict (List Address)

  abbrev pub record_addresses :
      Dict (List Address) → Answer Refusal (SplitUrl × List Address) → Evaluated
  record_addresses validated (raise e) = (raise e, validated)
  record_addresses validated (give (normalized, addresses)) = (
    do
      shown ← or_url_error (sanitize_url lib false normalized)
      give (normalized, decisions (lib.urlunsplit shown)),
    insert normalized.hostname addresses validated,
  )

  unfoldable pub evaluate : DestinationPolicy → Target → Target → Dict (List Address) → Evaluated
  unfolding inspect
  evaluate policy target previous_url validated =
      record_addresses validated (inspect policy target previous_url)

abbrev pub or_none : Option (List Address) → List Address
or_none none = []
or_none (some addresses) = addresses

unfoldable pub validated_addresses : String → Dict (List Address) → List Address
validated_addresses host validated = or_none (lookup (rstrip 46 (lower host)) validated)
