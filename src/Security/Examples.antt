-- ===== src/Security/Examples.antt =====
-- src/fetech/security.py: concrete targets and destinations.
use fetech.Prelude.{
  All, Bool, List, Option, String, [], false, get_elem?, if◌then◌else◌, length, none, refl, some,
  true, ℕ, ◌%◌, ◌+◌, ◌=s=◌, ◌∷◌, ◌≡◌,
}
use fetech.Prelude.Dict.{Dict, insert, lookup}
use fetech.Prelude.Text.{lower, rstrip, is_empty_text}
use fetech.Prelude.Answer.{raise, give}
use fetech.Security.Url.{
  no_port, port, SplitUrl, blank, split, UrlLibrary, normalize_text, sanitize_url, read_port,
  encode_host, normalize_url, is_downgrade, ensure_safe_redirect, https_downgrade, no_hostname,
}
use fetech.Security.Url.Redact.{IsSanitized, sanitize_url-IsSanitized}
use fetech.Security.Variants.{
  Wishes, is_tracking, deduplicate, clean_query_parameters, candidates, generate_variant_map,
  generate_variants,
}
use fetech.Security.Variants.Upgrade.{IsUpgrade, generate_variants-IsUpgrade}
use fetech.Security.Transport.{
  Backend, new_backend, pin, pin_key, connect_tcp, connect_with, or_first,
}
use fetech.Security.Transport.Pinned.{
  Client, Used, fresh, validates, pins, connect_tcp-round_robin, connects_to_public,
}
use fetech.Security.Policy.{
  Address, default_policy, decisions, evaluate, inspect, is_public_address, resolve,
  validated_addresses,
}
use fetech.Security.Policy.Safe.{IsSafe, evaluate-IsSafe}
use fetech.Security.Policy.Validated.{start, evaluated, IsPublic, validated_addresses-IsPublic}

-- A codec that leaves names as they are, but refuses those that are empty or only dots.
abbrev plain_idna : String → Option String
plain_idna h = if is_empty_text (rstrip 46 (lower h)) then none else some h

abbrev one_pair : Bool → String → List (String × String)
one_pair keep_blank query = ("token", query) ∷ ("page", "2") ∷ []

abbrev first_value : List (String × String) → String
first_value [] = ""
first_value ((key, value) ∷ rest) = value

abbrev page : SplitUrl
page = record {
  scheme = "HTTPS";
  username = "";
  password = "";
  hostname = "Example.org.";
  port = port 443;
  path = "";
  query = "abc";
  fragment = "top";
}

abbrev normal_page : SplitUrl
normal_page = record {
  scheme = "https";
  username = "";
  password = "";
  hostname = "example.org";
  port = no_port;
  path = "/";
  query = "abc";
  fragment = "";
}

abbrev library : UrlLibrary
library = record {
  idna = plain_idna;
  parse_qsl = one_pair;
  urlencode = first_value;
  urlsplit = λ s. some (if s =s= "example.org" then normal_page else page);
  urlunsplit = λ u. u.hostname;
}

normal : normalize_url library (split page) ≡ give normal_page
unfolding normalize_url encode_host read_port lower rstrip
normal = refl

nothing_there : normalize_url library (split (record page { hostname = "" })) ≡ raise no_hostname
unfolding normalize_url encode_host read_port lower rstrip
nothing_there = refl

-- A fragment that follows a space leaves the space at the end of the path, where normalizing again
-- takes it away.
abbrev spaced : SplitUrl
spaced = record normal_page { path = "/p "; query = "" }

abbrev trimmed : SplitUrl
trimmed = record spaced { path = "/p" }

abbrev spaced_library : UrlLibrary
spaced_library = record library {
  urlsplit = λ s. some (if s =s= "https://example.org/p" then trimmed else spaced);
  urlunsplit = λ u. if u.path =s= "/p" then "https://example.org/p" else "https://example.org/p ";
}

space_lost :
    (normalize_text spaced_library "https://example.org/p #top" ≡ give "https://example.org/p ")
    × (normalize_text spaced_library "https://example.org/p " ≡ give "https://example.org/p")
unfolding normalize_text normalize_url encode_host read_port lower rstrip
space_lost = (refl, refl)

abbrev shown_page : SplitUrl
shown_page = record page { port = port 443; query = "[REDACTED]"; fragment = "" }

shown : sanitize_url library false page ≡ give shown_page
unfolding sanitize_url read_port lower
shown = refl

sanitize_url-IsSanitized_example : IsSanitized library false page shown_page
sanitize_url-IsSanitized_example = sanitize_url-IsSanitized library false page shown_page shown

downgrade :
    ensure_safe_redirect (split normal_page) (split (record normal_page { scheme = "http" }))
    ≡ raise https_downgrade
unfolding ensure_safe_redirect is_downgrade
downgrade = refl

abbrev public_address : Address
public_address = record {
  text = "93.184.216.34";
  is_global = true;
  is_multicast = false;
  is_unspecified = false;
}

abbrev dns : String → ℕ → Option (List Address)
dns host n = if host =s= "example.org" then some (public_address ∷ public_address ∷ []) else none

passes_page :
    (evaluate library dns default_policy (split page) blank []).0
    ≡ give (normal_page, decisions library dns "example.org")
unfolding evaluate inspect resolve normalize_url encode_host read_port sanitize_url lower rstrip
    is_downgrade
passes_page = refl

evaluate-IsSafe_example :
    (addresses : List Address) × IsSafe library dns default_policy
      (split page)
      blank
      normal_page
      addresses
    × (lookup "example.org" (evaluate library dns default_policy (split page) blank []).1
        ≡ some addresses)
    × All (λ d. d.allowed ≡ true) (decisions library dns "example.org")
evaluate-IsSafe_example =
    evaluate-IsSafe library dns default_policy (split page) blank [] normal_page
      (decisions library dns "example.org") passes_page

validated_addresses-IsPublic_example : IsPublic (
    validated_addresses "example.org" (evaluate library dns default_policy (split page) blank []).1)
validated_addresses-IsPublic_example =
    validated_addresses-IsPublic library default_policy
      (evaluate library dns default_policy (split page) blank []).1 "example.org"
      (evaluated dns (split page) blank [] start)

-- The port 0 is not looked for among the allowed ports.
port_zero :
    (evaluate library dns default_policy (split (record page { port = port 0 })) blank []).0
    ≡ give (record normal_page { port = port 0 }, decisions library dns "example.org")
unfolding evaluate inspect resolve normalize_url encode_host read_port sanitize_url lower rstrip
    is_downgrade
port_zero = refl

abbrev validated : Dict (List Address)
validated = (evaluate library dns default_policy (split page) blank []).1

abbrev pinned : Backend
pinned = record { pins = ("example.org", public_address ∷ []) ∷ []; cursor = [] }

pins_page :
    pin "example.org" (validated_addresses "example.org" validated) new_backend ≡ give pinned
unfolding pin pin_key validated_addresses evaluate inspect resolve normalize_url encode_host
    read_port sanitize_url lower rstrip is_downgrade lookup insert
pins_page = refl

abbrev client : Client
client = record { validated = validated; backend = pinned }

client-Used : Used library default_policy client
client-Used =
    pins "example.org" (record { validated = validated; backend = new_backend }) pinned
      (validates dns (split page) blank (record { validated = []; backend = new_backend }) fresh)
      pins_page

connects_page : (connect_tcp "EXAMPLE.org" pinned).0 ≡ give public_address
unfolding connect_tcp connect_with pin_key lower rstrip lookup
connects_page = refl

connects_to_public_example : is_public_address public_address ≡ true
connects_to_public_example =
    connects_to_public library default_policy client "EXAMPLE.org" public_address client-Used
      connects_page

pinned_page : lookup (pin_key "Example.org") pinned.pins ≡ some (public_address ∷ [])
unfolding pin_key lower rstrip lookup
pinned_page = refl

connect_tcp-round_robin_example :
    (a : Address) × ((connect_tcp "Example.org" pinned).0 ≡ give a)
    × (get_elem?
          (public_address ∷ [])
          (or_first (lookup (pin_key "Example.org") pinned.cursor) % length (public_address ∷ []))
        ≡ some a)
    × ((connect_tcp "Example.org" pinned).1.pins ≡ pinned.pins)
    × (or_first (lookup (pin_key "other.net") (connect_tcp "Example.org" pinned).1.cursor) ≡ (
        if pin_key "Example.org" =s= pin_key "other.net"
        then or_first (lookup (pin_key "Example.org") pinned.cursor) + 1
        else or_first (lookup (pin_key "other.net") pinned.cursor)))
connect_tcp-round_robin_example =
    connect_tcp-round_robin "Example.org" "other.net" pinned (public_address ∷ []) pinned_page refl

abbrev wishes : Wishes
wishes = record {
  is_language = λ s. s =s= "de";
  language = some "de";
  region = none;
  canonical_url = blank;
}

-- The alternatives of a page under one normalized URL
abbrev alternatives : List SplitUrl
alternatives =
    normal_page
    ∷ record normal_page { hostname = "www.example.org" }
    ∷ record normal_page { hostname = "m.example.org" }
    ∷ record normal_page { path = "/amp" }
    ∷ record normal_page { path = "/de/" }
    ∷ []

generated : generate_variants library (split page) wishes ≡ give alternatives
unfolding generate_variants generate_variant_map candidates clean_query_parameters deduplicate
    is_tracking normalize_url encode_host read_port is_downgrade lower rstrip
generated = refl

generate_variants-IsUpgrade_example : IsUpgrade library (split page) wishes alternatives
generate_variants-IsUpgrade_example =
    generate_variants-IsUpgrade library (split page) wishes alternatives generated
