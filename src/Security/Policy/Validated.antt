-- ===== src/Security/Policy/Validated.antt =====
-- src/fetech/security.py: the addresses that a `SafeURLPolicy` holds, after any calls of `evaluate`.
use fetech.Prelude.{
  ℕ, String, ◌≡◌, refl, ◌=s=◌, inl, inr, true, Option, List, [], some, ◌∷◌, All, get_elem?,
  All-get_elem?, Bool-cases,
}
use fetech.Prelude.Dict.{Dict, lookup, insert}
use fetech.Prelude.Text.{lower, rstrip}
use fetech.Prelude.Answer.{Answer, raise, give}
use fetech.Security.Url.{Target, SplitUrl, UrlLibrary}
use fetech.Security.Policy.{
  Address, is_public_address, DestinationPolicy, Refusal, inspect, evaluate, record_addresses,
  or_none, validated_addresses,
}
use fetech.Security.Policy.Safe.{IsSafe, inspect-IsSafe}

-- The states of `_validated_addresses`: empty at first, then changed by calls of `evaluate`, each with
-- a target and a previous URL of its own and with what names resolve to at its time.
pub data Reached (lib : UrlLibrary) (policy : DestinationPolicy)
    : Dict (List Address) → Type 0 where
  start : Reached lib policy []
  evaluated :
      (getaddrinfo : String → ℕ → Option (List Address)) (target previous_url : Target)
      (validated : Dict (List Address))
      → Reached lib policy validated
      → Reached lib policy (evaluate lib getaddrinfo policy target previous_url validated).1

pub IsPublic : List Address → Type 0
IsPublic addresses = All (λ a. is_public_address a ≡ true) addresses

pub get_elem?-public :
    (addresses : List Address) (i : ℕ) (a : Address)
    → IsPublic addresses
    → get_elem? addresses i ≡ some a
    → is_public_address a ≡ true
unfolding IsPublic
get_elem?-public addresses i a h e =
    All-get_elem? (λ x. is_public_address x ≡ true) addresses i a h e

pub AllPublic : Dict (List Address) → Type 0
AllPublic validated = All (λ e. IsPublic e.1) validated

pub none_pinned : AllPublic []
unfolding AllPublic
none_pinned = tt

pub insert-AllPublic :
    (k : String) (v : List Address) (d : Dict (List Address))
    → IsPublic v
    → AllPublic d
    → AllPublic (insert k v d)
unfolding insert AllPublic
insert-AllPublic k v [] hv hd = (hv, tt)
insert-AllPublic k v ((j, w) ∷ d) hv hd = elim (Bool-cases (j =s= k)) [
  | inl e ↦ rw e (hv, hd.1)
  | inr e ↦ rw e (hd.0, insert-AllPublic k v d hv hd.1)
]

pub lookup-IsPublic :
    (k : String) (d : Dict (List Address)) → AllPublic d → IsPublic (or_none (lookup k d))
unfolding lookup AllPublic IsPublic
lookup-IsPublic k [] h = tt
lookup-IsPublic k ((j, w) ∷ d) h = elim (Bool-cases (j =s= k)) [
  | inl e ↦ rw e h.0
  | inr e ↦ rw e (lookup-IsPublic k d h.1)
]

module _ (lib : UrlLibrary) (policy : DestinationPolicy) where
  evaluate-AllPublic :
      (getaddrinfo : String → ℕ → Option (List Address)) (target previous_url : Target)
      (validated : Dict (List Address))
      → AllPublic validated
      → AllPublic (evaluate lib getaddrinfo policy target previous_url validated).1
  unfolding evaluate IsPublic
  evaluate-AllPublic getaddrinfo target previous_url validated h =
      after (inspect lib getaddrinfo policy target previous_url) refl
    where
      after :
          (answer : Answer Refusal (SplitUrl × List Address))
          → inspect lib getaddrinfo policy target previous_url ≡ answer
          → AllPublic (record_addresses lib getaddrinfo validated answer).1
      after (raise e) is = h
      after (give (v, addresses)) is =
          insert-AllPublic v.hostname addresses validated
            (IsSafe.all_public
              (inspect-IsSafe lib getaddrinfo policy target previous_url v addresses is))
            h

  Reached-AllPublic :
      (validated : Dict (List Address)) → Reached lib policy validated → AllPublic validated
  unfolding AllPublic
  Reached-AllPublic [] start = tt
  Reached-AllPublic d (evaluated getaddrinfo target previous_url validated r) =
      evaluate-AllPublic getaddrinfo target previous_url validated (Reached-AllPublic validated r)

  -- After any calls of `evaluate`, let through or refused, and whatever names resolved to at each of
  -- them, every address that `validated_addresses` gives for any host is public.
  pub validated_addresses-IsPublic :
      (validated : Dict (List Address)) (host : String)
      → Reached lib policy validated
      → IsPublic (validated_addresses host validated)
  unfolding validated_addresses
  validated_addresses-IsPublic validated host r =
      lookup-IsPublic (rstrip 46 (lower host)) validated (Reached-AllPublic validated r)
