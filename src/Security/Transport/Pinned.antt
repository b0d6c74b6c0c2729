-- ===== src/Security/Transport/Pinned.antt =====
-- src/fetech/transport.py with src/fetech/security.py: a connection goes to an address that was
-- pinned, and with pins taken from the policy to a public one.
use fetech.Prelude.{
  ℕ, zero, suc, ◌+◌, ◌%◌, ◌<◌, String, ◌≡◌, refl, subst, ◌=s=◌, inl, inr, true, false, Option, some,
  List, [], ◌∷◌, length, get_elem?, arith, if◌then◌else◌, Bool-cases, Option-cases,
}
use fetech.Prelude.Dict.{Dict, lookup, insert, lookup-insert}
use fetech.Prelude.Answer.{give}
use fetech.Security.Url.{Target, UrlLibrary}
use fetech.Security.Policy.{
  Address, is_public_address, DestinationPolicy, is_none, or_none, evaluate, validated_addresses,
}
use fetech.Security.Policy.Validated.{
  Reached, start, evaluated, IsPublic, get_elem?-public, AllPublic, none_pinned,
  validated_addresses-IsPublic, insert-AllPublic, lookup-IsPublic,
}
use fetech.Security.Transport.{
  Backend, new_backend, pin, pin_key, connect_tcp, connect_with, or_first,
}

get_elem?-inside {ℓ} :
    {A : Type ℓ} (xs : List A) (i : ℕ) → i < length xs → (a : A) × (get_elem? xs i ≡ some a)
get_elem?-inside [] i h = absurd (omega arith)
get_elem?-inside (x ∷ xs) zero h = (x, refl)
get_elem?-inside (x ∷ xs) (suc i) h = get_elem?-inside xs i (omega arith)

full : (xs : List Address) → is_none xs ≡ false → 0 < length xs
full [] h = absurd (ground arith)
full (x ∷ xs) h = omega arith

mod_below : (n m : ℕ) → 0 < m → n % m < m
mod_below n m h = ground arith

-- For a host with pinned addresses, a connection always has an address: the pinned address at the
-- place that the host's cursor has, counted round the list. The cursor then moves on by one, those of
-- other hosts stay, and the pins stay.
pub connect_tcp-round_robin :
    (host other : String) (b : Backend) (addresses : List Address)
    → lookup (pin_key host) b.pins ≡ some addresses
    → is_none addresses ≡ false
    → (a : Address) × ((connect_tcp host b).0 ≡ give a)
      × (get_elem? addresses (or_first (lookup (pin_key host) b.cursor) % length addresses)
          ≡ some a)
      × ((connect_tcp host b).1.pins ≡ b.pins)
      × (or_first (lookup (pin_key other) (connect_tcp host b).1.cursor) ≡ (
          if pin_key host =s= pin_key other
          then or_first (lookup (pin_key host) b.cursor) + 1
          else or_first (lookup (pin_key other) b.cursor)))
unfolding connect_tcp connect_with
connect_tcp-round_robin host other b addresses pinned nonempty =
    let n = or_first (lookup (pin_key host) b.cursor) in
    let (a, there) =
      get_elem?-inside addresses (n % length addresses)
        (mod_below n (length addresses) (full addresses nonempty)) in
    (
      a,
      rw (pinned, nonempty, there) refl,
      there,
      rw (pinned, nonempty) refl,
      rw (pinned, nonempty, lookup-insert (pin_key host) (pin_key other) (n + 1) b.cursor)
          (elim (Bool-cases (pin_key host =s= pin_key other)) [
            | inl e ↦ rw e refl
            | inr e ↦ rw e refl
          ]),
    )

-- A policy and the backend that connects for its user.
pub record Client : Type 0 where
  pub validated : Dict (List Address)
  pub backend : Backend

-- The states of a client that validates targets, pins the addresses that its policy holds for a
-- host, and connects, in any order and with any answers of the resolver.
pub data Used (lib : UrlLibrary) (policy : DestinationPolicy) : Client → Type 0 where
  fresh : Used lib policy (record { validated = []; backend = new_backend })
  validates :
      (getaddrinfo : String → ℕ → Option (List Address)) (target previous_url : Target) (c : Client)
      → Used lib policy c
      → Used lib policy (record c {
        validated = (evaluate lib getaddrinfo policy target previous_url c.validated).1;
      })
  pins :
      (host : String) (c : Client) (b : Backend)
      → Used lib policy c
      → pin host (validated_addresses host c.validated) c.backend ≡ give b
      → Used lib policy (record c { backend = b })
  connects :
      (host : String) (c : Client)
      → Used lib policy c
      → Used lib policy (record c { backend = (connect_tcp host c.backend).1 })

pin-AllPublic :
    (host : String) (addresses : List Address) (b b' : Backend)
    → IsPublic addresses
    → AllPublic b.pins
    → pin host addresses b ≡ give b'
    → AllPublic b'.pins
unfolding pin
pin-AllPublic host addresses b b' hv hb h = elim (Bool-cases (is_none addresses)) [
  | inl e ↦ absurd (ground arith)
  | inr e ↦
      let same : record b { pins = insert (pin_key host) addresses b.pins } ≡ b' = ground arith in
      subst (λ (x : Backend). AllPublic x.pins) same
        (insert-AllPublic (pin_key host) addresses b.pins hv hb)
]

connect_tcp-pins : (host : String) (b : Backend) → (connect_tcp host b).1.pins ≡ b.pins
unfolding connect_tcp connect_with
connect_tcp-pins host b = elim (Bool-cases (is_none (or_none (lookup (pin_key host) b.pins)))) [
  | inl e ↦ rw e refl
  | inr e ↦ rw e refl
]

connect_tcp-public :
    (host : String) (b : Backend) (a : Address)
    → IsPublic (or_none (lookup (pin_key host) b.pins))
    → (connect_tcp host b).0 ≡ give a
    → is_public_address a ≡ true
unfolding connect_tcp connect_with
connect_tcp-public host b a public h =
    let addresses = or_none (lookup (pin_key host) b.pins) in
    let i = or_first (lookup (pin_key host) b.cursor) % length addresses in
    elim (Bool-cases (is_none addresses)) [
      | inl e ↦ absurd (ground arith)
      | inr e ↦ elim (Option-cases (get_elem? addresses i)) [
        | inl e' ↦ absurd (ground arith)
        | inr (x, e') ↦
            let same : x ≡ a = ground arith in
            rw (← same) (get_elem?-public addresses i x public e')
      ]
    ]

module _ (lib : UrlLibrary) (policy : DestinationPolicy) where
  Used-Reached : (c : Client) → Used lib policy c → Reached lib policy c.validated
  Used-Reached _ fresh = start
  Used-Reached _ (validates g t p c u) = evaluated g t p c.validated (Used-Reached c u)
  Used-Reached _ (pins host c b u h) = Used-Reached c u
  Used-Reached _ (connects host c u) = Used-Reached c u

  Used-AllPublic : (c : Client) → Used lib policy c → AllPublic c.backend.pins
  Used-AllPublic _ fresh = none_pinned
  Used-AllPublic _ (validates g t p c u) = Used-AllPublic c u
  Used-AllPublic _ (pins host c b u h) =
      pin-AllPublic host (validated_addresses host c.validated) c.backend b
        (validated_addresses-IsPublic lib policy c.validated host (Used-Reached c u))
        (Used-AllPublic c u) h
  Used-AllPublic _ (connects host c u) = rw (connect_tcp-pins host c.backend) (Used-AllPublic c u)

  -- A client that pins only what its policy has validated never connects to an address that is not
  -- public, whatever names resolve to at any time and in whatever order it validates, pins and connects.
  pub connects_to_public :
      (c : Client) (host : String) (a : Address)
      → Used lib policy c
      → (connect_tcp host c.backend).0 ≡ give a
      → is_public_address a ≡ true
  connects_to_public c host a u h =
      connect_tcp-public host c.backend a
        (lookup-IsPublic (pin_key host) c.backend.pins (Used-AllPublic c u)) h
