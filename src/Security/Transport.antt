-- ===== src/Security/Transport.antt =====
-- src/fetech/transport.py: `PinnedNetworkBackend`, which connects to the addresses pinned for a host.
pub mod Pinned
use fetech.Prelude.{
  ℕ, suc, ◌+◌, ◌%◌, String, Option, none, some, List, [], ◌∷◌, length, get_elem?, if◌then◌else◌,
}
use fetech.Prelude.Dict.{Dict, lookup, insert}
use fetech.Prelude.Text.{lower, rstrip}
use fetech.Prelude.Answer.{Answer, raise, give}
use fetech.Security.Policy.{Address, is_none, or_none}

-- `_pins` and `_cursor`
pub record Backend : Type 0 where
  pub pins : Dict (List Address)
  pub cursor : Dict ℕ

-- A ValueError of `pin`, and the ConnectError of `connect_tcp`
pub data TransportError : Type 0 where
  no_addresses : TransportError
  no_pin : String → TransportError

-- PinnedNetworkBackend()
abbrev pub new_backend : Backend
new_backend = record { pins = []; cursor = [] }

unfoldable pub pin_key : String → String
pin_key host = rstrip 46 (lower host)

unfoldable pub pin : String → List Address → Backend → Answer TransportError Backend
pin host addresses b =
    if is_none addresses
    then raise no_addresses
    else give (record b { pins = insert (pin_key host) addresses b.pins })

abbrev pub or_first : Option ℕ → ℕ
or_first none = 0
or_first (some n) = n

-- addresses[i]; the code's index is never out of range
abbrev pub address_at : String → Option Address → Answer TransportError Address
address_at host none = raise (no_pin host)
address_at host (some a) = give a

-- From the pins of the host and its cursor
unfoldable pub connect_with :
    String → List Address → ℕ → Backend → Answer TransportError Address × Backend
connect_with host addresses cursor b = if is_none addresses then (raise (no_pin host), b) else (
  address_at host (get_elem? addresses (cursor % length addresses)),
  record b { cursor = insert (pin_key host) (cursor + 1) b.cursor },
)

-- `connect_tcp`: the address that it connects to, and the backend after it
unfoldable pub connect_tcp : String → Backend → Answer TransportError Address × Backend
unfolding connect_with pin_key
connect_tcp host b =
    connect_with host (or_none (lookup (pin_key host) b.pins))
      (or_first (lookup (pin_key host) b.cursor)) b
