-- ===== src/Address.antt =====
-- include/CommAddress.hpp: the address of a node. An IP address is the 32-bit number of its IPv4 form.
-- value() is the double `ip + port / 65536`; with a 32-bit ip and a 16-bit port it is exact, and the
-- model keeps it in units of 1/65536.
pub mod Order
use stars.Prelude.{ℕ, ◌+◌, ◌-◌, ◌*◌, Bool, not, ◌&&◌, ltb, leb, ◌==◌, if◌then◌else◌}

pub record Address : Type 0 where
  pub ip : ℕ
  pub port : ℕ

-- CommAddress(): no address.
abbrev pub null : Address
null = record { ip = 0; port = 0 }

unfoldable pub value : Address → ℕ
value a = a.ip * 65536 + a.port

-- operator==
unfoldable pub same : Address → Address → Bool
same a b = a.ip == b.ip && a.port == b.port

-- operator!=
abbrev pub differ : Address → Address → Bool
differ a b = not (same a b)

-- operator<
unfoldable pub below : Address → Address → Bool
unfolding value
below a b = ltb (value a) (value b)

-- operator<=
unfoldable pub below_eq : Address → Address → Bool
unfolding value
below_eq a b = leb (value a) (value b)

unfoldable pub distance : Address → Address → ℕ
unfolding value
distance a b = if ltb (value a) (value b) then value b - value a else value a - value b
