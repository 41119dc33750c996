-- ===== src/Address/Order.antt =====
-- The comparisons of CommAddress form a total order that agrees with its equality.
use stars.Prelude.{◌+◌, ◌≤◌, ◌<◌, ◌^◌, ◌≡◌, ◌↔◌, true, false, arith}
use stars.Address.{Address, same, below, below_eq, distance}

pub same_iff : (a b : Address) → (same a b ≡ true) ↔ (a ≡ b)
unfolding same
same_iff a b = ground arith

pub same_refl : (a : Address) → same a a ≡ true
unfolding same
same_refl a = ground arith

-- The fields are a uint32_t and a uint16_t.
pub record IsAddress (a : Address) : Type 0 where
  pub ip_fits : a.ip < 2 ^ 32
  pub port_fits : a.port < 2 ^ 16

-- On addresses whose fields fit their types, `<` and `<=` are a total order: `<` is irreflexive and
-- transitive, `<=` is the negation of the converse of `<`, and two addresses that are `<=` each
-- other are equal by `==`.
pub order_lem :
    (a b c : Address)
    → IsAddress a
    → IsAddress b
    → (below a a ≡ false)
      × (below a b ≡ true → below b c ≡ true → below a c ≡ true)
      × ((below_eq a b ≡ true) ↔ (below b a ≡ false))
      × (below_eq a b ≡ true → below_eq b a ≡ true → same a b ≡ true)
unfolding below below_eq same
order_lem a b c ha hb = (ground arith, ground arith, (ground arith, ground arith), ground arith)

-- distance() is symmetric, is zero exactly between equal addresses, and meets the triangle inequality.
pub distance_lem :
    (a b c : Address)
    → IsAddress a
    → IsAddress b
    → (distance a b ≡ distance b a)
      × ((distance a b ≡ 0) ↔ (same a b ≡ true))
      × (distance a c ≤ distance a b + distance b c)
unfolding distance same
distance_lem a b c ha hb = (ground arith, (ground arith, ground arith), ground arith)
