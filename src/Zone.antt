-- ===== src/Zone.antt =====
-- include/ZoneDescription.hpp and src/lib/overlay/ZoneDescription.cpp: what a branch of the tree covers,
-- as a range of addresses and a number of available structure nodes (a uint32_t).
pub mod Rounding
pub mod Aggregate
pub mod Cover
use stars.Prelude.{
  ℕ, zero, suc, ◌+◌, ◌-◌, ◌*◌, ◌/◌, ◌%◌, ◌^◌, Bool, ◌&&◌, ◌||◌, Option, none, some, ltb, leb, ◌==◌,
  if◌then◌else◌, u32,
}
use stars.Address.{Address, same, below, below_eq}
use stars.Address

pub record Zone : Type 0 where
  pub min_addr : Address
  pub max_addr : Address
  pub available_str_nodes : ℕ

-- operator==
unfoldable pub zone_eq : Zone → Zone → Bool
unfolding same
zone_eq z r =
    z.available_str_nodes == r.available_str_nodes
    && same z.min_addr r.min_addr
    && same z.max_addr r.max_addr

unfoldable pub contains : Zone → Address → Bool
unfolding below_eq
contains z src = below_eq z.min_addr src && below_eq src z.max_addr

unfoldable pub distance : Zone → Address → ℕ
unfolding below Address.distance
distance z src =
    if below src z.min_addr
    then Address.distance src z.min_addr
    else if below z.max_addr src
    then Address.distance src z.max_addr
    else 0

-- distance() between two zones.
unfoldable pub zone_distance : Zone → Zone → ℕ
unfolding below Address.distance
zone_distance z r =
    if below r.max_addr z.max_addr
    then (if below r.min_addr z.min_addr then Address.distance z.max_addr r.min_addr else 0)
    else if below z.min_addr r.min_addr
    then Address.distance r.max_addr z.min_addr
    else 0

unfoldable pub intersects : Zone → Zone → Bool
unfolding contains
intersects z r =
    contains z r.min_addr || contains z r.max_addr || contains r z.min_addr || contains r z.max_addr

-- `avail >> 1` of a 32-bit int, as a bit pattern: the sign bit stays.
abbrev pub shift_int : ℕ → ℕ
shift_int avail = if ltb avail (2 ^ 31) then avail / 2 else avail / 2 + 2 ^ 31

-- The loop `while (avail != 1) { availableStrNodes <<= 1; avail >>= 1; }`; `none` means that the fuel
-- ran out.
unfoldable pub round_loop : ℕ → ℕ → ℕ → Option ℕ
round_loop zero avail nodes = none
round_loop (suc fuel) avail nodes =
    let rest = round_loop fuel (shift_int avail) ((nodes * 2) % u32) in
    if avail == 1 then some nodes else rest

-- The rounding at the end of aggregate(). An int that is not negative takes 31 rounds at most.
unfoldable pub round_nodes : ℕ → Option ℕ
round_nodes avail = if avail == 0 then some 0 else round_loop 32 avail 1

abbrev pub min_of : Address → Address → Address
min_of a b = if below b a then b else a

abbrev pub max_of : Address → Address → Address
max_of a b = if below a b then b else a

abbrev with_nodes : Zone → Zone → Option ℕ → Option Zone
with_nodes z r none = none
with_nodes z r (some nodes) = some (record {
  min_addr = min_of z.min_addr r.min_addr;
  max_addr = max_of z.max_addr r.max_addr;
  available_str_nodes = nodes;
})

-- aggregate(); `none` means that its loop does not end.
unfoldable pub aggregate : Zone → Zone → Option Zone
aggregate z r = with_nodes z r (round_nodes ((z.available_str_nodes + r.available_str_nodes) % u32))
