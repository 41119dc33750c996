-- ===== src/Zone/Aggregate.antt =====
-- ZoneDescription::aggregate: the result covers both zones, and no address outside their hull.
use stars.Prelude.{ℕ, ◌+◌, ◌%◌, ◌^◌, ◌≤◌, ◌<◌, ◌≡◌, refl, ◌⊎◌, true, none, some, arith, u32}
use stars.Address.{Address, value, below, below_eq}
use stars.Zone.{Zone, aggregate, contains, round_loop, round_nodes, min_of, max_of}
use stars.Zone.Rounding.{
  IsFloorPower, round_nodes-IsFloorPower, round_nodes_negative, round_loop_negative,
}

pub min_of_le :
    (a b : Address)
    → (value (min_of a b) ≤ value a)
      × (value (min_of a b) ≤ value b)
      × ((min_of a b ≡ a) ⊎ (min_of a b ≡ b))
unfolding below
min_of_le a b = ground arith

pub le_max_of :
    (a b : Address)
    → (value a ≤ value (max_of a b))
      × (value b ≤ value (max_of a b))
      × ((max_of a b ≡ a) ⊎ (max_of a b ≡ b))
unfolding below
le_max_of a b = ground arith

pub aggregate-nodes :
    (z r : Zone) (n : ℕ)
    → round_nodes ((z.available_str_nodes + r.available_str_nodes) % u32) ≡ some n
    → aggregate z r
      ≡ some (record {
        min_addr = min_of z.min_addr r.min_addr;
        max_addr = max_of z.max_addr r.max_addr;
        available_str_nodes = n;
      })
unfolding aggregate
aggregate-nodes z r n e = rw e

-- Whatever is in one of the two zones is in their aggregate, the ends of the aggregate are ends of
-- the two, and its nodes are the highest power of two that is not above the sum of theirs, provided
-- that this sum is positive and fits a 31-bit number: then the call returns.
pub aggregate_lem :
    (z r : Zone)
    → let sum = z.available_str_nodes + r.available_str_nodes in
      0 < sum
      → sum < 2 ^ 31
      → (both : Zone) × (aggregate z r ≡ some both)
        × IsFloorPower both.available_str_nodes sum
        × ((a : Address) → contains z a ≡ true → contains both a ≡ true)
        × ((a : Address) → contains r a ≡ true → contains both a ≡ true)
        × ((both.min_addr ≡ z.min_addr) ⊎ (both.min_addr ≡ r.min_addr))
        × ((both.max_addr ≡ z.max_addr) ⊎ (both.max_addr ≡ r.max_addr))
unfolding contains below_eq
aggregate_lem z r pos small =
    let sum = z.available_str_nodes + r.available_str_nodes in
    let word : sum % u32 ≡ sum = omega arith in
    let (n, e, floor) = round_nodes-IsFloorPower sum pos small in
    let (low, low', low_end) = min_of_le z.min_addr r.min_addr in
    let (high, high', high_end) = le_max_of z.max_addr r.max_addr in
    (
      record {
        min_addr = min_of z.min_addr r.min_addr;
        max_addr = max_of z.max_addr r.max_addr;
        available_str_nodes = n;
      },
      aggregate-nodes z r n (rw word e),
      floor,
      λ a h. ground arith,
      λ a h. ground arith,
      low_end,
      high_end,
    )

-- If the sum of the nodes of the two zones, as a 32-bit word, has its sign bit set, the loop of aggregate() reaches its end
-- within no number of rounds; aggregate() of the model, which looks at 32 rounds, says so by none.
pub aggregate_diverges :
    (z r : Zone)
    → let sum = (z.available_str_nodes + r.available_str_nodes) % u32 in
      2 ^ 31 ≤ sum → ((rounds : ℕ) → round_loop rounds sum 1 ≡ none) × (aggregate z r ≡ none)
unfolding aggregate
aggregate_diverges z r big =
    let sum = (z.available_str_nodes + r.available_str_nodes) % u32 in
    (
      λ rounds. round_loop_negative rounds sum 1 big (omega arith),
      rw (round_nodes_negative sum big (omega arith)) refl,
    )
