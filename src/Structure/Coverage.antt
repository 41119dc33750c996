-- ===== src/Structure/Coverage.antt =====
-- The zone of a structure node, Structure.Zones.recompute_zone, against the zones of its children.
use stars.Prelude.{
  ℕ, ◌+◌, ◌*◌, ◌^◌, ◌≤◌, ◌<◌, ◌≡◌, refl, ◌≢◌, true, some, List, [], ◌∷◌, All, arith, Bool-cases,
  ◌==◌, inl, inr,
}
use stars.Address.{Address, below_eq}
use stars.Zone.{Zone, contains, aggregate, round_nodes, min_of, max_of}
use stars.Zone.Rounding.{IsFloorPower}
use stars.Zone.Aggregate.{aggregate_lem, aggregate-nodes, min_of_le, le_max_of}
use stars.Structure.{Node}
use stars.Structure.Zones.{
  aggregate_all, known_zones, recompute_zone, recompute_for, recompute_from,
}
use stars.TxZone.{TxZone}

-- The available nodes of some zones.
abbrev pub total : List Zone → ℕ
total [] = 0
total (z ∷ zs) = z.available_str_nodes + total zs

abbrev pub Covers : Zone → Zone → Type 0
Covers z y = (a : Address) → contains y a ≡ true → contains z a ≡ true

empty_aggregate-Covers :
    (z r : Zone)
    → z.available_str_nodes + r.available_str_nodes ≡ 0
    → (both : Zone) × (aggregate z r ≡ some both)
      × (both.available_str_nodes ≤ z.available_str_nodes + r.available_str_nodes)
      × Covers both z
      × Covers both r
unfolding contains below_eq round_nodes
empty_aggregate-Covers z r e =
    let (low, low', low_end) = min_of_le z.min_addr r.min_addr in
    let (high, high', high_end) = le_max_of z.max_addr r.max_addr in
    (
      record {
        min_addr = min_of z.min_addr r.min_addr;
        max_addr = max_of z.max_addr r.max_addr;
        available_str_nodes = 0;
      },
      aggregate-nodes z r 0 (rw e refl),
      omega arith,
      λ a h. ground arith,
      λ a h. ground arith,
    )

aggregate-Covers :
    (z r : Zone)
    → z.available_str_nodes + r.available_str_nodes < 2 ^ 31
    → (both : Zone) × (aggregate z r ≡ some both)
      × (both.available_str_nodes ≤ z.available_str_nodes + r.available_str_nodes)
      × Covers both z
      × Covers both r
aggregate-Covers z r small =
    elim (Bool-cases (z.available_str_nodes + r.available_str_nodes == 0)) [
      | inl e ↦ empty_aggregate-Covers z r (ground arith)
      | inr e ↦
          let (both, found, floor, left, right, low, high) =
            aggregate_lem z r (ground arith) small in
          (both, found, floor.low, left, right)
    ]

aggregate_all-Covers :
    (acc : Zone) (zs : List Zone)
    → acc.available_str_nodes + total zs < 2 ^ 31
    → (z : Zone) × (aggregate_all (some acc) zs ≡ some z)
      × (z.available_str_nodes ≤ acc.available_str_nodes + total zs)
      × Covers z acc
      × All (Covers z) zs
unfolding aggregate_all
aggregate_all-Covers acc [] small = (acc, refl, omega arith, (λ a h. h), tt)
aggregate_all-Covers acc (y ∷ ys) small =
    let (both, found, le, left, right) = aggregate-Covers acc y (omega (arith, small)) in
    let (z, found', le', first, rest) = aggregate_all-Covers both ys (omega (arith, small, le)) in
    (
      z,
      rw found found',
      omega (arith, le, le'),
      (λ a h. first a (left a h)),
      ((λ a h. first a (right a h)), rest),
    )

recompute_from-Covers :
    (n : Node) (zs : List Zone)
    → zs ≢ []
    → 2 * total zs < 2 ^ 31
    → (z : Zone) × ((recompute_from n zs).zone_desc ≡ some z)
      × ((recompute_from n zs).out ≡ n.out)
      × (z.available_str_nodes ≤ 2 * total zs)
      × All (Covers z) zs
recompute_from-Covers n [] known small = absurd (known refl)
recompute_from-Covers n (y ∷ ys) known small =
    let (z, found, le, first, rest) = aggregate_all-Covers y (y ∷ ys) (omega (arith, small)) in
    (z, rw found refl, rw found refl, omega (arith, le), rest)

recompute_for-Covers :
    (n : Node) (ts : List TxZone)
    → known_zones ts ≢ []
    → 2 * total (known_zones ts) < 2 ^ 31
    → (z : Zone) × ((recompute_for n ts).zone_desc ≡ some z)
      × ((recompute_for n ts).out ≡ n.out)
      × (z.available_str_nodes ≤ 2 * total (known_zones ts))
      × All (Covers z) (known_zones ts)
unfolding known_zones
recompute_for-Covers n [] known small = absurd (known refl)
recompute_for-Covers n (t ∷ ts) known small =
    recompute_from-Covers n (known_zones (t ∷ ts)) known small

-- A node with a child that has reported takes a zone in which every address of its children's zones is, and
-- does not meet a loop without end, provided that twice the nodes of its children fit a 31-bit number.
-- Its available nodes are at most twice theirs.
pub recompute_zone-Covers :
    (n : Node)
    → known_zones n.sub_zones ≢ []
    → 2 * total (known_zones n.sub_zones) < 2 ^ 31
    → (z : Zone) × ((recompute_zone n).zone_desc ≡ some z)
      × ((recompute_zone n).out ≡ n.out)
      × (z.available_str_nodes ≤ 2 * total (known_zones n.sub_zones))
      × All (Covers z) (known_zones n.sub_zones)
unfolding recompute_zone
recompute_zone-Covers n known small = recompute_for-Covers n n.sub_zones known small

-- A node with a single child that has reported counts the nodes of that child twice: it has the ends of
-- the child's zone, and the highest power of two that is not above twice the child's nodes, provided that
-- these are positive and twice as many fit a 31-bit number.
pub recompute_zone-doubles :
    (n : Node) (t : TxZone) (y : Zone)
    → n.sub_zones ≡ t ∷ []
    → t.actual_zone ≡ some y
    → 0 < y.available_str_nodes
    → 2 * y.available_str_nodes < 2 ^ 31
    → (z : Zone) × ((recompute_zone n).zone_desc ≡ some z)
      × (z.min_addr ≡ y.min_addr)
      × (z.max_addr ≡ y.max_addr)
      × IsFloorPower z.available_str_nodes (2 * y.available_str_nodes)
unfolding recompute_zone known_zones aggregate_all
recompute_zone-doubles n t y only k pos small =
    let (both, found, floor, left, right, low, high) =
      aggregate_lem y y (omega (arith, pos)) (omega (arith, small)) in
    let twice : y.available_str_nodes + y.available_str_nodes ≡ 2 * y.available_str_nodes =
      omega arith in
    (both, rw (only, k, found) refl, ground (arith, low), ground (arith, high), rw⁻¹ twice floor)
