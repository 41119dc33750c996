-- ===== src/Zone/Cover.antt =====
-- The geometry of zones: containment, the distance to an address, and the distance between zones.
use stars.Prelude.{◌≤◌, ◌<◌, ◌≡◌, ◌↔◌, ◌≢◌, true, arith}
use stars.Address.{Address, value, below}
use stars.Zone.{Zone, contains, distance, zone_distance, intersects, max_of}

-- A zone whose ends are in order contains an address exactly when its distance to it is zero.
pub contains_iff_distance :
    (z : Zone) (a : Address)
    → value z.min_addr ≤ value z.max_addr
    → (contains z a ≡ true) ↔ (distance z a ≡ 0)
unfolding contains distance
contains_iff_distance z a ordered = (ground arith, ground arith)

-- Two zones whose ends are in order intersect, by intersects(), exactly when some address is in both.
pub intersects_iff :
    (z r : Zone)
    → value z.min_addr ≤ value z.max_addr
    → value r.min_addr ≤ value r.max_addr
    → (intersects z r ≡ true → (a : Address) × (contains z a ≡ true) × (contains r a ≡ true))
      × ((a : Address) → contains z a ≡ true → contains r a ≡ true → intersects z r ≡ true)
unfolding intersects contains below
intersects_iff z r zo ro =
    (λ e. (max_of z.min_addr r.min_addr, ground arith, ground arith), λ a h k. ground arith)

-- The distance between zones is symmetric where their upper ends differ.
pub zone_distance_comm :
    (z r : Zone) → value z.max_addr ≢ value r.max_addr → zone_distance z r ≡ zone_distance r z
unfolding zone_distance
zone_distance_comm z r apart = ground arith

-- Where a zone lies within another one and shares its upper end, the distance between them depends on
-- the order of the operands: it is positive one way and zero the other way.
pub zone_distance_asymmetric :
    (z r : Zone)
    → z.max_addr ≡ r.max_addr
    → value z.min_addr < value r.min_addr
    → value r.min_addr ≤ value r.max_addr
    → (0 < zone_distance z r) × (zone_distance r z ≡ 0)
unfolding zone_distance
zone_distance_asymmetric z r same_end wider ordered = (ground arith, ground arith)
