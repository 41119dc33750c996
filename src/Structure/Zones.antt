-- ===== src/Structure/Zones.antt =====
-- The list of child zones: compareZones, std::list::sort by it, and recomputeZone
-- (src/lib/overlay/StructureNode.cpp).
use stars.Prelude.{Bool, true, false, Option, none, some, List, [], ◌∷◌, if◌then◌else◌, is_some}
use stars.Address.{below}
use stars.Zone.{Zone, aggregate}
use stars.TxZone.{TxZone}
use stars.Message.{endless}
use stars.Structure.{Node, emit}

abbrev zone_below : Option Zone → Option Zone → Bool
zone_below none r = true
zone_below (some l) none = false
zone_below (some l) (some r) = below l.min_addr r.min_addr

-- The zones without information come first, and it holds both ways between two of them.
unfoldable pub compare_zones : TxZone → TxZone → Bool
compare_zones l r = zone_below l.actual_zone r.actual_zone

-- list::sort as a stable insertion sort: an element goes after those that are below it.
unfoldable pub insert_zone : TxZone → List TxZone → List TxZone
unfolding compare_zones
insert_zone x [] = x ∷ []
insert_zone x (y ∷ ys) = if compare_zones y x then y ∷ insert_zone x ys else x ∷ y ∷ ys

unfoldable pub sort_zones : List TxZone → List TxZone
unfolding insert_zone
sort_zones [] = []
sort_zones (x ∷ xs) = insert_zone x (sort_zones xs)

abbrev add_known : Option Zone → List Zone → List Zone
add_known none zs = zs
add_known (some z) zs = z ∷ zs

-- The zones with information, the list `tmp` of recomputeZone.
unfoldable pub known_zones : List TxZone → List Zone
known_zones [] = []
known_zones (t ∷ ts) = add_known t.actual_zone (known_zones ts)

abbrev aggregate_with : Zone → Option Zone → Option Zone
aggregate_with z none = none
aggregate_with z (some acc) = aggregate acc z

unfoldable pub aggregate_all : Option Zone → List Zone → Option Zone
aggregate_all acc [] = acc
aggregate_all acc (z ∷ zs) = aggregate_all (aggregate_with z acc) zs

abbrev store_zone : Node → Option Zone → Node
store_zone n none = emit endless n
store_zone n (some z) = record n { zone_desc = some z }

-- The first zone is copied and then aggregated with itself, as the loop starts over at `begin()`.
abbrev pub recompute_from : Node → List Zone → Node
recompute_from n [] = record n { zone_desc = none }
recompute_from n (z ∷ zs) = store_zone n (aggregate_all (some z) (z ∷ zs))

abbrev pub recompute_for : Node → List TxZone → Node
recompute_for n [] = n
recompute_for n (t ∷ ts) = recompute_from n (known_zones (t ∷ ts))

unfoldable pub recompute_zone : Node → Node
unfolding known_zones aggregate_all
recompute_zone n = recompute_for n n.sub_zones

-- `subZones.front()->getZone().get()`, where there is a front.
abbrev pub front_known : List TxZone → Bool
front_known [] = false
front_known (t ∷ ts) = is_some t.actual_zone

abbrev pub is_empty {ℓ} : {A : Type ℓ} → List A → Bool
is_empty [] = true
is_empty (x ∷ xs) = false
