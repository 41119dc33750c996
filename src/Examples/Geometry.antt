-- ===== src/Examples/Geometry.antt =====
-- Addresses, zones, and what a structure node knows of a child.
use stars.Prelude.{ℕ, ◌≤◌, ◌^◌, ◌≡◌, refl, ◌≢◌, ◌⊎◌, true, false, none, some, List, [], ◌∷◌, arith}
use stars.Address.{Address, null, value}
use stars.Address.Order.{IsAddress}
use stars.Zone.{round_loop, Zone, contains, intersects, aggregate}
use stars.Zone.Rounding.{IsFloorPower}
use stars.Zone.Aggregate.{aggregate_lem, aggregate_diverges}
use stars.Zone.Cover.{intersects_iff}
use stars.TxZone.{TxZone, fresh_zone, rollback, commit, set_link, set_zone, set_zone_from}
use stars.TxZone.Transaction.{
  Change, resets_link, sets_zone, tests, updates, changes, rollback-changes, commit-set_link,
}
use stars.Examples.{here, father_addr, left_child, right_child, left_zone, right_zone}

here-IsAddress : IsAddress here
here-IsAddress = record { ip_fits = omega arith; port_fits = omega arith }

father_addr-IsAddress : IsAddress father_addr
father_addr-IsAddress = record { ip_fits = omega arith; port_fits = omega arith }

aggregate_lem_example :
    (both : Zone) × (aggregate left_zone right_zone ≡ some both)
    × IsFloorPower both.available_str_nodes 5
    × ((a : Address) → contains left_zone a ≡ true → contains both a ≡ true)
    × ((a : Address) → contains right_zone a ≡ true → contains both a ≡ true)
    × ((both.min_addr ≡ left_child) ⊎ (both.min_addr ≡ left_child))
    × ((both.max_addr ≡ left_child) ⊎ (both.max_addr ≡ right_child))
aggregate_lem_example = aggregate_lem left_zone right_zone (omega arith) (omega arith)

abbrev huge_zone : Zone
huge_zone = record left_zone { available_str_nodes = 2 ^ 31 }

aggregate_diverges_example :
    ((rounds : ℕ) → round_loop rounds 2147483651 1 ≡ none) × (aggregate huge_zone right_zone ≡ none)
aggregate_diverges_example = aggregate_diverges huge_zone right_zone (omega arith)

intersects_iff_example :
    (intersects left_zone right_zone ≡ true
      → (a : Address) × (contains left_zone a ≡ true) × (contains right_zone a ≡ true))
    × ((a : Address)
        → contains left_zone a ≡ true
        → contains right_zone a ≡ true
        → intersects left_zone right_zone ≡ true)
unfolding value
intersects_iff_example = intersects_iff left_zone right_zone (ground arith) (ground arith)

abbrev end_zone : Zone
end_zone = record right_zone { min_addr = right_child }

abbrev entry : TxZone
entry = record fresh_zone { actual_link = left_child; actual_zone = some left_zone; seq = 4 }

abbrev steps : List Change
steps = sets_zone (some right_zone) ∷ tests 6 ∷ updates right_child none ∷ resets_link ∷ []

rollback-changes_example :
    let r = rollback (changes (set_link entry right_child) steps) in
    (r.actual_link ≡ left_child)
    × (r.actual_zone ≡ some left_zone)
    × (r.changing ≡ false)
    × (r.new_link ≡ left_child)
    × (4 ≤ r.seq)
unfolding fresh_zone
rollback-changes_example =
    rollback-changes entry right_child steps refl (tt, (tt, (ground arith, (tt, tt))))

commit-set_link_example :
    let changed = set_zone (set_link entry right_child) (some right_zone) in
    (commit changed ≡ record entry {
      actual_link = right_child;
      actual_zone = some right_zone;
      new_link = null;
      new_zone = none;
      changing = false;
    })
    × ((commit (set_zone_from changed right_child none)).actual_zone ≡ none)
    × (here ≢ right_child
        → (commit (set_zone_from changed here none)).actual_zone ≡ some right_zone)
    × (commit (commit changed) ≡ commit changed)
commit-set_link_example = commit-set_link entry right_child here (some right_zone) none
