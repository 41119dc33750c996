-- ===== src/Examples/Overlay.antt =====
-- A structure node: its invariant, its votes and its choice of a child.
use mathlib.Core.List.{cons-ne-nil}
use stars.Prelude.{
  ◌*◌, ◌≤◌, All, ◌≡◌, refl, ◌≢◌, true, false, some, List, [], ◌∷◌, arith, take, map, none,
}
use stars.Address.{same}
use stars.TxZone.{TxZone, fresh_zone, set_link}
use stars.Structure.{Node, create, add_child}
use stars.Structure.Zones.{known_zones, recompute_zone}
use stars.Structure.Coverage.{Covers, total, recompute_zone-Covers}
use stars.Structure.Undo.{view, give_away-rollback_zones}
use stars.Structure.Split.{give_away}
use stars.Structure.Outcome.{rollback_zones}
use stars.Zone.{Zone}
use stars.Structure.Consistent.{Consistent}
use stars.Structure.Protocol.{Arrival, run, AllProper, run-create-Consistent}
use stars.Structure.Receive.{has_member, receive}
use stars.Structure.Requests.{handle_needed}
use stars.Structure.Growth.{handle_init}
use stars.Structure.Voting.{votes, votes-no_early_commit}
use stars.Structure.Routing.{Choice, direction_to}
use stars.Structure.Nearest.{IsNearest, IsChild, direction_to-IsNearest}
use stars.Examples.{here, father_addr, left_child, right_child, env, left_zone, right_zone, history}

history-AllProper : AllProper history
history-AllProper = (
  record { random = ground arith; real = ground arith; named = ground arith },
  (
    record { random = ground arith; real = ground arith; named = tt },
    (
      record { random = ground arith; real = ground arith; named = ground arith },
      (record { random = ground arith; real = ground arith; named = tt }, tt),
    ),
  ),
)

run-create-Consistent_example : Consistent (run (create 2) history)
run-create-Consistent_example = run-create-Consistent 2 history history-AllProper

-- The first two of these arrivals.
abbrev opening : List Arrival
opening = take 2 history

opening-AllProper : AllProper opening
opening-AllProper = (
  record { random = ground arith; real = ground arith; named = ground arith },
  (record { random = ground arith; real = ground arith; named = tt }, tt),
)

abbrev nodes : List TxZone
nodes = (run (create 2) opening).sub_zones

nodes-nonempty : nodes ≢ []
unfolding run create receive handle_needed handle_init set_link fresh_zone same
nodes-nonempty = cons-ne-nil _ _

-- A driver that awaits two members.
abbrev driver : Node
driver = record (create 2) {
  state = add_child;
  transaction = 9;
  tx_driver = here;
  no_ack = (left_child, false) ∷ (right_child, true) ∷ [];
}

votes-no_early_commit_example :
    let n' = votes env 9 ((left_child, false) ∷ (left_child, false) ∷ []) driver in
    (n'.out ≡ driver.out)
    × (n'.state ≡ driver.state)
    × (n'.transaction ≡ 9)
    × (n'.sub_zones ≡ driver.sub_zones)
    × (has_member (right_child, true) n'.no_ack ≡ true)
unfolding same create
votes-no_early_commit_example =
    votes-no_early_commit env (right_child, true) ((left_child, false) ∷ (left_child, false) ∷ [])
      driver refl refl (refl, (refl, tt))

abbrev known_children : List TxZone
known_children =
    record fresh_zone { actual_link = left_child; actual_zone = some left_zone }
    ∷ record fresh_zone { actual_link = right_child; actual_zone = some right_zone }
    ∷ []

direction_to-IsNearest_example :
    (c : Choice) × (direction_to father_addr 0 known_children ≡ some c)
    × IsNearest father_addr c.score known_children
    × IsChild father_addr 0 c known_children
direction_to-IsNearest_example =
    direction_to-IsNearest father_addr 0 known_children (ground arith) (refl, (refl, tt))

abbrev mixed_children : List TxZone
mixed_children =
    record fresh_zone { actual_link = left_child; actual_zone = some left_zone }
    ∷ record fresh_zone { actual_link = right_child }
    ∷ []

abbrev parent : Node
parent = record (create 2) { sub_zones = known_children }

recompute_zone-Covers_example :
    (z : Zone) × ((recompute_zone parent).zone_desc ≡ some z)
    × ((recompute_zone parent).out ≡ parent.out)
    × (z.available_str_nodes ≤ 2 * total (known_zones known_children))
    × All (Covers z) (known_zones known_children)
unfolding known_zones fresh_zone
recompute_zone-Covers_example = recompute_zone-Covers parent (cons-ne-nil _ _) (omega arith)

abbrev last_child : TxZone
last_child = record fresh_zone { actual_link = left_child; actual_zone = some left_zone }

give_away-rollback_zones_example :
    let undone =
      rollback_zones (give_away here (some 1 ∷ none ∷ some 0 ∷ []) (parent, [])).0.sub_zones in
    (map view undone ≡ map view known_children) × All (λ t. t.changing ≡ false) undone
unfolding fresh_zone
give_away-rollback_zones_example =
    give_away-rollback_zones here (some 1 ∷ none ∷ some 0 ∷ []) parent []
      ((ground arith, ground arith), ((ground arith, ground arith), tt))
