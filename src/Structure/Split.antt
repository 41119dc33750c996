-- ===== src/Structure/Split.antt =====
-- The division of the children of StructureNode::handle(NewStrNodeMsg): the two groups, and the
-- messages that hand the second one to the new brother.
use mathlib.Core.List.{reverse}
use stars.Prelude.{
  ℕ, zero, suc, ◌+◌, Option, none, some, List, [], ◌∷◌, ◌++◌, ltb, ◌==◌, if◌then◌else◌, length,
  get_elem?, set,
}
use stars.Address.{Address}
use stars.Zone.{Zone, zone_distance}
use stars.TxZone.{TxZone, reset_link}
use stars.Message.{send, new_father, undefined}
use stars.Structure.{Node, emit}

-- `distance[i][j]` for the zones `seen` before the i-th one: the largest distance so far, and `maxi`.
unfoldable pub farther : ℕ → Zone → List Zone → ℕ × ℕ → ℕ × ℕ
farther i z [] best = best
farther i z (r ∷ seen) (max_dist, maxi) =
    let dist = zone_distance z r in
    farther i z seen (if ltb max_dist dist then (dist, i) else (max_dist, maxi))

unfoldable pub farthest : ℕ → List Zone → List Zone → ℕ × ℕ → ℕ
unfolding farther
farthest i seen [] best = best.1
farthest i seen (z ∷ zs) best = farthest (i + 1) (seen ++ z ∷ []) zs (farther i z seen best)

-- `distance[maxi][j]` for j from the given index on; the matrix is filled by distance[i][j] with j < i.
unfoldable pub distances_to : ℕ → Zone → ℕ → List Zone → List ℕ
distances_to maxi z j [] = []
distances_to maxi z j (r ∷ rs) =
    (if ltb j maxi then zone_distance z r else if ltb maxi j then zone_distance r z else 0)
    ∷ distances_to maxi z (j + 1) rs

abbrev entry : List ℕ → ℕ → ℕ
entry row j = elim (get_elem? row j) [ none ↦ 0 | some d ↦ d ]

-- The inner loop of the insertion sort, on `pos[0..i)` from its end.
unfoldable pub shift : List ℕ → ℕ → List ℕ → List ℕ
shift row tmp [] = tmp ∷ []
shift row tmp (p ∷ ps) =
    if ltb (entry row tmp) (entry row p) then p ∷ shift row tmp ps else tmp ∷ p ∷ ps

-- `pos` reversed, after `left` more rounds.
unfoldable pub sort_positions : List ℕ → ℕ → ℕ → List ℕ → List ℕ
unfolding shift
sort_positions row zero i done = done
sort_positions row (suc left) i done = sort_positions row left (i + 1) (shift row i done)

-- `zone[pos[i]] = *it`, for the i-th child on.
unfoldable pub place : ℕ → List ℕ → List (Option ℕ) → List (Option ℕ)
place i [] slots = slots
place i (p ∷ ps) slots = place (i + 1) ps (set slots p (some i))

abbrev no_slots : ℕ → List (Option ℕ)
no_slots zero = []
no_slots (suc n) = none ∷ no_slots n

abbrev row_of : List Zone → ℕ → Option Zone → List ℕ
row_of zs maxi none = []
row_of zs maxi (some z) = distances_to maxi z 0 zs

-- `pos`: the children by their distance to the one that is farthest from another.
unfoldable pub positions : List Zone → List ℕ
unfolding farthest distances_to sort_positions
positions zs =
    let maxi = farthest 0 [] zs (0, 0) in
    reverse (sort_positions (row_of zs maxi (get_elem? zs maxi)) (length zs) 0 [])

-- The array `zone`: which child stands in each slot.
unfoldable pub arrange : List Zone → List (Option ℕ)
unfolding positions place
arrange zs = place 0 (positions zs) (no_slots (length zs))

-- Sends one child to the new node `offers`, and adds it to the children of its InitStructNodeMsg.
abbrev pub give_child : Address → ℕ → Option TxZone → Node × List Address → Node × List Address
give_child offers slot none (n, children) = (emit undefined n, children)
give_child offers slot (some t) (n, children) = (
  emit
      (send t.actual_link
        (new_father (record { tid = n.transaction; father = offers; for_rn = n.level == 0 })))
      (record n {
        sub_zones = set n.sub_zones slot (reset_link t);
        no_ack = n.no_ack ++ (t.actual_link, n.level == 0) ∷ [];
      }),
  children ++ t.actual_link ∷ [],
)

abbrev pub give_slot : Address → Option ℕ → Node × List Address → Node × List Address
give_slot offers none (n, children) = (emit undefined n, children)
give_slot offers (some i) (n, children) =
    give_child offers i (get_elem? n.sub_zones i) (n, children)

unfoldable pub give_away : Address → List (Option ℕ) → Node × List Address → Node × List Address
give_away offers [] s = s
give_away offers (slot ∷ slots) s = give_away offers slots (give_slot offers slot s)

-- Slots of all children, in their order.
unfoldable pub all_slots : ℕ → List TxZone → List (Option ℕ)
all_slots i [] = []
all_slots i (t ∷ ts) = some i ∷ all_slots (i + 1) ts
