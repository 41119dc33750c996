-- ===== src/Structure/Undo.antt =====
-- The division of a node, Structure.Split.give_away, and the rollback of its transaction.
use stars.Prelude.{
  ℕ, zero, suc, ◌≡◌, refl, sym, ◌∙◌, ◌≢◌, inl, inr, true, false, Option, none, some, List, [], ◌∷◌,
  map, All, arith, set, get_elem?, Bool-cases,
}
use stars.Address.{Address, null}
use stars.Address.Order.{same_iff}
use stars.Zone.{Zone}
use stars.TxZone.{TxZone, reset_link, is_deletion, is_addition}
use stars.TxZone
use stars.Structure.{Node}
use stars.Structure.Split.{give_child, give_slot, give_away}
use stars.Structure.Outcome.{rollback_zones}

-- What a node says of a child outside of a transaction.
abbrev pub view : TxZone → Address × Option Zone
view t = (t.actual_link, t.actual_zone)

-- A child with a link that does not change, or is about to leave.
abbrev pub IsKept : TxZone → Type 0
IsKept t = (t.actual_link ≢ null) × (t.changing ≡ true → t.new_link ≡ null)

set-IsKept :
    (ts : List TxZone) (i : ℕ) (t : TxZone)
    → get_elem? ts i ≡ some t
    → All IsKept ts
    → All IsKept (set ts i (reset_link t)) × (map view (set ts i (reset_link t)) ≡ map view ts)
unfolding reset_link
set-IsKept [] i t h k = ground arith
set-IsKept (u ∷ us) zero t h (k, ks) =
    let e : u ≡ t = ground arith in rw (sym e) (((k.0, λ _. refl), ks), refl)
set-IsKept (u ∷ us) (suc i) t h (k, ks) =
    let (rest, same_views) = set-IsKept us i t h ks in ((k, rest), cc same_views)

rollback-view : (t : TxZone) → view (TxZone.rollback t) ≡ view t
unfolding TxZone.rollback
rollback-view t = ground arith

rollback_idle : (t : TxZone) → (TxZone.rollback t).changing ≡ false
unfolding TxZone.rollback
rollback_idle t = ground arith

rollback_zones-view :
    (ts : List TxZone)
    → All IsKept ts
    → (map view (rollback_zones ts) ≡ map view ts)
      × All (λ t. t.changing ≡ false) (rollback_zones ts)
unfolding rollback_zones is_deletion is_addition TxZone.rollback
rollback_zones-view [] k = (refl, tt)
rollback_zones-view (t ∷ ts) (k, ks) =
    let (views, idle) = rollback_zones-view ts ks in
    elim (Bool-cases t.changing) [
      | inl e ↦
          let goes : is_deletion t ≡ true =
            ground (arith, same_iff t.actual_link null, same_iff t.new_link null) in
          rw goes (cc (views, rollback-view t), (rollback_idle t, idle))
      | inr e ↦
          let stays : is_deletion t ≡ false = ground arith in
          let old : is_addition t ≡ false = ground arith in rw (stays, old) (cc views, (e, idle))
    ]

give_child-IsKept :
    (offers : Address) (i : ℕ) (found : Option TxZone) (n : Node) (children : List Address)
    → get_elem? n.sub_zones i ≡ found
    → All IsKept n.sub_zones
    → let n' = (give_child offers i found (n, children)).0 in
      All IsKept n'.sub_zones × (map view n'.sub_zones ≡ map view n.sub_zones)
give_child-IsKept offers i none n children e k = (k, refl)
give_child-IsKept offers i (some t) n children e k = set-IsKept n.sub_zones i t e k

give_slot-IsKept :
    (offers : Address) (slot : Option ℕ) (n : Node) (children : List Address)
    → All IsKept n.sub_zones
    → let n' = (give_slot offers slot (n, children)).0 in
      All IsKept n'.sub_zones × (map view n'.sub_zones ≡ map view n.sub_zones)
give_slot-IsKept offers none n children k = (k, refl)
give_slot-IsKept offers (some i) n children k =
    give_child-IsKept offers i (get_elem? n.sub_zones i) n children refl k

give_away-IsKept :
    (offers : Address) (slots : List (Option ℕ)) (n : Node) (children : List Address)
    → All IsKept n.sub_zones
    → let n' = (give_away offers slots (n, children)).0 in
      All IsKept n'.sub_zones × (map view n'.sub_zones ≡ map view n.sub_zones)
unfolding give_away
give_away-IsKept offers [] n children k = (k, refl)
give_away-IsKept offers (slot ∷ slots) n children k =
    let given = give_slot offers slot (n, children) in
    let (kept, views) = give_slot-IsKept offers slot n children k in
    let (kept', views') = give_away-IsKept offers slots given.0 given.1 kept in
    (kept', views' ∙ views)

-- When a node gives any of its children away, in any order, and the transaction is rolled back, it has the
-- children that it had before, with their links and zones, in their order, and none of them changes. The
-- children had links, and none was about to change to another one.
pub give_away-rollback_zones :
    (offers : Address) (slots : List (Option ℕ)) (n : Node) (children : List Address)
    → All IsKept n.sub_zones
    → let undone = rollback_zones (give_away offers slots (n, children)).0.sub_zones in
      (map view undone ≡ map view n.sub_zones) × All (λ t. t.changing ≡ false) undone
give_away-rollback_zones offers slots n children k =
    let (kept, same_views) = give_away-IsKept offers slots n children k in
    let (views, idle) = rollback_zones-view _ kept in (views ∙ same_views, idle)
