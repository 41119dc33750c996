-- ===== src/Structure/SplitKeeps.antt =====
-- The split of a structure node, and the birth of the new one, keep the invariant.
use stars.Prelude.{
  ℕ, zero, suc, ◌≡◌, refl, ◌≢◌, inl, inr, false, ◌&&◌, Option, none, some, List, [], ◌∷◌, ◌++◌, ◌∙◌,
  ◌/◌, map, arith, Bool-cases, Option-cases, get_elem?, set, drop, length,
}
use stars.Address.{Address, null, same}
use stars.TxZone.{TxZone, fresh_zone, set_link, reset_link}
use stars.Message.{NewStrNodeMsg, InitStructNodeMsg, Env, undefined, start_changes, cancel_timer}
use stars.Structure.{Node}
use stars.Structure.Split.{give_away, give_slot}
use stars.Structure.Growth.{
  handle_new_str_node, handle_init, accept_offer, announce, divide, split_with,
}
use stars.Structure.Requests.{new_entry}
use stars.Structure.Sorted.{AllKnown, NullsFirst}
use stars.Structure.Consistent.{Consistent, AllUnborn, emit-Consistent, is_unborn}

set-AllKnown :
    (ts : List TxZone) (i : ℕ) (t : TxZone)
    → get_elem? ts i ≡ some t
    → AllKnown ts
    → AllKnown (set ts i (reset_link t))
unfolding reset_link
set-AllKnown [] i t e h = tt
set-AllKnown (u ∷ us) zero t e h = ground arith
set-AllKnown (u ∷ us) (suc i) t e (k, h) = (k, set-AllKnown us i t e h)

set-NullsFirst :
    (ts : List TxZone) (i : ℕ) (t : TxZone)
    → get_elem? ts i ≡ some t
    → NullsFirst ts
    → NullsFirst (set ts i (reset_link t))
unfolding reset_link
set-NullsFirst [] i t e h = tt
set-NullsFirst (u ∷ us) zero t e h = ground arith
set-NullsFirst (u ∷ us) (suc i) t e (all, h) =
    (λ k. set-AllKnown us i t e (all k), set-NullsFirst us i t e h)

-- What the split changes of a node: neither its state nor its transaction.
record Kept (n r : Node) : Type 0 where
  consistent : Consistent r
  same_state : r.state ≡ n.state
  same_transaction : r.transaction ≡ n.transaction

give_slot-Kept :
    (offers : Address) (slot : Option ℕ) (s : Node × List Address)
    → is_unborn s.0.state ≡ false
    → Consistent s.0
    → Kept s.0 (give_slot offers slot s).0
give_slot-Kept offers none (n, children) grown c = record {
  consistent = emit-Consistent undefined c;
  same_state = refl;
  same_transaction = refl;
}
give_slot-Kept offers (some i) (n, children) grown c =
    elim (Option-cases (get_elem? n.sub_zones i)) [
      | inl e ↦ ground (arith, c)
      | inr (t, e) ↦ ground (arith, set-NullsFirst n.sub_zones i t e c.nulls_first)
    ]

give_away-Kept :
    (offers : Address) (slots : List (Option ℕ)) (s : Node × List Address)
    → is_unborn s.0.state ≡ false
    → Consistent s.0
    → Kept s.0 (give_away offers slots s).0
unfolding give_away
give_away-Kept offers [] s grown c = record {
  consistent = c;
  same_state = refl;
  same_transaction = refl;
}
give_away-Kept offers (slot ∷ slots) s grown c =
    let first = give_slot-Kept offers slot s grown c in
    let rest =
      give_away-Kept offers slots (give_slot offers slot s) (rw first.same_state grown)
        first.consistent in
    record {
      consistent = rest.consistent;
      same_state = rest.same_state ∙ first.same_state;
      same_transaction = rest.same_transaction ∙ first.same_transaction;
    }

divide-Consistent :
    (offers : Address) (n : Node) (slots : Option (List (Option ℕ)))
    → n.transaction ≢ 0
    → is_unborn n.state ≡ false
    → Consistent n
    → Consistent (divide offers n slots)
divide-Consistent offers n none open_tx grown c = emit-Consistent undefined c
divide-Consistent offers n (some slots) open_tx grown c =
    ground (arith, give_away-Kept offers (drop (length n.sub_zones / 2) slots) (n, []) grown c)

announce-Kept :
    (env : Env) (offers : Address) (n : Node) → Consistent n → Kept n (announce env offers n)
unfolding announce
announce-Kept env offers n c = ground arith

split_with-Consistent :
    (env : Env) (offers : Address) (n : Node)
    → n.transaction ≢ 0
    → is_unborn n.state ≡ false
    → Consistent n
    → Consistent (split_with env offers n)
split_with-Consistent env offers n open_tx grown c =
    let base : Consistent (record n { new_brother = offers }) = ground arith in
    let told = announce-Kept env offers (record n { new_brother = offers }) base in
    divide-Consistent offers (announce env offers (record n { new_brother = offers })) _
      (rw told.same_transaction open_tx) (rw told.same_state grown) told.consistent

accept_offer-Consistent :
    (env : Env) (offers : Address) (n : Node)
    → n.transaction ≢ 0
    → is_unborn n.state ≡ false
    → Consistent n
    → Consistent (accept_offer env offers n)
unfolding accept_offer
accept_offer-Consistent env offers n open_tx grown c =
    let begun =
      emit-Consistent start_changes (emit-Consistent (cancel_timer n.str_needed_timer) c) in
    elim (Bool-cases (same n.father null && same n.new_father null)) [
      | inl e ↦ rw e (ground (arith, begun))
      | inr e ↦ rw e (split_with-Consistent env offers _ open_tx grown begun)
    ]

pub handle_new_str_node-Consistent :
    (env : Env) (src : Address) (msg : NewStrNodeMsg) (n : Node)
    → Consistent n
    → Consistent (handle_new_str_node env src msg n)
unfolding handle_new_str_node
handle_new_str_node-Consistent env src msg n c =
    ground (arith, accept_offer-Consistent env msg.who_offers n)

append-AllUnborn :
    (ts : List TxZone) (children : List Address)
    → AllUnborn ts
    → AllUnborn (ts ++ map new_entry children)
unfolding set_link fresh_zone
append-AllUnborn [] [] h = tt
append-AllUnborn [] (a ∷ children) h = ((refl, refl, refl), append-AllUnborn [] children tt)
append-AllUnborn (t ∷ ts) children (k, h) = (k, append-AllUnborn ts children h)

AllUnborn-NullsFirst : (ts : List TxZone) → AllUnborn ts → NullsFirst ts
AllUnborn-NullsFirst [] h = tt
AllUnborn-NullsFirst (t ∷ ts) (k, h) = ground (arith, AllUnborn-NullsFirst ts h)

pub handle_init-Consistent :
    (src : Address) (msg : InitStructNodeMsg) (n : Node)
    → Consistent n
    → Consistent (handle_init src msg n)
unfolding handle_init
handle_init-Consistent src msg n c = ground (
  arith,
  append-AllUnborn n.sub_zones msg.children,
  AllUnborn-NullsFirst (n.sub_zones ++ map new_entry msg.children),
)
