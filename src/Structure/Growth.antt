-- ===== src/Structure/Growth.antt =====
-- The handlers of NewStrNodeMsg and InitStructNodeMsg in src/lib/overlay/StructureNode.cpp: a node splits
-- its children with a new brother, or leaves all of them to it; the new node takes its place.
use stars.Prelude.{
  ℕ, ◌+◌, ◌/◌, ◌%◌, Bool, true, false, ◌&&◌, Option, none, some, List, [], ◌∷◌, ◌++◌, map, ltb,
  ◌==◌, if◌then◌else◌, u32, u64, length, drop,
}
use stars.Address.{Address, null, same, differ}
use stars.TxZone.{TxZone}
use stars.Message.{
  Msg, NewStrNodeMsg, InitStructNodeMsg, Env, send, cancel_timer, start_changes, undefined,
  init_struct_node, new_child, rollback, nack, plain_ack,
}
use stars.Structure.{Node, init, splitting, leaving, is_wait_str, is_leaving_wsn, is_start_in, emit}
use stars.Structure.Zones.{known_zones}
use stars.Structure.Helpers.{ask_for_node}
use stars.Structure.Split.{arrange, all_slots, give_away}
use stars.Structure.Requests.{new_entry}

-- The array `zone` of the split. With a single child no zone is read.
unfoldable pub split_slots : List TxZone → Option (List (Option ℕ))
unfolding known_zones arrange all_slots
split_slots ts =
    if ltb (length ts) 2
    then some (all_slots 0 ts)
    else if length (known_zones ts) == length ts
    then some (arrange (known_zones ts))
    else none

abbrev pub add_member : Address × Bool → Node → Node
add_member member n = record n { no_ack = n.no_ack ++ member ∷ [] }

abbrev init_msg : Node → Option Address → ℕ → List Address → Msg
init_msg n father level children =
    init_struct_node
      (record { tid = n.transaction; father = father; children = children; level = level })

-- A NewChildMsg for the father, who becomes a member of the transaction.
abbrev tell_father : Address → Bool → Node → Node
tell_father offers replace n =
    emit
      (send n.father (
        new_child (record { tid = n.transaction; child = offers; seq = n.seq; replace = replace })))
      (add_member (n.father, false) (record n { seq = (n.seq + 1) % u64 }))

abbrev has_new_father : Node → Bool
has_new_father n = same n.father null && differ n.new_father null

-- The first half of the split: the father, old or new, hears of the new brother.
unfoldable pub announce : Env → Address → Node → Node
unfolding same
announce env offers n =
    if has_new_father n
    then emit (send n.new_father (init_msg n none ((n.level + 1) % u32) (env.self ∷ offers ∷ []))) n
    else tell_father offers false n

abbrev pub brother_father : Node → Address
brother_father n = if has_new_father n then n.new_father else n.father

-- The end of both forms: the brother is a member, and receives the children that were given away.
abbrev pub send_brother : Address → Option Address → Node × List Address → Node
send_brother offers father (n, children) =
    emit (send offers (init_msg n father n.level children)) (add_member (offers, false) n)

abbrev pub divide : Address → Node → Option (List (Option ℕ)) → Node
divide offers n none = emit undefined n
divide offers n (some slots) =
    record (send_brother offers (some (brother_father n))
      (give_away offers (drop (length n.sub_zones / 2) slots) (n, []))) { state = splitting }

-- The root first asks for its own father.
abbrev pub take_father : Env → Address → Node → Node
take_father env offers n =
    ask_for_node env (add_member (offers, false) (record n { new_father = offers }))

abbrev pub start_offer : Node → Node
start_offer n = emit start_changes (emit (cancel_timer n.str_needed_timer) n)

abbrev pub split_with : Env → Address → Node → Node
split_with env offers n =
    let told = announce env offers (record n { new_brother = offers }) in
    divide offers told (split_slots told.sub_zones)

unfoldable pub accept_offer : Env → Address → Node → Node
unfolding same split_slots announce give_away
accept_offer env offers n =
    if same n.father null && same n.new_father null
    then take_father env offers (start_offer n)
    else split_with env offers (start_offer n)

abbrev pub leave_father : Address → Node → Node
leave_father offers n = if differ n.father null then tell_father offers true n else n

unfoldable pub leave_with : Address → Node → Node
unfolding same all_slots give_away
leave_with offers n =
    let told =
      leave_father offers
        (record (emit (cancel_timer n.str_needed_timer) n) { new_brother = offers }) in
    record (send_brother offers (if differ n.father null then some n.father else none)
      (give_away offers (all_slots 0 told.sub_zones) (told, []))) { state = leaving }

unfoldable pub handle_new_str_node : Env → Address → NewStrNodeMsg → Node → Node
unfolding accept_offer leave_with
handle_new_str_node env src msg n =
    if n.transaction == msg.tid && is_wait_str n.state
    then accept_offer env msg.who_offers n
    else if n.transaction == msg.tid && is_leaving_wsn n.state
    then leave_with msg.who_offers n
    else emit (send src (rollback (record { tid = msg.tid; for_rn = false }))) n

abbrev father_of : Option Address → Address
father_of none = null
father_of (some a) = a

unfoldable pub handle_init : Address → InitStructNodeMsg → Node → Node
handle_init src msg n =
    if n.transaction == msg.tid && is_start_in n.state
    then record (emit (send src (plain_ack n.transaction)) n) {
      new_father = father_of msg.father;
      level = msg.level;
      sub_zones = n.sub_zones ++ map new_entry msg.children;
      state = init;
    }
    else emit (send src (nack (record { tid = msg.tid; for_rn = false }))) n
