-- ===== src/Structure/Requests.antt =====
-- The handlers of src/lib/overlay/StructureNode.cpp whose messages may be delayed: InsertMsg,
-- StrNodeNeededMsg, NewFatherMsg and NewChildMsg.
use stars.Prelude.{
  ℕ, Bool, true, false, ◌&&◌, ◌||◌, not, Option, none, some, List, [], ◌∷◌, ltb, leb, ◌==◌,
  if◌then◌else◌, is_some, length,
}
use stars.Address.{Address, null, same, differ}
use stars.Zone.{Zone, contains}
use stars.TxZone.{TxZone, fresh_zone, set_link, set_zone, test_and_set}
use stars.Message.{
  Msg, InsertMsg, StrNodeNeededMsg, NewFatherMsg, NewChildMsg, Env, send, start_changes,
  availability_changed, undefined, insert, str_node_needed, new_str_node, new_father, new_child,
  ack, nack, null_transaction_id, plain_ack,
}
use stars.Structure.{
  Node, start_in, add_child, change_father, is_online, is_offline, is_start_in, is_init,
  is_add_child, emit, delay, max_children,
}
use stars.Structure.Zones.{sort_zones, front_known}
use stars.Structure.Routing.{Choice, direction_to, int_rank, most_available, spend_node}
use stars.Structure.Outcome.{roll_back}

abbrev pub new_entry : Address → TxZone
new_entry who = set_link fresh_zone who

abbrev ack_rn : ℕ → Msg
ack_rn tid = ack (record { tid = tid; for_rn = true; from_rn = false })

abbrev send_down : Address → InsertMsg → Node → Option Choice → Node
send_down src msg n none = emit undefined n
send_down src msg n (some to) =
    if front_known n.sub_zones || contains to.zone msg.who
    then emit (send to.link (insert msg)) n
    else delay src (insert msg) n

-- A new entry for the node, an AckMsg for its resource node, and a transaction that it drives.
abbrev open_insert : InsertMsg → Node → Node
open_insert msg n = emit start_changes (record n { transaction = msg.tid; tx_driver = msg.who })

abbrev insert_here : InsertMsg → Node → Node
insert_here msg n =
    record (emit (send msg.who (ack_rn msg.tid))
      (record (open_insert msg n) { sub_zones = sort_zones (new_entry msg.who ∷ n.sub_zones) })) {
        state = add_child;
      }

abbrev create_network : InsertMsg → Node → Node
create_network msg n =
    record (emit (send msg.who (ack_rn msg.tid)) (
      emit (availability_changed false)
        (record (open_insert msg n) { sub_zones = new_entry msg.who ∷ n.sub_zones }))) {
          state = add_child;
        }

abbrev insert_online : Address → InsertMsg → Bool → Node → Option Zone → Node
insert_online src msg self n none = emit undefined n
insert_online src msg self n (some zone) =
    if differ n.father null && (differ src n.father || self) && not (contains zone msg.who)
    then emit (send n.father (insert msg)) n
    else if ltb 0 n.level
    then send_down src msg n (direction_to msg.who 0 n.sub_zones)
    else insert_here msg n

unfoldable pub handle_insert : Env → Address → InsertMsg → Bool → Node → Node
unfolding same contains direction_to set_link fresh_zone
handle_insert env src msg self n =
    if msg.for_rn
    then n
    else if not (n.transaction == null_transaction_id)
    then delay src (insert msg) n
    else if is_online n.state && not (is_some n.zone_desc)
    then delay src (insert msg) n
    else if leb (max_children n) (length n.sub_zones)
    then delay src (insert msg) n
    else if is_online n.state
    then insert_online src msg self n n.zone_desc
    else if same msg.who env.self
    then create_network msg n
    else n

abbrev pub relay_needed : Address → StrNodeNeededMsg → Node → Choice → Node
relay_needed src msg n to =
    if ltb (int_rank 0) (int_rank to.zone.available_str_nodes)
    then emit (send to.link (str_node_needed msg))
        (record n { sub_zones = spend_node to.index n.sub_zones })
    else if front_known n.sub_zones && differ n.father null
    then emit (send n.father (str_node_needed msg)) n
    else delay src (str_node_needed msg) n

abbrev pub route_needed : Address → StrNodeNeededMsg → Node → Option (Option Choice) → Node
route_needed src msg n none = emit undefined n
route_needed src msg n (some none) = delay src (str_node_needed msg) n
route_needed src msg n (some (some to)) = relay_needed src msg n to

abbrev offer_node : Env → StrNodeNeededMsg → Node → Node
offer_node env msg n =
    record (emit
      (send msg.who_needs (new_str_node (record { tid = msg.tid; who_offers = env.self })))
      (emit (availability_changed false)
        (record (emit start_changes n) { transaction = msg.tid; tx_driver = msg.who_needs }))) {
          state = start_in;
        }

unfoldable pub handle_needed : Env → Address → StrNodeNeededMsg → Node → Node
unfolding same most_available spend_node
handle_needed env src msg n =
    if not (is_offline n.state) && not (is_start_in n.state)
    then route_needed src msg n (most_available 0 n.sub_zones)
    else if is_offline n.state
    then offer_node env msg n
    else n

abbrev end_transaction : Env → Node → Node
end_transaction env n = if not (n.transaction == null_transaction_id) then roll_back env n else n

abbrev change_to : Env → Address → NewFatherMsg → Node → Node
change_to env src msg n =
    emit (send src (plain_ack msg.tid))
      (record (emit start_changes
        (record (end_transaction env n) { tx_driver = src; new_father = msg.father })) {
          transaction = msg.tid;
          state = change_father;
        })

unfoldable pub handle_new_father : Env → Address → NewFatherMsg → Node → Node
unfolding same roll_back
handle_new_father env src msg n =
    if msg.for_rn
    then n
    else if is_offline n.state
    then n
    else if is_start_in n.state || is_init n.state || is_add_child n.state
    then delay src (new_father msg) n
    else if same src n.father
    then change_to env src msg n
    else emit (send src (nack (record { tid = msg.tid; for_rn = false }))) n

-- The sender's entry gives its link to the new child, or loses its zone until it reports again.
abbrev mark_child : NewChildMsg → TxZone → TxZone
mark_child msg t =
    if msg.replace
    then set_zone (set_link t msg.child) none
    else if (test_and_set t msg.seq).1
    then set_zone (set_link (test_and_set t msg.seq).0 t.actual_link) none
    else (test_and_set t msg.seq).0

-- The first entry whose link is the sender, changed; `none` if there is no such entry.
unfoldable pub mark_in : Address → NewChildMsg → List TxZone → Option (List TxZone)
unfolding same set_zone set_link test_and_set
mark_in src msg [] = none
mark_in src msg (t ∷ ts) =
    if same src t.actual_link
    then some (mark_child msg t ∷ ts)
    else elim (mark_in src msg ts) [ none ↦ none | some us ↦ some (t ∷ us) ]

abbrev pub add_entry : NewChildMsg → List TxZone → List TxZone
add_entry msg ts = if msg.replace then ts else new_entry msg.child ∷ ts

abbrev pub adopt : Address → NewChildMsg → Node → Option (List TxZone) → Node
adopt src msg n none = n
adopt src msg n (some ts) =
    record (emit (send src (plain_ack msg.tid)) (record (emit start_changes n) {
      transaction = msg.tid;
      tx_driver = src;
      sub_zones = sort_zones (add_entry msg ts);
    })) { state = add_child }

unfoldable pub handle_new_child : Address → NewChildMsg → Node → Node
unfolding mark_in fresh_zone set_link
handle_new_child src msg n =
    if not (n.transaction == null_transaction_id)
    then delay src (new_child msg) n
    else if not msg.replace && leb (max_children n) (length n.sub_zones)
    then delay src (new_child msg) n
    else adopt src msg n (mark_in src msg n.sub_zones)
