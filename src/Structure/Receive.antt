-- ===== src/Structure/Receive.antt =====
-- The messages that a structure node handles at once, the ones that it delayed, and receiveMessage
-- (src/lib/overlay/StructureNode.cpp).
use stars.Prelude.{
  ℕ, zero, suc, Bool, true, false, ◌&&◌, ◌||◌, some, List, [], ◌∷◌, ◌++◌, ◌==◌, if◌then◌else◌,
  is_some, length,
}
use stars.Address.{Address, same}
use stars.TxZone.{TxZone, comes_from, test_and_set, set_zone_from}
use stars.Message.{
  Msg, UpdateZoneMsg, AckMsg, OutcomeMsg, Env, send, insert, update_zone, str_node_needed,
  new_str_node, init_struct_node, new_father, new_child, ack, nack, commit, rollback,
  insert_command, null_transaction_id,
}
use stars.Structure.{Node, is_online, emit}
use stars.Structure.Zones.{sort_zones, recompute_zone, front_known, is_empty}
use stars.Structure.Helpers.{notify_father, check_fanout}
use stars.Structure.Outcome.{close_commit, commit_state, roll_back, same_member}
use stars.Structure.Requests.{handle_insert, handle_needed, handle_new_father, handle_new_child}
use stars.Structure.Growth.{handle_new_str_node, handle_init}

-- Other classes are never delayed, and would be dropped.
abbrev pub retry : Env → Address × Msg → Node → Node
retry env (src, insert msg) n = handle_insert env src msg true n
retry env (src, str_node_needed msg) n = handle_needed env src msg n
retry env (src, new_father msg) n = handle_new_father env src msg n
retry env (src, new_child msg) n = handle_new_child src msg n
retry env (src, _) n = n

abbrev pub retry_front : Env → Node → List (Address × Msg) → Node
retry_front env n [] = n
retry_front env n (first ∷ rest) = retry env first (record n { delayed = rest })

-- `size` rounds at most, while no transaction is open.
unfoldable pub retry_delayed : Env → ℕ → Node → Node
unfolding handle_insert handle_needed handle_new_father handle_new_child
retry_delayed env zero n = n
retry_delayed env (suc size) n =
    let rest = retry_delayed env size (retry_front env n n.delayed) in
    if n.transaction == null_transaction_id then rest else n

unfoldable pub handle_delayed_msgs : Env → Node → Node
unfolding retry_delayed
handle_delayed_msgs env n = retry_delayed env (length n.delayed) n

-- The end of commit(), of a rollback and of an update: the delayed messages, and then the size.
abbrev pub settle : Env → Node → Node
settle env n = check_fanout env (handle_delayed_msgs env n)

unfoldable pub commit_node : Env → Node → Node
unfolding close_commit commit_state check_fanout handle_delayed_msgs
commit_node env n =
    let done = commit_state n.transaction (close_commit env n) in
    if is_online done.state && is_some done.zone_desc then settle env done else done

abbrev pub rollback_node : Env → Node → Node
rollback_node env n =
    let done = roll_back env n in
    if is_online done.state && is_some done.zone_desc then settle env done else done

-- What the loop over the children finds for an update.
pub data Found : Type 0 where
  missing stale : Found
  updated : List TxZone → Found

abbrev pub behind : TxZone → Found → Found
behind t missing = missing
behind t stale = stale
behind t (updated ts) = updated (t ∷ ts)

unfoldable pub update_in : Address → UpdateZoneMsg → List TxZone → Found
unfolding comes_from test_and_set set_zone_from
update_in src msg [] = missing
update_in src msg (t ∷ ts) =
    let rest = update_in src msg ts in
    if comes_from t src
    then (if (test_and_set t msg.seq).1
        then updated (set_zone_from (test_and_set t msg.seq).0 src (some msg.zone) ∷ ts)
        else stale)
    else behind t rest

abbrev pub after_update : Env → UpdateZoneMsg → Node → Node
after_update env msg n =
    if n.transaction == null_transaction_id && is_some n.zone_desc
    then settle env (if front_known n.sub_zones then notify_father n msg.tid else n)
    else n

abbrev pub apply_update : Env → UpdateZoneMsg → Node → Found → Node
apply_update env msg n missing = n
apply_update env msg n stale = n
apply_update env msg n (updated ts) =
    after_update env msg (recompute_zone (record n { sub_zones = sort_zones ts }))

unfoldable pub handle_update : Env → Address → UpdateZoneMsg → Node → Node
handle_update env src msg n = apply_update env msg n (update_in src msg n.sub_zones)

abbrev pub has_member : Address × Bool → List (Address × Bool) → Bool
has_member a [] = false
has_member a (b ∷ bs) = same_member a b || has_member a bs

-- The first entry of the sender leaves the list.
unfoldable pub drop_member : Address × Bool → List (Address × Bool) → List (Address × Bool)
unfolding same
drop_member a [] = []
drop_member a (b ∷ bs) = if same_member a b then bs else b ∷ drop_member a bs

unfoldable pub note_ack : Address × Bool → Node → Node
unfolding drop_member
note_ack member n =
    if has_member member n.no_ack
    then record n {
      acked = if has_member member n.acked then n.acked else n.acked ++ member ∷ [];
      no_ack = drop_member member n.no_ack;
    }
    else n

abbrev pub close_if_all : Env → Node → Node
close_if_all env n = if is_empty n.no_ack then commit_node env n else n

unfoldable pub handle_ack : Env → Address → AckMsg → Node → Node
unfolding same
handle_ack env src msg n =
    if msg.for_rn
    then n
    else if n.transaction == msg.tid && same n.tx_driver env.self
    then close_if_all env (note_ack (src, msg.from_rn) n)
    else emit (send src (rollback (record { tid = msg.tid; for_rn = msg.from_rn }))) n

unfoldable pub handle_nack : Env → OutcomeMsg → Node → Node
unfolding same
handle_nack env msg n =
    if msg.for_rn
    then n
    else if n.transaction == msg.tid && same n.tx_driver env.self
    then rollback_node env n
    else n

unfoldable pub handle_commit : Env → OutcomeMsg → Node → Node
handle_commit env msg n =
    if msg.for_rn then n else if msg.tid == n.transaction then commit_node env n else n

unfoldable pub handle_rollback : Env → Address → OutcomeMsg → Node → Node
unfolding same
handle_rollback env src msg n =
    if msg.for_rn
    then n
    else if msg.tid == n.transaction && same n.tx_driver src
    then rollback_node env n
    else n

-- receiveMessage: the new state, and whether the message is one of the node's.
unfoldable pub receive : Env → Address → Msg → Node → Node × Bool
receive env src (init_struct_node msg) n = (handle_init src msg n, true)
receive env src (update_zone msg) n = (handle_update env src msg n, true)
receive env src (insert msg) n = (handle_insert env src msg false n, true)
receive env src (str_node_needed msg) n = (handle_needed env src msg n, true)
receive env src (new_str_node msg) n = (handle_new_str_node env src msg n, true)
receive env src (new_father msg) n = (handle_new_father env src msg n, true)
receive env src (new_child msg) n = (handle_new_child src msg n, true)
receive env src (ack msg) n = (handle_ack env src msg n, true)
receive env src (commit msg) n = (handle_commit env msg n, true)
receive env src (nack msg) n = (handle_nack env msg n, true)
receive env src (rollback msg) n = (handle_rollback env src msg n, true)
receive env src (insert_command msg) n = (n, false)
