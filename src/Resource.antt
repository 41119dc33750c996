-- ===== src/Resource.antt =====
-- include/ResourceNode.hpp and src/lib/overlay/ResourceNode.cpp: the leaf of the overlay tree that stands
-- for one computer. It drives its own insertion, and takes part in a change of its father.
pub mod Delayed
pub mod Transaction
use stars.Prelude.{
  ℕ, ◌+◌, ◌%◌, Bool, true, false, not, ◌&&◌, ◌||◌, List, [], ◌∷◌, ◌++◌, ◌==◌, if◌then◌else◌, u64,
}
use stars.Address.{Address, null, same, differ}
use stars.Zone.{Zone}
use stars.Message.{
  Msg, InsertMsg, NewFatherMsg, AckMsg, OutcomeMsg, InsertCommandMsg, UpdateZoneMsg, Effect, Env,
  send, father_changing, father_changed, insert, update_zone, str_node_needed, new_str_node,
  init_struct_node, new_father, new_child, ack, nack, commit, rollback, insert_command,
  null_transaction_id,
}

-- The members of the class, and in `out` the calls that left the node, the latest first.
pub record Leaf : Type 0 where
  pub father : Address
  pub seq : ℕ
  pub transaction : ℕ
  pub new_father_addr : Address
  pub available_str_nodes : Bool
  pub delayed : List (Address × Msg)
  pub out : List Effect

-- ResourceNode()
unfoldable pub create : Leaf
create = record {
  father = null;
  seq = 1;
  transaction = null_transaction_id;
  new_father_addr = null;
  available_str_nodes = true;
  delayed = [];
  out = [];
}

pub data Status : Type 0 where
  offline online start_in start_out init_father change_father unknown : Status

-- getStatus()
unfoldable pub get_status : Leaf → Status
unfolding same
get_status e =
    if same e.father null && same e.new_father_addr null && e.transaction == null_transaction_id
    then offline
    else if differ e.father null
        && same e.new_father_addr null
        && e.transaction == null_transaction_id
    then online
    else if same e.father null
        && same e.new_father_addr null
        && not (e.transaction == null_transaction_id)
    then start_in
    else if differ e.father null
        && same e.new_father_addr null
        && not (e.transaction == null_transaction_id)
    then start_out
    else if same e.father null && differ e.new_father_addr null
    then init_father
    else if differ e.father null && differ e.new_father_addr null
    then change_father
    else unknown

abbrev pub emit : Effect → Leaf → Leaf
emit x e = record e { out = x ∷ e.out }

abbrev pub delay : Address → Msg → Leaf → Leaf
delay src msg e = record e { delayed = e.delayed ++ (src, msg) ∷ [] }

-- The UpdateZoneMsg of this leaf: its own address, and itself if it is available.
abbrev pub own_update : Env → Leaf → Msg
own_update env e = update_zone (record {
  tid = null_transaction_id;
  zone = record {
    min_addr = env.self;
    max_addr = env.self;
    available_str_nodes = if e.available_str_nodes then 1 else 0;
  };
  seq = e.seq;
})

unfoldable pub notify_father : Env → Leaf → Leaf
unfolding same
notify_father env e =
    if differ e.father null
    then emit (send e.father (own_update env e)) (record e { seq = (e.seq + 1) % u64 })
    else e

unfoldable pub availability_changed : Env → Bool → Leaf → Leaf
availability_changed env available e =
    if e.transaction == null_transaction_id
    then notify_father env (record e { available_str_nodes = available })
    else record e { available_str_nodes = available }

unfoldable pub handle_new_father : Address → NewFatherMsg → Leaf → Leaf
unfolding same
handle_new_father src msg e =
    if not msg.for_rn
    then e
    else if not (e.transaction == null_transaction_id)
    then delay src (new_father msg) e
    else if same e.father src
    then emit (send src (ack (record { tid = msg.tid; for_rn = false; from_rn = true })))
        (record (emit father_changing e) { new_father_addr = msg.father; transaction = msg.tid })
    else e

unfoldable pub handle_insert : Address → InsertMsg → Leaf → Leaf
unfolding same
handle_insert src msg e =
    if not msg.for_rn
    then e
    else if not (e.transaction == null_transaction_id)
    then delay src (insert msg) e
    else if differ e.father null
    then emit (send e.father (insert (record msg { for_rn = false }))) e
    else e

-- Other classes are never delayed, and would be dropped.
abbrev pub retry : Address × Msg → Leaf → Leaf
retry (src, insert msg) e = handle_insert src msg e
retry (src, new_father msg) e = handle_new_father src msg e
retry (src, _) e = e

-- The loop of handleDelayedMsgs, on the messages that it takes from the front of the list; those that a
-- handler delays again stand behind them.
unfoldable pub retry_all : List (Address × Msg) → Leaf → Leaf
unfolding handle_insert handle_new_father
retry_all [] e = e
retry_all (first ∷ rest) e =
    let done = retry_all rest (retry first e) in
    if e.transaction == null_transaction_id
    then done
    else record e { delayed = (first ∷ rest) ++ e.delayed }

unfoldable pub handle_delayed_msgs : Leaf → Leaf
unfolding retry_all
handle_delayed_msgs e = retry_all e.delayed (record e { delayed = [] })

abbrev pub move_father : Env → Leaf → Leaf
move_father env e =
    if same e.father null || differ e.father e.new_father_addr
    then emit (father_changed true) (
        notify_father env
          (record e { father = e.new_father_addr; new_father_addr = null; seq = 1 }))
    else e

unfoldable pub commit_leaf : Env → Leaf → Leaf
unfolding same
commit_leaf env e =
    handle_delayed_msgs (move_father env (record e { transaction = null_transaction_id }))

unfoldable pub rollback_leaf : Leaf → Leaf
rollback_leaf e = handle_delayed_msgs (
    emit (father_changed false)
      (record e { transaction = null_transaction_id; new_father_addr = null }))

unfoldable pub handle_ack : Env → Address → AckMsg → Leaf → Leaf
handle_ack env src msg e =
    if not msg.for_rn
    then e
    else if msg.tid == e.transaction
    then emit (send src (commit (record { tid = msg.tid; for_rn = false })))
        (commit_leaf env (record e { new_father_addr = src }))
    else e

-- The handlers of NackMsg and RollbackMsg are alike.
unfoldable pub handle_undo : OutcomeMsg → Leaf → Leaf
handle_undo msg e =
    if not msg.for_rn then e else if msg.tid == e.transaction then rollback_leaf e else e

unfoldable pub handle_commit : Env → OutcomeMsg → Leaf → Leaf
handle_commit env msg e =
    if not msg.for_rn then e else if msg.tid == e.transaction then commit_leaf env e else e

unfoldable pub handle_insert_command : Env → InsertCommandMsg → Leaf → Leaf
unfolding same
handle_insert_command env msg e =
    if same e.father null
    then emit
        (send msg.place (
          insert
            (record { tid = env.random_id; who = env.self; for_rn = differ msg.place env.self })))
        (record (emit father_changing e) { transaction = env.random_id })
    else e

-- receiveMessage: the new state, and whether the message is one of the leaf's.
unfoldable pub receive : Env → Address → Msg → Leaf → Leaf × Bool
receive env src (new_father msg) e = (handle_new_father src msg e, true)
receive env src (ack msg) e = (handle_ack env src msg e, true)
receive env src (nack msg) e = (handle_undo msg e, true)
receive env src (commit msg) e = (handle_commit env msg e, true)
receive env src (rollback msg) e = (handle_undo msg e, true)
receive env src (insert msg) e = (handle_insert src msg e, true)
receive env src (insert_command msg) e = (handle_insert_command env msg e, true)
receive env src _ e = (e, false)
