-- ===== src/Structure/Protocol.antt =====
-- Every message that a structure node receives keeps its invariant, and so do all runs.
use stars.Prelude.{ℕ, ◌≡◌, refl, ◌↔◌, ◌≢◌, Bool, true, false, List, [], ◌∷◌, arith}
use stars.Address.{Address, null}
use stars.Message.{
  Msg, AckMsg, Env, insert, update_zone, str_node_needed, new_str_node, init_struct_node,
  new_father, new_child, ack, nack, commit, rollback, insert_command,
}
use stars.Structure.{Node, create}
use stars.Structure.Zones.{front_known}
use stars.Structure.Receive.{
  handle_update, handle_ack, handle_nack, handle_commit, handle_rollback, receive, note_ack,
  close_if_all,
}
use stars.Structure.Sorted.{front_iff, AllKnown}
use stars.Structure.Consistent.{Consistent, IsNamed}
use stars.Structure.Invariant.{
  commit_node-Consistent, rollback_node-Consistent, handle_insert-Consistent,
  handle_needed-Consistent, handle_new_father-Consistent, handle_new_child-Consistent,
}
use stars.Structure.UpdateKeeps.{apply_update-Consistent, update_in-FoundUnborn}
use stars.Structure.SplitKeeps.{handle_new_str_node-Consistent, handle_init-Consistent}

note_ack-Consistent :
    (member : Address × Bool) (n : Node)
    → Consistent n
    → Consistent (note_ack member n) × ((note_ack member n).transaction ≡ n.transaction)
unfolding note_ack
note_ack-Consistent member n c = ground arith

close_if_all-Consistent :
    (env : Env) (n : Node)
    → env.random_id ≢ 0
    → n.transaction ≢ 0
    → Consistent n
    → Consistent (close_if_all env n)
close_if_all-Consistent env n random open_tx c =
    ground (arith, commit_node-Consistent env n random open_tx c)

handle_ack-Consistent :
    (env : Env) (src : Address) (msg : AckMsg) (n : Node)
    → env.random_id ≢ 0
    → msg.tid ≢ 0
    → Consistent n
    → Consistent (handle_ack env src msg n)
unfolding handle_ack
handle_ack-Consistent env src msg n random named c =
    let (noted, same_tx) = note_ack-Consistent (src, msg.from_rn) n c in
    ground
      (arith, noted, same_tx, close_if_all-Consistent env (note_ack (src, msg.from_rn) n) random)

-- Every message keeps the invariant, if the sender has an address, the message names a transaction
-- where it opens or closes one, and random transaction ids are not zero.
pub receive-Consistent :
    (env : Env) (src : Address) (msg : Msg) (n : Node)
    → env.random_id ≢ 0
    → src ≢ null
    → IsNamed msg
    → Consistent n
    → Consistent (receive env src msg n).0
unfolding receive handle_update handle_nack handle_commit handle_rollback
receive-Consistent env src (init_struct_node msg) n random real named c =
    handle_init-Consistent src msg n c
receive-Consistent env src (update_zone msg) n random real named c =
    apply_update-Consistent env msg n _ random
      (λ e. update_in-FoundUnborn src msg n.sub_zones real (c.unborn e)) c
receive-Consistent env src (insert msg) n random real named c =
    handle_insert-Consistent env src msg false n named c
receive-Consistent env src (str_node_needed msg) n random real named c =
    handle_needed-Consistent env src msg n named c
receive-Consistent env src (new_str_node msg) n random real named c =
    handle_new_str_node-Consistent env src msg n c
receive-Consistent env src (new_father msg) n random real named c =
    handle_new_father-Consistent env src msg n named c
receive-Consistent env src (new_child msg) n random real named c =
    handle_new_child-Consistent src msg n named c
receive-Consistent env src (ack msg) n random real named c =
    handle_ack-Consistent env src msg n random named c
receive-Consistent env src (commit msg) n random real named c =
    ground (arith, commit_node-Consistent env n random)
receive-Consistent env src (nack msg) n random real named c =
    ground (arith, rollback_node-Consistent env n random c)
receive-Consistent env src (rollback msg) n random real named c =
    ground (arith, rollback_node-Consistent env n random c)
receive-Consistent env src (insert_command msg) n random real named c = c

-- A message that arrives, with what the node takes from outside while it handles it.
pub record Arrival : Type 0 where
  pub env : Env
  pub src : Address
  pub msg : Msg

pub record IsProper (a : Arrival) : Type 0 where
  pub random : a.env.random_id ≢ 0
  pub real : a.src ≢ null
  pub named : IsNamed a.msg

abbrev pub AllProper : List Arrival → Type 0
AllProper [] = Unit
AllProper (a ∷ rest) = IsProper a × AllProper rest

unfoldable pub run : Node → List Arrival → Node
run n [] = n
run n (a ∷ rest) = run (receive a.env a.src a.msg n).0 rest

run-Consistent :
    (n : Node) (history : List Arrival)
    → AllProper history
    → Consistent n
    → Consistent (run n history)
unfolding run
run-Consistent n [] proper c = c
run-Consistent n (a ∷ rest) (p, proper) c =
    run-Consistent (receive a.env a.src a.msg n).0 rest proper
      (receive-Consistent a.env a.src a.msg n p.random p.real p.named c)

-- After any history of proper messages a new node is consistent: it has a transaction open exactly in
-- the states of a transaction, it never enters the states of merging or of waiting to leave, its
-- children without information stand first, and its delayed messages name transactions. A message is
-- proper if its sender has an address, the random id at hand is not zero, and it names a transaction
-- where it opens or closes one.
pub run-create-Consistent :
    (fanout : ℕ) (history : List Arrival)
    → AllProper history
    → Consistent (run (create fanout) history)
unfolding create
run-create-Consistent fanout history proper =
    run-Consistent (create fanout) history proper (record {
      nulls_first = tt;
      idle = λ _. refl;
      busy = λ e. cc;
      used = refl;
      unborn = λ _. tt;
      named = tt;
    })

-- After any such history, the first child has reported its zone exactly when every child has, for a
-- node with children: the test of checkFanout and of the routing is the one that it is meant to be.
pub run-front_known :
    (fanout : ℕ) (history : List Arrival)
    → AllProper history
    → let ts = (run (create fanout) history).sub_zones in
      ts ≢ [] → (front_known ts ≡ true) ↔ AllKnown ts
run-front_known fanout history proper nonempty =
    front_iff _ nonempty (run-create-Consistent fanout history proper).nulls_first
