-- ===== src/Resource/Transaction.antt =====
-- A resource node as a participant of the two-phase commit that changes its father, and as the driver of
-- its own insertion.
use stars.Prelude.{◌≡◌, ◌≢◌, not, true, false, [], ◌∷◌, arith}
use stars.Address.{Address, null, same}
use stars.Address.Order.{same_iff}
use stars.Message.{
  Env, NewFatherMsg, OutcomeMsg, InsertCommandMsg, AckMsg, send, father_changing, father_changed,
  ack, commit, insert,
}
use stars.Resource.{
  Leaf, handle_delayed_msgs, handle_new_father, handle_ack, handle_undo, handle_commit,
  handle_insert_command, commit_leaf, rollback_leaf, notify_father, retry_all, get_status,
  own_update, change_father,
}

-- An idle leaf with a father that asks it to move acknowledges, and keeps its father until the outcome:
-- a commit of this transaction moves it to the new father, a rollback or a refusal of it leaves its father
-- as it was, and an outcome of another transaction changes nothing.
pub change_of_father :
    (env : Env) (e : Leaf) (msg : NewFatherMsg) (other : OutcomeMsg)
    → e.transaction ≡ 0
    → e.delayed ≡ []
    → e.father ≢ null
    → msg.for_rn ≡ true
    → other.tid ≢ msg.tid
    → let prepared = handle_new_father e.father msg e in
      let outcome : OutcomeMsg = record { tid = msg.tid; for_rn = true } in
      (prepared.father ≡ e.father)
      × (prepared.out
          ≡ send e.father (ack (record { tid = msg.tid; for_rn = false; from_rn = true }))
            ∷ father_changing
            ∷ e.out)
      × ((handle_commit env outcome prepared).father ≡ msg.father)
      × ((handle_commit env outcome prepared).transaction ≡ 0)
      × ((handle_undo outcome prepared).father ≡ e.father)
      × ((handle_undo outcome prepared).transaction ≡ 0)
      × ((handle_undo outcome prepared).seq ≡ e.seq)
      × (handle_commit env other prepared ≡ prepared)
      × (handle_undo other prepared ≡ prepared)
unfolding handle_new_father handle_commit handle_undo commit_leaf rollback_leaf notify_father
    handle_delayed_msgs retry_all
change_of_father env e msg other idle none_left placed for_leaf apart =
    ground (arith, same_iff e.father e.father, same_iff e.father null, same_iff e.father msg.father)

-- An insertion from the command to the answer of the structure node. The leaf asks the place that it is given to insert it,
-- by its own address, in the transaction it starts, as a resource node unless the place is the node itself. After the
-- answer it has the node that answered as its father, has reported itself to it with sequence number 1, and has sent it the commit.
pub insertion :
    (env : Env) (e : Leaf) (msg : InsertCommandMsg) (src : Address)
    → e.delayed ≡ []
    → e.father ≡ null
    → src ≢ null
    → let asked = handle_insert_command env msg e in
      let answer : AckMsg = record { tid = env.random_id; for_rn = true; from_rn = false } in
      let placed = handle_ack env src answer asked in
      (asked.transaction ≡ env.random_id)
      × (placed.father ≡ src)
      × (placed.transaction ≡ 0)
      × (placed.seq ≡ 2)
      × (placed.out
          ≡ send src (commit (record { tid = env.random_id; for_rn = false }))
            ∷ father_changed true
            ∷ send src (own_update env (record e { seq = 1 }))
            ∷ send msg.place (
                insert (record {
                  tid = env.random_id;
                  who = env.self;
                  for_rn = not (same msg.place env.self);
                }))
            ∷ father_changing
            ∷ e.out)
unfolding handle_insert_command handle_ack commit_leaf notify_father handle_delayed_msgs retry_all
insertion env e msg src none_left outside real =
    ground (arith, same_iff e.father null, same_iff src null, same_iff null null)

-- The father that a leaf is told to change to may be the one it has. Then the commit leaves the new
-- father set, and the leaf reports the status of a change that is not going on.
pub same_father_stays :
    (env : Env) (e : Leaf) (msg : NewFatherMsg)
    → e.transaction ≡ 0
    → e.delayed ≡ []
    → e.father ≢ null
    → msg.for_rn ≡ true
    → msg.father ≡ e.father
    → let done =
        handle_commit env
          (record { tid = msg.tid; for_rn = true })
          (handle_new_father e.father msg e) in
      (done.transaction ≡ 0) × (get_status done ≡ change_father)
unfolding handle_new_father handle_commit commit_leaf notify_father handle_delayed_msgs retry_all
    get_status
same_father_stays env e msg idle none_left placed for_leaf again =
    ground (arith, same_iff e.father e.father, same_iff e.father null, same_iff e.father msg.father)
