-- ===== src/Resource/Delayed.antt =====
-- A resource node that is in no transaction has no message waiting.
use stars.Prelude.{◌≡◌, refl, ◌≢◌, inl, inr, Bool, false, List, [], ◌∷◌, arith, ◌==◌, Bool-cases}
use stars.Address.{Address, null}
use stars.Message.{
  Msg, AckMsg, OutcomeMsg, Env, father_changed, insert, new_father, ack, nack, commit, rollback,
  insert_command,
}
use stars.Resource.{
  Leaf, emit, move_father, retry, retry_all, handle_delayed_msgs, handle_new_father, handle_insert,
  handle_ack, handle_undo, handle_commit, handle_insert_command, receive, commit_leaf,
  rollback_leaf, availability_changed, notify_father,
}

-- Idle means that nothing waits.
abbrev pub IsSettled : Leaf → Type 0
IsSettled e = e.transaction ≡ 0 → e.delayed ≡ []

retry-IsSettled :
    (m : Address × Msg) (e : Leaf) → e.transaction ≡ 0 → e.delayed ≡ [] → (retry m e).delayed ≡ []
unfolding handle_insert handle_new_father
retry-IsSettled (src, insert msg) e idle none_left = ground arith
retry-IsSettled (src, new_father msg) e idle none_left = ground arith
retry-IsSettled (src, _) e idle none_left = none_left

retry_all-IsSettled :
    (ms : List (Address × Msg)) (e : Leaf) → e.delayed ≡ [] → IsSettled (retry_all ms e)
unfolding retry_all
retry_all-IsSettled [] e none_left = λ _. none_left
retry_all-IsSettled (m ∷ ms) e none_left = elim (Bool-cases (e.transaction == 0)) [
  | inl idle ↦
      rw idle (retry_all-IsSettled ms (retry m e) (retry-IsSettled m e (ground arith) none_left))
  | inr busy ↦ rw busy (λ closed. absurd (ground (arith, closed)))
]

handle_delayed_msgs-IsSettled : (e : Leaf) → IsSettled (handle_delayed_msgs e)
unfolding handle_delayed_msgs
handle_delayed_msgs-IsSettled e = retry_all-IsSettled e.delayed (record e { delayed = [] }) refl

commit_leaf-IsSettled : (env : Env) (e : Leaf) → IsSettled (commit_leaf env e)
unfolding commit_leaf
commit_leaf-IsSettled env e =
    handle_delayed_msgs-IsSettled (move_father env (record e { transaction = 0 }))

rollback_leaf-IsSettled : (e : Leaf) → IsSettled (rollback_leaf e)
unfolding rollback_leaf
rollback_leaf-IsSettled e =
    handle_delayed_msgs-IsSettled
      (emit (father_changed false) (record e { transaction = 0; new_father_addr = null }))

availability_changed-IsSettled :
    (env : Env) (available : Bool) (e : Leaf)
    → IsSettled e
    → IsSettled (availability_changed env available e)
unfolding availability_changed notify_father
availability_changed-IsSettled env available e h = ground arith

handle_ack-IsSettled :
    (env : Env) (src : Address) (msg : AckMsg) (e : Leaf)
    → IsSettled e
    → IsSettled (handle_ack env src msg e)
unfolding handle_ack
handle_ack-IsSettled env src msg e h =
    ground (arith, commit_leaf-IsSettled env (record e { new_father_addr = src }))

handle_undo-IsSettled : (msg : OutcomeMsg) (e : Leaf) → IsSettled e → IsSettled (handle_undo msg e)
unfolding handle_undo
handle_undo-IsSettled msg e h = ground (arith, rollback_leaf-IsSettled e)

receive_settles :
    (env : Env) (src : Address) (msg : Msg) (e : Leaf)
    → env.random_id ≢ 0
    → IsSettled e
    → IsSettled (receive env src msg e).0
unfolding receive handle_new_father handle_insert handle_insert_command handle_commit
receive_settles env src (new_father msg) e random h = ground arith
receive_settles env src (ack msg) e random h = handle_ack-IsSettled env src msg e h
receive_settles env src (nack msg) e random h = handle_undo-IsSettled msg e h
receive_settles env src (commit msg) e random h = ground (arith, commit_leaf-IsSettled env e)
receive_settles env src (rollback msg) e random h = handle_undo-IsSettled msg e h
receive_settles env src (insert msg) e random h = ground arith
receive_settles env src (insert_command msg) e random h = ground arith
receive_settles env src _ e random h = h

-- Whatever message arrives, a resource node without a transaction has no delayed message left
-- afterwards, if that was so before and the random id at hand is not zero; and so it is when its
-- structure node changes its availability.
pub receive-IsSettled :
    (env : Env) (src : Address) (msg : Msg) (available : Bool) (e : Leaf)
    → env.random_id ≢ 0
    → IsSettled e
    → IsSettled (receive env src msg e).0 × IsSettled (availability_changed env available e)
receive-IsSettled env src msg available e random h =
    (receive_settles env src msg e random h, availability_changed-IsSettled env available e h)
