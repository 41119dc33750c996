-- ===== src/Structure/Invariant.antt =====
-- Every message that a structure node receives keeps its invariant.
use stars.Prelude.{
  ℕ, zero, suc, ◌≢◌, inl, inr, Bool, true, false, Option, none, some, List, [], ◌∷◌, arith, ◌==◌,
  if◌then◌else◌, Bool-cases, length,
}
use stars.Address.{Address}
use stars.TxZone.{TxZone}
use stars.Message.{
  Msg, InsertMsg, StrNodeNeededMsg, NewFatherMsg, NewChildMsg, Env, insert, str_node_needed,
  new_father, new_child,
}
use stars.Structure.{Node}
use stars.Structure.Outcome.{close_commit, commit_state, roll_back}
use stars.Structure.Routing.{Choice, most_available, spend_node}
use stars.Structure.Requests.{
  handle_insert, handle_needed, handle_new_father, handle_new_child, new_entry, mark_in,
  route_needed, adopt, add_entry,
}
use stars.Structure.Receive.{
  retry, retry_front, retry_delayed, handle_delayed_msgs, settle, commit_node, rollback_node,
}
use stars.Structure.Sorted.{AllKnown, NullsFirst, sort_zones-NullsFirst}
use stars.Structure.Consistent.{
  Consistent, AllNamed, AllUnborn, IsNamed, AllNamed-append, delay-Consistent,
}
use stars.Structure.Keeps.{
  roll_back-Consistent, check_fanout-Consistent, close_commit-fields, commit_state-Consistent,
}

pub handle_insert-Consistent :
    (env : Env) (src : Address) (msg : InsertMsg) (self : Bool) (n : Node)
    → IsNamed (insert msg)
    → Consistent n
    → Consistent (handle_insert env src msg self n)
unfolding handle_insert
handle_insert-Consistent env src msg self n named c = ground (
  arith,
  sort_zones-NullsFirst (new_entry msg.who ∷ n.sub_zones),
  AllNamed-append n.delayed src (insert msg) c.named named,
)

spend_node-AllKnown : (i : ℕ) (ts : List TxZone) → AllKnown ts → AllKnown (spend_node i ts)
unfolding spend_node
spend_node-AllKnown i [] h = tt
spend_node-AllKnown zero (t ∷ ts) h = ground arith
spend_node-AllKnown (suc i) (t ∷ ts) (k, h) = (k, spend_node-AllKnown i ts h)

spend_node-AllUnborn : (i : ℕ) (ts : List TxZone) → AllUnborn ts → AllUnborn (spend_node i ts)
unfolding spend_node
spend_node-AllUnborn i [] h = tt
spend_node-AllUnborn zero (t ∷ ts) h = ground arith
spend_node-AllUnborn (suc i) (t ∷ ts) (k, h) = (k, spend_node-AllUnborn i ts h)

spend_node-NullsFirst : (i : ℕ) (ts : List TxZone) → NullsFirst ts → NullsFirst (spend_node i ts)
unfolding spend_node
spend_node-NullsFirst i [] h = tt
spend_node-NullsFirst zero (t ∷ ts) h = ground arith
spend_node-NullsFirst (suc i) (t ∷ ts) (all, h) =
    (λ k. spend_node-AllKnown i ts (all k), spend_node-NullsFirst i ts h)

route_needed-Consistent :
    (src : Address) (msg : StrNodeNeededMsg) (n : Node) (to : Option (Option Choice))
    → IsNamed (str_node_needed msg)
    → Consistent n
    → Consistent (route_needed src msg n to)
route_needed-Consistent src msg n none named c = ground arith
route_needed-Consistent src msg n (some none) named c =
    delay-Consistent src (str_node_needed msg) c named
route_needed-Consistent src msg n (some (some to)) named c = ground (
  arith,
  spend_node-NullsFirst to.index n.sub_zones c.nulls_first,
  spend_node-AllUnborn to.index n.sub_zones,
  AllNamed-append n.delayed src (str_node_needed msg) c.named named,
)

pub handle_needed-Consistent :
    (env : Env) (src : Address) (msg : StrNodeNeededMsg) (n : Node)
    → IsNamed (str_node_needed msg)
    → Consistent n
    → Consistent (handle_needed env src msg n)
unfolding handle_needed
handle_needed-Consistent env src msg n named c =
    ground (arith, route_needed-Consistent src msg n (most_available 0 n.sub_zones) named c)

pub handle_new_father-Consistent :
    (env : Env) (src : Address) (msg : NewFatherMsg) (n : Node)
    → IsNamed (new_father msg)
    → Consistent n
    → Consistent (handle_new_father env src msg n)
unfolding handle_new_father
handle_new_father-Consistent env src msg n named c = ground (
  arith,
  roll_back-Consistent env n c,
  AllNamed-append n.delayed src (new_father msg) c.named named,
)

adopt-Consistent :
    (src : Address) (msg : NewChildMsg) (n : Node) (marked : Option (List TxZone))
    → IsNamed (new_child msg)
    → Consistent n
    → Consistent (adopt src msg n marked)
adopt-Consistent src msg n none named c = c
adopt-Consistent src msg n (some ts) named c =
    ground (arith, sort_zones-NullsFirst (add_entry msg ts))

pub handle_new_child-Consistent :
    (src : Address) (msg : NewChildMsg) (n : Node)
    → IsNamed (new_child msg)
    → Consistent n
    → Consistent (handle_new_child src msg n)
unfolding handle_new_child
handle_new_child-Consistent src msg n named c = ground (
  arith,
  adopt-Consistent src msg n (mark_in src msg n.sub_zones) named c,
  AllNamed-append n.delayed src (new_child msg) c.named named,
)

retry-Consistent :
    (env : Env) (src : Address) (msg : Msg) (n : Node)
    → IsNamed msg
    → Consistent n
    → Consistent (retry env (src, msg) n)
retry-Consistent env src (insert msg) n named c =
    handle_insert-Consistent env src msg true n named c
retry-Consistent env src (str_node_needed msg) n named c =
    handle_needed-Consistent env src msg n named c
retry-Consistent env src (new_father msg) n named c =
    handle_new_father-Consistent env src msg n named c
retry-Consistent env src (new_child msg) n named c = handle_new_child-Consistent src msg n named c
retry-Consistent env src _ n named c = c

retry_front-Consistent :
    (env : Env) (n : Node) (waiting : List (Address × Msg))
    → AllNamed waiting
    → Consistent n
    → Consistent (retry_front env n waiting)
retry_front-Consistent env n [] named c = c
retry_front-Consistent env n ((src, msg) ∷ rest) named c =
    retry-Consistent env src msg (record n { delayed = rest }) named.0
      (record {
        nulls_first = c.nulls_first;
        idle = c.idle;
        busy = c.busy;
        used = c.used;
        unborn = c.unborn;
        named = named.1;
      })

retry_delayed-Consistent :
    (env : Env) (size : ℕ) (n : Node) → Consistent n → Consistent (retry_delayed env size n)
unfolding retry_delayed
retry_delayed-Consistent env zero n c = c
retry_delayed-Consistent env (suc size) n c = elim (Bool-cases (n.transaction == 0)) [
  | inl e ↦ rw e (
      retry_delayed-Consistent env size (retry_front env n n.delayed)
        (retry_front-Consistent env n n.delayed c.named c))
  | inr e ↦ rw e c
]

pub settle-Consistent :
    (env : Env) (n : Node) → env.random_id ≢ 0 → Consistent n → Consistent (settle env n)
unfolding handle_delayed_msgs
settle-Consistent env n random c =
    check_fanout-Consistent env _ random (retry_delayed-Consistent env (length n.delayed) n c)

pub settle_if-Consistent :
    (env : Env) (n other : Node) (test : Bool)
    → env.random_id ≢ 0
    → Consistent n
    → Consistent other
    → Consistent (if test then settle env n else other)
settle_if-Consistent env n other true random c d = settle-Consistent env n random c
settle_if-Consistent env n other false random c d = d

pub commit_node-Consistent :
    (env : Env) (n : Node)
    → env.random_id ≢ 0
    → n.transaction ≢ 0
    → Consistent n
    → Consistent (commit_node env n)
unfolding commit_node
commit_node-Consistent env n random open_tx c =
    let (closed, same_delayed, same_state, _, sorted) = close_commit-fields env n in
    let done =
      commit_state-Consistent n.transaction (close_commit env n) (rw same_state (ground arith))
        closed sorted (rw same_delayed c.named) in
    let end = commit_state n.transaction (close_commit env n) in
    settle_if-Consistent env end end _ random done done

pub rollback_node-Consistent :
    (env : Env) (n : Node) → env.random_id ≢ 0 → Consistent n → Consistent (rollback_node env n)
rollback_node-Consistent env n random c =
    let done = roll_back-Consistent env n c in
    settle_if-Consistent env (roll_back env n) (roll_back env n) _ random done done
