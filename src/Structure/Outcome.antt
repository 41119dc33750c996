-- ===== src/Structure/Outcome.antt =====
-- commit() and rollback() of src/lib/overlay/StructureNode.cpp, up to the messages that were delayed.
use stars.Prelude.{ℕ, Bool, true, false, ◌||◌, none, List, [], ◌∷◌, if◌then◌else◌, is_some}
use stars.Address.{Address, null, same, differ}
use stars.TxZone.{TxZone, is_addition, is_deletion}
use stars.TxZone
use stars.Message.{
  Effect, Env, send, cancel_timer, commit_changes, availability_changed, undefined, commit,
  rollback, null_transaction_id,
}
use stars.Structure.{Node, offline, online, is_wait_str, is_leaving, is_start_in, is_init, emit}
use stars.Structure.Zones.{sort_zones, recompute_zone, front_known, is_empty}
use stars.Structure.Helpers.{notify_father}

abbrev pub same_member : Address × Bool → Address × Bool → Bool
same_member (a, true) (b, true) = same a b
same_member (a, true) (b, false) = false
same_member (a, false) (b, true) = false
same_member (a, false) (b, false) = same a b

-- list::unique: an element that equals the one kept before it is dropped.
unfoldable pub unique_from : Address × Bool → List (Address × Bool) → List (Address × Bool)
unfolding same
unique_from a [] = a ∷ []
unique_from a (b ∷ bs) = elim (same_member a b) [
  | true ↦ unique_from a bs
  | false ↦ a ∷ unique_from b bs
]

abbrev pub unique : List (Address × Bool) → List (Address × Bool)
unique [] = []
unique (a ∷ as') = unique_from a as'

unfoldable pub send_commits : ℕ → List (Address × Bool) → List Effect → List Effect
send_commits tid [] out = out
send_commits tid ((addr, rn) ∷ members) out =
    send_commits tid members (send addr (commit (record { tid = tid; for_rn = rn })) ∷ out)

unfoldable pub send_rollbacks : ℕ → List (Address × Bool) → List Effect → List Effect
send_rollbacks tid [] out = out
send_rollbacks tid ((addr, rn) ∷ members) out =
    send_rollbacks tid members (send addr (rollback (record { tid = tid; for_rn = rn })) ∷ out)

unfoldable pub commit_zones : List TxZone → List TxZone
unfolding is_deletion TxZone.commit
commit_zones [] = []
commit_zones (t ∷ ts) =
    let rest = commit_zones ts in if is_deletion t then rest else TxZone.commit t ∷ rest

unfoldable pub rollback_zones : List TxZone → List TxZone
unfolding is_deletion is_addition TxZone.rollback
rollback_zones [] = []
rollback_zones (t ∷ ts) =
    let rest = rollback_zones ts in
    if is_deletion t then TxZone.rollback t ∷ rest else if is_addition t then rest else t ∷ rest

abbrev pub drive_commit : Env → Node → Node
drive_commit env n =
    if same n.tx_driver env.self
    then record n { acked = []; out = send_commits n.transaction (unique n.acked) n.out }
    else n

abbrev pub move_father : Node → Node
move_father n =
    if differ n.new_father null
    then record n { father = n.new_father; seq = 1; new_father = null; notified_zone_desc = none }
    else n

unfoldable pub drop_timer : Node → Node
drop_timer n = if is_wait_str n.state then emit (cancel_timer n.str_needed_timer) n else n

-- commit() up to the change of state.
unfoldable pub close_commit : Env → Node → Node
unfolding same send_commits commit_zones sort_zones unique_from
close_commit env n =
    let driven = drive_commit env n in
    let moved =
      move_father (record driven { sub_zones = sort_zones (commit_zones driven.sub_zones) }) in
    drop_timer (record (emit (commit_changes true true true) moved) {
      acked = [];
      transaction = null_transaction_id;
    })

-- `subZones.front()` of an empty list is undefined.
abbrev report : ℕ → Node → Node
report tid n =
    if is_empty n.sub_zones
    then emit undefined n
    else if front_known n.sub_zones
    then notify_father n tid
    else n

-- The end of commit(), before the delayed messages are handled.
unfoldable pub commit_state : ℕ → Node → Node
unfolding recompute_zone notify_father
commit_state tid n =
    let up = recompute_zone (record n { state = online }) in
    if is_leaving n.state
    then emit (availability_changed true) (record n { state = offline })
    else if is_some up.zone_desc
    then report tid up
    else up

unfoldable pub drive_rollback : Env → Node → Node
unfolding same send_rollbacks
drive_rollback env n =
    if same n.tx_driver env.self
    then record n { no_ack = []; acked = []; out = send_rollbacks n.transaction n.acked n.out }
    else n

unfoldable pub rollback_state : Node → Node
rollback_state n =
    if is_start_in n.state || is_init n.state
    then emit (availability_changed true) (record n { state = offline })
    else record n { state = online }

unfoldable pub roll_back : Env → Node → Node
roll_back env n =
    let driven = drive_rollback env n in
    let undone = record driven { sub_zones = rollback_zones driven.sub_zones; new_father = null } in
    rollback_state (
      drop_timer (record (emit (commit_changes false true true) undone) {
        transaction = null_transaction_id;
      }))
