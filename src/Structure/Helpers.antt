-- ===== src/Structure/Helpers.antt =====
-- notifyFather and checkFanout of src/lib/overlay/StructureNode.cpp.
use stars.Prelude.{
  ℕ, ◌+◌, ◌%◌, Bool, true, false, ◌&&◌, not, Option, none, some, List, [], ◌∷◌, ltb, leb, ◌==◌,
  if◌then◌else◌, u64, length,
}
use stars.Address.{null, same, differ}
use stars.Zone.{Zone, zone_eq}
use stars.TxZone.{TxZone}
use stars.Message.{
  Msg, Env, send, set_timer, update_zone, str_node_needed, new_father, undefined,
  null_transaction_id,
}
use stars.Structure.{Node, wait_str, leaving, emit, max_children}
use stars.Structure.Zones.{front_known}

-- `!notifiedZoneDesc.get() || !(*notifiedZoneDesc == *zoneDesc)`
abbrev must_notify : Option Zone → Zone → Bool
must_notify none z = true
must_notify (some notified) z = not (zone_eq notified z)

abbrev notify_zone : Node → ℕ → Option Zone → Node
notify_zone n tid none = emit undefined n
notify_zone n tid (some z) =
    if must_notify n.notified_zone_desc z
    then emit (send n.father (update_zone (record { tid = tid; zone = z; seq = n.seq })))
        (record n { notified_zone_desc = some z; seq = (n.seq + 1) % u64 })
    else n

unfoldable pub notify_father : Node → ℕ → Node
unfolding same zone_eq
notify_father n tid = if differ n.father null then notify_zone n tid n.zone_desc else n

abbrev pub needed : Env → ℕ → Msg
needed env tid = str_node_needed (record { tid = tid; who_needs = env.self })

-- Sends a StrNodeNeededMsg to this node, and again in 60 seconds.
abbrev pub ask_for_node : Env → Node → Node
ask_for_node env n =
    emit (set_timer 60 (needed env n.transaction)) (
      emit (send env.self (needed env n.transaction))
        (record n { str_needed_timer = env.timer_id }))

abbrev start_split : Env → Node → Node
start_split env n =
    record (ask_for_node env (record n { transaction = env.random_id; tx_driver = env.self })) {
      state = wait_str;
    }

abbrev pub farewell : Msg
farewell = new_father (record { tid = null_transaction_id; father = null; for_rn = false })

abbrev leave_to : Node → List TxZone → Node
leave_to n [] = emit undefined n
leave_to n (t ∷ ts) = record (emit (send t.actual_link farewell) n) { state = leaving }

-- The merge of a node with too few children is not written in the source.
unfoldable pub fix_size : Env → Node → Node
unfolding same
fix_size env n =
    if leb (max_children n) (length n.sub_zones)
    then start_split env n
    else if differ n.father null && ltb (length n.sub_zones) n.m
    then n
    else if same n.father null && length n.sub_zones == 1 && ltb 0 n.level
    then leave_to n n.sub_zones
    else n

abbrev check_size : Env → Node → List TxZone → Node
check_size env n [] = emit undefined n
check_size env n (t ∷ ts) = if front_known (t ∷ ts) then fix_size env n else n

unfoldable pub check_fanout : Env → Node → Node
unfolding fix_size
check_fanout env n =
    if n.transaction == null_transaction_id then check_size env n n.sub_zones else n
