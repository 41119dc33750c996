-- ===== src/Structure.antt =====
-- include/StructureNode.hpp: the state of a structure node, an inner node of the overlay tree.
pub mod Zones
pub mod Helpers
pub mod Split
pub mod Outcome
pub mod Routing
pub mod Requests
pub mod Growth
pub mod Receive
pub mod Sorted
pub mod Consistent
pub mod Keeps
pub mod Invariant
pub mod UpdateKeeps
pub mod SplitKeeps
pub mod Protocol
pub mod Voting
pub mod Nearest
pub mod Coverage
pub mod Undo
use stars.Prelude.{
  ℕ, ◌+◌, ◌*◌, ◌%◌, ◌≤◌, Bool, true, false, ◌&&◌, Option, none, List, [], ◌∷◌, ◌++◌, ltb,
  if◌then◌else◌, u32, length,
}
use stars.Address.{Address, null}
use stars.Zone.{Zone}
use stars.TxZone.{TxZone}
use stars.Message.{Msg, Effect, null_transaction_id}

pub data State : Type 0 where
  offline start_in init online add_child change_father wait_str splitting : State
  wait_offers merging leaving_wsn leaving : State

abbrev pub is_offline : State → Bool
is_offline s = elim s [ offline ↦ true | _ ↦ false ]

abbrev pub is_start_in : State → Bool
is_start_in s = elim s [ start_in ↦ true | _ ↦ false ]

abbrev pub is_init : State → Bool
is_init s = elim s [ init ↦ true | _ ↦ false ]

abbrev pub is_online : State → Bool
is_online s = elim s [ online ↦ true | _ ↦ false ]

abbrev pub is_add_child : State → Bool
is_add_child s = elim s [ add_child ↦ true | _ ↦ false ]

abbrev pub is_wait_str : State → Bool
is_wait_str s = elim s [ wait_str ↦ true | _ ↦ false ]

abbrev pub is_leaving_wsn : State → Bool
is_leaving_wsn s = elim s [ leaving_wsn ↦ true | _ ↦ false ]

abbrev pub is_leaving : State → Bool
is_leaving s = elim s [ leaving ↦ true | _ ↦ false ]

-- The members of the class, and in `out` the calls that left the node, the latest first.
pub record Node : Type 0 where
  pub state : State
  pub m : ℕ
  pub level : ℕ
  pub seq : ℕ
  pub str_needed_timer : ℕ
  pub zone_desc : Option Zone
  pub notified_zone_desc : Option Zone
  pub father : Address
  pub new_father : Address
  pub sub_zones : List TxZone
  pub transaction : ℕ
  pub tx_driver : Address
  pub no_ack : List (Address × Bool)
  pub acked : List (Address × Bool)
  pub new_brother : Address
  pub delayed : List (Address × Msg)
  pub out : List Effect

-- StructureNode(fanout)
unfoldable pub create : ℕ → Node
create fanout = record {
  state = offline;
  m = if ltb fanout 2 then 2 else fanout;
  level = 0;
  seq = 1;
  str_needed_timer = 0;
  zone_desc = none;
  notified_zone_desc = none;
  father = null;
  new_father = null;
  sub_zones = [];
  transaction = null_transaction_id;
  tx_driver = null;
  no_ack = [];
  acked = [];
  new_brother = null;
  delayed = [];
  out = [];
}

abbrev pub emit : Effect → Node → Node
emit e n = record n { out = e ∷ n.out }

-- delayedMessages.push_back
abbrev pub delay : Address → Msg → Node → Node
delay src msg n = record n { delayed = n.delayed ++ (src, msg) ∷ [] }

-- `2*m`, in unsigned int arithmetic.
abbrev pub max_children : Node → ℕ
max_children n = (2 * n.m) % u32
