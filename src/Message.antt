-- ===== src/Message.antt =====
-- The messages of the overlay (include/*Msg.hpp), and what a node asks of CommLayer and of its observers
-- while it handles one. Every class that derives from TransactionMsg has the field `tid`.
use stars.Prelude.{ℕ, Bool, false, List, Option}
use stars.Address.{Address}
use stars.Zone.{Zone}

-- NULL_TRANSACTION_ID
abbrev pub null_transaction_id : ℕ
null_transaction_id = 0

pub record InsertMsg : Type 0 where
  pub tid : ℕ
  pub who : Address
  pub for_rn : Bool

pub record UpdateZoneMsg : Type 0 where
  pub tid : ℕ
  pub zone : Zone
  pub seq : ℕ

pub record StrNodeNeededMsg : Type 0 where
  pub tid : ℕ
  pub who_needs : Address

pub record NewStrNodeMsg : Type 0 where
  pub tid : ℕ
  pub who_offers : Address

-- `father` is `some` where fatherValid is set.
pub record InitStructNodeMsg : Type 0 where
  pub tid : ℕ
  pub father : Option Address
  pub children : List Address
  pub level : ℕ

pub record NewFatherMsg : Type 0 where
  pub tid : ℕ
  pub father : Address
  pub for_rn : Bool

pub record NewChildMsg : Type 0 where
  pub tid : ℕ
  pub child : Address
  pub seq : ℕ
  pub replace : Bool

pub record AckMsg : Type 0 where
  pub tid : ℕ
  pub for_rn : Bool
  pub from_rn : Bool

-- NackMsg, CommitMsg and RollbackMsg have the same fields.
pub record OutcomeMsg : Type 0 where
  pub tid : ℕ
  pub for_rn : Bool

pub record InsertCommandMsg : Type 0 where
  pub place : Address

pub data Msg : Type 0 where
  insert : InsertMsg → Msg
  update_zone : UpdateZoneMsg → Msg
  str_node_needed : StrNodeNeededMsg → Msg
  new_str_node : NewStrNodeMsg → Msg
  init_struct_node : InitStructNodeMsg → Msg
  new_father : NewFatherMsg → Msg
  new_child : NewChildMsg → Msg
  ack : AckMsg → Msg
  nack : OutcomeMsg → Msg
  commit : OutcomeMsg → Msg
  rollback : OutcomeMsg → Msg
  insert_command : InsertCommandMsg → Msg

-- `undefined` marks where the source reads through a null pointer or takes the front of an empty list,
-- and `endless` where a loop of the source does not end.
pub data Effect : Type 0 where
  send : Address → Msg → Effect
  set_timer : ℕ → Msg → Effect
  cancel_timer : ℕ → Effect
  start_changes : Effect
  commit_changes : Bool → Bool → Bool → Effect
  availability_changed : Bool → Effect
  father_changing : Effect
  father_changed : Bool → Effect
  undefined : Effect
  endless : Effect

-- What a handler takes from outside: CommLayer::getLocalAddress(), the next value of createRandomId()
-- and the number that CommLayer::setTimer() returns.
pub record Env : Type 0 where
  pub self : Address
  pub random_id : ℕ
  pub timer_id : ℕ

abbrev pub plain_ack : ℕ → Msg
plain_ack tid = ack (record { tid = tid; for_rn = false; from_rn = false })
