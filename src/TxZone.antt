-- ===== src/TxZone.antt =====
-- include/TransactionalZoneDescription.hpp and the methods in src/lib/overlay/StructureNode.cpp: what a
-- structure node knows about one child, with changes that can be committed or rolled back. A
-- shared_ptr<ZoneDescription> is an optional value: after rollback() both pointers share one object,
-- but the code overwrites the new zone, or drops the entry, before it reads it again.
pub mod Transaction
use stars.Prelude.{ℕ, Bool, true, false, not, ◌&&◌, ◌||◌, Option, none, some, ltb, if◌then◌else◌}
use stars.Address.{Address, null, same, differ}
use stars.Zone.{Zone}

pub record TxZone : Type 0 where
  pub changing : Bool
  pub actual_link : Address
  pub seq : ℕ
  pub new_link : Address
  pub actual_zone : Option Zone
  pub new_zone : Option Zone

-- TransactionalZoneDescription()
unfoldable pub fresh_zone : TxZone
fresh_zone = record {
  changing = false;
  actual_link = null;
  seq = 0;
  new_link = null;
  actual_zone = none;
  new_zone = none;
}

unfoldable pub comes_from : TxZone → Address → Bool
unfolding same
comes_from t src = same t.actual_link src || same t.new_link src

unfoldable pub commit : TxZone → TxZone
commit t =
    if t.changing
    then record t {
      actual_link = t.new_link;
      new_link = null;
      actual_zone = t.new_zone;
      new_zone = none;
      changing = false;
    }
    else t

unfoldable pub rollback : TxZone → TxZone
rollback t =
    if t.changing
    then record t { new_link = t.actual_link; new_zone = t.actual_zone; changing = false }
    else t

unfoldable pub is_addition : TxZone → Bool
unfolding same
is_addition t = t.changing && same t.actual_link null && differ t.new_link null

unfoldable pub is_deletion : TxZone → Bool
unfolding same
is_deletion t = t.changing && differ t.actual_link null && same t.new_link null

unfoldable pub test_and_set : TxZone → ℕ → TxZone × Bool
test_and_set t s = if ltb t.seq s then (record t { seq = s }, true) else (t, false)

unfoldable pub set_link : TxZone → Address → TxZone
set_link t addr = record t { new_link = addr; changing = true }

unfoldable pub reset_link : TxZone → TxZone
reset_link t = record t { new_link = null; changing = true }

unfoldable pub set_zone : TxZone → Option Zone → TxZone
set_zone t i =
    if t.changing then record t { new_zone = i } else record t { new_zone = i; actual_zone = i }

unfoldable pub set_zone_from : TxZone → Address → Option Zone → TxZone
unfolding same
set_zone_from t src i =
    if not t.changing && same t.actual_link src
    then record t { actual_zone = i }
    else if t.changing
    then (if same t.new_link src
        then record t { new_zone = i }
        else if same t.actual_link src
        then record t { actual_zone = i }
        else t)
    else t
