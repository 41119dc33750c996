-- ===== src/Examples.antt =====
-- The theorems at concrete inputs: a structure node at 10:2030 whose father is at 1:2030, with two
-- children, an execution node that runs its tasks in the order of their arrival, a dispatcher, and a node that
-- submits an application.
mod Overlay
mod Leaves
mod Geometry
mod Scheduling
mod Dispatching
mod Submitting
mod Timing
mod Functions
mod Slowness
use stars.Prelude.{ℕ, ◌∷◌, [], List, Option, none, some, true, false}
use stars.Address.{Address}
use stars.Zone.{Zone}
use stars.Message.{Env, str_node_needed, init_struct_node, update_zone, commit}
use stars.Structure.Protocol.{Arrival}

abbrev pub here : Address
here = record { ip = 10; port = 2030 }

abbrev pub father_addr : Address
father_addr = record { ip = 1; port = 2030 }

abbrev pub left_child : Address
left_child = record { ip = 20; port = 2030 }

abbrev pub right_child : Address
right_child = record { ip = 30; port = 2030 }

abbrev pub env : Env
env = record { self = here; random_id = 77; timer_id = 5 }

abbrev pub left_zone : Zone
left_zone = record { min_addr = left_child; max_addr = left_child; available_str_nodes = 2 }

abbrev pub right_zone : Zone
right_zone = record { min_addr = left_child; max_addr = right_child; available_str_nodes = 3 }

-- A node that is asked to be the father of two children and told to be so, and its first update.
abbrev pub history : List Arrival
history =
    record {
      env = env;
      src = father_addr;
      msg = str_node_needed (record { tid = 9; who_needs = father_addr });
    }
    ∷ record {
      env = env;
      src = father_addr;
      msg = init_struct_node (record {
        tid = 9;
        father = some father_addr;
        children = left_child ∷ right_child ∷ [];
        level = 0;
      });
    }
    ∷ record { env = env; src = father_addr; msg = commit (record { tid = 9; for_rn = false }) }
    ∷ record {
      env = env;
      src = left_child;
      msg = update_zone (record { tid = 9; zone = left_zone; seq = 1 });
    }
    ∷ []
