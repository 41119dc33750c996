-- ===== src/Examples/Scheduling.antt =====
-- An execution node with one running and one waiting task.
use mathlib.Core.List.{not-mem-nil, Nodup-nil}
use mathlib.Core.List.Perm
use stars.Prelude.{ℕ, ◌≡◌, refl, inl, true, false, some, List, [], ◌∷◌, map, Perm, arith}
use stars.Address.{Address}
use stars.Scheduler.{Scheduler, Report, Env, StateChange, get_task}
use stars.Scheduler.Interface.{
  Task, TaskDescription, TaskBag, prepared, running, finished, Backend, Policy,
}
use stars.Scheduler.Handlers.{
  check_static, handle_task_bag, handle_state_change, handle_monitor_timer,
}
use stars.Scheduler.Queue.{ids, ids_from}
use stars.Scheduler.Ending.{handle_state_change-ids}
use stars.Scheduler.Acceptance.{accepts, handle_task_bag-accepts}
use stars.Scheduler.Reports.{monitors, deliveries, due, IsOrdered, handle_monitor_timer-reports}
use stars.Scheduler.Distinct.{on_task_bag, step, IsQueue, step-IsQueue}
use stars.Examples.{here, father_addr, left_child}

abbrev pub backend : Backend
backend = record {
  available_memory = 1024;
  available_disk = 4096;
  create = λ id owner req ctid d. record {
    task_id = id;
    owner = owner;
    client_request_id = req;
    client_task_id = ctid;
    description = d;
    creation_time = 0;
    status = prepared;
  };
  run = λ t. record t { status = running };
  pause = λ t. t;
  is_paused = λ t. false;
  create-task_id = λ id owner req ctid d. refl;
  create-client = λ id owner req ctid d. (refl, refl, refl);
  run-task_id = λ t. refl;
  pause-task_id = λ t. refl;
}

-- Two tasks at a time are accepted, and keep their order.
abbrev policy : Policy ℕ
policy = record {
  acceptable = λ ts msg. 2;
  reschedule = λ ts. ts;
  wants_timer = false;
  get_availability = λ ts. some 1;
  reschedule-perm = λ ts. Perm.refl ts;
}

abbrev pub small : TaskDescription
small = record { length = 100; deadline = 500; max_memory = 64; max_disk = 64 }

abbrev task : ℕ → Address → ℕ → Task
task id owner ctid = record {
  task_id = id;
  owner = owner;
  client_request_id = 7;
  client_task_id = ctid;
  description = small;
  creation_time = 0;
  status = running;
}

abbrev pub local : Env
local = record { self = here; timer_id = 5 }

abbrev busy : Scheduler ℕ
busy = record {
  tasks = task 1 left_child 0 ∷ task 2 father_addr 4 ∷ [];
  seq_num = 1;
  in_change = false;
  dirty = false;
  reschedule_timer = 0;
  monitor_timer = 3;
  tasks_executed = 0;
  max_queue_length = 2;
  max_paused_tasks = 0;
  father = father_addr;
  next_id = 3;
  out = [];
}

abbrev ended : StateChange
ended = record { task_id = 2; new_state = finished }

handle_state_change-ids_example :
    let after = handle_state_change backend policy local here ended busy in
    Perm (1 ∷ 2 ∷ []) (2 ∷ ids after.tasks)
    × (monitors after.out
        ≡ (father_addr, record { request = 7; task = 4; status = finished } ∷ []) ∷ [])
unfolding get_task
handle_state_change-ids_example =
    handle_state_change-ids backend policy local ended busy (task 2 father_addr 4) refl (inl refl)

handle_monitor_timer-reports_example :
    (groups : List (Address × List Report)) × ((monitors
          (handle_monitor_timer backend policy local busy).out
        ≡ groups)
      × (IsOrdered 0 groups × Perm (deliveries groups) (map due busy.tasks)))
handle_monitor_timer-reports_example = handle_monitor_timer-reports backend policy local busy (
  record { ip_fits = omega arith; port_fits = omega arith },
  (record { ip_fits = omega arith; port_fits = omega arith }, tt),
)

abbrev idle : Scheduler ℕ
idle = record busy { tasks = [] }

abbrev bag : TaskBag
bag = record {
  request_id = 8;
  requester = left_child;
  first_task = 1;
  last_task = 2;
  min_requirements = small;
  for_en = true;
  from_en = false;
  info_sequence = 1;
}

step-IsQueue_example : IsQueue backend policy (step backend policy local (on_task_bag bag) idle)
step-IsQueue_example =
    step-IsQueue backend policy local (on_task_bag bag) idle (omega arith)
      (record { distinct = Nodup-nil; below_bound = λ x h. absurd (not-mem-nil h) })

handle_task_bag-accepts_example :
    let after = handle_task_bag backend policy local bag busy in
    Perm (ids after.tasks) (1 ∷ 2 ∷ ids_from 3 2) × (accepts after.out ≡ (left_child, 8, 1, 2) ∷ [])
unfolding check_static
handle_task_bag-accepts_example =
    handle_task_bag-accepts backend policy local bag busy refl (ground arith)
