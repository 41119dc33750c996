-- ===== src/Examples/Timing.antt =====
-- Timers of a node, and queues of tasks in the orders of the policies.
use stars.Prelude.{
  ℕ, ◌*◌, ◌-◌, ◌≤◌, ◌≡◌, refl, true, false, not, none, List, [], ◌∷◌, ◌++◌, keep_if, arith,
}
use stars.Address.{Address}
use stars.Scheduler.Interface.{Task, TaskBag, running, prepared}
use stars.Comm.{CommLayer, set_timer, check_expired}
use stars.Comm.Timers.{
  Event, on_set, on_cancel, run, is_due, delivered, IsOrdered, check_expired-due,
}
use stars.Comm.Delivery.{set_timer-delivered}
use stars.Policies.{dp_acceptable}
use stars.Policies.Fitting.{AreOnTime, dp_acceptable_fits}
use stars.Examples.{here, left_child}
use stars.Examples.Scheduling.{small}

-- The messages are numbers.
abbrev quiet : CommLayer ℕ
quiet = record {
  local_address = here;
  message_queue = [];
  timer_list = [];
  timer_id = 0;
  alarm = none;
  sent = [];
}

abbrev events : List (Event ℕ)
events = on_set 1 9 100 ∷ on_set 2 5 200 ∷ on_set 3 7 300 ∷ on_cancel 1 ∷ []

check_expired-due_example :
    let c = run events quiet in
    let after = check_expired 5 c in
    IsOrdered c.timer_list
    × (after.message_queue
        ≡ c.message_queue ++ delivered c.local_address (keep_if (is_due 5) c.timer_list))
    × (after.timer_list ≡ keep_if (λ t. not (is_due 5 t)) c.timer_list)
check_expired-due_example = check_expired-due events 5 quiet refl

set_timer-delivered_example :
    (before : List (Address × ℕ)) × (after : List (Address × ℕ)) × ((check_expired 8
        (set_timer 3 7 300 quiet).0).message_queue
      ≡ before ++ (here, 300) ∷ after)
set_timer-delivered_example = set_timer-delivered 3 7 8 300 quiet (omega arith) (omega arith)

abbrev queued : ℕ → Task
queued id = record {
  task_id = id;
  owner = left_child;
  client_request_id = 7;
  client_task_id = id;
  description = small;
  creation_time = 10 - id;
  status = prepared;
}

-- The last task has a later deadline than the bag, 500.
abbrev queue : List Task
queue =
    record (queued 1) { status = running }
    ∷ queued 2
    ∷ record (queued 3) { description = record small { deadline = 900 } }
    ∷ []

abbrev wanted : TaskBag
wanted = record {
  request_id = 8;
  requester = left_child;
  first_task = 1;
  last_task = 60;
  min_requirements = small;
  for_en = true;
  from_en = false;
  info_sequence = 1;
}

dp_acceptable_fits_example :
    let n = dp_acceptable (λ t. 20) (λ n. 10 * n) 5 queue wanted in
    (n ≤ 60)
    × (end : ℕ) × (45 ≤ end)
    × (end ≤ 500)
    × (n * 100 ≤ 10 * (end - 45))
    × AreOnTime
        (λ t. 20)
        end
        (record (queued 3) { description = record small { deadline = 900 } } ∷ [])
unfolding dp_acceptable
dp_acceptable_fits_example =
    dp_acceptable_fits (λ t. 20) (λ n. 10 * n) 5 queue wanted (omega arith) (omega arith)
