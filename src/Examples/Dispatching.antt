-- ===== src/Examples/Dispatching.antt =====
-- A dispatcher of idle nodes, with five nodes in its branch.

use stars.Prelude.{
  ℕ, ◌+◌, ◌-◌, ◌≡◌, refl, true, false, some, [], ◌∷◌, ◌++◌, length, Perm, if◌then◌else◌, ◌⊎◌, arith,
}
use stars.Address.{Address, same}
use stars.Scheduler.{Scheduler}
use stars.Scheduler.Interface.{TaskBag}
use stars.Scheduler.Handlers.{check_static}
use stars.Scheduler.Queue.{ids}
use stars.Scheduler.Acceptance.{accepts}
use stars.Dispatcher.Interface.{Info, Branch, left, right}
use stars.Dispatcher.{Link, Dispatcher, Env, new_link, handle_info, send_update, update}
use stars.Dispatcher.Requests.{send_tasks, goes_up}
use stars.Dispatcher.Tasks.{tasks_from, tasks_of, at, sent, send_tasks-sent}
use stars.Dispatcher.Updates.{NoneOlder, handle_info-NoneOlder, update-send_update}
use stars.Ibp.{IbpInfo, new_cluster, no_nodes, ibp_info, same_summary}
use stars.Ibp.Routing.{share_out, handle_task_bag}
use stars.Ibp.Division.{AllEmpty}
use stars.Ibp.Sharing.{nodes, groups, handle_task_bag-shares}
use stars.Ibp.Node.{ibp_policy, handle_task_bag-one}
use stars.Dp.{AssignmentInfo, DpInfo, DpDispatcher, new_request, pass_on}
use stars.Dp.Cache.{Arrival, receive_all, IsLast, handle_task_bag-again}
use stars.Examples.{father_addr, left_child, right_child}
use stars.Examples.Scheduling.{backend, small, local}

abbrev info : Info IbpInfo
info = ibp_info (λ i. i.summary) (λ i. 0)

-- Information with a sequence number, on a number of equal nodes.
abbrev told_of : ℕ → ℕ → IbpInfo
told_of n v = record no_nodes {
  sequence_number = n;
  summary = (record (new_cluster 1024 4096) { value = v }) ∷ [];
}

abbrev link : Address → IbpInfo → Link IbpInfo
link a i = record (new_link a) { avail = some i; has_new = false }

abbrev node : Dispatcher IbpInfo
node = record {
  father = record (new_link father_addr) { notified = some (told_of 1 5); has_new = false };
  left_link = link left_child (told_of 1 2);
  right_link = link right_child (told_of 1 3);
  delayed = [];
  update_timer = 0;
  next_update = 0;
  in_change = false;
  out = [];
}

abbrev pub clock : Env
clock = record { now = 10; timer_id = 7; sending_time = λ n. n }

abbrev pub branch : Branch
branch = record {
  in_network = true;
  father = father_addr;
  child = λ c. elim c [ left ↦ left_child | right ↦ right_child ];
  is_leaf = λ c. false;
  distance = λ c a. elim c [ left ↦ 1 | right ↦ 2 ];
}

-- Seven tasks, from the left child.
abbrev pub seven : TaskBag
seven = record {
  request_id = 8;
  requester = left_child;
  first_task = 1;
  last_task = 7;
  min_requirements = small;
  for_en = false;
  from_en = true;
  info_sequence = 1;
}

send_tasks-sent_example :
    (sent (send_tasks info branch seven 2 3 false node).out
      ≡ (left_child, 1)
        ∷ (left_child, 2)
        ∷ (right_child, 3)
        ∷ (right_child, 4)
        ∷ (right_child, 5)
        ∷ (father_addr, 6)
        ∷ (father_addr, 7)
        ∷ [])
    × (tasks_of seven ≡ 1 ∷ 2 ∷ 3 ∷ 4 ∷ 5 ∷ 6 ∷ 7 ∷ [])
unfolding same
send_tasks-sent_example =
    send_tasks-sent info branch seven 2 3 false node (omega arith) (omega arith) (λ h. ground arith)
      (λ h. ground arith) (ground arith)

handle_task_bag-shares_example :
    let s = share_out info branch left_child seven node in
    let e = handle_task_bag info clock branch left_child seven node in
    let next = 1 + s.n_left + s.n_right in
    let for_left = tasks_from 1 s.n_left in
    let for_right = tasks_from (1 + s.n_left) s.n_right in
    let others = tasks_from next (8 - next) in
    (sent e.out
      ≡ (at left_child for_left ++ at right_child for_right)
        ++ (if goes_up info branch (same father_addr left_child)
            then at father_addr others
            else []))
    × (tasks_of seven ≡ for_left ++ (for_right ++ others))
    × (nodes e.left_link + s.n_left ≡ 2)
    × (nodes e.right_link + s.n_right ≡ 3)
    × ((others ≡ []) ⊎ AllEmpty (groups info branch left_child seven node) s)
handle_task_bag-shares_example =
    handle_task_bag-shares info clock branch left_child seven node refl refl (omega arith)
      (omega arith) refl refl

handle_info-NoneOlder_example :
    NoneOlder info node (handle_info info clock branch left_child (told_of 2 1) node)
handle_info-NoneOlder_example =
    handle_info-NoneOlder info clock branch left_child (told_of 2 1) node

update-send_update_example :
    let l = record (link left_child (told_of 1 2)) {
      notified = some (told_of 1 5);
      waiting = some (told_of 0 4);
    } in
    let r = link right_child (told_of 1 5) in
    (m : IbpInfo) × ((send_update info l).1 ≡ some m)
    × (info.seq m ≡ 2)
    × ((update info right_child m r).0.avail ≡ some m)
    × ((update info right_child m r).0.has_new ≡ true)
    × ((update info right_child m r).1 ≡ true)
unfolding ibp_info same_summary
update-send_update_example =
    update-send_update info
      (record (link left_child (told_of 1 2)) {
        notified = some (told_of 1 5);
        waiting = some (told_of 0 4);
      })
      (link right_child (told_of 1 5)) right_child (told_of 1 5) (told_of 1 5) (told_of 0 4) refl
      refl refl refl refl refl (omega arith)

abbrev free_node : Scheduler IbpInfo
free_node = record {
  tasks = [];
  seq_num = 1;
  in_change = false;
  dirty = false;
  reschedule_timer = 0;
  monitor_timer = 0;
  tasks_executed = 0;
  max_queue_length = 0;
  max_paused_tasks = 0;
  father = father_addr;
  next_id = 3;
  out = [];
}

handle_task_bag-one_example :
    let after =
      stars.Scheduler.Handlers.handle_task_bag backend
        (ibp_policy backend)
        local
        (record seven { for_en = true })
        free_node in
    Perm (ids after.tasks) (3 ∷ []) × (accepts after.out ≡ (left_child, 8, 1, 1) ∷ [])
unfolding check_static
handle_task_bag-one_example =
    handle_task_bag-one backend local (record seven { for_en = true }) free_node refl refl
      (omega arith) (omega arith)

-- One group of four tasks in every summary that is not empty, and what is used is taken from the first cluster.
abbrev dp_info : DpInfo IbpInfo
dp_info = record {
  get_availability = λ req i.
      record { cluster = 0; remng_mem = 100; remng_disk = 200; remng_avail = 300; num_tasks = 4 }
      ∷ [];
  update = λ ais req i. record i { sequence_number = i.sequence_number + length ais };
}

abbrev fresh : DpDispatcher IbpInfo
fresh = record { base = node; recent_requests = [] }

-- The seven tasks come again from the father, after five seconds.
-- A bag of another request, two seconds later.
abbrev other_arrival : Arrival
other_arrival = record {
  env = record clock { now = 2000010 };
  branch = branch;
  src = right_child;
  msg = record seven { request_id = 9 };
}

handle_task_bag-again_example :
    let first = stars.Dp.handle_task_bag info dp_info clock branch left_child seven fresh in
    let between = receive_all info dp_info (other_arrival ∷ []) first in
    let later = record clock { now = 5000010 } in
    let again = stars.Dp.handle_task_bag info dp_info later branch father_addr seven between in
    (again.base ≡ pass_on info dp_info seven between.base)
    × IsLast (new_request 5000010 seven) again.recent_requests
handle_task_bag-again_example =
    handle_task_bag-again info dp_info clock (record clock { now = 5000010 }) branch branch
      left_child father_addr seven seven (other_arrival ∷ []) fresh refl refl refl refl refl refl
      (omega arith) (omega arith) ((refl, omega arith), tt)
