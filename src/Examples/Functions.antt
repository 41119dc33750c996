-- ===== src/Examples/Functions.antt =====
-- Nodes with queues under the policies MMP, DP and FSP. The arithmetic is that of natural numbers here.
use stars.Prelude.{
  ℕ, suc, ◌+◌, ◌-◌, ◌*◌, ◌/◌, ◌<◌, ◌≤◌, ◌≡◌, refl, ◌⊎◌, true, false, some, List, [], ◌∷◌, ◌++◌,
  length, get_elem?, All, Perm, ltb, leb, ◌==◌, arith,
}
use stars.Float.{Float}
use stars.Address.{null}
use stars.Scheduler.Interface.{Task, TaskDescription, TaskBag, prepared}
use stars.Dispatcher.Interface.{Info}
use stars.Dispatcher.{Dispatcher, new_link}
use stars.Dispatcher.Requests.{check_state}
use stars.Dispatcher.Tasks.{tasks_from, at, sent}
use stars.Mmp.{
  MdptCluster, MmpInfo, new_cluster, no_queues, set_queue_end, until, balanced_queue, mmp_info,
}
use stars.Mmp.Balance.{limit, numbers, room_at, balanced_queue-IsFirstLimit}
use stars.Mmp.Routing.{num_tasks, passes_up, pass_up, share_out, handle_task_bag}
use stars.Mmp.Sharing.{asked, groups, handle_task_bag-balances}
use stars.Delta.{LDeltaFunction, point_at, last_elim, final_avail, task_start, update_points}
use stars.Delta.Stepper.{Piece, stepper}
use stars.Delta.Ends.{IsProper, stepper-ends}
use stars.Delta.Update.{first_of, lower_if, update_points_lem}
use stars.Fsp.{TaskProxy, FspTaskList, of_task, origins, reschedule}
use stars.Fsp.Slowness.{IsReordered, reschedule-IsReordered}
use stars.Examples.{father_addr, left_child, right_child}
use stars.Examples.Scheduling.{small}
use stars.Examples.Dispatching.{branch, clock, seven}

abbrev pub natural : Float ℕ
natural = record {
  of_nat = λ n. n;
  of_diff = λ a b. a - b;
  add = λ a b. a + b;
  sub = λ a b. a - b;
  mul = λ a b. a * b;
  div = λ a b. a / b;
  lt = ltb;
  eq = λ a b. a == b;
  to_nat = λ a. a;
  add_trunc = λ n a. n + a;
}

-- Tasks of length 100, and a cluster whose nodes do 10 units of work in a second.
abbrev pub work : TaskDescription
work = record small { length = 100 }

abbrev cluster : MdptCluster
cluster = new_cluster 4096 4096 10 0

-- There is room for 30 tasks in 300 seconds, and for 90 in 900 seconds.
balanced_queue-IsFirstLimit_example :
    (k : ℕ) × (k ≤ 32)
    × (balanced_queue natural 10 work 50 (cluster ∷ []) ≡ some (limit 10 k))
    × ((50 ≤ room_at natural 10 work 50 (cluster ∷ []) k) ⊎ (k ≡ 32))
    × All (λ j. room_at natural 10 work 50 (cluster ∷ []) j < 50) (numbers k)
balanced_queue-IsFirstLimit_example = balanced_queue-IsFirstLimit natural 10 work 50 (cluster ∷ [])

test_queue : balanced_queue natural 10 work 50 (cluster ∷ []) ≡ some 900000010
unfolding balanced_queue
test_queue = refl

abbrev info : Info MmpInfo
info = mmp_info 10 (λ i. i.summary) (λ i. 0)

abbrev queue : ℕ → MmpInfo
queue power = set_queue_end 4096 4096 power 0 (no_queues 10)

-- A root with two children that are done with their queues.
abbrev root : Dispatcher MmpInfo
root = record {
  father = record (new_link null) {
    notified = some (record (queue 10) {
      summary = new_cluster 4096 4096 10 0 ∷ new_cluster 4096 4096 20 0 ∷ [];
    });
  };
  left_link = record (new_link left_child) { avail = some (queue 10) };
  right_link = record (new_link right_child) { avail = some (queue 20) };
  delayed = [];
  update_timer = 0;
  next_update = 0;
  in_change = false;
  out = [];
}

abbrev zone : MmpInfo
zone = record (queue 10) { summary = new_cluster 4096 4096 10 0 ∷ new_cluster 4096 4096 20 0 ∷ [] }

abbrev bag : TaskBag
bag = record seven { min_requirements = work }

handle_task_bag-balances_example :
    let e = handle_task_bag natural info 1 clock branch left_child bag root in
    ((passes_up natural info 1 10 left_child bag zone root ≡ true)
      × (e ≡ pass_up natural info 1 bag root))
    ⊎ ((passes_up natural info 1 10 left_child bag zone root ≡ false)
        × ((k : ℕ) × (let req = until natural 10 work (limit 10 k) in
              let s = share_out natural 10 branch bag req root in
              (balanced_queue natural 10 work (num_tasks natural bag) zone.summary
                ≡ some (limit 10 k))
              × (sent e.out
                  ≡ ([] ++ at left_child (tasks_from 1 s.n_left))
                    ++ at right_child (tasks_from (1 + s.n_left) s.n_right))
              × (s.n_left + s.n_right + s.remaining_tasks ≡ 7)
              × ((s.remaining_tasks ≡ 0)
                  ⊎ (s.n_left + s.n_right
                      ≡ asked natural (groups natural 10 branch bag req root))))))
unfolding check_state
handle_task_bag-balances_example =
    handle_task_bag-balances natural info 1 clock branch left_child bag zone root refl refl refl
      (omega arith) (omega arith) (omega arith) refl refl

-- Work of 100 units until 10 s, and of 300 until 30 s.
abbrev rising : LDeltaFunction ℕ
rising = record {
  points = (1000000, 0) ∷ (10000000, 100) ∷ (20000000, 200) ∷ (30000000, 300) ∷ [];
  slope = 10;
}

abbrev constant : LDeltaFunction ℕ
constant = record { points = []; slope = 5 }

stepper-ends_example :
    (ps : List (Piece ℕ)) × (stepper natural (rising ∷ constant ∷ []) 0 30000000 ≡ some ps)
    × All IsProper ps
stepper-ends_example = stepper-ends natural (rising ∷ constant ∷ []) 0 30000000

-- A task of 150 units with its deadline at 25 s replaces two points.
update_points_lem_example :
    let ps = rising.points in
    let last = last_elim natural 25000000 ps in
    let first = first_of natural 150 25000000 ps in
    let avail = final_avail natural 150 25000000 ps in
    let after = update_points natural 150 25000000 ps in
    (length after ≡ 4 - last + first + 2)
    × (get_elem? after first
        ≡ some (lower_if natural 150 (leb last first) (task_start natural avail first ps, avail)))
    × (get_elem? after (suc first)
        ≡ some (lower_if natural 150 (leb last (suc first)) (25000000, avail)))
    × (get_elem? after (first + 2 + 0)
        ≡ some (lower_if natural 150 (leb last (first + 2 + 0)) (point_at natural ps (last + 0))))
unfolding last_elim
update_points_lem_example = update_points_lem natural 150 25000000 0 rising.points (omega arith)

abbrev task : ℕ → ℕ → ℕ → Task
task id len created = record {
  task_id = id;
  owner = father_addr;
  client_request_id = 8;
  client_task_id = id;
  description = record work { length = len };
  creation_time = created;
  status = prepared;
}

abbrev estimate : Task → ℕ
estimate t = 1000000 * t.description.length

abbrev proxies : List (TaskProxy ℕ)
proxies =
    of_task natural estimate (task 1 5 0)
    ∷ of_task natural estimate (task 2 9 0)
    ∷ of_task natural estimate (task 3 2 1000000)
    ∷ []

abbrev tasks : FspTaskList ℕ
tasks = record { proxies = proxies; boundaries = []; dirty = true }

ltb_asym : (x y : ℕ) → ltb x y ≡ true → ltb y x ≡ false
ltb_asym x y h = ground arith

ltb_joins : (x y z : ℕ) → ltb y x ≡ false → ltb z y ≡ false → ltb z x ≡ false
ltb_joins x y z h k = ground arith

reschedule-IsReordered_example :
    (after : FspTaskList ℕ) × (queue : List Task) × (reschedule natural false estimate 2000000 tasks
      ≡ some (after, queue))
    × IsReordered natural false proxies after.proxies
    × (queue ≡ origins natural after.proxies)
    × Perm queue (origins natural proxies)
reschedule-IsReordered_example =
    reschedule-IsReordered natural ltb_asym ltb_joins false estimate 2000000 tasks
