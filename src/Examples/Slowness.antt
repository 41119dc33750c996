-- ===== src/Examples/Slowness.antt =====
-- A dispatcher under the policy FSP with two children of three and two nodes. The arithmetic is that of natural numbers here.
use stars.Prelude.{
  ℕ, ◌+◌, ◌≡◌, refl, false, Option, none, some, List, [], ◌∷◌, ◌++◌, ltb, ◌==◌, arith,
}
use stars.Prelude.Sorting.{sort_by, insert_by, sort_by-perm}
use stars.Address.{Address}
use stars.Scheduler.Interface.{TaskBag}
use stars.Dispatcher.Interface.{Info}
use stars.Dispatcher.{Dispatcher, new_link}
use stars.Dispatcher.Requests.{check_state, send_tasks, send_rest, send_child}
use stars.Dispatcher.Tasks.{at, sent}
use stars.Ibp.{scalar}
use stars.Fsp.Allocation.{
  ZaFunction, MdzCluster, Two, FunctionVector, new_functions, functions_of,
  compute_tasks_per_function, compute_tasks_per_branch,
}
use stars.Fsp.Exact.{compute_tasks_per_function-IsExact}
use stars.Fsp.Routing.{FspInfo, no_info, functions_in, handle_task_bag}
use stars.Fsp.Sharing.{IsRouted, handle_task_bag-IsRouted}
use stars.Examples.{father_addr, left_child, right_child}
use stars.Examples.Dispatching.{branch, clock, seven}
use stars.Examples.Functions.{natural, work}

-- Each task more slows a node down by `z`.
abbrev slowing : ℕ → ZaFunction ℕ
slowing z = record {
  first_piece = record { left_endpoint = 0; x = 0; y = 0; z1 = z; z2 = 0 };
  other_pieces = [];
}

abbrev cluster : ℕ → ℕ → MdzCluster ℕ
cluster n z = record {
  value = n;
  min_m = scalar 4096;
  min_d = scalar 4096;
  max_z = slowing z;
  accum_zsq = 0;
  accum_zmax = slowing z;
}

abbrev by_slowness : List (ℕ × ℕ) → List (ℕ × ℕ)
by_slowness heap = sort_by (λ p q. ltb p.0 q.0) heap

abbrev on_left : List (MdzCluster ℕ × ℕ)
on_left = (cluster 3 1, 0) ∷ []

abbrev on_right : List (MdzCluster ℕ × ℕ)
on_right = (cluster 2 2, 0) ∷ []

-- Five nodes do seven tasks in two rounds, in the second of which three nodes have a second task.
compute_tasks_per_function-IsExact_example :
    let least : Two ℕ = record { of_left = 0; of_right = 0 } in
    let v = new_functions 1000 least on_left on_right in
    (r : FunctionVector ℕ) × (compute_tasks_per_function natural by_slowness 8 7 100 v ≡ some r)
    × (let n = compute_tasks_per_branch r in
        (n.of_left + n.of_right ≡ 7)
        × (on_left ≡ [] → n.of_left ≡ 0)
        × (on_right ≡ [] → n.of_right ≡ 0))
compute_tasks_per_function-IsExact_example =
    compute_tasks_per_function-IsExact natural by_slowness
      (λ heap. sort_by-perm (λ p q. ltb p.0 q.0) heap) 100 7 1000
      (record { of_left = 0; of_right = 0 }) on_left on_right (omega arith) (omega arith)
      (omega arith)

abbrev info : Info (FspInfo ℕ)
info = record {
  seq = λ i. i.sequence_number;
  set_seq = λ n i. record i { sequence_number = n };
  from_sch = λ i. i.is_from_sch;
  set_from_sch = λ f i. record i { is_from_sch = f };
  join = λ l r. record l { summary = l.summary ++ r.summary };
  reduce = λ i. i;
  same = λ l r. l.slowness_range.max == r.slowness_range.max;
  size = λ i. 0;
  seq-set_seq = λ n i. refl;
  seq-set_from_sch = λ f i. refl;
  seq-reduce = λ i. refl;
}

abbrev nodes_of : ℕ → ℕ → FspInfo ℕ
nodes_of n z = record (no_info natural) { summary = cluster n z ∷ [] }

abbrev zone : FspInfo ℕ
zone = record (no_info natural) { summary = cluster 3 1 ∷ cluster 2 2 ∷ [] }

abbrev node : Dispatcher (FspInfo ℕ)
node = record {
  father = record (new_link father_addr) { notified = some zone };
  left_link = record (new_link left_child) { avail = some (nodes_of 3 1) };
  right_link = record (new_link right_child) { avail = some (nodes_of 2 2) };
  delayed = [];
  update_timer = 0;
  next_update = 0;
  in_change = false;
  out = [];
}

-- A bag of seven tasks that the father has sent, and of which it expects the slowness 5.
abbrev bag : TaskBag
bag = record seven { min_requirements = work; from_en = false }

handle_task_bag-IsRouted_example :
    (r : Dispatcher (FspInfo ℕ) × ℕ) × (handle_task_bag natural info by_slowness 1000 1 2 false
        clock branch father_addr bag 5 node
      ≡ some r)
    × IsRouted natural info by_slowness 1000 1 2 false branch father_addr bag 5 node r.0
unfolding check_state functions_in
handle_task_bag-IsRouted_example =
    handle_task_bag-IsRouted natural info by_slowness 1000 1 2 false clock branch father_addr bag 5
      zone node (λ heap. sort_by-perm (λ p q. ltb p.0 q.0) heap) refl refl refl (omega arith)
      (omega arith) (omega arith) (omega arith)

abbrev sent_by : Option (Dispatcher (FspInfo ℕ) × ℕ) → List (Address × ℕ)
sent_by none = []
sent_by (some r) = sent r.0.out

-- The left child is sent five of the tasks, for the nodes that are slowed down less.
test_sent :
    sent_by
      (handle_task_bag natural info by_slowness 1000 1 2 false clock branch father_addr bag 5 node)
    ≡ at left_child (1 ∷ 2 ∷ 3 ∷ 4 ∷ 5 ∷ []) ++ at right_child (6 ∷ 7 ∷ [])
unfolding handle_task_bag functions_of sort_by insert_by send_tasks send_rest send_child
test_sent = refl
