-- ===== src/Scheduler.antt =====
-- include/Scheduler.hpp and src/lib/scheduling/Scheduler.cpp: the task queue of an execution node. The
-- scheduling policy (acceptable, reschedule, getAvailability) and the tasks of the execution environment
-- are interfaces there, and so they are here.
pub mod Interface
pub mod Handlers
pub mod Queue
pub mod Ending
pub mod Reports
pub mod Distinct
pub mod Acceptance
use stars.Prelude.{
  ℕ, zero, suc, ◌+◌, ◌-◌, ◌%◌, Bool, true, false, not, ◌&&◌, ◌||◌, Option, none, some, List, [],
  ◌∷◌, ◌++◌, map, ltb, leb, ◌==◌, if◌then◌else◌, u32, length,
}
use stars.Address.{Address, null, same, differ, below}
use Interface.{Status, Task, TaskDescription, TaskBag, finished, aborted, prepared, Backend, Policy}

-- One task in a TaskMonitorMsg: its request, its id there, and its state.
pub record Report : Type 0 where
  pub request : ℕ
  pub task : ℕ
  pub status : Status

-- What the scheduler asks of CommLayer. The heartbeat of a message is the configured one.
pub data Effect (I : Type 0) : Type 0 where
  send_monitor : Address → List Report → Effect I
  send_accept : Address → ℕ → ℕ → ℕ → Effect I
  send_availability : Address → ℕ → I → Effect I
  set_reschedule_timer : Effect I
  set_monitor_timer : Effect I
  cancel_timer : ℕ → Effect I

-- The members of the class, the father of its leaf, the next task id (Task::nextId), and in `out` the
-- calls that left the node, the latest first.
pub record Scheduler (I : Type 0) : Type 0 where
  pub tasks : List Task
  pub seq_num : ℕ
  pub in_change : Bool
  pub dirty : Bool
  pub reschedule_timer : ℕ
  pub monitor_timer : ℕ
  pub tasks_executed : ℕ
  pub max_queue_length : ℕ
  pub max_paused_tasks : ℕ
  pub father : Address
  pub next_id : ℕ
  pub out : List (Effect I)

-- The local address and the number that the next call of setTimer() returns.
pub record Env : Type 0 where
  pub self : Address
  pub timer_id : ℕ

-- TaskStateChgMsg
pub record StateChange : Type 0 where
  pub task_id : ℕ
  pub new_state : Status

-- AbortTaskMsg
pub record AbortTask : Type 0 where
  pub request : ℕ
  pub tasks : List ℕ

abbrev pub emit : {I : Type 0} → Effect I → Scheduler I → Scheduler I
emit x s = record s { out = x ∷ s.out }

abbrev pub is_prepared : Status → Bool
is_prepared s = elim s [ prepared ↦ true | _ ↦ false ]

abbrev pub report : Task → Report
report t = record { request = t.client_request_id; task = t.client_task_id; status = t.status }

-- The first task with this id, and the queue without it.
unfoldable pub remove_from_queue : ℕ → List Task → Option Task × List Task
remove_from_queue id [] = (none, [])
remove_from_queue id (t ∷ ts) =
    let (found, rest) = remove_from_queue id ts in
    if t.task_id == id then (some t, ts) else (found, t ∷ rest)

-- getTask()
unfoldable pub get_task : ℕ → List Task → Option Task
get_task id [] = none
get_task id (t ∷ ts) = if t.task_id == id then some t else get_task id ts

-- One round of the loop over the tasks of an AbortTaskMsg.
unfoldable pub abort_task : ℕ → ℕ → List Task → List Task
abort_task request id [] = []
abort_task request id (t ∷ ts) =
    if t.client_request_id == request && t.client_task_id == id
    then ts
    else t ∷ abort_task request id ts

unfoldable pub abort_all : ℕ → List ℕ → List Task → List Task
unfolding abort_task
abort_all request [] ts = ts
abort_all request (id ∷ ids) ts = abort_all request ids (abort_task request id ts)

-- map::insert of an owner, if it is not there, and addTask on its message. The map is ordered by address.
unfoldable pub add_report : Task → List (Address × List Report) → List (Address × List Report)
unfolding below
add_report t [] = (t.owner, report t ∷ []) ∷ []
add_report t ((owner, reports) ∷ rest) =
    if below t.owner owner
    then (t.owner, report t ∷ []) ∷ (owner, reports) ∷ rest
    else if below owner t.owner
    then (owner, reports) ∷ add_report t rest
    else (owner, reports ++ report t ∷ []) ∷ rest

unfoldable pub group_reports :
    List Task → List (Address × List Report) → List (Address × List Report)
unfolding add_report
group_reports [] dsts = dsts
group_reports (t ∷ ts) dsts = group_reports ts (add_report t dsts)

-- The tasks that accept() creates, from `i` on.
unfoldable pub create_tasks : Backend → TaskBag → ℕ → ℕ → ℕ → List Task
create_tasks b msg id i zero = []
create_tasks b msg id i (suc left) =
    b.create id msg.requester msg.request_id ((msg.first_task + i) % u32) msg.min_requirements
    ∷ create_tasks b msg ((id + 1) % u32) (i + 1) left

unfoldable pub count_paused : Backend → List Task → ℕ
count_paused b [] = 0
count_paused b (t ∷ ts) = (if b.is_paused t then 1 else 0) + count_paused b ts

abbrev pub run_front : Backend → Task → Task
run_front b t = if is_prepared t.status then b.run t else t

abbrev pub run_first : Backend → List Task → List Task
run_first b [] = []
run_first b (t ∷ ts) = run_front b t ∷ map b.pause ts
