-- ===== src/Submission/Monitor.antt =====
-- src/lib/scheduling/SubmissionNode.cpp: the reports of the execution nodes and their heartbeats.
use stars.Prelude.{
  ℕ, ◌+◌, ◌-◌, ◌%◌, Bool, true, false, Option, none, some, List, [], ◌∷◌, ◌==◌, if◌then◌else◌, u32,
}
use stars.Address.{Address}
use stars.Scheduler.Interface.{Status, finished, aborted}
use stars.Submission.Tables.{Database, get_instance_id}
use stars.Submission.Database.{accepted_tasks, finished_task, aborted_task, dead_node}
use stars.Submission.Maps.{find, put, erase, find_node, put_node, erase_node, value_or}
use stars.Submission.Node.{
  SubmissionNode, Env, cancel_timer, set_heartbeat_timer, emit, send_request, close_app,
}

-- A count that goes down by one, and is removed when it is 0.
abbrev pub count_down : ℕ → ℕ → List (ℕ × ℕ) → List (ℕ × ℕ)
count_down app n m =
    let less = (n + u32 - 1) % u32 in if less == 0 then erase app m else put app less m

-- A report on a task.
pub record Report : Type 0 where
  pub request : ℕ
  pub task : ℕ
  pub status : Status

abbrev pub remote_of : Address → SubmissionNode → List (ℕ × ℕ)
remote_of src s = value_or [] (find_node src s.remote_tasks)

abbrev pub set_remote : Address → List (ℕ × ℕ) → SubmissionNode → SubmissionNode
set_remote src m s = record s { remote_tasks = put_node src m s.remote_tasks }

abbrev pub one_less : ℕ → Option ℕ → SubmissionNode → SubmissionNode
one_less app none s = s
one_less app (some n) s =
    if (n + u32 - 1) % u32 == 0
    then close_app app s
    else record s { remaining_tasks = put app ((n + u32 - 1) % u32) s.remaining_tasks }

-- An application that has one task less on a node, and one less altogether.
abbrev pub note_finished : Address → ℕ → SubmissionNode → SubmissionNode
note_finished src app s = elim (find app (remote_of src s)) [
  | none ↦ s
  | some n ↦
      one_less app (find app s.remaining_tasks)
        (set_remote src (count_down app n (remote_of src s)) s)
]

abbrev pub finish_row : Address → Option ℕ → SubmissionNode → Database × Bool → SubmissionNode
finish_row src none s (db, found) = record s { db = db }
finish_row src (some app) s (db, false) = record s { db = db }
finish_row src (some app) s (db, true) = note_finished src app (record s { db = db })

abbrev pub note_aborted : Env → Address → ℕ → SubmissionNode → SubmissionNode
note_aborted env src app s =
    let counted = value_or 0 (find app s.remaining_tasks) in
    let less = record s {
      remaining_tasks = put app ((counted + u32 - 1) % u32) s.remaining_tasks;
    } in
    elim (find app (remote_of src s)) [
      | none ↦ less
      | some n ↦ send_request env app 0 (set_remote src (count_down app n (remote_of src s)) less)
    ]

-- Where a row was found, its request has an instance.
abbrev pub abort_row : Env → Address → Option ℕ → SubmissionNode → Database × Bool → SubmissionNode
abort_row env src none s (db, found) = record s { db = db }
abort_row env src (some app) s (db, false) = record s { db = db }
abort_row env src (some app) s (db, true) = note_aborted env src app (record s { db = db })

-- The body of the loop over the reports.
unfoldable pub handle_report : Env → Address → Report → SubmissionNode → SubmissionNode
handle_report env src r s =
    let accepted = record s { db = (accepted_tasks src r.request r.task r.task env.now s.db).0 } in
    let app = get_instance_id r.request accepted.db in
    elim r.status [
      | finished ↦
          finish_row src app accepted (finished_task src r.request r.task env.now accepted.db)
      | aborted ↦ abort_row env src app accepted (aborted_task src r.request r.task accepted.db)
      | _ ↦ accepted
    ]

unfoldable pub handle_reports : Env → Address → List Report → SubmissionNode → SubmissionNode
handle_reports env src [] s = s
handle_reports env src (r ∷ rs) s = handle_reports env src rs (handle_report env src r s)

-- The next heartbeat timeout of a node, as long as it has tasks.
abbrev pub rearm : Env → Address → SubmissionNode → List (ℕ × ℕ) → SubmissionNode
rearm env src s [] = record s {
  remote_tasks = erase_node src s.remote_tasks;
  heartbeats = erase_node src s.heartbeats;
}
rearm env src s (m ∷ ms) =
    emit (set_heartbeat_timer src)
      (record s { heartbeats = put_node src env.timer_id s.heartbeats })

-- handle() of a TaskMonitorMsg.
unfoldable pub handle_task_monitor : Env → Address → List Report → SubmissionNode → SubmissionNode
unfolding handle_reports
handle_task_monitor env src reports s =
    let told = handle_reports env src reports (set_remote src (remote_of src s) s) in
    rearm env src (emit (cancel_timer (value_or 0 (find_node src told.heartbeats))) told)
      (remote_of src told)

-- The loop over the applications of a dead node.
unfoldable pub relaunch : Env → List (ℕ × ℕ) → SubmissionNode → SubmissionNode
relaunch env [] s = s
relaunch env ((app, n) ∷ rest) s =
    let counted = value_or 0 (find app s.remaining_tasks) in
    relaunch env rest (
      send_request env app 0
        (record s { remaining_tasks = put app ((counted + u32 - n) % u32) s.remaining_tasks }))

-- handle() of a HeartbeatTimeout.
unfoldable pub handle_heartbeat_timeout : Env → Address → SubmissionNode → SubmissionNode
unfolding relaunch
handle_heartbeat_timeout env node s =
    let relaunched =
      relaunch env (remote_of node s)
        (record s { heartbeats = erase_node node s.heartbeats; db = dead_node node s.db }) in
    record relaunched { remote_tasks = erase_node node relaunched.remote_tasks }
