-- ===== src/Examples/Submitting.antt =====
-- A node that has submitted an application of two tasks.
use stars.Prelude.{◌≡◌, refl, false, none, some, [], ◌∷◌, arith}
use stars.Address.{below, value}
use stars.Scheduler.Interface.{TaskDescription}
use stars.Submission.Tables.{
  Database, ready, searching, executing, update_where, get_instance_id, of_app_of, is_between,
  is_task,
}
use stars.Submission.Database.{
  is_ready_of, request_from_ready_tasks, start_search, cancel_search, accepted_tasks, finished_task,
  num_in,
}
use stars.Submission.Search.{search_lem}
use stars.Submission.Lifecycle.{Steps}
use stars.Submission.Runs.{on_finish, run, IsSound, run-Steps}
use stars.Submission.Maps.{value_or, find, find_node}
use stars.Submission.Node.{SubmissionNode, Env, undefined, emit, handle_request_timeout}
use stars.Submission.Monitor.{Report, handle_task_monitor}
use stars.Submission.Timeouts.{cancelled, handle_request_timeout-undefined}
use stars.Examples.{here, father_addr, left_child}

-- A ready task, and one that runs on the left child.
abbrev tables : Database
tables = record {
  descriptions =
      (record { name = 4; num_tasks = 2; app_length = 100; memory = 64; disk = 64 }) ∷ [];
  instances = (record { id = 1; app_type = 4; ctime = 0; rtime = some 0; app_deadline = 900 }) ∷ [];
  tasks =
      (record { tid = 1; app_instance = 1; state = ready; atime = none; ftime = none; host = none })
      ∷ (record {
        tid = 2;
        app_instance = 1;
        state = executing;
        atime = some 5;
        ftime = none;
        host = some left_child;
      })
      ∷ [];
  requests = (record { rid = 1; request_app = 1; timeout = some 30 }) ∷ [];
  task_requests = (record { of_request = 1; rtid = 2; of_task = 2 }) ∷ [];
  next_instance = 2;
  next_request = 2;
}

tables-IsSound : IsSound tables
tables-IsSound = record {
  valid = record {
    keyed = ((ground arith, tt), (tt, tt));
    old_requests = (omega arith, tt);
    old_associations = (omega arith, tt);
  };
  hosted = (refl, (refl, tt));
}

search_lem_example :
    let asked = (request_from_ready_tasks 1 tables).0 in
    let started = start_search 2 50 20 asked in
    let back = cancel_search 2 started in
    (1 ≡ num_in ready 1 tables)
    × (started.tasks
        ≡ update_where (is_ready_of 1) (λ t. record t { state = searching }) tables.tasks)
    × (back.0.tasks ≡ tables.tasks)
    × (back.1 ≡ num_in ready 1 tables)
unfolding request_from_ready_tasks
search_lem_example =
    search_lem 1 50 20 tables (request_from_ready_tasks 1 tables).0
      (record {
        request_id = 2;
        last = 1;
        requirements = record { length = 100; deadline = 900; max_memory = 64; max_disk = 64 };
      })
      tables-IsSound.valid refl

run-Steps_example :
    let after = run (on_finish left_child 1 2 40) tables in
    Steps tables.tasks after.tasks × IsSound after
run-Steps_example = run-Steps (on_finish left_child 1 2 40) tables tables-IsSound

abbrev settings : Env
settings = record {
  self = here;
  father = father_addr;
  now = 40;
  request_timeout = 30;
  submit_retries = 3;
  timer_id = 6;
  info_sequence = 0;
}

-- Its second task is the last one.
abbrev submitter : SubmissionNode
submitter = record {
  in_change = false;
  delayed_instances = [];
  remaining_tasks = (1, 1) ∷ [];
  retries = (1, 0) ∷ [];
  heartbeats = (left_child, 3) ∷ [];
  remote_tasks = (left_child, (1, 1) ∷ []) ∷ [];
  db = tables;
  out = [];
}

handle_request_timeout-undefined_example :
    let report : Report = record {
      request = 1;
      task = 2;
      status = stars.Scheduler.Interface.finished;
    } in
    let after = handle_task_monitor settings left_child (report ∷ []) submitter in
    (cancelled after.out
      ≡ value_or 0 (find_node left_child submitter.heartbeats) ∷ cancelled submitter.out)
    × (handle_request_timeout settings 1 after ≡ emit undefined after)
unfolding get_instance_id find find_node below value finished_task accepted_tasks of_app_of
    is_between is_task
handle_request_timeout-undefined_example =
    handle_request_timeout-undefined settings settings left_child 1 2 1 1 submitter tt refl refl
      refl refl
