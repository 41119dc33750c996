-- ===== src/Submission/Node.antt =====
-- src/lib/scheduling/SubmissionNode.cpp: the handlers of the node that submits applications.
use stars.Prelude.{
  ℕ, ◌+◌, ◌-◌, ◌%◌, Bool, true, false, ◌&&◌, Option, none, some, List, [], ◌∷◌, ◌++◌, ltb, ◌==◌,
  if◌then◌else◌, u32,
}
use stars.Address.{Address, null, same}
use stars.Scheduler.Interface.{TaskBag}
use stars.Submission.Tables.{Database, get_instance_id, ready}
use stars.Submission.Database.{
  Request, create_app_instance, request_from_ready_tasks, start_search, cancel_search,
  accepted_tasks, num_in,
}
use stars.Submission.Maps.{find, put, erase, find_node, put_node, value_or}

-- What leaves the node, and finishedApp(). `undefined` marks the use of the end of a map.
pub data Effect : Type 0 where
  send_bag : Address → TaskBag → Effect
  set_request_timer : ℕ → ℕ → Effect
  set_heartbeat_timer : Address → Effect
  cancel_timer : ℕ → Effect
  finished_app : ℕ → Effect
  undefined : Effect

-- The members of the class, and in `out` what left the node, the latest first.
pub record SubmissionNode : Type 0 where
  pub in_change : Bool
  pub delayed_instances : List (ℕ × ℕ)
  pub remaining_tasks : List (ℕ × ℕ)
  pub retries : List (ℕ × ℕ)
  pub heartbeats : List (Address × ℕ)
  pub remote_tasks : List (Address × List (ℕ × ℕ))
  pub db : Database
  pub out : List Effect

-- The address of the node and of its father, the clock, the settings, the number that the next call of setTimer() returns,
-- and what the field of the message that the code does not set holds.
pub record Env : Type 0 where
  pub self : Address
  pub father : Address
  pub now : ℕ
  pub request_timeout : ℕ
  pub submit_retries : ℕ
  pub timer_id : ℕ
  pub info_sequence : ℕ

abbrev pub emit : Effect → SubmissionNode → SubmissionNode
emit x s = record s { out = x ∷ s.out }

-- What sendRequest() sends to the dispatcher of the father.
abbrev pub bag_of : Env → Request → TaskBag
bag_of env r = record {
  request_id = r.request_id;
  requester = env.self;
  first_task = 1;
  last_task = r.last;
  min_requirements = r.requirements;
  for_en = false;
  from_en = true;
  info_sequence = env.info_sequence;
}

abbrev pub start_request : Env → ℕ → ℕ → SubmissionNode → Database × Option Request → SubmissionNode
start_request env app prev s (db, none) = record s { db = db }
start_request env app prev s (db, some r) =
    let counted = value_or 0 (find app s.remaining_tasks) in
    record s {
      db = start_search r.request_id (env.now + env.request_timeout) env.now db;
      retries = put r.request_id (prev + 1) s.retries;
      remaining_tasks = put app ((counted + r.last) % u32) s.remaining_tasks;
      out =
          send_bag env.father (bag_of env r)
          ∷ set_request_timer r.request_id (env.now + env.request_timeout)
          ∷ s.out;
    }

-- sendRequest()
unfoldable pub send_request : Env → ℕ → ℕ → SubmissionNode → SubmissionNode
send_request env app prev s =
    if s.in_change
    then record s { delayed_instances = s.delayed_instances ++ (app, prev) ∷ [] }
    else start_request env app prev s (request_from_ready_tasks app s.db)

abbrev pub created : Env → SubmissionNode → Database × Option ℕ → SubmissionNode
created env s (db, none) = record s { db = db }
created env s (db, some app) =
    send_request env app 0 (record s { db = db; remaining_tasks = put app 0 s.remaining_tasks })

-- handle() of a DispatchCommandMsg.
unfoldable pub handle_dispatch_command : Env → ℕ → ℕ → SubmissionNode → SubmissionNode
unfolding same
handle_dispatch_command env name deadline s =
    if same env.father null
    then s
    else created env s (create_app_instance name deadline env.now s.db)

-- fatherChanging()
unfoldable pub father_changing : SubmissionNode → SubmissionNode
father_changing s = record s { in_change = true }

unfoldable pub send_all : Env → List (ℕ × ℕ) → SubmissionNode → SubmissionNode
send_all env [] s = s
send_all env ((app, prev) ∷ rest) s = send_all env rest (send_request env app prev s)

-- fatherChanged()
unfoldable pub father_changed : Env → SubmissionNode → SubmissionNode
unfolding send_all
father_changed env s =
    send_all env s.delayed_instances (record s { in_change = false; delayed_instances = [] })

-- The heartbeat of a node that has accepted tasks of an instance.
abbrev pub count_remote : Env → Address → ℕ → ℕ → SubmissionNode → SubmissionNode
count_remote env src app n s =
    let timer = value_or 0 (find_node src s.heartbeats) in
    let per_app = value_or [] (find_node src s.remote_tasks) in
    let remote = put app ((value_or 0 (find app per_app) + n) % u32) per_app in
    let counted = record s { remote_tasks = put_node src remote s.remote_tasks } in
    if timer == 0
    then emit (set_heartbeat_timer src)
        (record counted { heartbeats = put_node src env.timer_id s.heartbeats })
    else counted

-- handle() of an AcceptTaskMsg.
unfoldable pub handle_accept_task : Env → Address → ℕ → ℕ → ℕ → SubmissionNode → SubmissionNode
handle_accept_task env src request first last s = elim (get_instance_id request s.db) [
  | none ↦ s
  | some app ↦
      let (db, n) = accepted_tasks src request first last env.now s.db in
      let accepted = record s { db = db } in
      if n == 0
      then accepted
      else count_remote env src app n (record accepted { retries = put request 0 s.retries })
]

abbrev pub close_app : ℕ → SubmissionNode → SubmissionNode
close_app app s =
    emit (finished_app app) (record s { remaining_tasks = erase app s.remaining_tasks })

-- The search of a request that is over, where the node knows how many tasks the application has left and how often
-- it was tried.
abbrev pub try_again : Env → ℕ → ℕ → ℕ → ℕ → SubmissionNode → SubmissionNode
try_again env request app left_over prev s =
    let (db, n) = cancel_search request s.db in
    let still = (left_over + u32 - n) % u32 in
    let cancelled = record s { db = db; remaining_tasks = put app still s.remaining_tasks } in
    let after =
      if ltb 0 (num_in ready app db) && ltb prev env.submit_retries
      then send_request env app prev cancelled
      else if still == 0
      then close_app app cancelled
      else cancelled in
    record after { retries = erase request after.retries }

-- The search of a request of an application, with what remainingTasks and retries have of them.
abbrev pub end_search : Env → ℕ → ℕ → SubmissionNode → Option ℕ → Option ℕ → SubmissionNode
end_search env request app s none prev = emit undefined s
end_search env request app s (some left_over) none = emit undefined s
end_search env request app s (some left_over) (some prev) =
    try_again env request app left_over prev s

abbrev pub end_request : Env → ℕ → SubmissionNode → Option ℕ → SubmissionNode
end_request env request s none = s
end_request env request s (some app) =
    end_search env request app s (find app s.remaining_tasks) (find request s.retries)

-- handle() of a RequestTimeout.
unfoldable pub handle_request_timeout : Env → ℕ → SubmissionNode → SubmissionNode
handle_request_timeout env request s = end_request env request s (get_instance_id request s.db)
