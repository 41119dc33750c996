-- ===== src/Submission/Database.antt =====
-- The statements of src/lib/db/TaskBagAppDatabase.cpp, on the tables of Submission.Tables.
use stars.Prelude.{
  ℕ, zero, suc, ◌+◌, Bool, true, false, not, ◌&&◌, ◌||◌, Option, none, some, List, [], ◌∷◌, ◌++◌,
  map, length, keep_if, any, ◌==◌, if◌then◌else◌,
}
use stars.Address.{Address, same}
use stars.Scheduler.Interface.{TaskDescription}
use stars.Submission.Tables.{
  same_state, first_of, update_where, count_where, equals, is_host, get_instance_id, of_app_of,
  is_between, is_in, is_task, request_app_where, AppDescription, AppInstance, TaskState, TaskRow,
  RequestRow, TaskRequest, Database, ready, searching, executing, finished,
}

-- createApp()
unfoldable pub create_app : AppDescription → Database → Database × Bool
create_app app db =
    if any (λ d. d.name == app.name) db.descriptions
    then (db, false)
    else (record db { descriptions = db.descriptions ++ app ∷ [] }, true)

abbrev pub new_task : ℕ → ℕ → TaskRow
new_task t app = record {
  tid = t;
  app_instance = app;
  state = ready;
  atime = none;
  ftime = none;
  host = none;
}

-- The tasks of an instance, from a number on.
unfoldable pub new_tasks : ℕ → ℕ → ℕ → List TaskRow
new_tasks app t zero = []
new_tasks app t (suc n) = new_task t app ∷ new_tasks app (t + 1) n

-- createAppInstance(), with none for -1.
unfoldable pub create_app_instance : ℕ → ℕ → ℕ → Database → Database × Option ℕ
unfolding new_tasks
create_app_instance name deadline now db = elim (first_of (λ d. d.name == name) db.descriptions) [
  | none ↦ (db, none)
  | some d ↦ (
    record db {
      instances =
          db.instances
          ++ (record {
            id = db.next_instance;
            app_type = name;
            ctime = now;
            rtime = none;
            app_deadline = deadline;
          })
            ∷ [];
      tasks = db.tasks ++ new_tasks db.next_instance 1 d.num_tasks;
      next_instance = db.next_instance + 1;
    },
    some db.next_instance,
  )
]

abbrev pub is_ready_of : ℕ → TaskRow → Bool
is_ready_of app t = t.app_instance == app && same_state t.state ready

-- The rows that associate the tasks with a request.
unfoldable pub associate : ℕ → ℕ → List TaskRow → List TaskRequest
associate id n [] = []
associate id n (t ∷ ts) =
    (record { of_request = id; rtid = n; of_task = t.tid }) ∷ associate id (n + 1) ts

-- What requestFromReadyTasks() sets in the message; the first task is 1.
pub record Request : Type 0 where
  pub request_id : ℕ
  pub last : ℕ
  pub requirements : TaskDescription

abbrev pub requirements_of : ℕ → Database → Option TaskDescription
requirements_of app db = elim (first_of (λ i. i.id == app) db.instances) [
  | none ↦ none
  | some i ↦ elim (first_of (λ d. d.name == i.app_type) db.descriptions) [
    | none ↦ none
    | some d ↦ some (record {
      length = d.app_length;
      deadline = i.app_deadline;
      max_memory = d.memory;
      max_disk = d.disk;
    })
  ]
]

abbrev pub add_request : ℕ → TaskDescription → List TaskRow → Database → Database × Option Request
add_request app req [] db = (db, none)
add_request app req (t ∷ ts) db = (
  record db {
    requests =
        db.requests ++ (record { rid = db.next_request; request_app = app; timeout = none }) ∷ [];
    task_requests = db.task_requests ++ associate db.next_request 1 (t ∷ ts);
    next_request = db.next_request + 1;
  },
  some (record { request_id = db.next_request; last = length (t ∷ ts); requirements = req }),
)

-- requestFromReadyTasks(), with none where it sets the last task to 0.
unfoldable pub request_from_ready_tasks : ℕ → Database → Database × Option Request
unfolding associate
request_from_ready_tasks app db = elim (requirements_of app db) [
  | none ↦ (db, none)
  | some req ↦ add_request app req (keep_if (is_ready_of app) db.tasks) db
]

abbrev pub release : ℕ → ℕ → Database → AppInstance → AppInstance
release id now db i = elim i.rtime [
  | none ↦ if equals (get_instance_id id db) i.id then record i { rtime = some now } else i
  | some t ↦ i
]

-- startSearch()
unfoldable pub start_search : ℕ → ℕ → ℕ → Database → Database
unfolding get_instance_id of_app_of is_in
start_search id timeout now db = record db {
  instances = map (release id now db) db.instances;
  tasks =
      update_where (λ t. of_app_of id db t && is_in id db.task_requests t)
        (λ t. record t { state = searching }) db.tasks;
  requests = update_where (λ r. r.rid == id) (λ r. record r { timeout = some timeout }) db.requests;
}

abbrev pub is_searched : ℕ → Database → TaskRow → Bool
is_searched id db t =
    of_app_of id db t && is_in id db.task_requests t && same_state t.state searching

-- The association of a request with a ready task of its instance.
abbrev pub is_open : ℕ → Database → TaskRequest → Bool
is_open id db r =
    r.of_request == id
    && any (λ t. same_state t.state ready && of_app_of id db t && t.tid == r.of_task) db.tasks

-- cancelSearch(), with the number of tasks that are ready again.
unfoldable pub cancel_search : ℕ → Database → Database × ℕ
unfolding of_app_of is_in
cancel_search id db =
    let stopped = record db {
      tasks = update_where (is_searched id db) (λ t. record t { state = ready }) db.tasks;
    } in
    (
      record stopped { task_requests = keep_if (λ r. not (is_open id stopped r)) db.task_requests },
      count_where (is_searched id db) db.tasks,
    )

abbrev pub is_taken : ℕ → ℕ → ℕ → Database → TaskRow → Bool
is_taken id first last db t =
    same_state t.state searching && is_between id first last db.task_requests t && of_app_of id db t

-- acceptedTasks(), with the number of tasks that are executed now.
unfoldable pub accepted_tasks : Address → ℕ → ℕ → ℕ → ℕ → Database → Database × ℕ
unfolding of_app_of is_between
accepted_tasks src id first last now db =
    let taken = is_taken id first last db in
    (
      record db {
        tasks =
            update_where taken
              (λ t. record t { state = executing; atime = some now; host = some src }) db.tasks;
      },
      count_where taken db.tasks,
    )

-- The test of the row of a task in finishedTask() and abortedTask().
abbrev pub is_row : ℕ → ℕ → Database → TaskRow → Bool
is_row id n db t = is_task id n db.task_requests t && of_app_of id db t

-- finishedTask()
unfoldable pub finished_task : Address → ℕ → ℕ → ℕ → Database → Database × Bool
unfolding of_app_of is_task same
finished_task src id n now db =
    if any (λ t. same_state t.state finished && is_row id n db t) db.tasks then (db, false) else (
      record db {
        tasks =
            update_where (λ t. is_host src t && is_row id n db t)
              (λ t. record t { state = finished; ftime = some now }) db.tasks;
      },
      true,
    )

abbrev pub free : TaskRow → TaskRow
free t = record t { state = ready; atime = none; ftime = none; host = none }

-- `rid = ?1` where ?1 is the text of the IP of a node: SQLite takes no integer for equal to a text that is not a number.
abbrev pub is_ip_text : Address → RequestRow → Bool
is_ip_text src r = false

-- The row that the first statement of abortedTask() asks for. Its ?1 is the IP of the node, not the request.
abbrev pub is_aborted_row : Address → ℕ → ℕ → Database → TaskRow → Bool
is_aborted_row src id n db t =
    same_state t.state executing
    && (is_host src t
        && (is_task id n db.task_requests t
            && equals (request_app_where (is_ip_text src) db) t.app_instance))

-- abortedTask()
unfoldable pub aborted_task : Address → ℕ → ℕ → Database → Database × Bool
unfolding of_app_of is_task same
aborted_task src id n db =
    if any (is_aborted_row src id n db) db.tasks
    then (
      record db {
        tasks = update_where (λ t. is_host src t && is_row id n db t) free db.tasks;
        task_requests = keep_if (λ r. not (r.of_request == id && r.rtid == n)) db.task_requests;
      },
      true,
    )
    else (db, false)

-- Whether a row of `A.app_instance = B.app_instance` names the task and the request of an association.
abbrev pub is_failed : Address → Database → TaskRequest → Bool
is_failed fail db r =
    any
      (λ t.
        same_state t.state executing
        && is_host fail t
        && t.tid == r.of_task
        && any (λ q. q.rid == r.of_request && q.request_app == t.app_instance) db.requests)
      db.tasks

-- deadNode()
unfoldable pub dead_node : Address → Database → Database
unfolding same
dead_node fail db = record db {
  tasks = update_where (λ t. is_host fail t && same_state t.state executing) free db.tasks;
  task_requests = keep_if (λ r. not (is_failed fail db r)) db.task_requests;
}

-- The counts of the tasks of an instance in a state.
unfoldable pub num_in : TaskState → ℕ → Database → ℕ
num_in s app db = count_where (λ t. t.app_instance == app && same_state t.state s) db.tasks

-- getNumInProcess()
unfoldable pub get_num_in_process : ℕ → Database → ℕ
get_num_in_process app db =
    count_where
      (λ t. t.app_instance == app && (same_state t.state executing || same_state t.state searching))
      db.tasks

-- isFinished()
unfoldable pub is_finished : ℕ → Database → Bool
is_finished app db =
    not (any (λ t. t.app_instance == app && not (same_state t.state finished)) db.tasks)
