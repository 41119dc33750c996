-- ===== src/Submission/Runs.antt =====
-- Runs of the statements of Submission.Database on a task.
use stars.Prelude.{
  ℕ, ◌+◌, ◌<◌, ◌≡◌, refl, sym, subst, Bool, ◌&&◌, Option, none, some, List, [], ◌∷◌, All,
  All-append, any, keep_if, if-both, ◌==◌, arith,
}
use stars.Address.{Address}
use stars.Submission.Tables.{
  Database, TaskRow, RequestRow, TaskRequest, same_state, finished, ready, searching, update_where,
}
use stars.Submission.Database.{
  Request, is_ready_of, associate, request_from_ready_tasks, start_search, cancel_search,
  accepted_tasks, finished_task, aborted_task, is_aborted_row, dead_node, is_row,
}
use stars.Submission.Counts.{All-map}
use stars.Submission.Keys.{IsValid, requested}
use stars.Submission.Search.{Outcome, request-Outcome, start_search-tasks}
use stars.Submission.Lifecycle.{
  Steps, IsHosted, IsHosted-Step, IsKeyed-Steps, Steps-All, Steps-update, is_state, is_searched_for,
}
use stars.Submission.Refinement.{
  All-of, Steps-refl, cancel_search-Steps, accepted_tasks-Steps, finished_task-Steps,
  aborted_task-Steps, dead_node-Steps,
}

-- What the node asks of the database once there is an instance; a search is a request and its start.
pub data Event : Type 0 where
  on_search : ℕ → ℕ → ℕ → Event
  on_cancel : ℕ → Event
  on_accept : Address → ℕ → ℕ → ℕ → ℕ → Event
  on_finish : Address → ℕ → ℕ → ℕ → Event
  on_abort : Address → ℕ → ℕ → Event
  on_dead_node : Address → Event

abbrev pub start : ℕ → ℕ → Database × Option Request → Database
start timeout now (db, none) = db
start timeout now (db, some r) = start_search r.request_id timeout now db

unfoldable pub run : Event → Database → Database
run (on_search app timeout now) db = start timeout now (request_from_ready_tasks app db)
run (on_cancel id) db = (cancel_search id db).0
run (on_accept src id first last now) db = (accepted_tasks src id first last now db).0
run (on_finish src id n now) db = (finished_task src id n now db).0
run (on_abort src id n) db = (aborted_task src id n db).0
run (on_dead_node fail) db = dead_node fail db

-- The keys of the tasks differ, the numbers of requests to come are free, and a task has a node exactly when it
-- runs or has run.
pub record IsSound (db : Database) : Type 0 where
  pub valid : IsValid db
  pub hosted : All IsHosted db.tasks

-- The requests and associations are old.
abbrev AreOld : ℕ → List RequestRow → List TaskRequest → Type 0
AreOld n rs ss = All (λ r. r.rid < n) rs × All (λ r. r.of_request < n) ss

IsSound-Steps :
    (db after : Database)
    → Steps db.tasks after.tasks
    → AreOld after.next_request after.requests after.task_requests
    → IsSound db
    → IsSound after
IsSound-Steps db after s old h = record {
  valid = record {
    keyed = IsKeyed-Steps db.tasks after.tasks s h.valid.keyed;
    old_requests = old.0;
    old_associations = old.1;
  };
  hosted = Steps-All IsHosted db.tasks after.tasks IsHosted-Step s h.hosted;
}

All-keep_if :
    (P : TaskRequest → Type 0) (p : TaskRequest → Bool) (rs : List TaskRequest)
    → All P rs
    → All P (keep_if p rs)
All-keep_if P p [] h = tt
All-keep_if P p (r ∷ rs) h =
    if-both (All P) (p r) (h.0, All-keep_if P p rs h.1) (All-keep_if P p rs h.1)

associate-old :
    (id n : ℕ) (ts : List TaskRow) → All (λ r. r.of_request < id + 1) (associate id n ts)
unfolding associate
associate-old id n [] = tt
associate-old id n (t ∷ ts) = (omega arith, associate-old id (n + 1) ts)

timeout-old :
    (m id timeout : ℕ) (rs : List RequestRow)
    → All (λ r. r.rid < m) rs
    → All
        (λ r. r.rid < m)
        (update_where (λ r. r.rid == id) (λ r. record r { timeout = some timeout }) rs)
timeout-old m id timeout [] h = tt
timeout-old m id timeout (r ∷ rs) h =
    (if-both (λ (q : RequestRow). q.rid < m) (r.rid == id) h.0 h.0, timeout-old m id timeout rs h.1)

search-old :
    (app timeout now : ℕ) (db : Database)
    → IsValid db
    → let after =
        start_search db.next_request timeout now
          (requested app (keep_if (is_ready_of app) db.tasks) db) in
      AreOld after.next_request after.requests after.task_requests
unfolding start_search
search-old app timeout now db v =
    let later =
      All-append (λ r. r.rid < db.next_request + 1) db.requests
        ((record { rid = db.next_request; request_app = app; timeout = none }) ∷ [])
        (All-map db.requests (λ r h. omega (arith, h)) v.old_requests) (omega arith, tt) in
    (
      timeout-old (db.next_request + 1) db.next_request timeout _ later,
      All-append (λ r. r.of_request < db.next_request + 1) db.task_requests
          (associate db.next_request 1 (keep_if (is_ready_of app) db.tasks))
          (All-map db.task_requests (λ r h. omega (arith, h)) v.old_associations)
          (associate-old db.next_request 1 (keep_if (is_ready_of app) db.tasks)),
    )

search-IsSound :
    (app timeout now : ℕ) (db : Database) (o : Database × Option Request)
    → Outcome app db o
    → IsSound db
    → Steps db.tasks (start timeout now o).tasks × IsSound (start timeout now o)
search-IsSound app timeout now db (after, none) e h = rw e (Steps-refl db.tasks, h)
search-IsSound app timeout now db (after, some r) (same_db, id, last) h =
    let asked = requested app (keep_if (is_ready_of app) db.tasks) db in
    let started = start_search db.next_request timeout now asked in
    let searched : Steps db.tasks
        (update_where (is_ready_of app) (λ t. record t { state = searching }) db.tasks) =
      Steps-update (is_ready_of app) (λ t. record t { state = searching }) db.tasks
        (All-of db.tasks
          (λ t e. is_searched_for (is_state t.state ready (ground (arith, e))) refl)) in
    let steps =
      subst (Steps db.tasks) (sym (start_search-tasks app db h.valid timeout now)) searched in
    rw (same_db, id)
      (steps, IsSound-Steps db started steps (search-old app timeout now db h.valid) h)

updated-IsSound :
    (db after : Database)
    → Steps db.tasks after.tasks
    → after.next_request ≡ db.next_request
    → after.requests ≡ db.requests
    → All (λ r. r.of_request < db.next_request) after.task_requests
    → IsSound db
    → Steps db.tasks after.tasks × IsSound after
updated-IsSound db after s e e' old h = (
  s,
  IsSound-Steps db after s
      (
        subst (λ n. All (λ r. r.rid < n) after.requests) (sym e)
            (subst (All (λ r. r.rid < db.next_request)) (sym e') h.valid.old_requests),
        subst (λ n. All (λ r. r.of_request < n) after.task_requests) (sym e) old,
      )
      h,
)

abbrev IsKept : Database → Database × Bool → Type 0
IsKept db after =
    (after.0.next_request ≡ db.next_request)
    × (after.0.requests ≡ db.requests)
    × All (λ r. r.of_request < db.next_request) after.0.task_requests

pub finished_task-requests :
    (src : Address) (id n now : ℕ) (db : Database)
    → (finished_task src id n now db).0.requests ≡ db.requests
unfolding finished_task
finished_task-requests src id n now db =
    if-both (λ (r : Database × Bool). r.0.requests ≡ db.requests)
      (any (λ t. same_state t.state finished && is_row id n db t) db.tasks) refl refl

finished_task-IsKept :
    (src : Address) (id n now : ℕ) (db : Database)
    → IsValid db
    → IsKept db (finished_task src id n now db)
unfolding finished_task
finished_task-IsKept src id n now db v =
    if-both (IsKept db) (any (λ t. same_state t.state finished && is_row id n db t) db.tasks)
      (refl, refl, v.old_associations) (refl, refl, v.old_associations)

aborted_task-IsKept :
    (src : Address) (id n : ℕ) (db : Database) → IsValid db → IsKept db (aborted_task src id n db)
unfolding aborted_task
aborted_task-IsKept src id n db v =
    if-both (IsKept db) (any (is_aborted_row src id n db) db.tasks)
      (refl, refl, All-keep_if _ _ db.task_requests v.old_associations)
      (refl, refl, v.old_associations)

-- Whatever the node asks of a sound database, each task makes at most one step of its life: a ready task may be
-- searched for, a task that is searched for may start on a node or be ready again, a running one may finish or be
-- ready again without a node, and a finished one stays as it is. The database is sound after it.
pub run-Steps :
    (x : Event) (db : Database) → IsSound db → Steps db.tasks (run x db).tasks × IsSound (run x db)
unfolding run cancel_search accepted_tasks dead_node
run-Steps (on_search app timeout now) db h =
    search-IsSound app timeout now db (request_from_ready_tasks app db) (request-Outcome app db) h
run-Steps (on_cancel id) db h =
    updated-IsSound db (cancel_search id db).0 (cancel_search-Steps id db) refl refl
      (All-keep_if _ _ db.task_requests h.valid.old_associations) h
run-Steps (on_accept src id first last now) db h =
    updated-IsSound db (accepted_tasks src id first last now db).0
      (accepted_tasks-Steps src id first last now db) refl refl h.valid.old_associations h
run-Steps (on_finish src id n now) db h =
    let k = finished_task-IsKept src id n now db h.valid in
    updated-IsSound db (finished_task src id n now db).0
      (finished_task-Steps src id n now db h.hosted) k.0 k.1 k.2 h
run-Steps (on_abort src id n) db h =
    let k = aborted_task-IsKept src id n db h.valid in
    updated-IsSound db (aborted_task src id n db).0 (aborted_task-Steps src id n db) k.0 k.1 k.2 h
run-Steps (on_dead_node fail) db h =
    updated-IsSound db (dead_node fail db) (dead_node-Steps fail db) refl refl
      (All-keep_if _ _ db.task_requests h.valid.old_associations) h
