-- ===== src/Submission/Timeouts.antt =====
-- The timeout of a request whose tasks have all finished, Submission.Node and Submission.Monitor.
use stars.Prelude.{
  ℕ, ◌<◌, ◌≡◌, refl, ◌∙◌, ap, Bool, true, Option, none, some, List, [], ◌∷◌, ◌==◌, arith,
}
use stars.Address.{Address, below, value}
use stars.Scheduler.Interface.{finished}
use stars.Submission.Tables.{Database, get_instance_id, first_of}
use stars.Submission.Database.{accepted_tasks, finished_task}
use stars.Submission.Runs.{finished_task-requests}
use stars.Submission.Maps.{find, erase, find_node, put_node, value_or}
use stars.Submission.Node.{
  end_request, end_search, cancel_timer, Effect, SubmissionNode, Env, undefined, emit,
  handle_request_timeout,
}
use stars.Submission.Monitor.{
  Report, rearm, remote_of, set_remote, count_down, one_less, note_finished, finish_row,
  handle_report, handle_reports, handle_task_monitor,
}

-- The keys of a map ascend.
abbrev pub IsMap : {V : Type 0} → List (ℕ × V) → Type 0
IsMap [] = Unit
IsMap (x ∷ []) = Unit
IsMap (x ∷ y ∷ m) = (x.0 < y.0) × IsMap (y ∷ m)

find-erase : {V : Type 0} (k : ℕ) (m : List (ℕ × V)) → IsMap m → find k (erase k m) ≡ none
unfolding find erase
find-erase k [] h = refl
find-erase k ((j, v) ∷ []) h = ground arith
find-erase k ((j, v) ∷ (i, w) ∷ m) h = ground (arith, h.0, find-erase k ((i, w) ∷ m) h.1)

find_node-put_node :
    {V : Type 0} (a : Address) (v : V) (m : List (Address × V))
    → find_node a (put_node a v m) ≡ some v
unfolding find_node put_node below value
find_node-put_node a v [] = ground arith
find_node-put_node a v ((b, w) ∷ m) = ground (arith, find_node-put_node a v m)

-- The timers that were cancelled, the latest first.
abbrev pub cancelled : List Effect → List ℕ
cancelled [] = []
cancelled (cancel_timer id ∷ out) = id ∷ cancelled out
cancelled (_ ∷ out) = cancelled out

-- Nothing but the tables, the counts of the applications, the timers of the nodes and those that were cancelled.
abbrev counts : SubmissionNode → Database × List (ℕ × ℕ) × List (Address × ℕ) × List ℕ
counts s = (s.db, s.remaining_tasks, s.heartbeats, cancelled s.out)

finish_row-found :
    (src : Address) (app : ℕ) (o : Option ℕ) (s : SubmissionNode) (r : Database × Bool)
    → o ≡ some app
    → r.1 ≡ true
    → finish_row src o s r ≡ note_finished src app (record s { db = r.0 })
finish_row-found src app o s (db, found) e e' = rw (e, e') refl

note_finished-last :
    (src : Address) (app n : ℕ) (s : SubmissionNode)
    → find app (remote_of src s) ≡ some n
    → find app s.remaining_tasks ≡ some 1
    → counts (note_finished src app s)
      ≡ (s.db, erase app s.remaining_tasks, s.heartbeats, cancelled s.out)
note_finished-last src app n s e e' =
    ap
      (λ o. counts (elim o [
        | none ↦ s
        | some n ↦
            one_less app (find app s.remaining_tasks)
              (set_remote src (count_down app n (remote_of src s)) s)
      ]))
      e
    ∙ ap (λ o. counts (one_less app o (set_remote src (count_down app n (remote_of src s)) s))) e'

-- The database after the report that a task has finished.
abbrev pub reported : Env → Address → ℕ → ℕ → Database → Database × Bool
reported env src id task db =
    finished_task src id task env.now (accepted_tasks src id task task env.now db).0

-- What a timer of a node leaves as it is.
abbrev lasting : SubmissionNode → Database × List (ℕ × ℕ) × List ℕ
lasting s = (s.db, s.remaining_tasks, cancelled s.out)

rearm-lasting :
    (env : Env) (src : Address) (s : SubmissionNode) (m : List (ℕ × ℕ))
    → lasting (rearm env src s m) ≡ lasting s
rearm-lasting env src s [] = refl
rearm-lasting env src s (x ∷ m) = refl

handle_task_monitor-lasting :
    (env : Env) (src : Address) (rs : List Report) (s : SubmissionNode)
    → let told = handle_reports env src rs (set_remote src (remote_of src s) s) in
      lasting (handle_task_monitor env src rs s) ≡ (
        told.db,
        told.remaining_tasks,
        value_or 0 (find_node src told.heartbeats) ∷ cancelled told.out,
      )
unfolding handle_task_monitor
handle_task_monitor-lasting env src rs s =
    let told = handle_reports env src rs (set_remote src (remote_of src s) s) in
    rearm-lasting env src (emit (cancel_timer (value_or 0 (find_node src told.heartbeats))) told)
      (remote_of src told)

reported-instance :
    (env : Env) (src : Address) (id task : ℕ) (db : Database)
    → get_instance_id id (reported env src id task db).0 ≡ get_instance_id id db
unfolding get_instance_id accepted_tasks
reported-instance env src id task db =
    ap (λ rs. elim (first_of (λ r. r.rid == id) rs) [ none ↦ none | some r ↦ some r.request_app ])
      (finished_task-requests src id task env.now (accepted_tasks src id task task env.now db).0)

handle_reports-last :
    (env : Env) (src : Address) (id task app n : ℕ) (s : SubmissionNode)
    → get_instance_id id s.db ≡ some app
    → find app s.remaining_tasks ≡ some 1
    → find app (remote_of src s) ≡ some n
    → (reported env src id task s.db).1 ≡ true
    → counts
        (handle_reports env src ((record { request = id; task = task; status = finished }) ∷ []) s)
      ≡ (
        (reported env src id task s.db).0,
        erase app s.remaining_tasks,
        s.heartbeats,
        cancelled s.out,
      )
unfolding handle_reports handle_report accepted_tasks get_instance_id
handle_reports-last env src id task app n s known last remote done =
    let acc = (accepted_tasks src id task task env.now s.db).0 in
    let accepted = record s { db = acc } in
    let after = reported env src id task s.db in
    ap counts (finish_row-found src app (get_instance_id id acc) accepted after known done)
    ∙ note_finished-last src app n (record s { db = after.0 }) remote last

timeout-forgotten :
    (env : Env) (id app : ℕ) (s : SubmissionNode)
    → get_instance_id id s.db ≡ some app
    → find app s.remaining_tasks ≡ none
    → handle_request_timeout env id s ≡ emit undefined s
unfolding handle_request_timeout
timeout-forgotten env id app s e e' =
    ap (end_request env id s) e ∙ ap (λ o. end_search env id app s o (find id s.retries)) e'

-- When the last task of an application finishes, the application is forgotten, but its requests are not, and the only timer
-- that is cancelled is the one of the heartbeat of the node that reports. So the timer of a request of the application
-- remains set, and when it goes off, the handler uses the end of the map of the applications.
pub handle_request_timeout-undefined :
    (env later : Env) (src : Address) (id task app n : ℕ) (s : SubmissionNode)
    → IsMap s.remaining_tasks
    → get_instance_id id s.db ≡ some app
    → find app s.remaining_tasks ≡ some 1
    → find app (remote_of src s) ≡ some n
    → (reported env src id task s.db).1 ≡ true
    → let report : Report = record { request = id; task = task; status = finished } in
      let after = handle_task_monitor env src (report ∷ []) s in
      (cancelled after.out ≡ value_or 0 (find_node src s.heartbeats) ∷ cancelled s.out)
      × (handle_request_timeout later id after ≡ emit undefined after)
handle_request_timeout-undefined env later src id task app n s m known last remote done =
    let report : Report = record { request = id; task = task; status = finished } in
    let before = set_remote src (remote_of src s) s in
    let same_remote : remote_of src before ≡ remote_of src s =
      ap (value_or []) (find_node-put_node src (remote_of src s) s.remote_tasks) in
    let reports =
      handle_reports-last env src id task app n before known last
        (ap (find app) same_remote ∙ remote) done in
    let c =
      handle_task_monitor-lasting env src (report ∷ []) s
      ∙ ap (λ x. (x.0, x.1, value_or 0 (find_node src x.2) ∷ x.3)) reports in
    (
      ap (λ x. x.2) c,
      timeout-forgotten later id app (handle_task_monitor env src (report ∷ []) s)
          (ap (λ x. get_instance_id id x.0) c ∙ reported-instance env src id task s.db ∙ known)
          (ap (λ x. find app x.1) c ∙ find-erase app s.remaining_tasks m),
    )
