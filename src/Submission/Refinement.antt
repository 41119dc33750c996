-- ===== src/Submission/Refinement.antt =====
-- The statements of Submission.Database as steps of the tasks, Submission.Lifecycle.
use stars.Prelude.{
  ℕ, ◌≡◌, refl, subst, inl, inr, sym, ◌∙◌, ap, Bool, true, false, false≢true, ◌&&◌, Option, none,
  some, List, [], ◌∷◌, All, any, is_some, Bool-cases, Option-cases, arith,
}
use stars.Address.{Address}
use stars.Submission.Tables.{
  Database, TaskRow, TaskState, ready, searching, executing, finished, same_state, is_host, is_task,
  equals, first_of, RequestRow,
}
use stars.Submission.Database.{
  is_aborted_row, is_ip_text, is_searched, is_taken, is_row, free, cancel_search, accepted_tasks,
  finished_task, aborted_task, dead_node,
}
use stars.Submission.Counts.{All-zip, any-none}
use stars.Submission.Lifecycle.{
  Step, stays, is_not_found, starts, finishes, is_lost, Steps, Steps-update, is_state, IsHosted,
  on_node,
}

-- What holds of every row.
pub All-of : {P : TaskRow → Type 0} (ts : List TaskRow) → ((t : TaskRow) → P t) → All P ts
All-of [] f = tt
All-of (t ∷ ts) f = (f t, All-of ts f)

pub Steps-refl : (ts : List TaskRow) → Steps ts ts
Steps-refl [] = tt
Steps-refl (t ∷ ts) = (stays refl, Steps-refl ts)

pub cancel_search-Steps : (id : ℕ) (db : Database) → Steps db.tasks (cancel_search id db).0.tasks
unfolding cancel_search
cancel_search-Steps id db =
    Steps-update (is_searched id db) (λ t. record t { state = ready }) db.tasks
      (All-of db.tasks (λ t e. is_not_found (is_state t.state searching (ground (arith, e))) refl))

pub accepted_tasks-Steps :
    (src : Address) (id first last now : ℕ) (db : Database)
    → Steps db.tasks (accepted_tasks src id first last now db).0.tasks
unfolding accepted_tasks
accepted_tasks-Steps src id first last now db =
    Steps-update (is_taken id first last db)
      (λ t. record t { state = executing; atime = some now; host = some src }) db.tasks
      (All-of db.tasks
        (λ t e. starts src now (is_state t.state searching (ground (arith, e))) refl))

pub dead_node-Steps : (fail : Address) (db : Database) → Steps db.tasks (dead_node fail db).tasks
unfolding dead_node
dead_node-Steps fail db =
    Steps-update (λ t. is_host fail t && same_state t.state executing) free db.tasks
      (All-of db.tasks (λ t e. is_lost (is_state t.state executing (ground (arith, e))) refl))

-- A task that has a node and has not finished runs.
runs :
    (s : TaskState) (o : Option Address)
    → is_some o ≡ on_node s
    → is_some o ≡ true
    → same_state s finished ≡ false
    → s ≡ executing
runs ready o h e e' = absurd (false≢true (sym h ∙ e))
runs searching o h e e' = absurd (false≢true (sym h ∙ e))
runs executing o h e e' = refl
runs finished o h e e' = absurd (false≢true (sym e'))

host-is_some : (src : Address) (t : TaskRow) → is_host src t ≡ true → is_some t.host ≡ true
host-is_some src t h = elim (Option-cases t.host) [
  | inl e ↦ absurd (ground (arith, h, e))
  | inr (a, e) ↦ rw e refl
]

finishes-Step :
    (src : Address) (now : ℕ) (row : Bool) (t : TaskRow)
    → IsHosted t
    → (same_state t.state finished && row) ≡ false
    → (is_host src t && row) ≡ true
    → Step t (record t { state = finished; ftime = some now })
finishes-Step src now row t h unfinished e =
    finishes now
      (runs t.state t.host h (host-is_some src t (ground (arith, e)))
        (ground (arith, e, unfinished)))
      refl

pub finished_task-Steps :
    (src : Address) (id n now : ℕ) (db : Database)
    → All IsHosted db.tasks
    → Steps db.tasks (finished_task src id n now db).0.tasks
unfolding finished_task
finished_task-Steps src id n now db h =
    let done = any (λ t. same_state t.state finished && is_row id n db t) db.tasks in
    elim (Bool-cases done) [
      | inl e ↦ rw e (Steps-refl db.tasks)
      | inr e ↦ rw e (
          Steps-update (λ t. is_host src t && is_row id n db t)
            (λ t. record t { state = finished; ftime = some now }) db.tasks
            (All-zip db.tasks (λ t. finishes-Step src now (is_row id n db t) t) h
              (any-none (λ t. same_state t.state finished && is_row id n db t) db.tasks e)))
    ]

-- No request has the text of an IP as its number.
no_ip_text : (src : Address) (rs : List RequestRow) → first_of (is_ip_text src) rs ≡ none
no_ip_text src [] = refl
no_ip_text src (r ∷ rs) = no_ip_text src rs

no_aborted_row :
    (src : Address) (id n : ℕ) (db : Database) (ts : List TaskRow)
    → any (is_aborted_row src id n db) ts ≡ false
no_aborted_row src id n db [] = refl
no_aborted_row src id n db (t ∷ ts) =
    let none_found = no_ip_text src db.requests in
    let not_this : is_aborted_row src id n db t ≡ false =
      ap
        (λ o.
          same_state t.state executing
          && (is_host src t
              && (is_task id n db.task_requests t
                  && equals (elim o [ none ↦ none | some r ↦ some r.request_app ]) t.app_instance)))
        none_found
      ∙ ground arith in
    rw not_this (no_aborted_row src id n db ts)

-- The report that a task was aborted changes no table: the first statement finds no row.
pub aborted_task-unchanged :
    (src : Address) (id n : ℕ) (db : Database) → aborted_task src id n db ≡ (db, false)
unfolding aborted_task
aborted_task-unchanged src id n db = rw (no_aborted_row src id n db db.tasks) refl

pub aborted_task-Steps :
    (src : Address) (id n : ℕ) (db : Database) → Steps db.tasks (aborted_task src id n db).0.tasks
aborted_task-Steps src id n db =
    subst (λ (r : Database × Bool). Steps db.tasks r.0.tasks)
      (sym (aborted_task-unchanged src id n db)) (Steps-refl db.tasks)
