-- ===== src/Submission/Search.antt =====
-- The search of nodes for the ready tasks of an application, from requestFromReadyTasks() and startSearch() to
-- cancelSearch() of src/lib/db/TaskBagAppDatabase.cpp.
use stars.Prelude.{
  ℕ, ◌≡◌, refl, sym, ◌∙◌, ap, Bool, true, false, ◌&&◌, Option, none, some, List, [], ◌∷◌, keep_if,
  length, if◌then◌else◌, Option-both, subst, arith,
}
use stars.Scheduler.Interface.{TaskDescription}
use stars.Submission.Tables.{
  Database, TaskRow, TaskState, ready, searching, executing, finished, same_state, equals,
  update_where, count_where, get_instance_id, of_app_of, is_in,
}
use stars.Submission.Database.{
  Request, is_ready_of, requirements_of, add_request, request_from_ready_tasks, start_search,
  is_searched, cancel_search, num_in,
}
use stars.Submission.Keys.{
  IsValid, chosen, chosen-ready, is_in-new, requested, requested-app, start_search-app, picks,
}
use stars.Submission.Counts.{update-agree, length-keep_if, All-map, update-undo, count-update}

same_state-ready : (s : TaskState) → same_state s ready ≡ true → ready ≡ s
same_state-ready ready h = refl
same_state-ready searching h = absurd (ground (arith, h))
same_state-ready executing h = absurd (ground (arith, h))
same_state-ready finished h = absurd (ground (arith, h))

-- The tests of startSearch() and cancelSearch() on the rows of a valid database.
module _ (app : ℕ) (db : Database) (v : IsValid db) where
  abbrev us : List TaskRow
  us = keep_if (is_ready_of app) db.tasks

  abbrev to_searching : TaskRow → TaskRow
  to_searching t = record t { state = searching }

  abbrev asked : Database
  asked = requested app us db

  of_app_in :
      (t : TaskRow)
      → (of_app_of db.next_request asked t && is_in db.next_request asked.task_requests t)
        ≡ chosen app db.tasks t
  unfolding of_app_of
  of_app_in t =
      picks app db.tasks (get_instance_id db.next_request asked) _ t (requested-app app us db v)
        (is_in-new db.next_request db.task_requests us t v.old_associations)

  pub start_search-tasks :
      (timeout now : ℕ)
      → (start_search db.next_request timeout now asked).tasks
        ≡ update_where (is_ready_of app) to_searching db.tasks
  unfolding start_search
  start_search-tasks timeout now =
      update-agree
        (λ t. of_app_of db.next_request asked t && is_in db.next_request asked.task_requests t)
        (is_ready_of app) to_searching db.tasks
        (All-map db.tasks (λ t h. of_app_in t ∙ h) (chosen-ready app db.tasks v.keyed))

  -- The search that has started.
  abbrev pub searched : ℕ → ℕ → Database
  searched timeout now = start_search db.next_request timeout now asked

  is_searched-chosen :
      (timeout now : ℕ) (t : TaskRow)
      → is_searched db.next_request (searched timeout now) t
        ≡ (chosen app db.tasks t && same_state t.state searching)
  unfolding start_search of_app_of
  is_searched-chosen timeout now t =
      let id = db.next_request in
      let rs = asked.task_requests in
      ap (λ o. (equals o t.app_instance && is_in id rs t) && same_state t.state searching)
        (start_search-app id timeout now asked)
      ∙ ap (λ b. b && same_state t.state searching) (of_app_in t)

  abbrev after_start : TaskRow → TaskRow
  after_start t = if is_ready_of app t then to_searching t else t

  searching-after :
      (b : Bool) (t : TaskRow)
      → chosen app db.tasks t ≡ b
      → let u = if b then to_searching t else t in
        (chosen app db.tasks u && same_state u.state searching) ≡ b
  searching-after true t h = ap (λ c. c && true) h
  searching-after false t h = ap (λ c. c && same_state t.state searching) h

  is_searched-ready :
      (timeout now : ℕ) (t : TaskRow)
      → chosen app db.tasks t ≡ is_ready_of app t
      → is_searched db.next_request (searched timeout now) (after_start t) ≡ is_ready_of app t
  is_searched-ready timeout now t h =
      is_searched-chosen timeout now (after_start t)
      ∙ searching-after (is_ready_of app t) t h
      ∙ refl

  pub cancel_search-tasks :
      (timeout now : ℕ)
      → let back = cancel_search db.next_request (searched timeout now) in
        (back.0.tasks ≡ db.tasks) × (back.1 ≡ count_where (is_ready_of app) db.tasks)
  unfolding cancel_search
  cancel_search-tasks timeout now =
      let id = db.next_request in
      let q = is_searched id (searched timeout now) in
      let same_rows =
        All-map db.tasks (λ t h. is_searched-ready timeout now t h)
          (chosen-ready app db.tasks v.keyed) in
      let started = start_search-tasks timeout now in
      (
        ap (update_where q (λ t. record t { state = ready })) started
            ∙ update-undo (is_ready_of app) q to_searching (λ t. record t { state = ready })
                db.tasks same_rows
                (λ t e.
                  ap (λ s. record t { state = s }) (same_state-ready t.state (ground (arith, e)))),
        ap (count_where q) started
            ∙ count-update (is_ready_of app) q to_searching db.tasks same_rows,
      )

-- What a request for ready tasks is.
abbrev pub Outcome : ℕ → Database → Database × Option Request → Type 0
Outcome app db (after, none) = after ≡ db
Outcome app db (after, some r) =
    (after ≡ requested app (keep_if (is_ready_of app) db.tasks) db)
    × (r.request_id ≡ db.next_request)
    × (r.last ≡ length (keep_if (is_ready_of app) db.tasks))

add_request-Outcome :
    (app : ℕ) (req : TaskDescription) (db : Database) (ts : List TaskRow)
    → keep_if (is_ready_of app) db.tasks ≡ ts
    → Outcome app db (add_request app req ts db)
add_request-Outcome app req db [] e = refl
add_request-Outcome app req db (t ∷ ts) e =
    (ap (λ ts. requested app ts db) (sym e), refl, ap length (sym e))

pub request-Outcome : (app : ℕ) (db : Database) → Outcome app db (request_from_ready_tasks app db)
unfolding request_from_ready_tasks
request-Outcome app db =
    Option-both
      (λ o. Outcome app db (elim o [
        | none ↦ (db, none)
        | some req ↦ add_request app req (keep_if (is_ready_of app) db.tasks) db
      ]))
      (requirements_of app db) refl
      (λ req. add_request-Outcome app req db (keep_if (is_ready_of app) db.tasks) refl)

-- A request for the ready tasks of an application asks for as many tasks as are ready. Once its search has
-- started, these tasks are being searched for and all others are as before, and when the search is cancelled
-- before any is accepted, all tasks are as they were, and it is told how many are ready again.
pub search_lem :
    (app timeout now : ℕ) (db asked : Database) (r : Request)
    → IsValid db
    → request_from_ready_tasks app db ≡ (asked, some r)
    → let started = start_search r.request_id timeout now asked in
      let back = cancel_search r.request_id started in
      (r.last ≡ num_in ready app db)
      × (started.tasks
          ≡ update_where (is_ready_of app) (λ t. record t { state = searching }) db.tasks)
      × (back.0.tasks ≡ db.tasks)
      × (back.1 ≡ num_in ready app db)
unfolding num_in
search_lem app timeout now db asked r v e =
    let (same_db, id, last) = subst (Outcome app db) e (request-Outcome app db) in
    rw (same_db, id)
      (
        last ∙ length-keep_if (is_ready_of app) db.tasks,
        start_search-tasks app db v timeout now,
        (cancel_search-tasks app db v timeout now).0,
        (cancel_search-tasks app db v timeout now).1,
      )
