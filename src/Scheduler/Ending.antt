-- ===== src/Scheduler/Ending.antt =====
-- The end of a task: what leaves the queue, and who is told.
use mathlib.Core.List.Perm
use mathlib.Core.List.{Sublist}
use mathlib.Core.List.Sublist
use stars.Prelude.{
  ℕ, ◌+◌, ◌≡◌, sym, ◌∙◌, ◌⊎◌, inl, inr, ◌&&◌, Option, none, some, List, [], ◌∷◌, ◌++◌, Perm, arith,
  ◌==◌, Bool-cases, ==_iff,
}
use stars.Scheduler.Interface.{Status, Task, finished, aborted, Backend, Policy}
use stars.Scheduler.{
  Scheduler, Env, StateChange, remove_from_queue, get_task, abort_task, abort_all,
}
use stars.Scheduler.Reports.{monitors}
use stars.Address.Order.{same_refl}
use stars.Scheduler.Handlers.{handle_state_change, finish, end_task}
use stars.Scheduler.Queue.{ids, settle-quiet}

-- A removal finds the task that getTask() finds, and takes it away and nothing else.
pub remove_from_queue-found :
    (id : ℕ) (ts : List Task) (t : Task)
    → get_task id ts ≡ some t
    → ((remove_from_queue id ts).0 ≡ some t) × Perm (ids ts) (id ∷ ids (remove_from_queue id ts).1)
unfolding get_task remove_from_queue
remove_from_queue-found id [] t h = ground arith
remove_from_queue-found id (u ∷ us) t h = elim (Bool-cases (u.task_id == id)) [
  | inl e ↦ rw e (ground arith, rw ((==_iff u.task_id id).0 e) (Perm.refl (id ∷ ids us)))
  | inr e ↦
      let rest = remove_from_queue-found id us t (ground arith) in
      rw e (
        rest.0,
        Perm.trans (Perm.cons u.task_id rest.1)
            (Perm.swap id u.task_id (ids (remove_from_queue id us).1)),
      )
]

module _ {I : Type 0} (b : Backend) (p : Policy I) where
  -- A queue that loses a task, whose owner is told.
  finish-quiet :
      (status : Status) (s : Scheduler I) (found : Option Task × List Task) (t : Task)
      → found.0 ≡ some t
      → let s' = finish b p status s found in
        (s'.tasks ≡ found.1)
        × (monitors s'.out
            ≡ monitors s.out
              ++ (
                t.owner,
                record { request = t.client_request_id; task = t.client_task_id; status = status }
                    ∷ [],
              )
                ∷ [])
  finish-quiet status s (none, rest) t h = ground arith
  finish-quiet status s (some u, rest) t h = ground arith

  end_task-quiet :
      (msg : StateChange) (s : Scheduler I) (t : Task)
      → (remove_from_queue msg.task_id s.tasks).0 ≡ some t
      → (msg.new_state ≡ finished) ⊎ (msg.new_state ≡ aborted)
      → let s' = end_task b p msg s in
        (s'.tasks ≡ (remove_from_queue msg.task_id s.tasks).1)
        × (monitors s'.out
            ≡ monitors s.out
              ++ (
                t.owner,
                record {
                  request = t.client_request_id;
                  task = t.client_task_id;
                  status = msg.new_state;
                }
                    ∷ [],
              )
                ∷ [])
  end_task-quiet msg s t h (inl e) = rw e (
      finish-quiet finished (record s { tasks_executed = s.tasks_executed + 1 })
        (remove_from_queue msg.task_id s.tasks) t h)
  end_task-quiet msg s t h (inr e) =
      rw e (finish-quiet aborted s (remove_from_queue msg.task_id s.tasks) t h)

  -- When the node itself reports that a task of the queue has ended, finished or aborted, its owner is told
  -- so once, with the ids that the owner knows it by; a task with this id leaves the queue, and no other.
  pub handle_state_change-ids :
      (env : Env) (msg : StateChange) (s : Scheduler I) (t : Task)
      → get_task msg.task_id s.tasks ≡ some t
      → (msg.new_state ≡ finished) ⊎ (msg.new_state ≡ aborted)
      → let after = handle_state_change b p env env.self msg s in
        Perm (ids s.tasks) (msg.task_id ∷ ids after.tasks)
        × (monitors after.out
            ≡ monitors s.out
              ++ (
                t.owner,
                record {
                  request = t.client_request_id;
                  task = t.client_task_id;
                  status = msg.new_state;
                }
                    ∷ [],
              )
                ∷ [])
  unfolding handle_state_change
  handle_state_change-ids env msg s t h e =
      let found = remove_from_queue-found msg.task_id s.tasks t h in
      let ended = end_task-quiet msg s t found.0 e in
      let settled = settle-quiet b p env (end_task b p msg s) in
      rw (same_refl env.self) (
        Perm.trans found.1 (Perm.cons msg.task_id (Perm.symm (rw (sym ended.0) settled.0))),
        settled.1.1 ∙ ended.1,
      )

-- Tasks only leave the queue by a removal, in their order.
pub remove_from_queue-ids :
    (id : ℕ) (ts : List Task) → Sublist (ids (remove_from_queue id ts).1) (ids ts)
unfolding remove_from_queue
remove_from_queue-ids id [] = Sublist.refl []
remove_from_queue-ids id (t ∷ ts) = elim (Bool-cases (t.task_id == id)) [
  | inl e ↦ rw e (Sublist.cons t.task_id (Sublist.refl (ids ts)))
  | inr e ↦ rw e (Sublist.cons-cons t.task_id (remove_from_queue-ids id ts))
]

abort_task-ids : (req id : ℕ) (ts : List Task) → Sublist (ids (abort_task req id ts)) (ids ts)
unfolding abort_task
abort_task-ids req id [] = Sublist.refl []
abort_task-ids req id (t ∷ ts) =
    elim (Bool-cases (t.client_request_id == req && t.client_task_id == id)) [
      | inl e ↦ rw e (Sublist.cons t.task_id (Sublist.refl (ids ts)))
      | inr e ↦ rw e (Sublist.cons-cons t.task_id (abort_task-ids req id ts))
    ]

pub abort_all-ids :
    (req : ℕ) (xs : List ℕ) (ts : List Task) → Sublist (ids (abort_all req xs ts)) (ids ts)
unfolding abort_all
abort_all-ids req [] ts = Sublist.refl (ids ts)
abort_all-ids req (x ∷ xs) ts =
    Sublist.trans (abort_all-ids req xs (abort_task req x ts)) (abort_task-ids req x ts)
