-- ===== src/Scheduler/Queue.antt =====
-- The task queue of the scheduler: which tasks each handler adds and takes away, and the ids of the tasks.
use mathlib.Core.List.Perm
use stars.Prelude.{
  ℕ, zero, suc, ◌+◌, ◌%◌, ◌≡◌, refl, sym, ◌∙◌, inl, inr, none, some, List, [], ◌∷◌, ◌++◌, map, Perm,
  arith, ◌==◌, Bool-cases, u32,
}
use stars.Scheduler.Interface.{Task, TaskBag, Backend, Policy}
use stars.Scheduler.{Scheduler, Env, create_tasks, run_first}
use stars.Scheduler.Reports.{monitors}
use stars.Scheduler.Handlers.{
  switch_context, notify_schedule, accept, reschedule_at, enqueue, settle, after_sort, acknowledge,
}

abbrev pub ids : List Task → List ℕ
ids ts = map (λ t. t.task_id) ts

-- `n` ids from `id` on.
abbrev pub ids_from : ℕ → ℕ → List ℕ
ids_from id zero = []
ids_from id (suc n) = id ∷ ids_from ((id + 1) % u32) n

module _ {I : Type 0} (b : Backend) (p : Policy I) where
  ids-pause : (ts : List Task) → ids (map b.pause ts) ≡ ids ts
  ids-pause [] = refl
  ids-pause (t ∷ ts) = cc (b.pause-task_id t, ids-pause ts)

  ids-run_first : (ts : List Task) → ids (run_first b ts) ≡ ids ts
  ids-run_first [] = refl
  ids-run_first (t ∷ ts) = ground (arith, b.run-task_id t, ids-pause ts)

  switch_context-tasks :
      (env : Env) (s : Scheduler I)
      → (switch_context b p env s).tasks ≡ run_first b (p.reschedule s.tasks)
  unfolding switch_context
  switch_context-tasks env s = ground arith

  -- A change of context keeps the tasks of the queue, by their ids.
  switch_context-ids :
      (env : Env) (s : Scheduler I) → Perm (ids (switch_context b p env s).tasks) (ids s.tasks)
  switch_context-ids env s =
      rw (switch_context-tasks env s, ids-run_first (p.reschedule s.tasks))
        (Perm.map _ (p.reschedule-perm s.tasks))

  notify_schedule-tasks :
      (s : Scheduler I)
      → ((notify_schedule b p s).tasks ≡ s.tasks) × ((notify_schedule b p s).next_id ≡ s.next_id)
  unfolding notify_schedule
  notify_schedule-tasks s = ground arith

  ids-create_tasks : (msg : TaskBag) (id i n : ℕ) → ids (create_tasks b msg id i n) ≡ ids_from id n
  unfolding create_tasks
  ids-create_tasks msg id i zero = refl
  ids-create_tasks msg id i (suc n) = cc (
    b.create-task_id id msg.requester msg.request_id ((msg.first_task + i) % u32)
        msg.min_requirements,
    ids-create_tasks msg ((id + 1) % u32) (i + 1) n,
  )

  ids_append : (ts us : List Task) → ids (ts ++ us) ≡ ids ts ++ ids us
  ids_append [] us = refl
  ids_append (t ∷ ts) us = cc (ids_append ts us)

  pub accept-ids :
      (env : Env) (msg : TaskBag) (n : ℕ) (s : Scheduler I)
      → Perm (ids (accept b p env msg n s).tasks) (ids s.tasks ++ ids_from s.next_id n)
  unfolding accept
  accept-ids env msg n s =
      rw
        (
          sym (ids-create_tasks msg s.next_id 0 n),
          sym (ids_append s.tasks (create_tasks b msg s.next_id 0 n)),
        )
        (elim (Bool-cases (n == 0)) [
          | inl e ↦ rw e (Perm.refl (ids (s.tasks ++ create_tasks b msg s.next_id 0 n)))
          | inr e ↦ rw e (switch_context-ids env (enqueue b p msg n s))
        ])

module _ {I : Type 0} (b : Backend) (p : Policy I) where
  pub notify_schedule-quiet :
      (s : Scheduler I)
      → let s' = notify_schedule b p s in
        (s'.tasks ≡ s.tasks) × ((s'.next_id ≡ s.next_id) × (monitors s'.out ≡ monitors s.out))
  unfolding notify_schedule
  notify_schedule-quiet s = elim (p.get_availability s.tasks) [
    | none ↦ ground arith
    | some i ↦ ground arith
  ]

  reschedule_at-quiet :
      (env : Env) (s : Scheduler I)
      → let s' = reschedule_at b p env s in
        (s'.next_id ≡ s.next_id) × (monitors s'.out ≡ monitors s.out)
  unfolding reschedule_at
  reschedule_at-quiet env s = ground arith

  after_sort-quiet :
      (env : Env) (s : Scheduler I) (ts : List Task)
      → let s' = after_sort b p env s ts in
        (s'.next_id ≡ s.next_id) × (monitors s'.out ≡ monitors s.out)
  after_sort-quiet env s [] = (refl, refl)
  after_sort-quiet env s (t ∷ ts) =
      ground (arith, reschedule_at-quiet env (record s { tasks = t ∷ ts }))

  pub switch_context-quiet :
      (env : Env) (s : Scheduler I)
      → let s' = switch_context b p env s in
        (s'.next_id ≡ s.next_id) × (monitors s'.out ≡ monitors s.out)
  unfolding switch_context
  switch_context-quiet env s = ground (arith, after_sort-quiet env s (p.reschedule s.tasks))

  -- What follows a change of the queue.
  pub settle-quiet :
      (env : Env) (s : Scheduler I)
      → let s' = settle b p env s in
        Perm (ids s'.tasks) (ids s.tasks)
        × ((s'.next_id ≡ s.next_id) × (monitors s'.out ≡ monitors s.out))
  settle-quiet env s =
      let sw = switch_context b p env s in
      let n = notify_schedule-quiet sw in
      let c = switch_context-quiet env s in
      (rw n.0 (switch_context-ids b p env s), (n.1.0 ∙ c.0, n.1.1 ∙ c.1))

  pub accept-next_id :
      (env : Env) (msg : TaskBag) (n : ℕ) (s : Scheduler I)
      → (accept b p env msg n s).next_id ≡ (s.next_id + n) % u32
  unfolding accept
  accept-next_id env msg n s = ground (arith, switch_context-quiet env (enqueue b p msg n s))

  pub acknowledge-quiet :
      (env : Env) (msg : TaskBag) (n : ℕ) (s : Scheduler I)
      → let s' = acknowledge b p env msg n s in (s'.tasks ≡ s.tasks) × (s'.next_id ≡ s.next_id)
  acknowledge-quiet env msg n s = ground (arith, notify_schedule-quiet s)
