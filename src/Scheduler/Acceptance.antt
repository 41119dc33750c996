-- ===== src/Scheduler/Acceptance.antt =====
-- What the scheduler answers to a bag of tasks, against the tasks that it queues.
use stars.Prelude.{
  ℕ, ◌+◌, ◌-◌, ◌%◌, ◌≡◌, refl, ◌∙◌, ap, ◌≢◌, true, false, ◌&&◌, List, [], ◌∷◌, ◌++◌, Perm, arith,
  ◌==◌, u32, none, some,
}
use stars.Address.{Address}
use stars.Scheduler.Interface.{Task, TaskBag, Backend, Policy}
use stars.Scheduler.{Scheduler, Effect, Env, send_accept}
use stars.Scheduler.Handlers.{
  reschedule_at, after_sort, switch_context, notify_schedule, accept, enqueue, acknowledge,
  check_static, handle_task_bag,
}
use stars.Scheduler.Queue.{ids, ids_from, accept-ids, acknowledge-quiet}

-- The acceptance messages that left the node, the first sent first: to whom, and for which request and tasks.
abbrev pub accepts : {I : Type 0} → List (Effect I) → List (Address × ℕ × ℕ × ℕ)
accepts [] = []
accepts (send_accept to request first last ∷ out) = accepts out ++ (to, request, first, last) ∷ []
accepts (_ ∷ out) = accepts out

module _ {I : Type 0} (b : Backend) (p : Policy I) where
  reschedule_at-accepts :
      (env : Env) (s : Scheduler I) → accepts (reschedule_at b p env s).out ≡ accepts s.out
  unfolding reschedule_at
  reschedule_at-accepts env s = ground arith

  after_sort-accepts :
      (env : Env) (s : Scheduler I) (ts : List Task)
      → accepts (after_sort b p env s ts).out ≡ accepts s.out
  after_sort-accepts env s [] = refl
  after_sort-accepts env s (t ∷ ts) =
      ground (arith, reschedule_at-accepts env (record s { tasks = t ∷ ts }))

  switch_context-accepts :
      (env : Env) (s : Scheduler I) → accepts (switch_context b p env s).out ≡ accepts s.out
  unfolding switch_context
  switch_context-accepts env s = ground (arith, after_sort-accepts env s (p.reschedule s.tasks))

  notify_schedule-accepts : (s : Scheduler I) → accepts (notify_schedule b p s).out ≡ accepts s.out
  unfolding notify_schedule
  notify_schedule-accepts s = elim (p.get_availability s.tasks) [
    | none ↦ ground arith
    | some i ↦ ground arith
  ]

  accept-accepts :
      (env : Env) (msg : TaskBag) (n : ℕ) (s : Scheduler I)
      → accepts (accept b p env msg n s).out ≡ accepts s.out
  unfolding accept
  accept-accepts env msg n s = ground (arith, switch_context-accepts env (enqueue b p msg n s))

  abbrev pub answer : TaskBag → ℕ → Address × ℕ × ℕ × ℕ
  answer msg n =
      (msg.requester, msg.request_id, msg.first_task, (msg.first_task + n + u32 - 1) % u32)

  acknowledge-accepts :
      (env : Env) (msg : TaskBag) (n : ℕ) (s : Scheduler I)
      → accepts (acknowledge b p env msg n s).out ≡ accepts s.out ++ answer msg n ∷ []
  acknowledge-accepts env msg n s = ground (arith, notify_schedule-accepts s)

  -- A bag for execution nodes, whose memory and disk the node has, and of which the policy accepts some
  -- tasks: so many tasks join the queue, with the next ids, no task leaves it, and the requester is told once
  -- that its tasks from the first one on, as many as were accepted, are taken.
  pub handle_task_bag-accepts :
      (env : Env) (msg : TaskBag) (s : Scheduler I)
      → (msg.for_en && check_static b p msg.min_requirements) ≡ true
      → p.acceptable s.tasks msg ≢ 0
      → let n = p.acceptable s.tasks msg in
        let after = handle_task_bag b p env msg s in
        Perm (ids after.tasks) (ids s.tasks ++ ids_from s.next_id n)
        × (accepts after.out ≡ accepts s.out ++ answer msg n ∷ [])
  unfolding handle_task_bag
  handle_task_bag-accepts env msg s e some_taken =
      let n = p.acceptable s.tasks msg in
      let taken = accept b p env msg n s in
      let quiet = acknowledge-quiet b p env msg n taken in
      let more : (n == 0) ≡ false = ground (arith, some_taken) in
      rw (e, more)
        (
          rw quiet.0 (accept-ids b p env msg n s),
          acknowledge-accepts env msg n taken
              ∙ ap (λ x. x ++ answer msg n ∷ []) (accept-accepts env msg n s),
        )
