-- ===== src/Scheduler/Handlers.antt =====
-- The handlers of the scheduler: src/lib/scheduling/Scheduler.cpp, with accept and switchContext of
-- include/Scheduler.hpp.
use stars.Prelude.{
  ℕ, ◌+◌, ◌-◌, ◌%◌, Bool, true, false, not, ◌&&◌, Option, none, some, List, [], ◌∷◌, ◌++◌, ltb,
  ◌==◌, if◌then◌else◌, u32, length,
}
use stars.Address.{Address, null, same, differ}
use stars.Scheduler.Interface.{
  Status, Task, TaskDescription, TaskBag, finished, aborted, Backend, Policy,
}
use stars.Scheduler.{
  Report, Effect, send_monitor, send_accept, send_availability, set_reschedule_timer,
  set_monitor_timer, cancel_timer, Scheduler, Env, StateChange, AbortTask, emit, remove_from_queue,
  abort_all, group_reports, create_tasks, count_paused, run_first,
}

module _ {I : Type 0} (b : Backend) (p : Policy I) where
  -- rescheduleAt()
  unfoldable pub reschedule_at : Env → Scheduler I → Scheduler I
  reschedule_at env s =
      let free = if s.reschedule_timer == 0 then s else emit (cancel_timer s.reschedule_timer) s in
      emit set_reschedule_timer (record free { reschedule_timer = env.timer_id })

  abbrev pub after_sort : Env → Scheduler I → List Task → Scheduler I
  after_sort env s [] = record s { tasks = [] }
  after_sort env s (t ∷ ts) =
      if p.wants_timer
      then reschedule_at env (record s { tasks = t ∷ ts })
      else record s { tasks = t ∷ ts }

  abbrev pub count_max : Scheduler I → Scheduler I
  count_max s =
      if ltb s.max_paused_tasks (count_paused b s.tasks)
      then record s { max_paused_tasks = count_paused b s.tasks }
      else s

  unfoldable pub switch_context : Env → Scheduler I → Scheduler I
  unfolding reschedule_at count_paused
  switch_context env s =
      let sorted = after_sort env s (p.reschedule s.tasks) in
      count_max (record sorted { tasks = run_first b sorted.tasks })

  abbrev pub tell : Scheduler I → Option I → Scheduler I
  tell s none = s
  tell s (some info) =
      emit (send_availability s.father ((s.seq_num + 1) % u32) info)
        (record s { seq_num = (s.seq_num + 1) % u32; dirty = false })

  unfoldable pub notify_schedule : Scheduler I → Scheduler I
  unfolding same
  notify_schedule s =
      if not s.in_change && differ s.father null
      then tell s (p.get_availability s.tasks)
      else record s { dirty = true }

  -- The tasks of accept(), at the end of the queue.
  abbrev pub enqueue : TaskBag → ℕ → Scheduler I → Scheduler I
  enqueue msg n s =
      let queue = s.tasks ++ create_tasks b msg s.next_id 0 n in
      record s {
        tasks = queue;
        next_id = (s.next_id + n) % u32;
        max_queue_length =
            if ltb s.max_queue_length (length queue) then length queue else s.max_queue_length;
      }

  -- accept() of `n` tasks.
  unfoldable pub accept : Env → TaskBag → ℕ → Scheduler I → Scheduler I
  accept env msg n s = if n == 0 then enqueue msg n s else switch_context env (enqueue msg n s)

  abbrev set_monitor : Env → Scheduler I → Scheduler I
  set_monitor env s = emit set_monitor_timer (record s { monitor_timer = env.timer_id })

  abbrev pub acknowledge : Env → TaskBag → ℕ → Scheduler I → Scheduler I
  acknowledge env msg n s =
      let told =
        emit
          (send_accept msg.requester msg.request_id msg.first_task
            ((msg.first_task + n + u32 - 1) % u32))
          (notify_schedule s) in
      if told.monitor_timer == 0 then set_monitor env told else told

  -- checkStaticRequirements()
  unfoldable pub check_static : TaskDescription → Bool
  check_static req =
      not (ltb b.available_memory req.max_memory) && not (ltb b.available_disk req.max_disk)

  unfoldable pub handle_task_bag : Env → TaskBag → Scheduler I → Scheduler I
  handle_task_bag env msg s =
      let n = p.acceptable s.tasks msg in
      let taken = accept env msg n s in
      if msg.for_en && check_static msg.min_requirements
      then (if n == 0 then taken else acknowledge env msg n taken)
      else s

  abbrev pub settle : Env → Scheduler I → Scheduler I
  settle env s = notify_schedule (switch_context env s)

  abbrev pub finish : Status → Scheduler I → Option Task × List Task → Scheduler I
  finish status s (none, rest) = record s { tasks = rest }
  finish status s (some t, rest) =
      emit
        (send_monitor t.owner
          (record { request = t.client_request_id; task = t.client_task_id; status = status } ∷ []))
        (record s { tasks = rest })

  abbrev pub end_task : StateChange → Scheduler I → Scheduler I
  end_task msg s = elim msg.new_state [
    | finished ↦
        finish msg.new_state (record s { tasks_executed = s.tasks_executed + 1 })
          (remove_from_queue msg.task_id s.tasks)
    | aborted ↦ finish msg.new_state s (remove_from_queue msg.task_id s.tasks)
    | _ ↦ s
  ]

  unfoldable pub handle_state_change : Env → Address → StateChange → Scheduler I → Scheduler I
  handle_state_change env src msg s = if same src env.self then settle env (end_task msg s) else s

  unfoldable pub handle_reschedule_timer : Env → Scheduler I → Scheduler I
  handle_reschedule_timer env s = settle env (record s { reschedule_timer = 0 })

  unfoldable pub handle_abort : Env → AbortTask → Scheduler I → Scheduler I
  handle_abort env msg s = settle env (record s { tasks = abort_all msg.request msg.tasks s.tasks })

  unfoldable pub send_reports : List (Address × List Report) → List (Effect I) → List (Effect I)
  send_reports [] out = out
  send_reports ((owner, reports) ∷ rest) out = send_reports rest (send_monitor owner reports ∷ out)

  abbrev pub remind : Env → Scheduler I → List Task → Scheduler I
  remind env s [] = record s { monitor_timer = 0 }
  remind env s (t ∷ ts) =
      set_monitor env (record s { out = send_reports (group_reports (t ∷ ts) []) s.out })

  unfoldable pub handle_monitor_timer : Env → Scheduler I → Scheduler I
  handle_monitor_timer env s = remind env s s.tasks

  unfoldable pub father_changing : Scheduler I → Scheduler I
  father_changing s = record s { in_change = true }

  -- The leaf has its new father by then.
  unfoldable pub father_changed : Address → Bool → Scheduler I → Scheduler I
  father_changed father changed s =
      let stable = record s { in_change = false; father = father } in
      let fresh = if changed then record stable { seq_num = 0; dirty = true } else stable in
      if fresh.dirty then notify_schedule fresh else fresh
