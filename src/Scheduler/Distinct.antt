-- ===== src/Scheduler/Distinct.antt =====
-- The ids of the queued tasks over a whole run of the scheduler.
use mathlib.Core.List.{
  Nodup, Nodup-cons, append-nil, Mem, eq-or-mem_of_mem-cons, Sublist, perm_middle,
}
use mathlib.Core.List.Nodup
use mathlib.Core.List.Perm
use mathlib.Core.List.Sublist
use mathlib.Core.Logic.Or
use native.Mathlib.Bridge.{le_prop}
use stars.Prelude.{
  ℕ, zero, suc, ◌+◌, ◌%◌, ◌<◌, ◌≡◌, refl, inl, inr, Bool, true, false, ◌&&◌, Option, none, some,
  List, [], ◌∷◌, ◌++◌, Perm, arith, ◌==◌, Bool-cases, u32,
}
use stars.Address.{Address, same}
use stars.Scheduler.Interface.{
  Status, Task, TaskBag, inactive, prepared, running, finished, aborted, Backend, Policy,
}
use stars.Scheduler.{Scheduler, Env, StateChange, AbortTask, remove_from_queue, abort_all}
use stars.Scheduler.Handlers.{
  accept, handle_task_bag, handle_state_change, handle_abort, handle_reschedule_timer,
  handle_monitor_timer, father_changing, father_changed, settle, finish, end_task, acknowledge,
  check_static, remind,
}
use stars.Scheduler.Ending.{remove_from_queue-ids, abort_all-ids}
use stars.Scheduler.Queue.{
  ids, ids_from, accept-ids, accept-next_id, acknowledge-quiet, settle-quiet, notify_schedule-quiet,
}

-- Ids that differ from each other and are below a bound.
pub record AreFresh (bound : ℕ) (xs : List ℕ) : Type 0 where
  pub distinct : Nodup xs
  pub below_bound : (x : ℕ) → Mem x xs → x < bound

AreFresh-perm : (n : ℕ) {xs ys : List ℕ} → Perm xs ys → AreFresh n xs → AreFresh n ys
AreFresh-perm n pm f = record {
  distinct = Perm.nodup pm f.distinct;
  below_bound = λ x h. f.below_bound x ((Perm.mem_iff pm).1 h);
}

AreFresh-sublist : (n : ℕ) {xs ys : List ℕ} → Sublist xs ys → AreFresh n ys → AreFresh n xs
AreFresh-sublist n sub f = record {
  distinct = Nodup.sublist sub f.distinct;
  below_bound = λ x h. f.below_bound x (Sublist.subset sub x h);
}

AreFresh-cons : (n : ℕ) (xs : List ℕ) → AreFresh n xs → AreFresh (n + 1) (n ∷ xs)
AreFresh-cons n xs f = record {
  distinct = (Nodup-cons).1 ((λ h. ground (arith, f.below_bound n h)), f.distinct);
  below_bound = λ x h.
      Or.elim le_prop (eq-or-mem_of_mem-cons h) (λ here. ground arith)
        (λ there. ground (arith, f.below_bound x there));
}

AreFresh-ids_from :
    (k n : ℕ) (xs : List ℕ) → n + k < u32 → AreFresh n xs → AreFresh (n + k) (xs ++ ids_from n k)
AreFresh-ids_from zero n xs l f = let e : n + 0 ≡ n = omega arith in rw (append-nil xs, e) f
AreFresh-ids_from (suc k) n xs l f =
    let e : (n + 1) % u32 ≡ n + 1 = omega (arith, l) in
    let e' : n + suc k ≡ (n + 1) + k = omega arith in
    rw (e, e')
      (AreFresh-perm ((n + 1) + k) (Perm.symm (perm_middle xs (ids_from (n + 1) k)))
        (AreFresh-ids_from k (n + 1) (n ∷ xs) (omega (arith, l)) (AreFresh-cons n xs f)))

-- What reaches the scheduler: the messages, its timers and the calls of its leaf.
pub data Event : Type 0 where
  on_task_bag : TaskBag → Event
  on_state_change : Address → StateChange → Event
  on_abort : AbortTask → Event
  on_reschedule_timer on_monitor_timer on_father_changing : Event
  on_father_changed : Address → Bool → Event

module _ {I : Type 0} (b : Backend) (p : Policy I) where
  unfoldable pub step : Env → Event → Scheduler I → Scheduler I
  step env (on_task_bag msg) s = handle_task_bag b p env msg s
  step env (on_state_change src msg) s = handle_state_change b p env src msg s
  step env (on_abort msg) s = handle_abort b p env msg s
  step env on_reschedule_timer s = handle_reschedule_timer b p env s
  step env on_monitor_timer s = handle_monitor_timer b p env s
  step env on_father_changing s = father_changing b p s
  step env (on_father_changed father changed) s = father_changed b p father changed s

  -- The counter of the ids does not wrap around at this event.
  abbrev pub IsRoomy : Event → Scheduler I → Type 0
  IsRoomy (on_task_bag msg) s = s.next_id + p.acceptable s.tasks msg < u32
  IsRoomy _ s = Unit

  abbrev pub IsQueue : Scheduler I → Type 0
  IsQueue s = AreFresh s.next_id (ids s.tasks)

  IsQueue-settle : (env : Env) (s : Scheduler I) → IsQueue s → IsQueue (settle b p env s)
  IsQueue-settle env s q =
      let quiet = settle-quiet b p env s in
      rw quiet.1.0 (AreFresh-perm s.next_id (Perm.symm quiet.0) q)

  IsQueue-accept :
      (env : Env) (msg : TaskBag) (n : ℕ) (s : Scheduler I)
      → s.next_id + n < u32
      → IsQueue s
      → IsQueue (accept b p env msg n s)
  IsQueue-accept env msg n s l q =
      let e : (s.next_id + n) % u32 ≡ s.next_id + n = omega (arith, l) in
      rw (accept-next_id b p env msg n s, e)
        (AreFresh-perm (s.next_id + n) (Perm.symm (accept-ids b p env msg n s))
          (AreFresh-ids_from n s.next_id (ids s.tasks) l q))

  IsQueue-same :
      (s s' : Scheduler I) → s'.tasks ≡ s.tasks → s'.next_id ≡ s.next_id → IsQueue s → IsQueue s'
  IsQueue-same s s' e e' q = rw (e, e') q

  IsQueue-task_bag :
      (env : Env) (msg : TaskBag) (s : Scheduler I)
      → s.next_id + p.acceptable s.tasks msg < u32
      → IsQueue s
      → IsQueue (handle_task_bag b p env msg s)
  unfolding handle_task_bag
  IsQueue-task_bag env msg s l q =
      let n = p.acceptable s.tasks msg in
      let taken = IsQueue-accept env msg n s l q in
      elim (Bool-cases (msg.for_en && check_static b p msg.min_requirements)) [
        | inr e ↦ rw e q
        | inl e ↦ elim (Bool-cases (n == 0)) [
          | inl e' ↦ rw (e, e') taken
          | inr e' ↦
              let quiet = acknowledge-quiet b p env msg n (accept b p env msg n s) in
              rw (e, e')
                (IsQueue-same (accept b p env msg n s)
                  (acknowledge b p env msg n (accept b p env msg n s)) quiet.0 quiet.1 taken)
        ]
      ]

  finish-removed :
      (status : Status) (s : Scheduler I) (found : Option Task × List Task)
      → let s' = finish b p status s found in (s'.tasks ≡ found.1) × (s'.next_id ≡ s.next_id)
  finish-removed status s (none, rest) = (refl, refl)
  finish-removed status s (some t, rest) = (refl, refl)

  IsQueue-finish :
      (status : Status) (id : ℕ) (s s' : Scheduler I)
      → s'.next_id ≡ s.next_id
      → IsQueue s
      → IsQueue (finish b p status s' (remove_from_queue id s.tasks))
  IsQueue-finish status id s s' e q =
      let removed = finish-removed status s' (remove_from_queue id s.tasks) in
      rw (removed.0, removed.1, e) (AreFresh-sublist s.next_id (remove_from_queue-ids id s.tasks) q)

  IsQueue-end_task :
      (msg : StateChange) (s : Scheduler I) → IsQueue s → IsQueue (end_task b p msg s)
  IsQueue-end_task msg s q = by_state msg.new_state
    where
      by_state : (new : Status) → IsQueue (end_task b p (record msg { new_state = new }) s)
      by_state inactive = q
      by_state prepared = q
      by_state running = q
      by_state finished =
          IsQueue-finish finished msg.task_id s (record s { tasks_executed = s.tasks_executed + 1 })
            refl q
      by_state aborted = IsQueue-finish aborted msg.task_id s s refl q

  father_changed-quiet :
      (father : Address) (changed : Bool) (s : Scheduler I)
      → let s' = father_changed b p father changed s in
        (s'.tasks ≡ s.tasks) × (s'.next_id ≡ s.next_id)
  unfolding father_changed
  father_changed-quiet father true s = ground (
    arith,
    notify_schedule-quiet b p
        (record s { in_change = false; father = father; seq_num = 0; dirty = true }),
  )
  father_changed-quiet father false s =
      ground (arith, notify_schedule-quiet b p (record s { in_change = false; father = father }))

  -- No two queued tasks have the same id, and none has the id of a task that is still to come: if that is
  -- so before an event, it is so after it, whatever the event and the environment, for every policy that
  -- only permutes the queue (IBP, MMP and DP, but not FSP, which makes the queue anew), as long as the 32-bit counter of the
  -- ids does not wrap around at that event.
  pub step-IsQueue :
      (env : Env) (x : Event) (s : Scheduler I) → IsRoomy x s → IsQueue s → IsQueue (step env x s)
  unfolding step handle_state_change handle_abort handle_reschedule_timer handle_monitor_timer
      father_changing father_changed
  step-IsQueue env (on_task_bag msg) s l q = IsQueue-task_bag env msg s l q
  step-IsQueue env (on_state_change src msg) s l q = elim (Bool-cases (same src env.self)) [
    | inl e ↦ rw e (IsQueue-settle env (end_task b p msg s) (IsQueue-end_task msg s q))
    | inr e ↦ rw e q
  ]
  step-IsQueue env (on_abort msg) s l q =
      IsQueue-settle env (record s { tasks = abort_all msg.request msg.tasks s.tasks })
        (AreFresh-sublist s.next_id (abort_all-ids msg.request msg.tasks s.tasks) q)
  step-IsQueue env on_reschedule_timer s l q =
      IsQueue-settle env (record s { reschedule_timer = 0 }) q
  step-IsQueue env on_monitor_timer s l q = remind_lem s.tasks q
    where
      remind_lem :
          (ts : List Task)
          → IsQueue (record s { tasks = ts })
          → IsQueue (remind b p env (record s { tasks = ts }) ts)
      remind_lem [] q = q
      remind_lem (t ∷ ts) q = q
  step-IsQueue env on_father_changing s l q = q
  step-IsQueue env (on_father_changed father changed) s l q =
      let quiet = father_changed-quiet father changed s in
      IsQueue-same s (father_changed b p father changed s) quiet.0 quiet.1 q
