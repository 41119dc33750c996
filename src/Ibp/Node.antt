-- ===== src/Ibp/Node.antt =====
-- src/lib/scheduling/policies/IBPScheduler.cpp: the policy of an execution node that does one task at a time, as
-- an instance of the interface of the scheduler.
use mathlib.Core.List.Perm
use stars.Prelude.{
  ℕ, ◌+◌, ◌-◌, ◌%◌, ◌<◌, ◌≤◌, ◌≡◌, subst, ◌∙◌, ap, true, false, ◌&&◌, some, List, [], ◌∷◌, ◌++◌,
  leb, if◌then◌else◌, Perm, u32, arith,
}
use stars.Scheduler.Interface.{Task, TaskBag, Backend, Policy}
use stars.Scheduler.{Scheduler, Env}
use stars.Scheduler.Handlers.{check_static, handle_task_bag}
use stars.Scheduler.Queue.{ids, ids_from}
use stars.Scheduler.Acceptance.{accepts, handle_task_bag-accepts}
use stars.Ibp.{IbpInfo, no_nodes, add_node}

-- acceptable()
abbrev pub acceptable : List Task → TaskBag → ℕ
acceptable [] msg = if leb msg.first_task msg.last_task then 1 else 0
acceptable (t ∷ ts) msg = 0

-- getAvailability()
abbrev pub get_availability : Backend → List Task → IbpInfo
get_availability b [] = add_node b.available_memory b.available_disk no_nodes
get_availability b (t ∷ ts) = no_nodes

-- IBPScheduler
unfoldable pub ibp_policy : Backend → Policy IbpInfo
ibp_policy b = record {
  acceptable = acceptable;
  reschedule = λ ts. ts;
  wants_timer = false;
  get_availability = λ ts. some (get_availability b ts);
  reschedule-perm = λ ts. Perm.refl ts;
}

-- A node without a task takes exactly the first task of a bag whose requirements it meets, and says so to
-- the requester.
pub handle_task_bag-one :
    (b : Backend) (env : Env) (msg : TaskBag) (s : Scheduler IbpInfo)
    → s.tasks ≡ []
    → (msg.for_en && check_static b (ibp_policy b) msg.min_requirements) ≡ true
    → msg.first_task ≤ msg.last_task
    → msg.first_task < u32
    → let after = handle_task_bag b (ibp_policy b) env msg s in
      Perm (ids after.tasks) (s.next_id ∷ [])
      × (accepts after.out
          ≡ accepts s.out ++ (msg.requester, msg.request_id, msg.first_task, msg.first_task) ∷ [])
unfolding ibp_policy
handle_task_bag-one b env msg s idle meets ordered small =
    let n = acceptable s.tasks msg in
    let one : acceptable [] msg ≡ 1 = ground arith in
    let one' : n ≡ 1 = ap (λ ts. acceptable ts msg) idle ∙ one in
    let h = handle_task_bag-accepts b (ibp_policy b) env msg s meets (ground (arith, one')) in
    let queue : ids s.tasks ++ ids_from s.next_id n ≡ s.next_id ∷ [] =
      ap (λ ts. ids ts ++ ids_from s.next_id n) idle ∙ ap (ids_from s.next_id) one' in
    let last : (msg.first_task + n + u32 - 1) % u32 ≡ msg.first_task = omega (arith, one') in
    let after = handle_task_bag b (ibp_policy b) env msg s in
    (
      subst (Perm (ids after.tasks)) queue h.0,
      h.1 ∙ ap (λ l. accepts s.out ++ (msg.requester, msg.request_id, msg.first_task, l) ∷ []) last,
    )
