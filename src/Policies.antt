-- ===== src/Policies.antt =====
-- src/lib/scheduling/policies/MMPScheduler.cpp and DPScheduler.cpp: the policies of execution nodes that queue tasks in the order of
-- their creation or of their deadlines, as instances of the interface of the scheduler. What such a node tells of
-- itself is a parameter.
pub mod Order
pub mod Fitting
use mathlib.Core.List.Perm
use stars.Prelude.{
  ℕ, ◌+◌, ◌-◌, ◌*◌, ◌/◌, ◌%◌, ◌≤◌, ◌≡◌, refl, inl, inr, Bool, true, false, not, ◌&&◌, ◌||◌, Option,
  some, List, [], ◌∷◌, All, Perm, ltb, leb, if◌then◌else◌, if-both, Bool-cases, arith, u32,
}
use stars.Scheduler.Interface.{
  Task, TaskBag, TaskDescription, Status, Policy, running, inactive, prepared, finished, aborted,
}

-- list::sort by a comparison; it is stable. The code compares running tasks both ways, and at most one runs.
module _ (before : Task → Task → Bool) where
  unfoldable pub insert_task : Task → List Task → List Task
  insert_task t [] = t ∷ []
  insert_task t (u ∷ us) =
      let rest = insert_task t us in if before u t then u ∷ rest else t ∷ u ∷ us

  unfoldable pub sort_tasks : List Task → List Task
  sort_tasks [] = []
  sort_tasks (t ∷ ts) = insert_task t (sort_tasks ts)

  insert_task-perm : (t : Task) (ts : List Task) → Perm (insert_task t ts) (t ∷ ts)
  unfolding insert_task
  insert_task-perm t [] = Perm.refl (t ∷ [])
  insert_task-perm t (u ∷ us) =
      if-both (λ xs. Perm xs (t ∷ u ∷ us)) (before u t)
        (Perm.trans (Perm.cons u (insert_task-perm t us)) (Perm.swap t u us))
        (Perm.refl (t ∷ u ∷ us))

  pub sort_tasks-perm : (ts : List Task) → Perm (sort_tasks ts) ts
  unfolding sort_tasks
  sort_tasks-perm [] = Perm.refl []
  sort_tasks-perm (t ∷ ts) =
      Perm.trans (insert_task-perm t (sort_tasks ts)) (Perm.cons t (sort_tasks-perm ts))

-- compareCreation()
abbrev pub compare_creation : Task → Task → Bool
compare_creation l r = ltb l.creation_time r.creation_time

abbrev pub is_running : Task → Bool
is_running t = elim t.status [ running ↦ true | _ ↦ false ]

-- compareDeadline()
abbrev pub compare_deadline : Task → Task → Bool
compare_deadline l r =
    is_running l || not (is_running r) && ltb l.description.deadline r.description.deadline

-- The tasks of a bag.
abbrev pub num_tasks : TaskBag → ℕ
num_tasks msg = (msg.last_task + u32 - msg.first_task + 1) % u32

-- MMPScheduler
unfoldable pub mmp_policy : {I : Type 0} → (List Task → Option I) → Policy I
mmp_policy tell = record {
  acceptable = λ ts msg. num_tasks msg;
  reschedule = sort_tasks compare_creation;
  wants_timer = false;
  get_availability = tell;
  reschedule-perm = sort_tasks-perm compare_creation;
}

module _ (estimate : Task → ℕ) where
  -- The time at which a task with a deadline could start, behind the tasks with no later one.
  unfoldable pub start_behind : ℕ → ℕ → List Task → ℕ
  start_behind d start [] = start
  start_behind d start (t ∷ ts) =
      let rest = start_behind d (start + estimate t) ts in
      if leb t.description.deadline d then rest else start

  unfoldable pub all_before : ℕ → List Task → Bool
  all_before d [] = true
  all_before d (t ∷ ts) =
      let rest = all_before d ts in if leb t.description.deadline d then rest else false

  abbrev pub last_deadline : ℕ → List Task → ℕ
  last_deadline d [] = d
  last_deadline d (t ∷ ts) = last_deadline t.description.deadline ts

  -- The loop over the tasks from the last one to the second: until when the tasks with a later deadline leave the node free, and
  -- whether the loop goes on. A time does not go below 0, where the node has no time left in any case.
  unfoldable pub limit_of : ℕ → ℕ → List Task → ℕ × Bool
  limit_of d limit [] = (limit, true)
  limit_of d limit (t ∷ ts) =
      let (later, going) = limit_of d limit ts in
      if going && ltb d t.description.deadline
      then (
        (if ltb t.description.deadline later then t.description.deadline else later) - estimate t,
        true,
      )
      else (later, false)

  abbrev pub free_until : ℕ → List Task → ℕ
  free_until d ts =
      let limit = (limit_of d (last_deadline d ts) ts).0 in if ltb limit d then limit else d

  abbrev pub free_time : ℕ → ℕ → List Task → ℕ × ℕ
  free_time now d [] = (now, d)
  free_time now d (t ∷ ts) =
      let start = start_behind d (now + estimate t) ts in
      if all_before d ts then (start, d) else (start, free_until d ts)

  -- getAvailabilityBefore(); `work` is what the node does in a time.
  unfoldable pub get_availability_before : (ℕ → ℕ) → ℕ → ℕ → List Task → ℕ
  unfolding start_behind all_before limit_of
  get_availability_before work now d ts =
      let (start, end) = free_time now d ts in if ltb end start then 0 else work (end - start)

  -- acceptable() of DPScheduler; a length of 0, by which the code divides, is taken to leave no slot.
  unfoldable pub dp_acceptable : (ℕ → ℕ) → ℕ → List Task → TaskBag → ℕ
  unfolding get_availability_before
  dp_acceptable work now ts msg =
      let available = get_availability_before work now msg.min_requirements.deadline ts % u32 in
      let slots = (available / msg.min_requirements.length) % u32 in
      if ltb slots (num_tasks msg) then slots else num_tasks msg

  -- DPScheduler
  unfoldable pub dp_policy : {I : Type 0} → (ℕ → ℕ) → ℕ → (List Task → Option I) → Policy I
  unfolding dp_acceptable
  dp_policy work now tell = record {
    acceptable = dp_acceptable work now;
    reschedule = sort_tasks compare_deadline;
    wants_timer = true;
    get_availability = tell;
    reschedule-perm = sort_tasks-perm compare_deadline;
  }
