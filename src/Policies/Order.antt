-- ===== src/Policies/Order.antt =====
-- The order that the policies of Policies give to the queue.
use stars.Prelude.{
  ℕ, ◌≡◌, inl, inr, Bool, true, false, not, ◌&&◌, ◌||◌, Option, List, [], ◌∷◌, All, leb, if-both,
  Bool-cases, arith,
}
use stars.Scheduler.Interface.{Task}
use stars.Policies.{
  insert_task, sort_tasks, compare_creation, compare_deadline, is_running, mmp_policy, dp_policy,
}

-- A test of a task and one behind it, for every two tasks of a queue.
abbrev pub IsQueuedBy : (Task → Task → Bool) → List Task → Type 0
IsQueuedBy r [] = Unit
IsQueuedBy r (t ∷ ts) = All (λ u. r t u ≡ true) ts × IsQueuedBy r ts

module _ (before r : Task → Task → Bool) (keeps : (t u : Task) → before u t ≡ true → r u t ≡ true)
    (swaps : (t u : Task) → before u t ≡ false → r t u ≡ true)
    (joins : (t u v : Task) → r t u ≡ true → r u v ≡ true → r t v ≡ true) where
  insert_task-All :
      (s t : Task) (ts : List Task)
      → r s t ≡ true
      → All (λ u. r s u ≡ true) ts
      → All (λ u. r s u ≡ true) (insert_task before t ts)
  unfolding insert_task
  insert_task-All s t [] h k = (h, tt)
  insert_task-All s t (u ∷ us) h k =
      if-both (All (λ u. r s u ≡ true)) (before u t) (k.0, insert_task-All s t us h k.1) (h, k)

  All-joins :
      (t u : Task) (ts : List Task)
      → r t u ≡ true
      → All (λ v. r u v ≡ true) ts
      → All (λ v. r t v ≡ true) ts
  All-joins t u [] h k = tt
  All-joins t u (v ∷ vs) h k = (joins t u v h k.0, All-joins t u vs h k.1)

  insert_task-IsQueuedBy :
      (t : Task) (ts : List Task) → IsQueuedBy r ts → IsQueuedBy r (insert_task before t ts)
  unfolding insert_task
  insert_task-IsQueuedBy t [] h = (tt, tt)
  insert_task-IsQueuedBy t (u ∷ us) h = elim (Bool-cases (before u t)) [
    | inl e ↦ rw e (insert_task-All u t us (keeps t u e) h.0, insert_task-IsQueuedBy t us h.1)
    | inr e ↦ rw e ((swaps t u e, All-joins t u us (swaps t u e) h.0), h)
  ]

  sort_tasks-IsQueuedBy : (ts : List Task) → IsQueuedBy r (sort_tasks before ts)
  unfolding sort_tasks
  sort_tasks-IsQueuedBy [] = tt
  sort_tasks-IsQueuedBy (t ∷ ts) =
      insert_task-IsQueuedBy t (sort_tasks before ts) (sort_tasks-IsQueuedBy ts)

-- No task was created after one behind it.
abbrev pub is_older : Task → Task → Bool
is_older t u = leb t.creation_time u.creation_time

-- A task runs, or the one behind it does not and has no earlier deadline.
abbrev pub is_sooner : Task → Task → Bool
is_sooner t u =
    is_running t || not (is_running u) && leb t.description.deadline u.description.deadline

-- The policies order their queues: MMP by the creation of the tasks, DP the running task first and then the others by
-- their deadlines.
pub reschedule-IsQueuedBy :
    {I : Type 0} (tell : List Task → Option I) (estimate : Task → ℕ) (work : ℕ → ℕ) (now : ℕ)
    (ts : List Task)
    → IsQueuedBy is_older ((mmp_policy tell).reschedule ts)
      × IsQueuedBy is_sooner ((dp_policy estimate work now tell).reschedule ts)
unfolding mmp_policy dp_policy
reschedule-IsQueuedBy tell estimate work now ts = (
  sort_tasks-IsQueuedBy compare_creation is_older (λ t u e. ground (arith, e))
      (λ t u e. ground (arith, e)) (λ t u v e e'. ground (arith, e, e')) ts,
  sort_tasks-IsQueuedBy compare_deadline is_sooner (λ t u e. ground (arith, e))
      (λ t u e. ground (arith, e)) (λ t u v e e'. ground (arith, e, e')) ts,
)
