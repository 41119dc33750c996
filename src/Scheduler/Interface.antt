-- ===== src/Scheduler/Interface.antt =====
-- What the scheduler takes from its environment (Scheduler::ExecutionEnvironment and Task) and from its
-- policy, with what it relies on.
use stars.Prelude.{ℕ, ◌≡◌, Bool, Option, List, Perm}
use stars.Address.{Address}

-- The states of a task (include/Task.hpp).
pub data Status : Type 0 where
  inactive prepared running finished aborted : Status

-- The parts of TaskDescription that the scheduler and its policies read.
pub record TaskDescription : Type 0 where
  pub length : ℕ
  pub deadline : ℕ
  pub max_memory : ℕ
  pub max_disk : ℕ

pub record Task : Type 0 where
  pub task_id : ℕ
  pub owner : Address
  pub client_request_id : ℕ
  pub client_task_id : ℕ
  pub description : TaskDescription
  pub creation_time : ℕ
  pub status : Status

-- TaskBagMsg
pub record TaskBag : Type 0 where
  pub request_id : ℕ
  pub requester : Address
  pub first_task : ℕ
  pub last_task : ℕ
  pub min_requirements : TaskDescription
  pub for_en : Bool
  pub from_en : Bool
  pub info_sequence : ℕ

-- The execution environment. A task that is created has the ids and the owner that it was given, and
-- running or pausing a task leaves them alone.
pub record Backend : Type 0 where
  pub available_memory : ℕ
  pub available_disk : ℕ
  pub create : ℕ → Address → ℕ → ℕ → TaskDescription → Task
  pub run : Task → Task
  pub pause : Task → Task
  pub is_paused : Task → Bool
  pub create-task_id :
      (id : ℕ) (owner : Address) (req ctid : ℕ) (d : TaskDescription)
      → (create id owner req ctid d).task_id ≡ id
  pub create-client :
      (id : ℕ) (owner : Address) (req ctid : ℕ) (d : TaskDescription)
      → let t = create id owner req ctid d in
        (t.owner ≡ owner) × (t.client_request_id ≡ req) × (t.client_task_id ≡ ctid)
  pub run-task_id : (t : Task) → (run t).task_id ≡ t.task_id
  pub pause-task_id : (t : Task) → (pause t).task_id ≡ t.task_id

-- A scheduling policy: how many tasks of a bag it accepts, how it orders the queue, whether it programs
-- a timer for the next time, and what it tells the father. It orders the tasks of the queue and drops none:
-- IBPScheduler leaves them, MMPScheduler and DPScheduler sort them. FSPScheduler is not such a policy: it makes the queue
-- anew from a list of its own, which it keeps by the hooks acceptTask() and removeTask(). These do nothing in the other
-- three, and are not in this record.
pub record Policy (I : Type 0) : Type 0 where
  pub acceptable : List Task → TaskBag → ℕ
  pub reschedule : List Task → List Task
  pub wants_timer : Bool
  pub get_availability : List Task → Option I
  pub reschedule-perm : (ts : List Task) → Perm (reschedule ts) ts
