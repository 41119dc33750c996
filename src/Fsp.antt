-- ===== src/Fsp.antt =====
-- include/TaskProxy.hpp, include/FSPTaskList.hpp, src/lib/scheduling/policies/FSPTaskList.cpp, and FSPScheduler of
-- include/FSPScheduler.hpp and src/lib/scheduling/policies/FSPScheduler.cpp: the tasks of a node under the policy FSP, in the order
-- of the deadlines that give them all the same slowness. std::sort and std::unique of numbers are by a comparison, as list::sort.
pub mod Slowness
pub mod Allocation
pub mod Counts
pub mod Rounds
pub mod Branches
pub mod Exact
pub mod Routing
pub mod Sending
pub mod Sharing
use mathlib.Core.List.{filter_map}
use stars.Prelude.{
  ℕ, zero, suc, ◌+◌, ◌-◌, ◌/◌, Bool, true, false, not, ◌&&◌, ◌||◌, Option, none, some, List, [],
  ◌∷◌, ◌++◌, length, get_elem?, map, ltb, ◌==◌, if◌then◌else◌,
}
use stars.Prelude.Sorting.{sort_by}
use stars.Float.{Float, seconds, after}
use stars.Scheduler.Interface.{Task}

-- TaskProxy
pub record TaskProxy (F : Type 0) : Type 0 where
  pub origin : Option Task
  pub id : ℕ
  pub rabs : ℕ
  pub d : ℕ
  pub a : F
  pub r : F
  pub t : F
  pub tsum : F

-- FSPTaskList
pub record FspTaskList (F : Type 0) : Type 0 where
  pub proxies : List (TaskProxy F)
  pub boundaries : List F
  pub dirty : Bool

module _ {F : Type 0} (fl : Float F) where
  -- TaskProxy() of a task; what the task estimates is in microseconds.
  abbrev pub of_task : (Task → ℕ) → Task → TaskProxy F
  of_task estimate t =
      let time = seconds fl (estimate t) 0 in
      record {
        origin = some t;
        id = t.task_id;
        rabs = t.creation_time;
        d = 0;
        a = fl.of_nat t.description.length;
        r = fl.of_nat 0;
        t = time;
        tsum = time;
      }

  abbrev pub get_deadline : F → TaskProxy F → ℕ
  get_deadline slowness p = after fl p.rabs (fl.mul slowness p.a)

  abbrev pub set_slowness : F → TaskProxy F → TaskProxy F
  set_slowness slowness p = record p { d = get_deadline slowness p }

  -- operator<
  abbrev pub is_before : TaskProxy F → TaskProxy F → Bool
  is_before p q = ltb p.d q.d || p.d == q.d && fl.lt p.a q.a

  -- std::unique()
  unfoldable pub unique : List F → List F
  unique [] = []
  unique (x ∷ []) = x ∷ []
  unique (x ∷ y ∷ ys) = let rest = unique (y ∷ ys) in if fl.eq x y then rest else x ∷ rest

  -- The slowness at which the deadlines of two tasks meet, if there is one.
  abbrev pub meeting : TaskProxy F → TaskProxy F → List F
  meeting p q =
      if fl.eq q.a p.a
      then []
      else (let l = fl.div (seconds fl p.rabs q.rabs) (fl.sub q.a p.a) in
          if fl.lt (fl.of_nat 0) l then l ∷ [] else [])

  unfoldable pub meetings : TaskProxy F → List (TaskProxy F) → List F
  meetings p [] = []
  meetings p (q ∷ qs) = meeting p q ++ meetings p qs

  unfoldable pub meetings_behind : TaskProxy F → List (TaskProxy F) → List F
  meetings_behind p [] = []
  meetings_behind p (q ∷ qs) = meeting q p ++ meetings_behind p qs

  -- The loops of computeBoundaries().
  unfoldable pub all_meetings : List (TaskProxy F) → List F
  unfolding meetings_behind
  all_meetings [] = []
  all_meetings (p ∷ ps) = meetings_behind p ps ++ all_meetings ps

  -- `preemptive ? begin() : ++begin()`
  abbrev pub movable : Bool → List (TaskProxy F) → List (TaskProxy F)
  movable true ps = ps
  movable false [] = []
  movable false (p ∷ ps) = ps

  abbrev pub sorted_boundaries : List F → List F
  sorted_boundaries bs = unique (sort_by fl.lt bs)

  -- addBoundaryValues()
  unfoldable pub add_boundary_values : Bool → TaskProxy F → List (TaskProxy F) → List F → List F
  unfolding meetings unique sort_by
  add_boundary_values preemptive task ps bs =
      sorted_boundaries (bs ++ meetings task (movable preemptive ps))

  -- The slowness of the first task.
  abbrev pub first_slowness : ℕ → TaskProxy F → F
  first_slowness now p = fl.div (seconds fl (after fl now p.t) p.rabs) p.a

  abbrev pub copies : ℕ → TaskProxy F → List (TaskProxy F)
  copies zero p = []
  copies (suc n) p = p ∷ copies n p

  abbrev pub new_boundaries : Bool → ℕ → TaskProxy F → List (TaskProxy F) → List F → List F
  new_boundaries preemptive now task [] bs =
      if preemptive then bs else bs ++ first_slowness now task ∷ []
  new_boundaries preemptive now task (p ∷ ps) bs = add_boundary_values preemptive task (p ∷ ps) bs

  -- addTasks()
  unfoldable pub add_tasks : Bool → ℕ → TaskProxy F → ℕ → FspTaskList F → FspTaskList F
  unfolding add_boundary_values
  add_tasks preemptive now task n l = record l {
    boundaries = new_boundaries preemptive now task l.proxies l.boundaries;
    proxies = l.proxies ++ copies n task;
  }

  -- The first proxy with an id is erased, if there is one.
  unfoldable pub erase_proxy : ℕ → List (TaskProxy F) → List (TaskProxy F) × Bool
  erase_proxy id [] = ([], false)
  erase_proxy id (p ∷ ps) =
      let (rest, found) = erase_proxy id ps in if p.id == id then (ps, true) else (p ∷ rest, found)

  -- removeTask()
  unfoldable pub remove_task : ℕ → FspTaskList F → FspTaskList F
  unfolding erase_proxy
  remove_task id l =
      let (rest, found) = erase_proxy id l.proxies in
      record l { proxies = rest; dirty = l.dirty || found }

  unfoldable pub slowness_from : ℕ → F → List (TaskProxy F) → F
  slowness_from e least [] = least
  slowness_from e least (p ∷ ps) =
      let end = after fl e p.t in
      let slowness = fl.div (seconds fl end p.rabs) p.a in
      slowness_from end (if fl.lt least slowness then slowness else least) ps

  -- getSlowness()
  unfoldable pub get_slowness : ℕ → List (TaskProxy F) → F
  unfolding slowness_from
  get_slowness now ps = slowness_from now (fl.of_nat 0) ps

  abbrev pub by_slowness : F → List (TaskProxy F) → List (TaskProxy F)
  by_slowness slowness ps = sort_by is_before (map (set_slowness slowness) ps)

  -- sortBySlowness()
  unfoldable pub sort_by_slowness : Bool → F → List (TaskProxy F) → List (TaskProxy F)
  unfolding sort_by
  sort_by_slowness preemptive slowness [] = []
  sort_by_slowness preemptive slowness (p ∷ []) = p ∷ []
  sort_by_slowness true slowness (p ∷ q ∷ ps) = by_slowness slowness (p ∷ q ∷ ps)
  sort_by_slowness false slowness (p ∷ q ∷ ps) = p ∷ by_slowness slowness (q ∷ ps)

  -- meetDeadlines()
  unfoldable pub meet_deadlines : F → ℕ → List (TaskProxy F) → Bool
  meet_deadlines slowness e [] = true
  meet_deadlines slowness e (p ∷ ps) =
      let end = after fl e p.t in
      let rest = meet_deadlines slowness end ps in
      if ltb (get_deadline slowness p) end then false else rest

  abbrev pub first_boundary : Bool → ℕ → List (TaskProxy F) → List F
  first_boundary true now ps = []
  first_boundary false now [] = []
  first_boundary false now (p ∷ ps) = first_slowness now p ∷ []

  -- computeBoundaries()
  unfoldable pub compute_boundaries : Bool → ℕ → FspTaskList F → FspTaskList F
  unfolding all_meetings unique sort_by
  compute_boundaries preemptive now l =
      if l.dirty
      then record l {
        dirty = false;
        boundaries = elim l.proxies [
          | [] ↦ []
          | p ∷ ps ↦
              sorted_boundaries (
                first_boundary preemptive now (p ∷ ps)
                ++ all_meetings (movable preemptive (p ∷ ps)))
        ];
      }
      else l

  abbrev pub boundary : List F → ℕ → F
  boundary bs i = elim (get_elem? bs i) [ none ↦ fl.of_nat 0 | some b ↦ b ]

  -- The middle of the interval behind a boundary.
  abbrev pub middle : List F → ℕ → F
  middle bs i = fl.div (fl.add (boundary bs i) (boundary bs (i + 1))) (fl.of_nat 2)

  -- The binary search of sortMinSlowness(), with fuel: the list, minLi and maxLi.
  unfoldable pub bisect :
      Bool → ℕ → List F → ℕ → ℕ → ℕ → List (TaskProxy F) → Option (List (TaskProxy F) × ℕ × ℕ)
  unfolding sort_by_slowness meet_deadlines
  bisect preemptive now bs zero low high ps = none
  bisect preemptive now bs (suc fuel) low high ps =
      let mid = (low + high) / 2 in
      let sorted = sort_by_slowness preemptive (middle bs mid) ps in
      let met = meet_deadlines (boundary bs mid) now sorted in
      let rest =
        bisect preemptive now bs fuel (if met then low else mid) (if met then mid else high)
          sorted in
      if ltb (low + 1) high then rest else some (ps, low, high)

  -- The list is sorted again beyond a boundary at which it does not meet its deadlines.
  abbrev pub sort_beyond : Bool → ℕ → F → List (TaskProxy F) → List (TaskProxy F)
  sort_beyond preemptive now last ps =
      if not (meet_deadlines last now ps)
      then sort_by_slowness preemptive (fl.add last (fl.of_nat 1)) ps
      else ps

  abbrev pub sort_last :
      Bool → ℕ → List F → Option (List (TaskProxy F) × ℕ × ℕ) → Option (List (TaskProxy F))
  sort_last preemptive now bs none = none
  sort_last preemptive now bs (some (ps, low, high)) =
      let sorted = sort_by_slowness preemptive (middle bs low) ps in
      some (
        if high == length bs - 1
        then sort_beyond preemptive now (boundary bs high) sorted
        else sorted)

  abbrev pub sort_at : Bool → ℕ → List F → List (TaskProxy F) → Option (List (TaskProxy F))
  sort_at preemptive now [] ps = some (sort_by_slowness preemptive (fl.of_nat 1) ps)
  sort_at preemptive now (b ∷ []) ps =
      some (sort_beyond preemptive now b (sort_by_slowness preemptive (fl.div b (fl.of_nat 2)) ps))
  sort_at preemptive now (b ∷ c ∷ bs) ps =
      sort_last preemptive now (b ∷ c ∷ bs)
        (bisect preemptive now (b ∷ c ∷ bs) (length bs + 2) 0 (length bs + 1) ps)

  -- sortMinSlowness() of some boundaries
  unfoldable pub sort_min_slowness :
      Bool → ℕ → List F → List (TaskProxy F) → Option (List (TaskProxy F))
  unfolding bisect
  sort_min_slowness preemptive now bs [] = some []
  sort_min_slowness preemptive now bs (p ∷ ps) = sort_at preemptive now bs (p ∷ ps)

  -- updateReleaseTime()
  abbrev pub update_release_time : ℕ → List (TaskProxy F) → List (TaskProxy F)
  update_release_time now [] = []
  update_release_time now (p ∷ ps) =
      record p { r = seconds fl p.rabs now } ∷ update_release_time now ps

  -- The time of the first task, as reschedule() adjusts it.
  abbrev pub adjust_first : (Task → ℕ) → List (TaskProxy F) → List (TaskProxy F)
  adjust_first estimate [] = []
  adjust_first estimate (p ∷ ps) =
      elim p.origin [ none ↦ p | some t ↦ record p { t = seconds fl (estimate t) 0 } ] ∷ ps

  -- The queue: the tasks of the proxies.
  abbrev pub origins : List (TaskProxy F) → List Task
  origins ps = filter_map (λ p. p.origin) ps

  abbrev pub put_sorted : FspTaskList F → Option (List (TaskProxy F)) → Option (FspTaskList F)
  put_sorted l none = none
  put_sorted l (some ps) = some (record l { proxies = ps })

  -- reschedule() of FSPScheduler, with the queue that it makes.
  abbrev pub queue_of : Option (FspTaskList F) → Option (FspTaskList F × List Task)
  queue_of none = none
  queue_of (some l) = some (l, origins l.proxies)

  unfoldable pub reschedule :
      Bool → (Task → ℕ) → ℕ → FspTaskList F → Option (FspTaskList F × List Task)
  unfolding compute_boundaries sort_min_slowness
  reschedule preemptive estimate now l =
      let adjusted = record l { proxies = adjust_first estimate l.proxies } in
      let computed = compute_boundaries preemptive now adjusted in
      queue_of (
        put_sorted computed (sort_min_slowness preemptive now computed.boundaries computed.proxies))
