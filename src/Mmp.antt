-- ===== src/Mmp.antt =====
-- include/MMPAvailabilityInformation.hpp and src/lib/scheduling/policies/MMPAvailabilityInformation.cpp: what a branch of nodes
-- that queue their tasks tells of itself under the policy MMP. A cluster that the code points to is its position in
-- the summary. The powers of the nodes are not negative.
pub mod Balance
pub mod Routing
pub mod Sharing
use stars.Prelude.{
  ℕ, zero, suc, refl, ◌+◌, ◌*◌, ◌/◌, ◌%◌, ◌^◌, Bool, true, false, ◌&&◌, Option, none, some, List,
  [], ◌∷◌, ltb, leb, ◌==◌, if◌then◌else◌, map, u32,
}
use stars.Float.{Float, seconds}
use stars.Scheduler.Interface.{TaskDescription}
use stars.Dispatcher.Interface.{Info}
use stars.Ibp.{ScalarParameter, scalar, same_scalar, Interval, set_limits, extend}

-- MDPTCluster
pub record MdptCluster : Type 0 where
  pub value : ℕ
  pub min_m : ScalarParameter
  pub min_d : ScalarParameter
  pub min_p : ScalarParameter
  pub max_t : ScalarParameter

abbrev pub new_cluster : ℕ → ℕ → ℕ → ℕ → MdptCluster
new_cluster m d p t = record {
  value = 1;
  min_m = scalar m;
  min_d = scalar d;
  min_p = scalar p;
  max_t = scalar t;
}

-- operator<
abbrev pub ends_before : MdptCluster → MdptCluster → Bool
ends_before l r = ltb l.max_t.parameter r.max_t.parameter

-- operator==
abbrev pub same_cluster : MdptCluster → MdptCluster → Bool
same_cluster l r =
    same_scalar l.min_m r.min_m
    && same_scalar l.min_d r.min_d
    && same_scalar l.min_p r.min_p
    && same_scalar l.max_t r.max_t
    && l.value == r.value

abbrev pub fulfills : TaskDescription → MdptCluster → Bool
fulfills req c = leb req.max_memory c.min_m.parameter && leb req.max_disk c.min_d.parameter

-- updateMaximumQueue()
abbrev pub update_maximum_queue : ℕ → MdptCluster → MdptCluster
update_maximum_queue t c = record c { max_t = scalar t }

-- Interval::setMinimum and setMaximum
abbrev pub set_minimum : ℕ → Interval → Interval
set_minimum t i = record { min = t; max = if ltb i.max t then t else i.max }

abbrev pub set_maximum : ℕ → Interval → Interval
set_maximum t i = record { max = t; min = if ltb t i.min then t else i.min }

-- MMPAvailabilityInformation
pub record MmpInfo : Type 0 where
  pub sequence_number : ℕ
  pub is_from_sch : Bool
  pub max_queue : ℕ
  pub summary : List MdptCluster
  pub memory_range : Interval
  pub disk_range : Interval
  pub power_range : Interval
  pub queue_range : Interval

-- MMPAvailabilityInformation(), at a time
abbrev pub no_queues : ℕ → MmpInfo
no_queues now = record {
  sequence_number = 0;
  is_from_sch = true;
  max_queue = now;
  summary = [];
  memory_range = set_limits 0;
  disk_range = set_limits 0;
  power_range = set_limits 0;
  queue_range = set_limits now;
}

abbrev pub set_queue_end : ℕ → ℕ → ℕ → ℕ → MmpInfo → MmpInfo
set_queue_end mem disk power end i = record i {
  summary = new_cluster mem disk power end ∷ [];
  memory_range = set_limits mem;
  disk_range = set_limits disk;
  power_range = set_limits power;
  queue_range = set_limits end;
}

-- list::merge: of two equal clusters, the one of the first list comes first.
unfoldable pub merge : List MdptCluster → List MdptCluster → List MdptCluster
merge [] ds = ds
merge (c ∷ cs) [] = c ∷ cs
merge (c ∷ cs) (d ∷ ds) =
    let later = merge (c ∷ cs) ds in
    let sooner = merge cs (d ∷ ds) in if ends_before d c then d ∷ later else c ∷ sooner

-- The loop over the summary that join() does at the end.
abbrev pub not_before : ℕ → List MdptCluster → List MdptCluster
not_before now cs =
    map (λ c. if ltb c.max_t.parameter now then update_maximum_queue now c else c) cs

abbrev pub join_ranges : MmpInfo → MmpInfo → List MdptCluster → MmpInfo
join_ranges i r [] = record i {
  memory_range = r.memory_range;
  disk_range = r.disk_range;
  power_range = r.power_range;
  queue_range = r.queue_range;
}
join_ranges i r (c ∷ cs) = record i {
  memory_range = extend i.memory_range r.memory_range;
  disk_range = extend i.disk_range r.disk_range;
  power_range = extend i.power_range r.power_range;
  queue_range = extend i.queue_range r.queue_range;
}

-- What the loops of the second getAvailability() know: min, max, d and t. It is given a list of clusters too, which its caller
-- does not use.
pub record Search : Type 0 where
  pub low : ℕ
  pub high : ℕ
  pub step : ℕ
  pub tasks : ℕ

module _ {F : Type 0} (fl : Float F) (now : ℕ) where
  abbrev pub start_of : MdptCluster → ℕ
  start_of c = if ltb now c.max_t.parameter then c.max_t.parameter else now

  -- The tasks that fit into a cluster, the number t of the code.
  unfoldable pub slots : TaskDescription → MdptCluster → ℕ
  slots req c =
      if ltb (start_of c) req.deadline && fulfills req c
      then fl.to_nat (
          fl.div (fl.mul (seconds fl req.deadline (start_of c)) (fl.of_nat c.min_p.parameter))
            (fl.of_nat (if req.length == 0 then 1000 else req.length)))
      else 0

  -- The number that getAvailability() returns for a description; `result` is what it has so far.
  unfoldable pub room : TaskDescription → ℕ → List MdptCluster → ℕ
  unfolding slots
  room req result [] = result
  room req result (c ∷ cs) =
      let t = slots req c in room req (if t == 0 then result else (result + t) % u32) cs

  -- That function: the positions of the clusters that it finds, from a position on, and the number.
  unfoldable pub found : TaskDescription → ℕ → List MdptCluster → List ℕ
  unfolding slots
  found req index [] = []
  found req index (c ∷ cs) =
      let rest = found req (suc index) cs in if slots req c == 0 then rest else index ∷ rest

  abbrev pub until : TaskDescription → ℕ → TaskDescription
  until req t = record req { deadline = t }

  -- A round of the first loop of the other getAvailability(), for `n` tasks.
  abbrev pub widen : TaskDescription → List MdptCluster → Search → Search
  widen req cs s = record {
    low = s.high;
    high = s.high + s.step;
    step = s.step * 2;
    tasks = room (until req (s.high + s.step)) 0 cs;
  }

  -- That loop, with fuel.
  unfoldable pub grow : ℕ → TaskDescription → ℕ → List MdptCluster → Search → Option Search
  grow zero req n cs s = none
  grow (suc f) req n cs s =
      let rest = grow f req n cs (widen req cs s) in
      if ltb s.tasks n && ltb s.step 1000000000000000000 then rest else some s

  -- A round of the second loop.
  abbrev pub halve : TaskDescription → ℕ → List MdptCluster → Search → Search
  halve req n cs s =
      let med = s.low + s.step / 2 in
      let t = room (until req med) 0 cs in
      record {
        low = if ltb t n then med else s.low;
        high = if ltb t n then s.high else med;
        step = s.step / 2;
        tasks = t;
      }

  -- That loop, with fuel; `last` is the number of tasks of the round before.
  unfoldable pub refine : ℕ → ℕ → TaskDescription → ℕ → List MdptCluster → Search → Option Search
  refine zero last req n cs s = none
  refine (suc f) last req n cs s =
      let rest = refine f s.tasks req n cs (halve req n cs s) in
      if last == s.tasks then some s else rest

  abbrev pub start_search : Search
  start_search = record { low = 0; high = now; step = 300000000; tasks = 0 }

  abbrev pub refined : TaskDescription → ℕ → List MdptCluster → Option Search → Option Search
  refined req n cs none = none
  refined req n cs (some s) = refine 64 0 req n cs s

  abbrev pub high_of : Option Search → Option ℕ
  high_of none = none
  high_of (some s) = some s.high

  -- getAvailability() of a number of tasks: the end of the longest queue after them.
  unfoldable pub balanced_queue : TaskDescription → ℕ → List MdptCluster → Option ℕ
  unfolding grow refine room
  balanced_queue req n cs = high_of (refined req n cs (grow 33 req n cs start_search))

  abbrev pub fill_all : ℕ → TaskDescription → List MdptCluster → List MdptCluster
  fill_all t req cs = map (λ c. if slots req c == 0 then c else update_maximum_queue t c) cs

  -- updateAvailability()
  unfoldable pub update_availability : TaskDescription → MmpInfo → MmpInfo
  unfolding found slots
  update_availability req i = elim (found req 0 i.summary) [
    | [] ↦ i
    | c ∷ cs ↦ record i {
      summary = fill_all req.deadline req i.summary;
      queue_range =
          if ltb i.queue_range.max req.deadline
          then set_maximum req.deadline i.queue_range
          else i.queue_range;
    }
  ]

abbrev pub join_some : ℕ → MmpInfo → MmpInfo → MmpInfo
join_some now i r =
    let joined = join_ranges i r i.summary in
    record joined {
      max_queue = if ltb i.max_queue r.max_queue then r.max_queue else i.max_queue;
      summary = not_before now (merge i.summary r.summary);
      queue_range =
          if ltb joined.queue_range.min now
          then set_minimum now joined.queue_range
          else joined.queue_range;
    }

-- join(), at a time
unfoldable pub join : ℕ → MmpInfo → MmpInfo → MmpInfo
unfolding merge
join now i r = elim r.summary [ [] ↦ i | c ∷ cs ↦ join_some now i r ]

unfoldable pub same_summary : List MdptCluster → List MdptCluster → Bool
same_summary [] [] = true
same_summary [] (d ∷ ds) = false
same_summary (c ∷ cs) [] = false
same_summary (c ∷ cs) (d ∷ ds) = same_cluster c d && same_summary cs ds

-- The class as the argument of Dispatcher, at a time. How cluster() joins clusters, in reduce(), and the bytes of the message
-- are parameters.
unfoldable pub mmp_info : ℕ → (MmpInfo → List MdptCluster) → (MmpInfo → ℕ) → Info MmpInfo
mmp_info now cluster size = record {
  seq = λ i. i.sequence_number;
  set_seq = λ n i. record i { sequence_number = n };
  from_sch = λ i. i.is_from_sch;
  set_from_sch = λ f i. record i { is_from_sch = f };
  join = join now;
  reduce = λ i. record i { summary = cluster i };
  same = λ l r. l.max_queue == r.max_queue && same_summary l.summary r.summary;
  size = size;
  seq-set_seq = λ n i. refl;
  seq-set_from_sch = λ f i. refl;
  seq-reduce = λ i. refl;
}
