-- ===== src/Fsp/Routing.antt =====
-- include/FSPDispatcher.hpp and src/lib/scheduling/policies/FSPDispatcher.cpp: how a bag of tasks goes to the clusters that slow it
-- down least, and what the children are told of the rest of the tree; with the members of
-- include/FSPAvailabilityInformation.hpp that it uses. A FSPTaskBagMsg is a bag with its estimated slowness beside it, which is 0 for another TaskBagMsg.
use stars.Prelude.{
  ℕ, ◌+◌, ◌-◌, ◌%◌, Bool, true, false, not, ◌&&◌, ◌||◌, Option, none, some, List, [], ◌∷◌, ltb,
  ◌==◌, if◌then◌else◌, u32,
}
use stars.Address.{Address, null, same}
use stars.Float.{Float}
use stars.Scheduler.Interface.{TaskBag, TaskDescription}
use stars.Dispatcher.Interface.{Info, Branch, Side, left, right}
use stars.Dispatcher.{Link, Dispatcher, Env, recompute_father, notify, branch_info}
use stars.Dispatcher.Requests.{check_state, send_tasks}
use stars.Ibp.{Interval, set_limits}
use stars.Fsp.Allocation.{
  ZaFunction, MdzCluster, FunctionInfo, Two, FunctionVector, get_functions, remove_clusters,
  new_functions, compute_tasks_per_function, compute_tasks_per_branch, slowest_machine,
}

-- Interval<double>
pub record Range (F : Type 0) : Type 0 where
  pub min : F
  pub max : F

-- FSPAvailabilityInformation, without the difference that reduce() works with
pub record FspInfo (F : Type 0) : Type 0 where
  pub sequence_number : ℕ
  pub is_from_sch : Bool
  pub summary : List (MdzCluster F)
  pub memory_range : Interval
  pub disk_range : Interval
  pub min_z : ZaFunction F
  pub max_z : ZaFunction F
  pub length_horizon : F
  pub slowness_range : Range F

-- The positions of the functions of a child that have got tasks.
unfoldable pub used_clusters : {F : Type 0} → Side → List (FunctionInfo F) → List ℕ
used_clusters c [] = []
used_clusters left (f ∷ fs) =
    let rest = used_clusters left fs in
    elim f.child [ left ↦ if f.tasks == 0 then rest else f.index ∷ rest | right ↦ rest ]
used_clusters right (f ∷ fs) =
    let rest = used_clusters right fs in
    elim f.child [ left ↦ rest | right ↦ if f.tasks == 0 then rest else f.index ∷ rest ]

abbrev pub remove_from : {F : Type 0} → List ℕ → Option (FspInfo F) → Option (FspInfo F)
remove_from us none = none
remove_from us (some i) = some (record i { summary = remove_clusters 0 us i.summary })

abbrev pub remove_used : {F : Type 0} → List ℕ → Link (FspInfo F) → Link (FspInfo F)
remove_used [] l = l
remove_used (u ∷ us) l = record l { avail = remove_from (u ∷ us) l.avail; has_new = true }

-- removeUsedClusters()
unfoldable pub remove_used_clusters :
    {F : Type 0} → List (FunctionInfo F) → Dispatcher (FspInfo F) → Dispatcher (FspInfo F)
unfolding used_clusters remove_clusters
remove_used_clusters fs d = record d {
  left_link = remove_used (used_clusters left fs) d.left_link;
  right_link = remove_used (used_clusters right fs) d.right_link;
}

-- mustGoDown()
unfoldable pub must_go_down : {F : Type 0} → Address → TaskBag → Dispatcher (FspInfo F) → Bool
unfolding same
must_go_down src msg d = same d.father.addr null || not msg.from_en && same d.father.addr src

-- The slowness that the bag has from here on.
abbrev pub expected_slowness : {F : Type 0} → Address → TaskBag → F → F → Dispatcher (FspInfo F) → F
expected_slowness src msg estimated least d =
    if msg.from_en || not (same src d.father.addr) then least else estimated

-- The clusters of a child that fulfil some requirements, with their positions.
unfoldable pub functions_in :
    {F : Type 0} → TaskDescription → Option (FspInfo F) → List (MdzCluster F × ℕ)
unfolding get_functions
functions_in req none = []
functions_in req (some i) = get_functions req 0 i.summary

-- The tasks that a bag asks for.
abbrev pub num_tasks : TaskBag → ℕ
num_tasks msg = (msg.last_task + u32 - msg.first_task + 1) % u32

module _ {F : Type 0} (fl : Float F) where
  abbrev pub set_minimum : F → Range F → Range F
  set_minimum x r = record { min = x; max = if fl.lt r.max x then x else r.max }

  abbrev pub set_maximum : F → Range F → Range F
  set_maximum x r = record { max = x; min = if fl.lt x r.min then x else r.min }

  -- ZAFunction()
  abbrev pub no_function : ZaFunction F
  no_function = record {
    first_piece = record {
      left_endpoint = fl.of_nat 1000;
      x = fl.of_nat 0;
      y = fl.of_nat 0;
      z1 = fl.of_nat 0;
      z2 = fl.of_nat 0;
    };
    other_pieces = [];
  }

  -- FSPAvailabilityInformation()
  abbrev pub no_info : FspInfo F
  no_info = record {
    sequence_number = 0;
    is_from_sch = true;
    summary = [];
    memory_range = set_limits 0;
    disk_range = set_limits 0;
    min_z = no_function;
    max_z = no_function;
    length_horizon = fl.of_nat 0;
    slowness_range = record { min = fl.of_nat 0; max = fl.of_nat 0 };
  }

  abbrev pub slow_until : F → FspInfo F
  slow_until x = record no_info { slowness_range = set_maximum x no_info.slowness_range }

  -- The information of a child, from what the father and the other child tell.
  abbrev pub child_info : Option (FspInfo F) → Option (FspInfo F) → Option (FspInfo F)
  child_info none none = none
  child_info none (some o) = some (slow_until o.slowness_range.max)
  child_info (some f) none = some (slow_until f.slowness_range.max)
  child_info (some f) (some o) =
      let of_father = f.slowness_range.max in
      let of_other = o.slowness_range.max in
      some (slow_until (if fl.lt of_other of_father then of_father else of_other))

  abbrev pub put_waiting : Bool → Option (FspInfo F) → Link (FspInfo F) → Link (FspInfo F)
  put_waiting leaf o l = if leaf then l else record l { waiting = o }

  -- recomputeChildrenInfo()
  unfoldable pub recompute_children : Branch → Dispatcher (FspInfo F) → Dispatcher (FspInfo F)
  recompute_children b d = record d {
    left_link =
        put_waiting (b.is_leaf left) (child_info d.father.avail d.right_link.avail) d.left_link;
    right_link =
        put_waiting (b.is_leaf right) (child_info d.father.avail d.left_link.avail) d.right_link;
  }

  abbrev pub raise_slowness : F → Option (FspInfo F) → Option (FspInfo F)
  raise_slowness x none = none
  raise_slowness x (some i) =
      let r = set_minimum x i.slowness_range in
      some (record i { slowness_range = if fl.lt r.max x then set_maximum x r else r })

  -- updateBranchSlowness()
  unfoldable pub update_slowness : Two F → Dispatcher (FspInfo F) → Dispatcher (FspInfo F)
  update_slowness x d = record d {
    left_link = record d.left_link { avail = raise_slowness x.of_left d.left_link.avail };
    right_link = record d.right_link { avail = raise_slowness x.of_right d.right_link.avail };
  }

  -- The slowness of a child before a bag.
  abbrev pub least_slowness : Option (FspInfo F) → F
  least_slowness none = fl.of_nat 0
  least_slowness (some i) = i.slowness_range.min

  abbrev pub rest_of_tree : FspInfo F → Option (FspInfo F) → F
  rest_of_tree zone none = zone.slowness_range.max
  rest_of_tree zone (some f) = f.slowness_range.max

  -- getSlownessLimit()
  abbrev pub slowness_limit : F → FspInfo F → Option (FspInfo F) → F
  slowness_limit beta zone father =
      let limit = rest_of_tree zone father in
      let slowest = slowest_machine fl zone.max_z in
      fl.mul (if fl.lt limit slowest then slowest else limit) beta

  -- The functions of both children that a bag may be given to.
  abbrev pub functions_for : F → TaskBag → Dispatcher (FspInfo F) → FunctionVector F
  functions_for infinity msg d =
      new_functions infinity
        (record {
          of_left = least_slowness d.left_link.avail;
          of_right = least_slowness d.right_link.avail;
        })
        (functions_in msg.min_requirements d.left_link.avail)
        (functions_in msg.min_requirements d.right_link.avail)

  abbrev pub clear_news : Dispatcher (FspInfo F) → Dispatcher (FspInfo F)
  clear_news d = record d {
    father = record d.father { has_new = false };
    left_link = record d.left_link { has_new = false };
    right_link = record d.right_link { has_new = false };
  }

  module _ (info : Info (FspInfo F)) where
    -- recomputeInfo()
    unfoldable pub recompute_info : Branch → Dispatcher (FspInfo F) → Dispatcher (FspInfo F)
    unfolding recompute_father recompute_children
    recompute_info b d = clear_news (recompute_children b (recompute_father info d))

    -- What the node knows after the functions have got their tasks.
    unfoldable pub accept :
        Branch → FunctionVector F → Dispatcher (FspInfo F) → Dispatcher (FspInfo F)
    unfolding update_slowness remove_used_clusters recompute_info
    accept b v d =
        recompute_info b (remove_used_clusters v.functions (update_slowness v.branch_slowness d))

    abbrev pub send_back : Branch → TaskBag → Dispatcher (FspInfo F) → Dispatcher (FspInfo F)
    send_back b msg d = send_tasks info b msg 0 0 false d

    abbrev pub send_down :
        Env
        → Branch
        → Bool
        → TaskBag
        → FunctionVector F
        → Dispatcher (FspInfo F)
        → Dispatcher (FspInfo F)
    send_down env b must msg v d =
        let n = compute_tasks_per_branch v in
        let e = accept b v d in
        send_tasks info b msg n.of_left n.of_right false (if must then e else notify info env b e)

  module _ (info : Info (FspInfo F)) (pop_order : List (F × ℕ) → List (F × ℕ))
      (infinity beta discard_ratio : F) (discard : Bool) where
    -- The tasks go down unless their slowness is much more than was expected of them.
    abbrev pub send_expected :
        Env
        → Branch
        → Bool
        → TaskBag
        → F
        → FunctionVector F
        → Dispatcher (FspInfo F)
        → Dispatcher (FspInfo F)
    send_expected env b must msg expected v d =
        if fl.lt (fl.mul expected discard_ratio) v.min_slowness
        then (if discard then d else send_back info b msg d)
        else send_down info env b must msg v d

    abbrev pub send_given :
        Env
        → Branch
        → Address
        → TaskBag
        → F
        → FspInfo F
        → Option (FunctionVector F)
        → Dispatcher (FspInfo F)
        → Option (Dispatcher (FspInfo F) × F)
    send_given env b src msg estimated zone none d = none
    send_given env b src msg estimated zone (some v) d =
        let must = must_go_down src msg d in
        let limit = slowness_limit beta zone d.father.avail in
        let expected = expected_slowness src msg estimated v.min_slowness d in
        if must || (fl.lt v.min_slowness limit || fl.eq v.min_slowness limit)
        then some (send_expected env b must msg expected v d, expected)
        else some (send_back info b msg d, estimated)

    abbrev pub route :
        Env
        → Branch
        → Address
        → TaskBag
        → F
        → Option (FspInfo F)
        → Dispatcher (FspInfo F)
        → Option (Dispatcher (FspInfo F) × F)
    route env b src msg estimated none d = some (d, estimated)
    route env b src msg estimated (some zone) d =
        let v = functions_for infinity msg d in
        let n = num_tasks msg in
        if not (must_go_down src msg d) && ltb v.total_nodes n
        then some (send_back info b msg d, estimated)
        else send_given env b src msg estimated zone
            (compute_tasks_per_function fl pop_order (n + 1) n msg.min_requirements.length v) d

    -- handle() of a TaskBagMsg with an estimated slowness, which gives the one of the bags that are sent. It gives nothing
    -- when its loop does not end.
    unfoldable pub handle_task_bag :
        Env
        → Branch
        → Address
        → TaskBag
        → F
        → Dispatcher (FspInfo F)
        → Option (Dispatcher (FspInfo F) × F)
    unfolding must_go_down functions_in compute_tasks_per_function compute_tasks_per_branch accept
        check_state
    handle_task_bag env b src msg estimated d =
        if msg.for_en || not (check_state info b d)
        then some (d, estimated)
        else route env b src msg estimated (branch_info d) d
