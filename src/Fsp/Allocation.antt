-- ===== src/Fsp/Allocation.antt =====
-- src/lib/scheduling/policies/FSPDispatcher.cpp, FunctionVector: how many tasks of a bag each cluster of nodes gets, and what it
-- reads of include/FSPAvailabilityInformation.hpp and of include/ZAFunction.hpp with src/lib/scheduling/policies/ZAFunction.cpp.
-- A cluster that the code points to is its position in the summary of a child.
use stars.Prelude.{
  ℕ, zero, suc, ◌+◌, ◌-◌, ◌*◌, ◌%◌, Bool, not, ◌&&◌, Option, none, some, List, [], ◌∷◌, ◌++◌,
  get_elem?, set, ltb, leb, ◌==◌, if◌then◌else◌, u32,
}
use stars.Float.{Float}
use stars.Scheduler.Interface.{TaskDescription}
use stars.Ibp.{ScalarParameter}
use stars.Dispatcher.Interface.{Side, left, right}

-- SubFunction; the members are of type float in the code, and a double when it computes with them.
pub record SubFunction (F : Type 0) : Type 0 where
  pub left_endpoint : F
  pub x : F
  pub y : F
  pub z1 : F
  pub z2 : F

-- ZAFunction, whose vector of pieces has a first one.
pub record ZaFunction (F : Type 0) : Type 0 where
  pub first_piece : SubFunction F
  pub other_pieces : List (SubFunction F)

-- MDZCluster, without the pointer to its summary
pub record MdzCluster (F : Type 0) : Type 0 where
  pub value : ℕ
  pub min_m : ScalarParameter
  pub min_d : ScalarParameter
  pub max_z : ZaFunction F
  pub accum_zsq : F
  pub accum_zmax : ZaFunction F

-- FunctionInfo
pub record FunctionInfo (F : Type 0) : Type 0 where
  pub cluster : MdzCluster F
  pub index : ℕ
  pub child : Side
  pub slowness : F
  pub tasks : ℕ

-- std::array<..., 2>
pub record Two (A : Type 0) : Type 0 where
  pub of_left : A
  pub of_right : A

abbrev pub of_side : {A : Type 0} → Side → Two A → A
of_side left p = p.of_left
of_side right p = p.of_right

abbrev pub set_side : {A : Type 0} → Side → A → Two A → Two A
set_side left x p = record p { of_left = x }
set_side right x p = record p { of_right = x }

-- FunctionVector
pub record FunctionVector (F : Type 0) : Type 0 where
  pub functions : List (FunctionInfo F)
  pub total_tasks : ℕ
  pub diff_with_request : ℕ
  pub total_nodes : ℕ
  pub nodes_per_branch : Two ℕ
  pub min_slowness : F
  pub branch_slowness : Two F
  pub worst_child : Side

-- MDZCluster::fulfills()
abbrev pub fulfills : {F : Type 0} → TaskDescription → MdzCluster F → Bool
fulfills req c = leb req.max_memory c.min_m.parameter && leb req.max_disk c.min_d.parameter

-- getFunctions() of a summary, whose first cluster is at position `i`.
unfoldable pub get_functions :
    {F : Type 0} → TaskDescription → ℕ → List (MdzCluster F) → List (MdzCluster F × ℕ)
get_functions req i [] = []
get_functions req i (c ∷ cs) =
    let rest = get_functions req (i + 1) cs in if fulfills req c then (c, i) ∷ rest else rest

-- removeClusters(), from position `i` on.
unfoldable pub remove_clusters :
    {F : Type 0} → ℕ → List ℕ → List (MdzCluster F) → List (MdzCluster F)
remove_clusters i [] cs = cs
remove_clusters i (u ∷ us) [] = []
remove_clusters i (u ∷ us) (c ∷ cs) =
    let without = remove_clusters (i + 1) us cs in
    let rest = remove_clusters (i + 1) (u ∷ us) cs in if u == i then without else c ∷ rest

-- The loop of the constructor over the clusters of a child.
unfoldable pub functions_of :
    {F : Type 0} → F → Side → List (MdzCluster F × ℕ) → List (FunctionInfo F)
functions_of infinity c [] = []
functions_of infinity c ((cluster, index) ∷ cs) =
    record { cluster = cluster; index = index; child = c; slowness = infinity; tasks = 0 }
    ∷ functions_of infinity c cs

abbrev pub nodes_of : {F : Type 0} → ℕ → List (MdzCluster F × ℕ) → ℕ
nodes_of total [] = total
nodes_of total ((cluster, index) ∷ cs) = nodes_of ((total + cluster.value) % u32) cs

-- FunctionVector()
abbrev pub new_functions :
    {F : Type 0} → F → Two F → List (MdzCluster F × ℕ) → List (MdzCluster F × ℕ) → FunctionVector F
new_functions infinity least ls rs =
    let on_left = nodes_of 0 ls in
    let total = nodes_of on_left rs in
    record {
      functions = functions_of infinity left ls ++ functions_of infinity right rs;
      total_tasks = 0;
      diff_with_request = 0;
      total_nodes = total;
      nodes_per_branch = record { of_left = on_left; of_right = (total + u32 - on_left) % u32 };
      min_slowness = infinity;
      branch_slowness = least;
      worst_child = left;
    }

-- `tpb[func.child] += tasksToCluster`
abbrev pub count_tasks : {F : Type 0} → FunctionInfo F → Two ℕ → Two ℕ
count_tasks f tpb =
    if f.tasks == 0
    then tpb
    else set_side f.child ((of_side f.child tpb + f.tasks * f.cluster.value % u32) % u32) tpb

unfoldable pub count_all : {F : Type 0} → List (FunctionInfo F) → Two ℕ → Two ℕ
count_all [] tpb = tpb
count_all (f ∷ fs) tpb = count_all fs (count_tasks f tpb)

-- computeTasksPerBranch()
unfoldable pub compute_tasks_per_branch : {F : Type 0} → FunctionVector F → Two ℕ
unfolding count_all
compute_tasks_per_branch v =
    let tpb = count_all v.functions (record { of_left = 0; of_right = 0 }) in
    set_side v.worst_child ((of_side v.worst_child tpb + u32 - v.diff_with_request) % u32) tpb

module _ {F : Type 0} (fl : Float F) where
  -- SubFunction::value()
  abbrev pub value_of : F → ℕ → SubFunction F → F
  value_of a n p =
      fl.add
        (fl.add (fl.add (fl.div p.x a) (fl.mul (fl.mul p.y a) (fl.of_nat n)))
          (fl.mul p.z1 (fl.of_nat n)))
        p.z2

  -- The piece that the loop of getSlowness() and estimateSlowness() stops at.
  abbrev pub piece_at : F → SubFunction F → List (SubFunction F) → SubFunction F
  piece_at a p [] = p
  piece_at a p (next ∷ rest) =
      let later = piece_at a next rest in if not (fl.lt a next.left_endpoint) then later else p

  -- getSlowness() for one task, and estimateSlowness()
  abbrev pub estimate_slowness : F → ℕ → ZaFunction F → F
  estimate_slowness a n z = value_of a n (piece_at a z.first_piece z.other_pieces)

  abbrev pub larger : F → F → F
  larger x y = if fl.lt x y then y else x

  -- The loop of getSlowestMachine().
  abbrev pub slowest_of : F → List (SubFunction F) → F
  slowest_of result [] = result
  slowest_of result (p ∷ ps) = slowest_of (larger result p.z1) ps

  -- getSlowestMachine()
  abbrev pub slowest_machine : ZaFunction F → F
  slowest_machine z = slowest_of (fl.of_nat 0) (z.first_piece ∷ z.other_pieces)

  -- The slowness of a cluster in a round, at least that of its branch.
  abbrev pub round_slowness : ℕ → ℕ → Two F → FunctionInfo F → F
  round_slowness a tpn least f =
      larger (estimate_slowness (fl.of_nat a) tpn f.cluster.max_z) (of_side f.child least)

  -- slownessHeap: a slowness and the position of its function, which starts at `i`.
  unfoldable pub slowness_heap : ℕ → ℕ → Two F → ℕ → List (FunctionInfo F) → List (F × ℕ)
  slowness_heap a tpn least i [] = []
  slowness_heap a tpn least i (f ∷ fs) =
      (round_slowness a tpn least f, i) ∷ slowness_heap a tpn least (i + 1) fs

  abbrev pub give_to : F → ℕ → Option (FunctionInfo F) → ℕ → FunctionVector F → FunctionVector F
  give_to slowness i none tasks v = v
  give_to slowness i (some f) tasks v = record v {
    functions = set v.functions i (record f { tasks = f.tasks + 1; slowness = slowness });
    min_slowness = slowness;
    worst_child = f.child;
    total_tasks = (tasks + f.cluster.value) % u32;
  }

  -- The body of the inner loop.
  unfoldable pub give_one : F × ℕ → FunctionVector F → FunctionVector F
  give_one (slowness, i) v = give_to slowness i (get_elem? v.functions i) v.total_tasks v

  -- The inner loop, over the heap in the order in which std::pop_heap gives it out.
  unfoldable pub give_round : ℕ → List (F × ℕ) → FunctionVector F → FunctionVector F
  unfolding give_one
  give_round wanted [] v = v
  give_round wanted (entry ∷ heap) v =
      let rest = give_round wanted heap (give_one entry v) in
      if ltb v.total_tasks wanted then rest else v

  -- updateBranchSlowness()
  unfoldable pub update_branch_slowness : List (FunctionInfo F) → Two F → Two F
  update_branch_slowness [] least = least
  update_branch_slowness (f ∷ fs) least = update_branch_slowness fs (
      if f.tasks == 0
      then least
      else set_side f.child (larger (of_side f.child least) f.slowness) least)

  module _ (pop_order : List (F × ℕ) → List (F × ℕ)) where
    -- The outer loop, with fuel. The number of the round is an int in the code, and does not wrap around here.
    unfoldable pub give_rounds : ℕ → ℕ → ℕ → ℕ → FunctionVector F → Option (FunctionVector F)
    unfolding give_round slowness_heap
    give_rounds a wanted zero tpn v = none
    give_rounds a wanted (suc fuel) tpn v =
        let heap = pop_order (slowness_heap a tpn v.branch_slowness 0 v.functions) in
        let rest = give_rounds a wanted fuel (tpn + 1) (give_round wanted heap v) in
        if ltb v.total_tasks wanted then rest else some v

    abbrev pub end_rounds : ℕ → Option (FunctionVector F) → Option (FunctionVector F)
    end_rounds wanted none = none
    end_rounds wanted (some v) = some (record v {
      diff_with_request = (v.total_tasks + u32 - wanted) % u32;
      branch_slowness = update_branch_slowness v.functions v.branch_slowness;
    })

    abbrev pub compute_functions :
        ℕ → ℕ → ℕ → List (FunctionInfo F) → FunctionVector F → Option (FunctionVector F)
    compute_functions fuel wanted a [] v = some v
    compute_functions fuel wanted a (f ∷ fs) v =
        end_rounds wanted (give_rounds a wanted fuel 1 (record v { min_slowness = fl.of_nat 0 }))

    -- computeTasksPerFunction()
    unfoldable pub compute_tasks_per_function :
        ℕ → ℕ → ℕ → FunctionVector F → Option (FunctionVector F)
    unfolding give_rounds update_branch_slowness
    compute_tasks_per_function fuel wanted a v = compute_functions fuel wanted a v.functions v
