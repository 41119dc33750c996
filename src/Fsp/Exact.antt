-- ===== src/Fsp/Exact.antt =====
-- The tasks that each child gets by Fsp.Allocation: the loops end and give each task of a bag out once.

use mathlib.Core.List.{append-nil}
use stars.Prelude.{
  ℕ, ◌+◌, ◌-◌, ◌%◌, ◌≤◌, ◌<◌, ◌≡◌, refl, sym, ap, subst, All, some, List, [], ◌∷◌, ◌++◌, u32, arith,
  Perm,
}
use stars.Float.{Float}
use stars.Dispatcher.Interface.{Side, left, right}
use stars.Fsp.Allocation.{
  MdzCluster, FunctionInfo, Two, FunctionVector, functions_of, new_functions,
  compute_tasks_per_branch, compute_functions, update_branch_slowness, end_rounds,
  compute_tasks_per_function,
}
use stars.Fsp.Counts.{
  IsOther, IsWithout, capacity, functions_of-sides_of, given, given-sides_of, sides_of,
}
use stars.Fsp.Rounds.{IsCounted, give_rounds-IsCounted}
use stars.Fsp.Branches.{
  capacity-append, compute_tasks_per_branch_lem, functions_of-capacity, functions_of-given,
  given-append, nodes,
}

module _ {F : Type 0} (fl : Float F) (pop_order : List (F × ℕ) → List (F × ℕ))
    (pop_order-perm : (heap : List (F × ℕ)) → Perm (pop_order heap) heap) where
  compute_functions-IsCounted :
      {sides : List Side} (a wanted : ℕ) (fs : List (FunctionInfo F)) (v : FunctionVector F)
      → wanted + capacity fs ≤ u32
      → 0 < capacity fs
      → capacity fs ≡ capacity v.functions
      → IsCounted sides wanted v
      → (r : FunctionVector F) × (compute_functions fl pop_order (wanted + 1) wanted a fs v
          ≡ some r)
        × IsCounted sides wanted r
        × (wanted ≤ r.total_tasks)
        × (wanted + capacity r.functions ≤ u32)
        × (r.diff_with_request ≡ (r.total_tasks + u32 - wanted) % u32)
  compute_functions-IsCounted a wanted [] v room some_node all h = absurd (omega (arith, some_node))
  compute_functions-IsCounted a wanted (f ∷ fs) v room some_node all h =
      let start = record v { min_slowness = fl.of_nat 0 } in
      let (r, eq, counted, reached, caps) =
        give_rounds-IsCounted fl pop_order pop_order-perm a wanted (wanted + 1) 1 start
          (omega (arith, room, all)) (omega (arith, some_node, all))
          (record { same_sides = h.same_sides; total = h.total; small = h.small; last = h.last })
          (omega arith) (omega arith) in
      (
        record r {
          diff_with_request = (r.total_tasks + u32 - wanted) % u32;
          branch_slowness = update_branch_slowness fl r.functions r.branch_slowness;
        },
        ap (end_rounds fl pop_order wanted) eq,
        record {
          same_sides = counted.same_sides;
          total = counted.total;
          small = counted.small;
          last = counted.last;
        },
        reached,
        omega (arith, room, all, caps),
        refl,
      )

  IsWithout-left :
      (infinity : F) (ls rs : List (MdzCluster F × ℕ))
      → ls ≡ []
      → IsWithout left (functions_of infinity left ls ++ functions_of infinity right rs)
  unfolding functions_of
  IsWithout-left infinity ls rs e =
      subst (λ xs. IsWithout left (functions_of infinity left xs ++ functions_of infinity right rs))
        (sym e) (functions_of-sides_of infinity left right rs (λ n. refl))

  IsWithout-right :
      (infinity : F) (ls rs : List (MdzCluster F × ℕ))
      → rs ≡ []
      → IsWithout right (functions_of infinity left ls ++ functions_of infinity right rs)
  unfolding functions_of
  IsWithout-right infinity ls rs e =
      subst
        (λ xs. IsWithout right (functions_of infinity left ls ++ functions_of infinity right xs))
        (sym e)
        (subst (IsWithout right) (sym (append-nil (functions_of infinity left ls)))
          (functions_of-sides_of infinity right left ls (λ n. refl)))

  -- The functions of both children, before a bag is given out.
  new_functions-IsCounted :
      (wanted : ℕ) (infinity : F) (least : Two F) (ls rs : List (MdzCluster F × ℕ))
      → 0 < wanted
      → let v = new_functions infinity least ls rs in
        IsCounted (sides_of v.functions) wanted v × (capacity v.functions ≡ nodes ls + nodes rs)
  new_functions-IsCounted wanted infinity least ls rs pos =
      let v = new_functions infinity least ls rs in
      let fs = functions_of infinity left ls in
      let gs = functions_of infinity right rs in
      (
        record {
          same_sides = refl;
          total = omega (
            arith,
            given-append left fs gs,
            given-append right fs gs,
            functions_of-given infinity left left ls,
            functions_of-given infinity left right ls,
            functions_of-given infinity right left rs,
            functions_of-given infinity right right rs,
          );
          small = omega (arith, pos);
          last = λ k. absurd (omega (arith, pos, k));
        },
        omega (
          arith,
          capacity-append fs gs,
          functions_of-capacity infinity left ls,
          functions_of-capacity infinity right rs,
        ),
      )

  -- A bag of some tasks, for clusters with some nodes, when tasks and nodes together do not exceed a machine's integer. The
  -- rounds end, whatever order the heap gives its equal entries, and the children get all the tasks of the bag and no
  -- others; a child that has no cluster gets none.
  pub compute_tasks_per_function-IsExact :
      (a wanted : ℕ) (infinity : F) (least : Two F) (ls rs : List (MdzCluster F × ℕ))
      → 0 < wanted
      → 0 < nodes ls + nodes rs
      → wanted + (nodes ls + nodes rs) ≤ u32
      → (r : FunctionVector F) × (compute_tasks_per_function fl pop_order
            (wanted + 1)
            wanted
            a
            (new_functions infinity least ls rs)
          ≡ some r)
        × let n = compute_tasks_per_branch r in
          (n.of_left + n.of_right ≡ wanted) × (ls ≡ [] → n.of_left ≡ 0) × (rs ≡ [] → n.of_right ≡ 0)
  unfolding compute_tasks_per_function
  compute_tasks_per_function-IsExact a wanted infinity least ls rs pos some_node room =
      let v = new_functions infinity least ls rs in
      let (counted, all) = new_functions-IsCounted wanted infinity least ls rs pos in
      let (r, eq, h, reached, small, d) =
        compute_functions-IsCounted a wanted v.functions v (omega (arith, room, all))
          (omega (arith, some_node, all)) refl counted in
      let kept : (c : Side) → IsWithout c v.functions → given c r.functions ≡ 0 =
        λ c w. given-sides_of c r.functions (subst (All (IsOther c)) (sym h.same_sides) w) in
      let (sum, l, t) = compute_tasks_per_branch_lem wanted r h reached small d in
      (
        r,
        eq,
        (
          sum,
          λ e. omega (arith, l, kept left (IsWithout-left infinity ls rs e)),
          λ e. omega (arith, t, kept right (IsWithout-right infinity ls rs e)),
        ),
      )
