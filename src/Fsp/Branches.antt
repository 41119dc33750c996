-- ===== src/Fsp/Branches.antt =====
-- The tasks of both children, Fsp.Allocation.compute_tasks_per_branch, of functions that have got all tasks.

use stars.Prelude.{
  ℕ, ◌+◌, ◌-◌, ◌*◌, ◌%◌, ◌≤◌, ◌<◌, ◌≡◌, refl, inl, inr, ◌∙◌, ap, List, [], ◌∷◌, ◌++◌, ◌==◌, u32,
  arith, Bool-cases, ==_iff,
}
use stars.Dispatcher.Interface.{Side, left, right}
use stars.Fsp.Allocation.{
  MdzCluster, FunctionInfo, Two, of_side, set_side, FunctionVector, functions_of, count_tasks,
  count_all, compute_tasks_per_branch,
}
use stars.Fsp.Counts.{capacity, given, none_of, share_of}
use stars.Fsp.Rounds.{IsCounted}

add_side :
    (c : Side) (n : ℕ) (tpb : Two ℕ)
    → tpb.of_left + share_of left c n < u32
    → tpb.of_right + share_of right c n < u32
    → let r = set_side c ((of_side c tpb + n % u32) % u32) tpb in
      (r.of_left ≡ tpb.of_left + share_of left c n)
      × (r.of_right ≡ tpb.of_right + share_of right c n)
add_side left n tpb h k = (omega (arith, h), omega arith)
add_side right n tpb h k = (omega arith, omega (arith, k))

share_of_zero : (c s : Side) → share_of c s 0 ≡ 0
share_of_zero left left = refl
share_of_zero left right = refl
share_of_zero right left = refl
share_of_zero right right = refl

-- What was given beyond the request is taken from the child of the last function, which was given more than that.
take_back :
    (c : Side) (wanted diff total : ℕ) (tpb : Two ℕ)
    → tpb.of_left + tpb.of_right ≡ total
    → total < u32
    → wanted ≤ total
    → diff ≡ (total + u32 - wanted) % u32
    → total < wanted + of_side c tpb
    → let r = set_side c ((of_side c tpb + u32 - diff) % u32) tpb in
      (r.of_left + r.of_right ≡ wanted) × (r.of_left ≤ tpb.of_left) × (r.of_right ≤ tpb.of_right)
take_back left wanted diff total tpb sum small reached d last = (
  omega (arith, sum, small, reached, d, last),
  omega (arith, sum, small, reached, d, last),
  omega arith,
)
take_back right wanted diff total tpb sum small reached d last = (
  omega (arith, sum, small, reached, d, last),
  omega arith,
  omega (arith, sum, small, reached, d, last),
)

module _ {F : Type 0} where
  count_tasks_lem :
      (f : FunctionInfo F) (tpb : Two ℕ)
      → tpb.of_left + share_of left f.child (f.tasks * f.cluster.value) < u32
      → tpb.of_right + share_of right f.child (f.tasks * f.cluster.value) < u32
      → let r = count_tasks f tpb in
        (r.of_left ≡ tpb.of_left + share_of left f.child (f.tasks * f.cluster.value))
        × (r.of_right ≡ tpb.of_right + share_of right f.child (f.tasks * f.cluster.value))
  count_tasks_lem f tpb h k = elim (Bool-cases (f.tasks == 0)) [
    | inr e ↦ rw e (add_side f.child (f.tasks * f.cluster.value) tpb h k)
    | inl e ↦
        let none : f.tasks * f.cluster.value ≡ 0 =
          ap (λ t. t * f.cluster.value) ((==_iff f.tasks 0).0 e) ∙ none_of f.cluster.value in
        let ls = ap (share_of left f.child) none ∙ share_of_zero left f.child in
        let rs = ap (share_of right f.child) none ∙ share_of_zero right f.child in
        rw e (omega (arith, ls), omega (arith, rs))
  ]

  count_all_lem :
      (fs : List (FunctionInfo F)) (tpb : Two ℕ)
      → tpb.of_left + given left fs < u32
      → tpb.of_right + given right fs < u32
      → let r = count_all fs tpb in
        (r.of_left ≡ tpb.of_left + given left fs) × (r.of_right ≡ tpb.of_right + given right fs)
  unfolding count_all
  count_all_lem [] tpb h k = (omega arith, omega arith)
  count_all_lem (f ∷ fs) tpb h k =
      let (ls, rs) = count_tasks_lem f tpb (omega (arith, h)) (omega (arith, k)) in
      let ih = count_all_lem fs (count_tasks f tpb) (omega (arith, ls, h)) (omega (arith, rs, k)) in
      (omega (arith, ih.0, ls), omega (arith, ih.1, rs))

  -- The nodes of the clusters of a child.
  abbrev pub nodes : List (MdzCluster F × ℕ) → ℕ
  nodes [] = 0
  nodes ((cluster, index) ∷ cs) = cluster.value + nodes cs

  pub given-append :
      (c : Side) (fs gs : List (FunctionInfo F)) → given c (fs ++ gs) ≡ given c fs + given c gs
  given-append c [] gs = omega arith
  given-append c (f ∷ fs) gs = omega (arith, given-append c fs gs)

  pub capacity-append :
      (fs gs : List (FunctionInfo F)) → capacity (fs ++ gs) ≡ capacity fs + capacity gs
  capacity-append [] gs = omega arith
  capacity-append (f ∷ fs) gs = omega (arith, capacity-append fs gs)

  pub functions_of-capacity :
      (infinity : F) (c : Side) (cs : List (MdzCluster F × ℕ))
      → capacity (functions_of infinity c cs) ≡ nodes cs
  unfolding functions_of
  functions_of-capacity infinity c [] = refl
  functions_of-capacity infinity c ((cluster, index) ∷ cs) =
      omega (arith, functions_of-capacity infinity c cs)

  pub functions_of-given :
      (infinity : F) (c s : Side) (cs : List (MdzCluster F × ℕ))
      → given s (functions_of infinity c cs) ≡ 0
  unfolding functions_of
  functions_of-given infinity c s [] = refl
  functions_of-given infinity c s ((cluster, index) ∷ cs) =
      let none = ap (share_of s c) (none_of cluster.value) ∙ share_of_zero s c in
      omega (arith, none, functions_of-given infinity c s cs)

  of_side-given :
      (c : Side) (fs : List (FunctionInfo F)) (tpb : Two ℕ)
      → tpb.of_left ≡ given left fs
      → tpb.of_right ≡ given right fs
      → of_side c tpb ≡ given c fs
  of_side-given left fs tpb h k = h
  of_side-given right fs tpb h k = k

  -- What the children get of a vector whose total has been reached.
  pub compute_tasks_per_branch_lem :
      {sides : List Side} (wanted : ℕ) (v : FunctionVector F)
      → IsCounted sides wanted v
      → wanted ≤ v.total_tasks
      → wanted + capacity v.functions ≤ u32
      → v.diff_with_request ≡ (v.total_tasks + u32 - wanted) % u32
      → let n = compute_tasks_per_branch v in
        (n.of_left + n.of_right ≡ wanted)
        × (n.of_left ≤ given left v.functions)
        × (n.of_right ≤ given right v.functions)
  unfolding compute_tasks_per_branch
  compute_tasks_per_branch_lem wanted v h reached room d =
      let nothing : Two ℕ = record { of_left = 0; of_right = 0 } in
      let tpb = count_all v.functions nothing in
      let small : v.total_tasks < u32 = omega (arith, h.small, room) in
      let (ls, rs) =
        count_all_lem v.functions nothing (omega (arith, h.total, small))
          (omega (arith, h.total, small)) in
      let own =
        of_side-given v.worst_child v.functions tpb (omega (arith, ls)) (omega (arith, rs)) in
      let (sum, l, r) =
        take_back v.worst_child wanted v.diff_with_request v.total_tasks tpb
          (omega (arith, ls, rs, h.total)) small reached d (omega (arith, own, h.last reached)) in
      (sum, omega (arith, l, ls), omega (arith, r, rs))
