-- ===== src/Ibp/Division.antt =====
-- What the division of a request among the clusters of the children does, Ibp.Routing.divide.
use stars.Prelude.{
  ℕ, zero, suc, ◌+◌, ◌-◌, ◌≤◌, ◌<◌, ◌≡◌, refl, subst, ◌⊎◌, inl, inr, sym, ◌∙◌, ap, false, Option,
  none, some, List, [], ◌∷◌, get_elem?, set, All, if-both, ◌==◌, u32, arith, Bool-cases,
  Option-cases,
}
use stars.Dispatcher.Interface.{Side, left, right}
use stars.Ibp.{MdCluster, take_up_to_nodes}
use stars.Ibp.Routing.{DecisionInfo, Division, summary_of, give, use_group, divide}

-- The nodes of a summary.
abbrev pub total : List MdCluster → ℕ
total [] = 0
total (c ∷ cs) = c.value + total cs

total-set :
    (cs : List MdCluster) (i : ℕ) (c c' : MdCluster)
    → get_elem? cs i ≡ some c
    → total (set cs i c') + c.value ≡ total cs + c'.value
total-set [] i c c' h = ground arith
total-set (x ∷ xs) zero c c' h =
    let e : x.value ≡ c.value = ap (λ o. elim o [ none ↦ 0 | some m ↦ m.value ]) h in omega arith
total-set (x ∷ xs) (suc i) c c' h = omega (arith, total-set xs i c c' h)

-- Every task of the request is with the left child, with the right one, or left over, and each child has lost just
-- the nodes that it has to use.
abbrev pub IsDivided : Division → Division → Type 0
IsDivided s r =
    (r.n_left + r.n_right + r.remaining_tasks ≡ s.n_left + s.n_right + s.remaining_tasks)
    × (total r.left_summary + r.n_left ≡ total s.left_summary + s.n_left)
    × (total r.right_summary + r.n_right ≡ total s.right_summary + s.n_right)

take_up_to_nodes-value :
    (n : ℕ) (c : MdCluster)
    → let t = take_up_to_nodes n c in (t.1 ≤ n) × (t.0.value + (n - t.1) ≡ c.value)
take_up_to_nodes-value n c = ground arith

give-IsDivided :
    (b : Side) (i : ℕ) (c : MdCluster) (s : Division)
    → get_elem? (summary_of b s) i ≡ some c
    → s.n_left + s.n_right + s.remaining_tasks < u32
    → let (after, missing) = take_up_to_nodes s.remaining_tasks c in
      IsDivided s (give b (set (summary_of b s) i after) (s.remaining_tasks - missing) s)
give-IsDivided left i c s e small =
    let t = take_up_to_nodes s.remaining_tasks c in
    let v = take_up_to_nodes-value s.remaining_tasks c in
    let w = total-set s.left_summary i c t.0 e in ground (arith, v, w)
give-IsDivided right i c s e small =
    let t = take_up_to_nodes s.remaining_tasks c in
    let v = take_up_to_nodes-value s.remaining_tasks c in
    let w = total-set s.right_summary i c t.0 e in ground (arith, v, w)

use_group-IsDivided :
    (g : DecisionInfo) (s : Division)
    → s.n_left + s.n_right + s.remaining_tasks < u32
    → IsDivided s (use_group g s)
unfolding use_group
use_group-IsDivided g s small = elim (Option-cases (get_elem? (summary_of g.branch s) g.index)) [
  | inl e ↦ rw e (refl, refl, refl)
  | inr (c, e) ↦ rw e (give-IsDivided g.branch g.index c s e small)
]

IsDivided-trans : (s t r : Division) → IsDivided s t → IsDivided t r → IsDivided s r
IsDivided-trans s t r h k = ground (arith, h, k)

divide-IsDivided :
    (gs : List DecisionInfo) (s : Division)
    → s.n_left + s.n_right + s.remaining_tasks < u32
    → IsDivided s (divide gs s)
unfolding divide
divide-IsDivided [] s small = (refl, refl, refl)
divide-IsDivided (g ∷ gs) s small =
    let one = use_group-IsDivided g s small in
    let rest = divide-IsDivided gs (use_group g s) (omega arith) in
    if-both (IsDivided s) (s.remaining_tasks == 0) (refl, refl, refl)
      (IsDivided-trans s (use_group g s) (divide gs (use_group g s)) one rest)

-- The nodes left in the cluster that a group refers to.
abbrev pub value_of : Option MdCluster → ℕ
value_of none = 0
value_of (some c) = c.value

abbrev pub nodes_left : DecisionInfo → Division → ℕ
nodes_left g s = value_of (get_elem? (summary_of g.branch s) g.index)

value_of-set :
    (cs : List MdCluster) (i j : ℕ) (c c' : MdCluster)
    → get_elem? cs i ≡ some c
    → c'.value ≤ c.value
    → value_of (get_elem? (set cs i c') j) ≤ value_of (get_elem? cs j)
value_of-set [] i j c c' e le = omega arith
value_of-set (x ∷ xs) zero zero c c' e le = let v : x.value ≡ c.value = ap value_of e in omega arith
value_of-set (x ∷ xs) zero (suc j) c c' e le = omega arith
value_of-set (x ∷ xs) (suc i) zero c c' e le = omega arith
value_of-set (x ∷ xs) (suc i) (suc j) c c' e le = value_of-set xs i j c c' e le

get_elem?-set :
    (cs : List MdCluster) (i : ℕ) (c c' : MdCluster)
    → get_elem? cs i ≡ some c
    → get_elem? (set cs i c') i ≡ some c'
get_elem?-set [] i c c' e = ground arith
get_elem?-set (x ∷ xs) zero c c' e = refl
get_elem?-set (x ∷ xs) (suc i) c c' e = get_elem?-set xs i c c' e

-- Taking tasks never adds nodes to a cluster.
give-nodes_left :
    (b h : Side) (i j : ℕ) (c : MdCluster) (s : Division)
    → get_elem? (summary_of b s) i ≡ some c
    → let (after, missing) = take_up_to_nodes s.remaining_tasks c in
      let r = give b (set (summary_of b s) i after) (s.remaining_tasks - missing) s in
      value_of (get_elem? (summary_of h r) j) ≤ value_of (get_elem? (summary_of h s) j)
give-nodes_left left left i j c s e =
    let t = take_up_to_nodes s.remaining_tasks c in
    let v = take_up_to_nodes-value s.remaining_tasks c in
    value_of-set s.left_summary i j c t.0 e (omega (arith, v))
give-nodes_left left right i j c s e = omega arith
give-nodes_left right left i j c s e = omega arith
give-nodes_left right right i j c s e =
    let t = take_up_to_nodes s.remaining_tasks c in
    let v = take_up_to_nodes-value s.remaining_tasks c in
    value_of-set s.right_summary i j c t.0 e (omega (arith, v))

use_group-nodes_left :
    (g h : DecisionInfo) (s : Division) → nodes_left h (use_group g s) ≤ nodes_left h s
unfolding use_group
use_group-nodes_left g h s = elim (Option-cases (get_elem? (summary_of g.branch s) g.index)) [
  | inl e ↦ rw e (omega arith)
  | inr (c, e) ↦ rw e (give-nodes_left g.branch h.branch g.index h.index c s e)
]

divide-nodes_left :
    (gs : List DecisionInfo) (h : DecisionInfo) (s : Division)
    → nodes_left h (divide gs s) ≤ nodes_left h s
unfolding divide
divide-nodes_left [] h s = omega arith
divide-nodes_left (g ∷ gs) h s =
    let one = use_group-nodes_left g h s in
    let rest = divide-nodes_left gs h (use_group g s) in
    if-both (λ (r : Division). nodes_left h r ≤ nodes_left h s) (s.remaining_tasks == 0)
      (omega arith) (omega arith)

-- A group that cannot take all the tasks has no node left.
give-empties :
    (b : Side) (i : ℕ) (c : MdCluster) (s : Division)
    → get_elem? (summary_of b s) i ≡ some c
    → let (after, missing) = take_up_to_nodes s.remaining_tasks c in
      let r = give b (set (summary_of b s) i after) (s.remaining_tasks - missing) s in
      (r.remaining_tasks ≡ 0) ⊎ (value_of (get_elem? (summary_of b r) i) ≡ 0)
give-empties left i c s e =
    let t = take_up_to_nodes s.remaining_tasks c in
    let v = ap value_of (get_elem?-set s.left_summary i c t.0 e) in ground (arith, v)
give-empties right i c s e =
    let t = take_up_to_nodes s.remaining_tasks c in
    let v = ap value_of (get_elem?-set s.right_summary i c t.0 e) in ground (arith, v)

use_group-empties :
    (g : DecisionInfo) (s : Division)
    → ((use_group g s).remaining_tasks ≡ 0) ⊎ (nodes_left g (use_group g s) ≡ 0)
unfolding use_group
use_group-empties g s = elim (Option-cases (get_elem? (summary_of g.branch s) g.index)) [
  | inl e ↦ inr (rw (e, e) refl)
  | inr (c, e) ↦ rw e (give-empties g.branch g.index c s e)
]

divide-done : (gs : List DecisionInfo) (s : Division) → s.remaining_tasks ≡ 0 → divide gs s ≡ s
unfolding divide
divide-done [] s h = refl
divide-done (g ∷ gs) s h = rw h refl

divide-more :
    (g : DecisionInfo) (gs : List DecisionInfo) (s : Division)
    → (s.remaining_tasks == 0) ≡ false
    → divide (g ∷ gs) s ≡ divide gs (use_group g s)
unfolding divide
divide-more g gs s h = rw h refl

abbrev pub AllEmpty : List DecisionInfo → Division → Type 0
AllEmpty gs s = All (λ g. nodes_left g s ≡ 0) gs

divide-exhausts :
    (gs : List DecisionInfo) (s : Division)
    → ((divide gs s).remaining_tasks ≡ 0) ⊎ AllEmpty gs (divide gs s)
divide-exhausts [] s = inr tt
divide-exhausts (g ∷ gs) s =
    let after = use_group g s in
    let Result : Division → Type 0 = λ r. (r.remaining_tasks ≡ 0) ⊎ AllEmpty (g ∷ gs) r in
    let rest : Result (divide gs after) = elim (divide-exhausts gs after) [
      | inl none_left ↦ inl none_left
      | inr empty ↦ elim (use_group-empties g s) [
        | inl none_left ↦
            inl (
              ap (λ (r : Division). r.remaining_tasks) (divide-done gs after none_left) ∙ none_left)
        | inr v ↦
            let le = divide-nodes_left gs g after in
            let v' : nodes_left g (divide gs after) ≡ 0 = omega (arith, le, v) in inr (v', empty)
      ]
    ] in
    elim (Bool-cases (s.remaining_tasks == 0)) [
      | inl z ↦
          let done : s.remaining_tasks ≡ 0 = ground (arith, z) in
          inl (ap (λ (r : Division). r.remaining_tasks) (divide-done (g ∷ gs) s done) ∙ done)
      | inr more ↦ subst Result (sym (divide-more g gs s more)) rest
    ]

-- The division of a request for the tasks of a bag: the tasks of the left child, those of the right one and those
-- that are left over are as many as the request has, each child loses as many nodes as it gets tasks, and where
-- tasks are left over, no cluster that the groups refer to has a node left.
pub divide_lem :
    (gs : List DecisionInfo) (s : Division)
    → s.n_left ≡ 0
    → s.n_right ≡ 0
    → s.remaining_tasks < u32
    → let r = divide gs s in
      (r.n_left + r.n_right + r.remaining_tasks ≡ s.remaining_tasks)
      × (total r.left_summary + r.n_left ≡ total s.left_summary)
      × (total r.right_summary + r.n_right ≡ total s.right_summary)
      × ((r.remaining_tasks ≡ 0) ⊎ AllEmpty gs r)
divide_lem gs s a b small =
    let h = divide-IsDivided gs s (omega arith) in
    (omega (arith, h), omega (arith, h), omega (arith, h), divide-exhausts gs s)
