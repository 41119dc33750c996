-- ===== src/Fsp/Counts.antt =====
-- What the functions of Fsp.Allocation have been given, and what one more task for one of them changes.
use mathlib.Core.List.Perm
use mathlib.Core.List.{foldr}
use mathlib.Core.Option.{some_inj}
use stars.Prelude.{
  ℕ, zero, suc, ◌+◌, ◌*◌, ◌≤◌, ◌≡◌, refl, sym, ◌∙◌, ap, map, All, none, some, List, [], ◌∷◌,
  get_elem?, set, arith, Perm,
}
use stars.Dispatcher.Interface.{Side, left, right}
use stars.Fsp.Allocation.{MdzCluster, FunctionInfo, functions_of}

-- A number on one side, as the other side or the same sees it.
abbrev pub share_of : Side → Side → ℕ → ℕ
share_of left left n = n
share_of left right n = 0
share_of right left n = 0
share_of right right n = n

abbrev pub IsOther : Side → Side → Type 0
IsOther c s = (n : ℕ) → share_of c s n ≡ 0

pub share_of_same : (c : Side) (n : ℕ) → share_of c c n ≡ n
share_of_same left n = refl
share_of_same right n = refl

pub share_of_all : (c : Side) (n : ℕ) → share_of left c n + share_of right c n ≡ n
share_of_all left n = omega arith
share_of_all right n = omega arith

pub none_of : (v : ℕ) → 0 * v ≡ 0
none_of v = omega arith

one_more : (t v : ℕ) → (t + 1) * v ≡ t * v + v
one_more t v = omega arith

share_of_more :
    (c s : Side) (t v rest : ℕ)
    → share_of c s ((t + 1) * v) + rest ≡ (share_of c s (t * v) + rest) + share_of c s v
share_of_more left left t v rest = omega (arith, one_more t v)
share_of_more left right t v rest = omega arith
share_of_more right left t v rest = omega arith
share_of_more right right t v rest = omega (arith, one_more t v)

module _ {F : Type 0} where
  -- The tasks that the functions of a child have got.
  abbrev pub given : Side → List (FunctionInfo F) → ℕ
  given c [] = 0
  given c (f ∷ fs) = share_of c f.child (f.tasks * f.cluster.value) + given c fs

  -- The nodes of all functions.
  abbrev pub capacity : List (FunctionInfo F) → ℕ
  capacity [] = 0
  capacity (f ∷ fs) = f.cluster.value + capacity fs

  abbrev pub value_at : List (FunctionInfo F) → ℕ → ℕ
  value_at [] i = 0
  value_at (f ∷ fs) zero = f.cluster.value
  value_at (f ∷ fs) (suc i) = value_at fs i

  -- The nodes at the positions of a heap.
  abbrev pub sum_at : (ℕ → ℕ) → List (F × ℕ) → ℕ
  sum_at g heap = foldr (λ (e : F × ℕ) (x : ℕ). g e.1 + x) 0 heap

  pub value_at-le-capacity : (fs : List (FunctionInfo F)) (i : ℕ) → value_at fs i ≤ capacity fs
  value_at-le-capacity [] i = omega arith
  value_at-le-capacity (f ∷ fs) zero = omega arith
  value_at-le-capacity (f ∷ fs) (suc i) = omega (arith, value_at-le-capacity fs i)

  pub sum_at-Perm : (g : ℕ → ℕ) {xs ys : List (F × ℕ)} → Perm xs ys → sum_at g xs ≡ sum_at g ys
  sum_at-Perm g h =
      Perm.foldr-eq (hlevel) (λ (e : F × ℕ) (x : ℕ). g e.1 + x) (λ a b x. omega arith) h 0

  pub sum_at-ext :
      (g h : ℕ → ℕ) (heap : List (F × ℕ)) → ((i : ℕ) → g i ≡ h i) → sum_at g heap ≡ sum_at h heap
  sum_at-ext g h [] e = refl
  sum_at-ext g h ((s, i) ∷ heap) e = omega (arith, e i, sum_at-ext g h heap e)

  -- One more task for a function.
  abbrev pub more : F → FunctionInfo F → FunctionInfo F
  more s f = record f { tasks = f.tasks + 1; slowness = s }

  pub value_at-none :
      (fs : List (FunctionInfo F)) (i : ℕ) → get_elem? fs i ≡ none → value_at fs i ≡ 0
  value_at-none [] i h = refl
  value_at-none (f ∷ fs) zero h = cc
  value_at-none (f ∷ fs) (suc i) h = value_at-none fs i h

  pub value_at-some :
      (fs : List (FunctionInfo F)) (i : ℕ) (f : FunctionInfo F)
      → get_elem? fs i ≡ some f
      → value_at fs i ≡ f.cluster.value
  value_at-some [] i f h = cc
  value_at-some (g ∷ fs) zero f h = cc
  value_at-some (g ∷ fs) (suc i) f h = value_at-some fs i f h

  pub given-more :
      (c : Side) (fs : List (FunctionInfo F)) (i : ℕ) (s : F) (f : FunctionInfo F)
      → get_elem? fs i ≡ some f
      → given c (set fs i (more s f)) ≡ given c fs + share_of c f.child f.cluster.value
  given-more c [] i s f h = cc
  given-more c (g ∷ fs) zero s f h =
      let e : g ≡ f = some_inj.0 h in
      share_of_more c f.child f.tasks f.cluster.value (given c fs)
      ∙ ap (λ (x : FunctionInfo F). given c (x ∷ fs) + share_of c f.child f.cluster.value) (sym e)
  given-more c (g ∷ fs) (suc i) s f h = omega (arith, given-more c fs i s f h)

  pub value_at-more :
      (fs : List (FunctionInfo F)) (i : ℕ) (s : F) (f : FunctionInfo F)
      → get_elem? fs i ≡ some f
      → (j : ℕ) → value_at (set fs i (more s f)) j ≡ value_at fs j
  value_at-more [] i s f h j = refl
  value_at-more (g ∷ fs) zero s f h zero = cc
  value_at-more (g ∷ fs) zero s f h (suc j) = refl
  value_at-more (g ∷ fs) (suc i) s f h zero = refl
  value_at-more (g ∷ fs) (suc i) s f h (suc j) = value_at-more fs i s f h j

  pub capacity-more :
      (fs : List (FunctionInfo F)) (i : ℕ) (s : F) (f : FunctionInfo F)
      → get_elem? fs i ≡ some f
      → capacity (set fs i (more s f)) ≡ capacity fs
  capacity-more [] i s f h = refl
  capacity-more (g ∷ fs) zero s f h =
      let e : some g ≡ some f = h in
      ap (λ (x : FunctionInfo F). x.cluster.value + capacity fs) (sym (some_inj.0 e))
  capacity-more (g ∷ fs) (suc i) s f h = omega (arith, capacity-more fs i s f h)

  abbrev pub sides_of : List (FunctionInfo F) → List Side
  sides_of fs = map (λ f. f.child) fs

  pub sides_of-more :
      (fs : List (FunctionInfo F)) (i : ℕ) (s : F) (f : FunctionInfo F)
      → get_elem? fs i ≡ some f
      → sides_of (set fs i (more s f)) ≡ sides_of fs
  sides_of-more [] i s f h = refl
  sides_of-more (g ∷ fs) zero s f h =
      let e : some g ≡ some f = h in
      ap (λ (x : FunctionInfo F). x.child ∷ sides_of fs) (sym (some_inj.0 e))
  sides_of-more (g ∷ fs) (suc i) s f h = ap (λ cs. g.child ∷ cs) (sides_of-more fs i s f h)

  abbrev pub IsWithout : Side → List (FunctionInfo F) → Type 0
  IsWithout c fs = All (IsOther c) (sides_of fs)

  -- A child without functions has got nothing.
  pub given-sides_of : (c : Side) (fs : List (FunctionInfo F)) → IsWithout c fs → given c fs ≡ 0
  given-sides_of c [] h = refl
  given-sides_of c (f ∷ fs) h =
      omega (arith, h.0 (f.tasks * f.cluster.value), given-sides_of c fs h.1)

  pub functions_of-sides_of :
      (infinity : F) (c s : Side) (cs : List (MdzCluster F × ℕ))
      → IsOther c s
      → IsWithout c (functions_of infinity s cs)
  unfolding functions_of
  functions_of-sides_of infinity c s [] h = tt
  functions_of-sides_of infinity c s ((cluster, index) ∷ cs) h =
      (h, functions_of-sides_of infinity c s cs h)
