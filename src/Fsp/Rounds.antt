-- ===== src/Fsp/Rounds.antt =====
-- The loops of Fsp.Allocation.give_rounds end with all tasks given out.

use stars.Prelude.{
  ℕ, zero, suc, ◌+◌, ◌%◌, ◌≤◌, ◌<◌, ◌≡◌, refl, ◌⊎◌, inl, inr, ◌∙◌, ap, some, List, [], ◌∷◌,
  get_elem?, set, ltb, u32, arith, Perm, Bool-cases, Option-cases, ltb→lt,
}
use stars.Float.{Float}
use stars.Dispatcher.Interface.{Side, left, right}
use stars.Fsp.Allocation.{
  FunctionInfo, Two, FunctionVector, slowness_heap, give_one, give_round, give_rounds,
}
use stars.Fsp.Counts.{
  capacity, capacity-more, given, given-more, more, share_of_all, share_of_same, sides_of,
  sides_of-more, sum_at, sum_at-Perm, sum_at-ext, value_at, value_at-le-capacity, value_at-more,
  value_at-none, value_at-some,
}

module _ {F : Type 0} where
  -- The functions stay those of the same children, the total is of the tasks given, and the last round gave no more than the last function took.
  pub record IsCounted (sides : List Side) (wanted : ℕ) (v : FunctionVector F) : Type 0 where
    pub same_sides : sides_of v.functions ≡ sides
    pub total : v.total_tasks ≡ given left v.functions + given right v.functions
    pub small : v.total_tasks < wanted + capacity v.functions
    pub last : wanted ≤ v.total_tasks → v.total_tasks < wanted + given v.worst_child v.functions

module _ {F : Type 0} (fl : Float F) where
  give_one-IsCounted :
      {sides : List Side} (wanted : ℕ) (e : F × ℕ) (v : FunctionVector F)
      → wanted + capacity v.functions ≤ u32
      → v.total_tasks < wanted
      → IsCounted sides wanted v
      → let r = give_one fl e v in
        IsCounted sides wanted r
        × (r.total_tasks ≡ v.total_tasks + value_at v.functions e.1)
        × (capacity r.functions ≡ capacity v.functions)
        × ((j : ℕ) → value_at r.functions j ≡ value_at v.functions j)
  unfolding give_one
  give_one-IsCounted wanted (s, i) v room few h = elim (Option-cases (get_elem? v.functions i)) [
    | inl e ↦
        let outside = value_at-none v.functions i e in
        rw e (h, omega (arith, outside), refl, λ j. refl)
    | inr (f, e) ↦
        let n = value_at-some v.functions i f e in
        let fits = value_at-le-capacity v.functions i in
        let total : (v.total_tasks + f.cluster.value) % u32 ≡ v.total_tasks + f.cluster.value =
          omega (arith, room, few, n, fits) in
        let fs = set v.functions i (more s f) in
        let caps = capacity-more v.functions i s f e in
        let ls = given-more left v.functions i s f e in
        let rs = given-more right v.functions i s f e in
        let both = share_of_all f.child f.cluster.value in
        let own =
          given-more f.child v.functions i s f e
          ∙ ap (λ x. given f.child v.functions + x) (share_of_same f.child f.cluster.value) in
        rw e (
          record {
            same_sides = sides_of-more v.functions i s f e ∙ h.same_sides;
            total = omega (arith, total, ls, rs, both, h.total);
            small = omega (arith, total, few, n, fits, caps);
            last = λ k. omega (arith, total, few, own);
          },
          omega (arith, total, n),
          caps,
          value_at-more v.functions i s f e,
        )
  ]

  give_round-IsCounted :
      {sides : List Side} (wanted : ℕ) (heap : List (F × ℕ)) (v : FunctionVector F)
      → wanted + capacity v.functions ≤ u32
      → IsCounted sides wanted v
      → let r = give_round fl wanted heap v in
        IsCounted sides wanted r
        × (capacity r.functions ≡ capacity v.functions)
        × ((wanted ≤ r.total_tasks)
            ⊎ (r.total_tasks ≡ v.total_tasks + sum_at (value_at v.functions) heap))
  unfolding give_round
  give_round-IsCounted wanted [] v room h = (h, refl, inr (omega arith))
  give_round-IsCounted wanted (e ∷ heap) v room h = elim (Bool-cases (ltb v.total_tasks wanted)) [
    | inr enough ↦ rw enough (h, refl, inl (ground (arith, enough)))
    | inl few ↦
        let (counted, total, caps, values) =
          give_one-IsCounted wanted e v room (ltb→lt v.total_tasks wanted few) h in
        let next = give_one fl e v in
        let ih = give_round-IsCounted wanted heap next (omega (arith, room, caps)) counted in
        let same = sum_at-ext (value_at next.functions) (value_at v.functions) heap values in
        rw few (
          ih.0,
          ih.1 ∙ caps,
          elim ih.2 [ inl k ↦ inl k | inr k ↦ inr (omega (arith, k, total, same)) ],
        )
  ]

  slowness_heap-sum :
      (a tpn : ℕ) (least : Two F) (g : ℕ → ℕ) (i : ℕ) (fs : List (FunctionInfo F))
      → ((k : ℕ) → g (i + k) ≡ value_at fs k)
      → sum_at g (slowness_heap fl a tpn least i fs) ≡ capacity fs
  unfolding slowness_heap
  slowness_heap-sum a tpn least g i [] agrees = refl
  slowness_heap-sum a tpn least g i (f ∷ fs) agrees =
      let here : g i ≡ f.cluster.value = ap g (omega arith) ∙ agrees 0 in
      let rest =
        slowness_heap-sum a tpn least g (i + 1) fs (λ k. ap g (omega arith) ∙ agrees (suc k)) in
      omega (arith, here, rest)

  module _ (pop_order : List (F × ℕ) → List (F × ℕ))
      (pop_order-perm : (heap : List (F × ℕ)) → Perm (pop_order heap) heap) where
    pub give_rounds-IsCounted :
        {sides : List Side} (a wanted fuel tpn : ℕ) (v : FunctionVector F)
        → wanted + capacity v.functions ≤ u32
        → 0 < capacity v.functions
        → IsCounted sides wanted v
        → wanted < v.total_tasks + fuel
        → 0 < fuel
        → (r : FunctionVector F) × (give_rounds fl pop_order a wanted fuel tpn v ≡ some r)
          × IsCounted sides wanted r
          × (wanted ≤ r.total_tasks)
          × (capacity r.functions ≡ capacity v.functions)
    unfolding give_rounds
    give_rounds-IsCounted a wanted zero tpn v room some_node h enough fueled =
        absurd (omega (arith, fueled))
    give_rounds-IsCounted a wanted (suc fuel) tpn v room some_node h enough fueled =
        elim (Bool-cases (ltb v.total_tasks wanted)) [
          | inr done ↦ rw done (v, refl, h, ground (arith, done), refl)
          | inl few ↦
              let heap = slowness_heap fl a tpn v.branch_slowness 0 v.functions in
              let next = give_round fl wanted (pop_order heap) v in
              let (counted, caps, ends) = give_round-IsCounted wanted (pop_order heap) v room h in
              let all =
                sum_at-Perm (value_at v.functions) (pop_order-perm heap)
                ∙ slowness_heap-sum a tpn v.branch_slowness (value_at v.functions) 0 v.functions
                    (λ k. ap (value_at v.functions) (omega arith)) in
              let before = ltb→lt v.total_tasks wanted few in
              let left_over : 0 < fuel = omega (arith, before, enough) in
              let nearer : wanted < next.total_tasks + fuel = elim ends [
                | inl k ↦ omega (arith, k, left_over)
                | inr k ↦ omega (arith, k, all, some_node, enough)
              ] in
              let (r, eq, counted', reached, caps') =
                give_rounds-IsCounted a wanted fuel (tpn + 1) next (omega (arith, room, caps))
                  (omega (arith, some_node, caps)) counted nearer left_over in
              rw few (r, eq, counted', reached, caps' ∙ caps)
        ]
