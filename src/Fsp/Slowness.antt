-- ===== src/Fsp/Slowness.antt =====
-- The order that the policy FSP gives the tasks of a node, Fsp.sort_min_slowness and Fsp.reschedule.
use mathlib.Core.List.Perm
use mathlib.Core.List.{filter_map-map}
use stars.Prelude.{
  ℕ, zero, suc, ◌+◌, ◌-◌, ◌/◌, ◌≤◌, ◌<◌, ◌≡◌, refl, ◌⊎◌, inl, inr, ◌∙◌, ap, subst, Bool, true,
  false, not, Option, none, some, List, [], ◌∷◌, length, map, Perm, All, ltb, ◌==◌, if◌then◌else◌,
  if-both, Bool-cases, arith,
}
use stars.Prelude.Sorting.{sort_by-perm, sort_by-All, sort_by-IsSortedBy, IsSortedBy}
use stars.Float.{Float}
use stars.Scheduler.Interface.{Task}
use stars.Fsp.{
  TaskProxy, FspTaskList, get_deadline, set_slowness, is_before, movable, by_slowness,
  sort_by_slowness, meet_deadlines, boundary, middle, bisect, sort_beyond, sort_last, sort_at,
  sort_min_slowness, compute_boundaries, adjust_first, origins, put_sorted, queue_of, reschedule,
}

half_smaller :
    (met : Bool) (low high fuel : ℕ)
    → ltb (low + 1) high ≡ true
    → high < low + suc fuel
    → let low' = if met then low else (low + high) / 2 in
      let high' = if met then (low + high) / 2 else high in (low' ≤ high') × (high' < low' + fuel)
half_smaller true low high fuel more enough =
    let wide : low + 1 < high = ground arith in (omega (arith, wide), omega (arith, wide, enough))
half_smaller false low high fuel more enough =
    let wide : low + 1 < high = ground arith in (omega (arith, wide), omega (arith, wide, enough))

module _ {F : Type 0} where
  -- A proxy without the deadline of a slowness.
  abbrev pub undated : TaskProxy F → TaskProxy F
  undated p = record p { d = 0 }

  -- The task that stays first, unless the tasks can be preempted.
  abbrev pub fixed : Bool → List (TaskProxy F) → Option (TaskProxy F)
  fixed true ps = none
  fixed false [] = none
  fixed false (p ∷ ps) = some p

  -- The same tasks, the first one in its place if it has to be.
  abbrev pub Keeps : Bool → List (TaskProxy F) → List (TaskProxy F) → Type 0
  Keeps preemptive ps qs =
      Perm (map undated qs) (map undated ps) × (fixed preemptive qs ≡ fixed preemptive ps)

  Keeps-trans :
      (preemptive : Bool) (ps qs rs : List (TaskProxy F))
      → Keeps preemptive ps qs
      → Keeps preemptive qs rs
      → Keeps preemptive ps rs
  Keeps-trans preemptive ps qs rs h k = (Perm.trans k.0 h.0, k.1 ∙ h.1)

module _ {F : Type 0} (fl : Float F) where
  -- The tasks that may move have the deadlines of a slowness and stand in their order; a single task stays as it is.
  abbrev pub IsSlow : Bool → F → List (TaskProxy F) → Type 0
  IsSlow preemptive s ps =
      (length ps ≤ 1)
      ⊎ (All (λ p. p.d ≡ get_deadline fl s p) (movable fl preemptive ps)
          × IsSortedBy (is_before fl) (movable fl preemptive ps))

  -- A list that has been sorted at some slowness, with the tasks of another.
  abbrev pub IsReordered : Bool → List (TaskProxy F) → List (TaskProxy F) → Type 0
  IsReordered preemptive ps qs = Keeps preemptive ps qs × ((s : F) × IsSlow preemptive s qs)

module _ {F : Type 0} (fl : Float F) (lt_asym : (x y : F) → fl.lt x y ≡ true → fl.lt y x ≡ false)
    (lt_joins : (x y z : F) → fl.lt y x ≡ false → fl.lt z y ≡ false → fl.lt z x ≡ false) where
  is_before_asym : (p q : TaskProxy F) → is_before fl p q ≡ true → is_before fl q p ≡ false
  is_before_asym p q h = ground (arith, lt_asym p.a q.a)

  is_before_joins :
      (p q r : TaskProxy F)
      → is_before fl q p ≡ false
      → is_before fl r q ≡ false
      → is_before fl r p ≡ false
  is_before_joins p q r h k = ground (arith, lt_joins p.a q.a r.a)

  undated-set_slowness :
      (s : F) (ps : List (TaskProxy F)) → map undated (map (set_slowness fl s) ps) ≡ map undated ps
  undated-set_slowness s [] = refl
  undated-set_slowness s (p ∷ ps) = ap (λ qs. undated p ∷ qs) (undated-set_slowness s ps)

  dated :
      (s : F) (ps : List (TaskProxy F))
      → All (λ p. p.d ≡ get_deadline fl s p) (map (set_slowness fl s) ps)
  dated s [] = tt
  dated s (p ∷ ps) = (refl, dated s ps)

  by_slowness-perm :
      (s : F) (ps : List (TaskProxy F)) → Perm (map undated (by_slowness fl s ps)) (map undated ps)
  by_slowness-perm s ps =
      subst (λ qs. Perm (map undated (by_slowness fl s ps)) qs) (undated-set_slowness s ps)
        (Perm.map undated (sort_by-perm (is_before fl) (map (set_slowness fl s) ps)))

  by_slowness-IsSlow :
      (s : F) (ps : List (TaskProxy F))
      → All (λ p. p.d ≡ get_deadline fl s p) (by_slowness fl s ps)
        × IsSortedBy (is_before fl) (by_slowness fl s ps)
  by_slowness-IsSlow s ps = (
    sort_by-All (is_before fl) (λ p. p.d ≡ get_deadline fl s p) (map (set_slowness fl s) ps)
        (dated s ps),
    sort_by-IsSortedBy (is_before fl) is_before_asym is_before_joins (map (set_slowness fl s) ps),
  )

  sort_by_slowness_lem :
      (preemptive : Bool) (s : F) (ps : List (TaskProxy F))
      → let qs = sort_by_slowness fl preemptive s ps in
        Keeps preemptive ps qs × IsSlow fl preemptive s qs
  unfolding sort_by_slowness
  sort_by_slowness_lem preemptive s [] = ((Perm.refl [], refl), inl (omega arith))
  sort_by_slowness_lem preemptive s (p ∷ []) =
      ((Perm.refl (undated p ∷ []), refl), inl (omega arith))
  sort_by_slowness_lem true s (p ∷ q ∷ ps) =
      ((by_slowness-perm s (p ∷ q ∷ ps), refl), inr (by_slowness-IsSlow s (p ∷ q ∷ ps)))
  sort_by_slowness_lem false s (p ∷ q ∷ ps) = (
    (Perm.cons (undated p) (by_slowness-perm s (q ∷ ps)), refl),
    inr (by_slowness-IsSlow s (q ∷ ps)),
  )

  bisect-Keeps :
      (preemptive : Bool) (now : ℕ) (bs : List F) (fuel low high : ℕ) (ps : List (TaskProxy F))
      → low ≤ high
      → high < low + fuel
      → (qs : List (TaskProxy F)) × (low' : ℕ) × (high' : ℕ) × (bisect fl preemptive now bs fuel low
            high ps
          ≡ some (qs, low', high'))
        × Keeps preemptive ps qs
  unfolding bisect
  bisect-Keeps preemptive now bs zero low high ps ordered enough =
      absurd (omega (arith, ordered, enough))
  bisect-Keeps preemptive now bs (suc fuel) low high ps ordered enough =
      elim (Bool-cases (ltb (low + 1) high)) [
        | inr done ↦ (ps, low, high, rw done refl, (Perm.refl (map undated ps), refl))
        | inl more ↦
            let mid = (low + high) / 2 in
            let sorted = sort_by_slowness fl preemptive (middle fl bs mid) ps in
            let met = meet_deadlines fl (boundary fl bs mid) now sorted in
            let h = sort_by_slowness_lem preemptive (middle fl bs mid) ps in
            let smaller = half_smaller met low high fuel more enough in
            let (qs, low', high', ends, k) =
              bisect-Keeps preemptive now bs fuel (if met then low else mid)
                (if met then mid else high) sorted smaller.0 smaller.1 in
            (qs, low', high', rw more ends, Keeps-trans preemptive ps sorted qs h.0 k)
      ]

  sorted-IsReordered :
      (preemptive : Bool) (s : F) (ps qs : List (TaskProxy F))
      → Keeps preemptive ps qs
      → IsReordered fl preemptive ps (sort_by_slowness fl preemptive s qs)
  sorted-IsReordered preemptive s ps qs h =
      let k = sort_by_slowness_lem preemptive s qs in
      (Keeps-trans preemptive ps qs (sort_by_slowness fl preemptive s qs) h k.0, (s, k.1))

  sort_beyond-IsReordered :
      (preemptive : Bool) (now : ℕ) (last : F) (ps qs : List (TaskProxy F))
      → IsReordered fl preemptive ps qs
      → IsReordered fl preemptive ps (sort_beyond fl preemptive now last qs)
  sort_beyond-IsReordered preemptive now last ps qs h =
      if-both (IsReordered fl preemptive ps) (not (meet_deadlines fl last now qs))
        (sorted-IsReordered preemptive (fl.add last (fl.of_nat 1)) ps qs h.0) h

  refl-Keeps : (preemptive : Bool) (ps : List (TaskProxy F)) → Keeps preemptive ps ps
  refl-Keeps preemptive ps = (Perm.refl (map undated ps), refl)

  sort_at-IsReordered :
      (preemptive : Bool) (now : ℕ) (bs : List F) (ps : List (TaskProxy F))
      → (qs : List (TaskProxy F)) × (sort_at fl preemptive now bs ps ≡ some qs)
        × IsReordered fl preemptive ps qs
  sort_at-IsReordered preemptive now [] ps =
      (_, refl, sorted-IsReordered preemptive (fl.of_nat 1) ps ps (refl-Keeps preemptive ps))
  sort_at-IsReordered preemptive now (b ∷ []) ps = (
    _,
    refl,
    sort_beyond-IsReordered preemptive now b ps _
        (sorted-IsReordered preemptive (fl.div b (fl.of_nat 2)) ps ps (refl-Keeps preemptive ps)),
  )
  sort_at-IsReordered preemptive now (b ∷ c ∷ bs) ps =
      let all = b ∷ c ∷ bs in
      let (qs, low, high, ends, k) =
        bisect-Keeps preemptive now all (length bs + 2) 0 (length bs + 1) ps (omega arith)
          (omega arith) in
      let sorted = sorted-IsReordered preemptive (middle fl all low) ps qs k in
      (
        _,
        ap (sort_last fl preemptive now all) ends,
        if-both (IsReordered fl preemptive ps) (high == length all - 1)
            (sort_beyond-IsReordered preemptive now (boundary fl all high) ps _ sorted) sorted,
      )

  sort_min_slowness-IsReordered :
      (preemptive : Bool) (now : ℕ) (bs : List F) (ps : List (TaskProxy F))
      → (qs : List (TaskProxy F)) × (sort_min_slowness fl preemptive now bs ps ≡ some qs)
        × IsReordered fl preemptive ps qs
  unfolding sort_min_slowness
  sort_min_slowness-IsReordered preemptive now bs [] =
      ([], refl, (refl-Keeps preemptive [], (fl.of_nat 1, inl (omega arith))))
  sort_min_slowness-IsReordered preemptive now bs (p ∷ ps) =
      sort_at-IsReordered preemptive now bs (p ∷ ps)

  compute_boundaries-proxies :
      (preemptive : Bool) (now : ℕ) (l : FspTaskList F)
      → (compute_boundaries fl preemptive now l).proxies ≡ l.proxies
  unfolding compute_boundaries
  compute_boundaries-proxies preemptive now l =
      if-both (λ (x : FspTaskList F). x.proxies ≡ l.proxies) l.dirty refl refl

  undated-origins : (ps : List (TaskProxy F)) → origins fl (map undated ps) ≡ origins fl ps
  undated-origins ps = filter_map-map undated (λ p. p.origin) ps

  origins-perm :
      (ps qs : List (TaskProxy F))
      → Perm (map undated qs) (map undated ps)
      → Perm (origins fl qs) (origins fl ps)
  origins-perm ps qs h =
      subst (λ xs. Perm (origins fl qs) xs) (undated-origins ps)
        (subst (λ xs. Perm xs (origins fl (map undated ps))) (undated-origins qs)
          (Perm.filter_map (λ p. p.origin) h))

  -- A rescheduling under the policy FSP ends, its binary search included, whatever the boundaries are. The queue that it makes is
  -- the tasks of the proxies in their order, so no task of a proxy is lost. The proxies are those of before in another
  -- order: the first one stays first unless tasks can be preempted, and those that may move have the deadlines of one
  -- common slowness, and stand in the order of these deadlines; a proxy that is alone keeps what it had. The order `<` on
  -- the machine's numbers is total on those that are compared, which holds of all but NaN.
  pub reschedule-IsReordered :
      (preemptive : Bool) (estimate : Task → ℕ) (now : ℕ) (l : FspTaskList F)
      → let adjusted = adjust_first fl estimate l.proxies in
        (after : FspTaskList F) × (queue : List Task) × (reschedule fl preemptive estimate now l
          ≡ some (after, queue))
        × IsReordered fl preemptive adjusted after.proxies
        × (queue ≡ origins fl after.proxies)
        × Perm queue (origins fl adjusted)
  unfolding reschedule
  reschedule-IsReordered preemptive estimate now l =
      let adjusted = adjust_first fl estimate l.proxies in
      let with_time : FspTaskList F = record l { proxies = adjusted } in
      let computed = compute_boundaries fl preemptive now with_time in
      let same = compute_boundaries-proxies preemptive now with_time in
      let (qs, ends, h) =
        sort_min_slowness-IsReordered preemptive now computed.boundaries computed.proxies in
      let reordered = subst (λ ps. IsReordered fl preemptive ps qs) same h in
      (
        record computed { proxies = qs },
        origins fl qs,
        ap (λ o. queue_of fl (put_sorted fl computed o)) ends,
        reordered,
        refl,
        origins-perm adjusted qs reordered.0.0,
      )
