-- ===== src/Delta/Update.antt =====
-- Where the points of a function are after the assignment of a task, Delta.update.
use stars.Prelude.{
  ℕ, zero, suc, ◌+◌, ◌-◌, ◌≤◌, ◌<◌, ◌≡◌, refl, inl, inr, ◌∙◌, ap, Bool, true, false, Option, none,
  some, List, [], ◌∷◌, length, get_elem?, set, take, length-take, ltb, leb, if◌then◌else◌,
  Bool-cases, arith,
}
use stars.Float.{Float}
use stars.Delta.{
  point_at, last_elim, first_elim, final_avail, task_start, move_down, resize, make_room,
  lower_from, update_points,
}
use stars.Delta.Vector.{
  length-set, get_elem?-set_self, get_elem?-set_other, get_elem?-point_at, move_down-length,
  move_down-moved, move_up-length, move_up-moved, resize-length, resize-kept,
}

module _ {F : Type 0} (fl : Float F) where
  -- The vector has room for two points, and behind it the points from `last` on.
  make_room-length :
      (first last : ℕ) (ps : List (ℕ × F))
      → first ≤ last
      → last ≤ length ps
      → length (make_room fl first last ps) ≡ length ps - last + first + 2
  unfolding make_room
  make_room-length first last ps h k = elim (Bool-cases (ltb 2 (last - first))) [
    | inl many ↦ rw many (resize-length fl (length ps - last + first + 2) _)
    | inr e ↦ elim (Bool-cases (ltb (last - first) 2)) [
      | inl few ↦
          rw (e, few)
            (move_up-length fl (length ps - last) (first + 2) last
                (resize fl (length ps - last + first + 2) ps)
              ∙ resize-length fl (length ps - last + first + 2) ps)
      | inr two ↦ rw (e, two) (ground (arith, e, two, h, k))
    ]
  ]

  make_room-moved :
      (first last m : ℕ) (ps : List (ℕ × F))
      → first ≤ last
      → last ≤ length ps
      → m < length ps - last
      → get_elem? (make_room fl first last ps) (first + 2 + m) ≡ get_elem? ps (last + m)
  unfolding make_room
  make_room-moved first last m ps h k few = elim (Bool-cases (ltb 2 (last - first))) [
    | inl many ↦
        let more : first + 2 < last = ground (arith, many) in
        let moved = move_down fl (length ps - last) (first + 2) last ps in
        let same = move_down-length fl (length ps - last) (first + 2) last ps in
        rw many (
          resize-kept fl (length ps - last + first + 2) (first + 2 + m) moved (omega (arith, few))
            (omega (arith, same, few, more))
          ∙ move_down-moved fl (length ps - last) (first + 2) last m ps more (omega (arith, k)) few)
    | inr e ↦ elim (Bool-cases (ltb (last - first) 2)) [
      | inl less ↦
          let fewer : last < first + 2 = ground (arith, less, h) in
          let size = length ps - last + first + 2 in
          let same = resize-length fl size ps in
          rw (e, less)
            (move_up-moved fl (length ps - last) (first + 2) last m (resize fl size ps) fewer
                (omega (arith, same)) few
              ∙ resize-kept fl size (last + m) ps (omega (arith, few, fewer)) (omega (arith, few)))
      | inr two ↦
          let exact : first + 2 ≡ last = ground (arith, e, two, h) in
          rw (e, two) (ap (λ (i : ℕ). get_elem? ps (i + m)) exact)
    ]
  ]

  last_elim-le : (deadline : ℕ) (ps : List (ℕ × F)) → last_elim fl deadline ps ≤ length ps
  unfolding last_elim
  last_elim-le deadline [] = omega arith
  last_elim-le deadline (p ∷ ps) = ground (arith, last_elim-le deadline ps)

  first_elim-le : (avail : F) (ps : List (ℕ × F)) → first_elim fl avail ps ≤ length ps
  unfolding first_elim
  first_elim-le avail [] = omega arith
  first_elim-le avail (p ∷ ps) = ground (arith, first_elim-le avail ps)

  -- A point that loses the work of a task, if it is to.
  abbrev pub lower_if : ℕ → Bool → ℕ × F → ℕ × F
  lower_if len b p = if b then (p.0, fl.sub p.1 (fl.of_nat len)) else p

  abbrev map_point : (ℕ × F → ℕ × F) → Option (ℕ × F) → Option (ℕ × F)
  map_point f none = none
  map_point f (some p) = some (f p)

  lower_from-length : (len l : ℕ) (ps : List (ℕ × F)) → length (lower_from fl len l ps) ≡ length ps
  unfolding lower_from
  lower_from-length len l [] = refl
  lower_from-length len zero (p ∷ ps) = ap suc (lower_from-length len zero ps)
  lower_from-length len (suc l) (p ∷ ps) = ap suc (lower_from-length len l ps)

  lower_from-get :
      (len l i : ℕ) (ps : List (ℕ × F)) (p : ℕ × F)
      → get_elem? ps i ≡ some p
      → get_elem? (lower_from fl len l ps) i ≡ some (lower_if len (leb l i) p)
  unfolding lower_from
  lower_from-get len l i [] p h = cc
  lower_from-get len zero zero (q ∷ ps) p h = ap (map_point (lower_if len true)) h
  lower_from-get len zero (suc i) (q ∷ ps) p h =
      let same : leb 0 i ≡ leb 0 (suc i) = ground arith in
      lower_from-get len zero i ps p h ∙ ap (λ b. some (lower_if len b p)) same
  lower_from-get len (suc l) zero (q ∷ ps) p h =
      let below : false ≡ leb (suc l) 0 = ground arith in
      h ∙ ap (λ b. some (lower_if len b p)) below
  lower_from-get len (suc l) (suc i) (q ∷ ps) p h =
      let same : leb l i ≡ leb (suc l) (suc i) = ground arith in
      lower_from-get len l i ps p h ∙ ap (λ b. some (lower_if len b p)) same

  -- The index of the first point that an assignment replaces.
  abbrev pub first_of : ℕ → ℕ → List (ℕ × F) → ℕ
  first_of len deadline ps =
      first_elim fl (final_avail fl len deadline ps) (take (last_elim fl deadline ps) ps)

  -- The points after the assignment of a task to a function that has points. Two new ones, for the start of the task and for its
  -- deadline, replace those from `first` up to `last`, the ones behind stay in their order, and there is none besides. The
  -- work of the task is taken from the points that then have an index of at least `last`. So it is taken from exactly the points
  -- behind the deadline only when two points are replaced; when there were more, the points behind the deadline with an index
  -- below `last` keep their work, and when there were fewer, it is taken from a new point too.
  pub update_points_lem :
      (len deadline m : ℕ) (ps : List (ℕ × F))
      → m < length ps - last_elim fl deadline ps
      → let last = last_elim fl deadline ps in
        let first = first_of len deadline ps in
        let avail = final_avail fl len deadline ps in
        let after = update_points fl len deadline ps in
        (length after ≡ length ps - last + first + 2)
        × (get_elem? after first
            ≡ some (lower_if len (leb last first) (task_start fl avail first ps, avail)))
        × (get_elem? after (suc first)
            ≡ some (lower_if len (leb last (suc first)) (deadline, avail)))
        × (get_elem? after (first + 2 + m)
            ≡ some (lower_if len (leb last (first + 2 + m)) (point_at fl ps (last + m))))
  unfolding update_points
  update_points_lem len deadline m ps few =
      let last = last_elim fl deadline ps in
      let first = first_of len deadline ps in
      let avail = final_avail fl len deadline ps in
      let start : ℕ × F = (task_start fl avail first ps, avail) in
      let end : ℕ × F = (deadline, avail) in
      let h = last_elim-le deadline ps in
      let k = first_elim-le avail (take last ps) in
      let taken = length-take last ps in
      let ordered : first ≤ last = omega (arith, k, taken) in
      let room = make_room fl first last ps in
      let size = make_room-length first last ps ordered h in
      let one = set room first start in
      let one_size = length-set room first start in
      let both = set one (suc first) end in
      (
        lower_from-length len last both ∙ length-set one (suc first) end ∙ one_size ∙ size,
        lower_from-get len last first both start (
            get_elem?-set_other one (suc first) first end (λ e. omega (arith, e))
            ∙ get_elem?-set_self room first start (omega (arith, size))),
        lower_from-get len last (suc first) both end
            (get_elem?-set_self one (suc first) end (omega (arith, one_size, size))),
        lower_from-get len last (first + 2 + m) both (point_at fl ps (last + m)) (
            get_elem?-set_other one (suc first) (first + 2 + m) end (λ e. omega (arith, e))
            ∙ get_elem?-set_other room first (first + 2 + m) start (λ e. omega (arith, e))
            ∙ make_room-moved first last m ps ordered h few
            ∙ get_elem?-point_at fl ps (last + m) (omega (arith, few))),
      )
