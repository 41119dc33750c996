-- ===== src/Delta/Ends.antt =====
-- The loop of stepper() ends, Delta.Stepper.stepper.
use stars.Prelude.{
  ℕ, zero, suc, ◌+◌, ◌≤◌, ◌<◌, ◌≡◌, refl, ◌⊎◌, inl, inr, ◌∙◌, ap, subst, Bool, false, Option, some,
  List, [], ◌∷◌, ◌++◌, length, All, All-append, ltb, if◌then◌else◌, if-both, Bool-cases, arith,
}
use stars.Float.{Float}
use stars.Delta.{LDeltaFunction}
use stars.Delta.Stepper.{
  Cursor, Piece, choose, move_to, is_first_lower, do_cross, crossing, cross, advance, pass_to,
  pass_point, add_pieces, steps, count_points, start_cursors, earliest, stepper,
}

not_before : (a h : ℕ) → a ≡ h → ltb a h ≡ false
not_before a h e = ground arith

module _ {F : Type 0} where
  abbrev rests : List (Cursor F) → List (List (ℕ × F))
  rests [] = []
  rests (c ∷ cs) = c.rest ∷ rests cs

  abbrev total : List (List (ℕ × F)) → ℕ
  total [] = 0
  total (r ∷ rs) = length r + total rs

  abbrev tail_of : List (ℕ × F) → List (ℕ × F)
  tail_of [] = []
  tail_of (p ∷ ps) = ps

  -- The points that are left when function `j` has passed its next one.
  abbrev drop_point : ℕ → List (List (ℕ × F)) → List (List (ℕ × F))
  drop_point j [] = []
  drop_point zero (r ∷ rs) = tail_of r ∷ rs
  drop_point (suc j) (r ∷ rs) = r ∷ drop_point j rs

  -- A piece is not empty.
  abbrev pub IsProper : Piece F → Type 0
  IsProper p = p.from < p.to

module _ {F : Type 0} (fl : Float F) where
  -- The function that comes next passes a point, or there is none.
  abbrev Chosen : ℕ → ℕ × ℕ → List (List (ℕ × F)) → ℕ × ℕ → Type 0
  Chosen i found rs r =
      (r ≡ found) ⊎ ((j : ℕ) × (r.1 ≡ i + j) × (total (drop_point j rs) + 1 ≡ total rs))

  abbrev pick : ℕ → ℕ × ℕ → List (ℕ × F) → ℕ × ℕ
  pick i found r = elim r [ [] ↦ found | p ∷ ps ↦ if ltb p.0 found.0 then (p.0, i) else found ]

  later-Chosen :
      (i : ℕ) (found : ℕ × ℕ) (r : List (ℕ × F)) (rs : List (List (ℕ × F))) (x : ℕ × ℕ)
      → Chosen (suc i) found rs x
      → Chosen i found (r ∷ rs) x
  later-Chosen i found r rs x (inl e) = inl e
  later-Chosen i found r rs x (inr (j, e, t)) = inr (suc j, omega (arith, e), omega (arith, t))

  pick-Chosen :
      (i : ℕ) (found : ℕ × ℕ) (r : List (ℕ × F)) (rs : List (List (ℕ × F))) (x : ℕ × ℕ)
      → Chosen (suc i) (pick i found r) rs x
      → Chosen i found (r ∷ rs) x
  pick-Chosen i found [] rs x h = later-Chosen i found [] rs x h
  pick-Chosen i found (p ∷ ps) rs x h = elim (Bool-cases (ltb p.0 found.0)) [
    | inl e ↦ elim (subst (λ c. Chosen (suc i) (if c then (p.0, i) else found) rs x) e h) [
      | inl e' ↦ let at_i = ap (λ (y : ℕ × ℕ). y.1) e' in inr (0, omega (arith, at_i), omega arith)
      | inr (j, e', t) ↦ inr (suc j, omega (arith, e'), omega (arith, t))
    ]
    | inr e ↦
        later-Chosen i found (p ∷ ps) rs x
          (subst (λ c. Chosen (suc i) (if c then (p.0, i) else found) rs x) e h)
  ]

  choose-Chosen :
      (i : ℕ) (found : ℕ × ℕ) (cs : List (Cursor F))
      → Chosen i found (rests cs) (choose fl i found cs)
  unfolding choose
  choose-Chosen i found [] = inl refl
  choose-Chosen i found (c ∷ cs) =
      pick-Chosen i found c.rest (rests cs) (choose fl i found (c ∷ cs))
        (choose-Chosen (suc i) (pick i found c.rest) cs)

  move_to-rests : (b : ℕ) (cs : List (Cursor F)) → rests (move_to fl b cs) ≡ rests cs
  move_to-rests b [] = refl
  move_to-rests b (c ∷ cs) = ap (λ rs. c.rest ∷ rs) (move_to-rests b cs)

  -- The calls and functions of one round: the functions have the points of before, and no call is for an empty piece.
  abbrev IsRound : List (Cursor F) → List (Piece F) × List (Cursor F) → Type 0
  IsRound cs r = (rests r.1 ≡ rests cs) × All IsProper r.0

  cross-IsRound :
      (a mid b : ℕ) (order : Bool) (cs : List (Cursor F)) → IsRound cs (cross fl a mid b order cs)
  cross-IsRound a mid b order cs = elim (Bool-cases (ltb a mid)) [
    | inl e ↦ elim (Bool-cases (ltb mid b)) [
      | inl e' ↦
          rw (e, e')
            (
              move_to-rests b (move_to fl mid cs) ∙ move_to-rests mid cs,
              (ground (arith, e), (ground (arith, e'), tt)),
            )
      | inr e' ↦ rw (e, e') (move_to-rests mid cs, (ground (arith, e), tt))
    ]
    | inr e ↦ elim (Bool-cases (ltb mid b)) [
      | inl e' ↦ rw (e, e') (move_to-rests b cs, (ground (arith, e'), tt))
      | inr e' ↦ rw (e, e') (refl, tt)
    ]
  ]

  advance-IsRound : (a b : ℕ) (cs : List (Cursor F)) → IsRound cs (advance fl a b cs)
  unfolding advance
  advance-IsRound a b [] = (refl, tt)
  advance-IsRound a b (f ∷ []) = (refl, tt)
  advance-IsRound a b (f ∷ g ∷ cs) =
      let all = f ∷ g ∷ cs in
      let order = is_first_lower fl f g in
      elim (Bool-cases (ltb a b)) [
        | inl e ↦ rw e (
            if-both (IsRound all) (do_cross fl b f g)
              (cross-IsRound a (crossing fl a f g) b order all)
              (move_to-rests b all, (ground (arith, e), tt)))
        | inr e ↦ rw e (refl, tt)
      ]

  pass_to-rest : (c : Cursor F) (r : List (ℕ × F)) → c.rest ≡ r → (pass_to fl c r).rest ≡ tail_of r
  pass_to-rest c [] e = e
  pass_to-rest c (p ∷ ps) e = refl

  pass_point-rests :
      (b j : ℕ) (cs : List (Cursor F)) → rests (pass_point fl b j cs) ≡ drop_point j (rests cs)
  unfolding pass_point
  pass_point-rests b j [] = refl
  pass_point-rests b zero (c ∷ cs) = ap (λ r. r ∷ rests cs) (pass_to-rest c c.rest refl)
  pass_point-rests b (suc j) (c ∷ cs) = ap (λ rs. c.rest ∷ rs) (pass_point-rests b j cs)

  -- The rest of the loop after a round.
  abbrev after_round : ℕ → ℕ → ℕ × ℕ → List (Cursor F) → Option (List (Piece F))
  after_round fuel h chosen moved = steps fl fuel chosen.0 h (pass_point fl chosen.0 chosen.1 moved)

  abbrev IsFinished : Option (List (Piece F)) → Type 0
  IsFinished o = (ps : List (Piece F)) × (o ≡ some ps) × All IsProper ps

  steps-stop :
      (fuel a h : ℕ) (cs : List (Cursor F))
      → 1 ≤ fuel
      → ltb a h ≡ false
      → IsFinished (steps fl fuel a h cs)
  unfolding steps
  steps-stop zero a h cs some_fuel e = absurd (omega (arith, some_fuel))
  steps-stop (suc fuel) a h cs some_fuel e = ([], rw e refl, tt)

  add_pieces-IsFinished :
      (ps : List (Piece F)) (o : Option (List (Piece F)))
      → All IsProper ps
      → IsFinished o
      → IsFinished (add_pieces fl ps o)
  add_pieces-IsFinished ps o h (qs, e, k) =
      (ps ++ qs, ap (add_pieces fl ps) e, All-append IsProper ps qs h k)

  steps-IsFinished :
      (fuel a h : ℕ) (cs : List (Cursor F))
      → total (rests cs) + 2 ≤ fuel
      → IsFinished (steps fl fuel a h cs)
  unfolding steps
  steps-IsFinished zero a h cs enough = absurd (omega (arith, enough))
  steps-IsFinished (suc fuel) a h cs enough = elim (Bool-cases (ltb a h)) [
    | inr e ↦ ([], rw e refl, tt)
    | inl e ↦
        let chosen = choose fl 0 (h, 0) cs in
        let round = advance-IsRound a chosen.0 cs in
        let moved = (advance fl a chosen.0 cs).1 in
        rw e (
          add_pieces-IsFinished (advance fl a chosen.0 cs).0 (after_round fuel h chosen moved)
            round.1
            (elim (choose-Chosen 0 (h, 0) cs) [
              | inl none_left ↦
                  let at_end = ap (λ (x : ℕ × ℕ). x.0) none_left in
                  steps-stop fuel chosen.0 h (pass_point fl chosen.0 chosen.1 moved)
                    (omega (arith, enough)) (not_before chosen.0 h at_end)
              | inr (j, at_j, fewer) ↦
                  let left_over : rests (pass_point fl chosen.0 chosen.1 moved)
                      ≡ drop_point j (rests cs) =
                    pass_point-rests chosen.0 chosen.1 moved
                    ∙ ap (drop_point chosen.1) round.0
                    ∙ ap (λ i. drop_point i (rests cs)) (omega (arith, at_j)) in
                  let count = ap total left_over in
                  steps-IsFinished fuel chosen.0 h (pass_point fl chosen.0 chosen.1 moved)
                    (omega (arith, enough, fewer, count))
            ]))
  ]

  start_cursors-total :
      (a : ℕ) (fs : List (LDeltaFunction F))
      → total (rests (start_cursors fl a fs)) ≡ count_points fl fs
  unfolding count_points
  start_cursors-total a [] = refl
  start_cursors-total a (f ∷ fs) = ap (λ (n : ℕ). length f.points + n) (start_cursors-total a fs)

  -- The loop of stepper() ends for all functions and times, whatever the arithmetic of the machine gives for the crossings: it takes
  -- at most two rounds more than the functions have points. No call of the step is for an empty piece.
  pub stepper-ends :
      (fs : List (LDeltaFunction F)) (ref h : ℕ)
      → (ps : List (Piece F)) × (stepper fl fs ref h ≡ some ps) × All IsProper ps
  unfolding stepper
  stepper-ends fs ref h =
      let a = earliest fl ref fs in
      let count = start_cursors-total a fs in
      steps-IsFinished (count_points fl fs + 2) a h (start_cursors fl a fs) (omega (arith, count))
