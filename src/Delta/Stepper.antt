-- ===== src/Delta/Stepper.antt =====
-- The template stepper() of src/lib/scheduling/policies/LDeltaFunction.cpp, with the steps of min(), max(), sqdiff(), minAndLoss() and
-- lc(). The steps do not act on the stepper, so it is the list of the calls of the step, and a step is a fold over it.
use stars.Prelude.{
  ℕ, zero, suc, ◌+◌, Bool, not, ◌&&◌, ◌||◌, Option, none, some, List, [], ◌∷◌, ◌++◌, length,
  get_elem?, map, ltb, if◌then◌else◌,
}
use stars.Float.{Float, seconds, after}
use stars.Delta.{LDeltaFunction}

-- What the stepper keeps for one function: it, slope, m, fa and lastPoint.
pub record Cursor (F : Type 0) : Type 0 where
  pub rest : List (ℕ × F)
  pub slope : F
  pub m : F
  pub fa : F
  pub last : ℕ × F

-- A call of the step: a, b, the values and slopes of the functions at a, and whether the first function is the lower one.
pub record Piece (F : Type 0) : Type 0 where
  pub from : ℕ
  pub to : ℕ
  pub fa : List F
  pub m : List F
  pub first_lower : Bool

module _ {F : Type 0} (fl : Float F) where
  abbrev pub start_cursor : LDeltaFunction F → Cursor F
  start_cursor f = record {
    rest = f.points;
    slope = f.slope;
    m = elim f.points [ [] ↦ f.slope | p ∷ ps ↦ fl.of_nat 0 ];
    fa = fl.of_nat 0;
    last = (0, fl.of_nat 0);
  }

  -- The start of the first function, if it is before `a`.
  unfoldable pub earliest : ℕ → List (LDeltaFunction F) → ℕ
  earliest a [] = a
  earliest a (f ∷ fs) =
      earliest (elim f.points [ [] ↦ a | p ∷ ps ↦ if ltb p.0 a then p.0 else a ]) fs

  -- The next time and function, from a function `i` on.
  unfoldable pub choose : ℕ → ℕ × ℕ → List (Cursor F) → ℕ × ℕ
  choose i found [] = found
  choose i found (c ∷ cs) =
      choose (suc i)
        (elim c.rest [ [] ↦ found | p ∷ ps ↦ if ltb p.0 found.0 then (p.0, i) else found ]) cs

  -- The value of a function at a time of its piece.
  abbrev pub value_at : ℕ → Cursor F → F
  value_at b c = fl.add c.last.1 (fl.mul c.m (seconds fl b c.last.0))

  abbrev pub move_to : ℕ → List (Cursor F) → List (Cursor F)
  move_to b [] = []
  move_to b (c ∷ cs) = record c { fa = value_at b c } ∷ move_to b cs

  abbrev pub piece : ℕ → ℕ → Bool → List (Cursor F) → Piece F
  piece a b order cs = record {
    from = a;
    to = b;
    fa = map (λ c. c.fa) cs;
    m = map (λ c. c.m) cs;
    first_lower = order;
  }

  abbrev pub is_first_lower : Cursor F → Cursor F → Bool
  is_first_lower f g = fl.lt f.fa g.fa || fl.eq f.fa g.fa && fl.lt f.m g.m

  -- The test of whether the first two functions cross before `b`, and where.
  abbrev pub do_cross : ℕ → Cursor F → Cursor F → Bool
  do_cross b f g =
      fl.lt (fl.mul (fl.sub (value_at b f) (value_at b g)) (fl.sub f.fa g.fa)) (fl.of_nat 0)

  abbrev pub crossing : ℕ → Cursor F → Cursor F → ℕ
  crossing a f g = after fl a (fl.div (fl.sub g.fa f.fa) (fl.sub f.m g.m))

  -- The two pieces of a crossing at `mid`.
  abbrev pub cross : ℕ → ℕ → ℕ → Bool → List (Cursor F) → List (Piece F) × List (Cursor F)
  cross a mid b order cs =
      let halfway = if ltb a mid then move_to mid cs else cs in
      let before = if ltb a mid then piece a mid order cs ∷ [] else [] in
      if ltb mid b
      then (before ++ piece mid b (not order) halfway ∷ [], move_to b halfway)
      else (before, halfway)

  -- The calls from `a` to `b`, and the functions at `b`.
  unfoldable pub advance : ℕ → ℕ → List (Cursor F) → List (Piece F) × List (Cursor F)
  advance a b [] = ([], [])
  advance a b (f ∷ []) = ([], f ∷ [])
  advance a b (f ∷ g ∷ cs) =
      let all = f ∷ g ∷ cs in
      let order = is_first_lower f g in
      if ltb a b
      then (if do_cross b f g
          then cross a (crossing a f g) b order all
          else (piece a b order all ∷ [], move_to b all))
      else ([], all)

  -- The function that is at its next point: from time `a` on it goes to the point after that, or on with its slope.
  abbrev pub aim : ℕ → Cursor F → Cursor F
  aim a c = record c {
    m = elim c.rest [ [] ↦ c.slope | p ∷ ps ↦ fl.div (fl.sub p.1 c.fa) (seconds fl p.0 a) ];
  }

  abbrev pub pass_to : Cursor F → List (ℕ × F) → Cursor F
  pass_to c [] = c
  pass_to c (p ∷ ps) = record c { rest = ps; fa = p.1; last = p }

  abbrev pub pass : Cursor F → Cursor F
  pass c = pass_to c c.rest

  unfoldable pub pass_point : ℕ → ℕ → List (Cursor F) → List (Cursor F)
  pass_point a next [] = []
  pass_point a zero (c ∷ cs) = aim a (pass c) ∷ cs
  pass_point a (suc next) (c ∷ cs) = c ∷ pass_point a next cs

  abbrev pub add_pieces : List (Piece F) → Option (List (Piece F)) → Option (List (Piece F))
  add_pieces ps none = none
  add_pieces ps (some qs) = some (ps ++ qs)

  -- The loop, with fuel.
  unfoldable pub steps : ℕ → ℕ → ℕ → List (Cursor F) → Option (List (Piece F))
  unfolding choose advance pass_point
  steps zero a h cs = none
  steps (suc fuel) a h cs =
      let (b, next) = choose 0 (h, 0) cs in
      let (pieces, moved) = advance a b cs in
      let rest = add_pieces pieces (steps fuel b h (pass_point b next moved)) in
      if ltb a h then rest else some []

  -- All points of the functions.
  unfoldable pub count_points : List (LDeltaFunction F) → ℕ
  count_points [] = 0
  count_points (f ∷ fs) = length f.points + count_points fs

  abbrev pub start_cursors : ℕ → List (LDeltaFunction F) → List (Cursor F)
  start_cursors a [] = []
  start_cursors a (f ∷ fs) =
      record (start_cursor f) { last = (a, fl.of_nat 0) } ∷ start_cursors a fs

  -- stepper()
  unfoldable pub stepper : List (LDeltaFunction F) → ℕ → ℕ → Option (List (Piece F))
  unfolding steps earliest count_points
  stepper fs ref h = let a = earliest ref fs in steps (count_points fs + 2) a h (start_cursors a fs)

  abbrev pub nth : List F → ℕ → F
  nth xs i = elim (get_elem? xs i) [ none ↦ fl.of_nat 0 | some x ↦ x ]

  -- minStep, maxStep and lcStep: points, mm and lasty.
  pub record Drawn : Type 0 where
    pub points : List (ℕ × F)
    pub mm : F
    pub lasty : F

  abbrev pub not_drawn : Drawn
  not_drawn = record { points = []; mm = fl.of_nat 0; lasty = fl.of_nat 0 }

  -- minStep of the function that is the lower one, and maxStep of the other.
  abbrev pub follow : ℕ → Drawn → Piece F → Drawn
  follow i s p =
      let turned = not (fl.eq s.mm (nth p.m i)) in
      record {
        points = if turned then s.points ++ (p.from, nth p.fa i) ∷ [] else s.points;
        mm = nth p.m i;
        lasty = fl.add (nth p.fa i) (fl.mul (nth p.m i) (seconds fl p.to p.from));
      }
