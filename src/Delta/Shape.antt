-- ===== src/Delta/Shape.antt =====
-- What src/lib/scheduling/policies/LDeltaFunction.cpp draws from the pieces of its stepper(): the lower and the upper of two functions,
-- their linear combination, and their squared difference.
use stars.Prelude.{ℕ, not, Option, none, some, List, [], ◌∷◌, ◌++◌, foldl, ltb, if◌then◌else◌}
use stars.Float.{Float, seconds}
use stars.Delta.{LDeltaFunction}
use stars.Delta.Stepper.{Piece, stepper, Drawn, not_drawn, nth, follow}

module _ {F : Type 0} (fl : Float F) where
  abbrev pub lower : Piece F → ℕ
  lower p = if p.first_lower then 0 else 1

  abbrev pub upper : Piece F → ℕ
  upper p = if p.first_lower then 1 else 0

  abbrev pub min_step : Drawn fl → Piece F → Drawn fl
  min_step s p = follow fl (lower p) s p

  abbrev pub max_step : Drawn fl → Piece F → Drawn fl
  max_step s p = follow fl (upper p) s p

  abbrev pub last_time : ℕ → List (ℕ × F) → ℕ
  last_time t [] = t
  last_time t (p ∷ ps) = last_time p.0 ps

  -- The horizon of min() and max(), if the functions have points.
  abbrev pub horizon_of : List (ℕ × F) → List (ℕ × F) → Option ℕ
  horizon_of [] [] = none
  horizon_of [] (q ∷ qs) = some (last_time q.0 qs)
  horizon_of (p ∷ ps) qs = some (last_time p.0 ps)

  abbrev pub drawn_until : ℕ → Drawn fl → List (ℕ × F)
  drawn_until h s = s.points ++ (h, s.lasty) ∷ []

  abbrev pub draw :
      (Drawn fl → Piece F → Drawn fl)
      → List (ℕ × F)
      → Option ℕ
      → Option (List (Piece F))
      → List (ℕ × F)
  draw step old none ps = old
  draw step old (some h) none = old
  draw step old (some h) (some ps) = drawn_until h (foldl step (not_drawn fl) ps)

  abbrev pub pieces_until : ℕ → List (LDeltaFunction F) → Option ℕ → Option (List (Piece F))
  pieces_until now fs none = none
  pieces_until now fs (some h) = stepper fl fs now h

  -- min() on the points of a function
  unfoldable pub min_of :
      ℕ → LDeltaFunction F → LDeltaFunction F → LDeltaFunction F → LDeltaFunction F
  unfolding stepper
  min_of now old l r =
      let h = horizon_of l.points r.points in
      record {
        points = draw min_step old.points h (pieces_until now (l ∷ r ∷ []) h);
        slope = if fl.lt l.slope r.slope then l.slope else r.slope;
      }

  -- max()
  unfoldable pub max_of :
      ℕ → LDeltaFunction F → LDeltaFunction F → LDeltaFunction F → LDeltaFunction F
  unfolding stepper
  max_of now old l r =
      let h = horizon_of l.points r.points in
      record {
        points = draw max_step old.points h (pieces_until now (l ∷ r ∷ []) h);
        slope = if fl.lt l.slope r.slope then r.slope else l.slope;
      }

  -- sqdiffStep, which counts each function `v` times.
  abbrev pub square : ℕ → ℕ → Piece F → F
  square v0 v1 p =
      let n1 = fl.sub (nth fl p.fa (upper p)) (nth fl p.fa (lower p)) in
      let n2 = fl.sub (nth fl p.m (upper p)) (nth fl p.m (lower p)) in
      let dt = seconds fl p.to p.from in
      fl.mul
        (fl.mul (fl.of_nat (if p.first_lower then v1 else v0)) (
          fl.add
            (fl.mul (fl.add (fl.div (fl.mul (fl.mul n2 n2) dt) (fl.of_nat 3)) (fl.mul n2 n1)) dt)
            (fl.mul n1 n1)))
        dt

  abbrev pub not_negative : F → F
  not_negative r = if fl.lt r (fl.of_nat 0) then fl.of_nat 0 else r

  abbrev pub square_step : ℕ → ℕ → F → Piece F → F
  square_step v0 v1 result p = fl.add result (not_negative (square v0 v1 p))

  abbrev pub sum_squares : ℕ → ℕ → Option (List (Piece F)) → F
  sum_squares v0 v1 none = fl.of_nat 0
  sum_squares v0 v1 (some ps) = foldl (square_step v0 v1) (fl.of_nat 0) ps

  -- sqdiff()
  unfoldable pub sqdiff : LDeltaFunction F → LDeltaFunction F → ℕ → ℕ → F
  unfolding stepper
  sqdiff l r ref h = sum_squares 1 1 (stepper fl (l ∷ r ∷ []) ref h)

  -- lossStep: the loss of a piece, with the functions behind the first two.
  abbrev pub loss : Piece F → F
  loss p =
      let n1 = fl.sub (nth fl p.fa (upper p)) (nth fl p.fa (lower p)) in
      let n2 = fl.sub (nth fl p.m (upper p)) (nth fl p.m (lower p)) in
      let dt = seconds fl p.to p.from in
      let other = if p.first_lower then 3 else 2 in
      let mc = nth fl p.m other in
      let ca = nth fl p.fa other in
      fl.mul
        (fl.add
          (fl.mul
            (fl.add (fl.div (fl.mul (fl.mul n2 mc) dt) (fl.of_nat 3))
              (fl.div (fl.add (fl.mul n1 mc) (fl.mul n2 ca)) (fl.of_nat 2)))
            dt)
          (fl.mul n1 ca))
        dt

  abbrev pub loss_step : ℕ → ℕ → F → Piece F → F
  loss_step v0 v1 result p = fl.add (square_step v0 v1 result p) (not_negative (loss p))

  abbrev pub sum_losses : ℕ → ℕ → Option (List (Piece F)) → F
  sum_losses v0 v1 none = fl.of_nat 0
  sum_losses v0 v1 (some ps) = foldl (loss_step v0 v1) (fl.of_nat 0) ps

  abbrev pub min_points : ℕ → List (ℕ × F) → List (ℕ × F) → Option (List (Piece F)) → List (ℕ × F)
  min_points h [] [] ps = []
  min_points h (q ∷ qs) rs ps = draw min_step [] (some h) ps
  min_points h [] (r ∷ rs) ps = draw min_step [] (some h) ps

  -- minAndLoss(): the lower function, and the loss
  unfoldable pub min_and_loss :
      LDeltaFunction F
      → LDeltaFunction F
      → ℕ
      → ℕ
      → LDeltaFunction F
      → LDeltaFunction F
      → ℕ
      → ℕ
      → LDeltaFunction F × F
  unfolding stepper
  min_and_loss l r lv rv lc rc ref h =
      let ps = stepper fl (l ∷ r ∷ lc ∷ rc ∷ []) ref h in
      (
        record {
          points = min_points h l.points r.points ps;
          slope = if fl.lt l.slope r.slope then l.slope else r.slope;
        },
        sum_losses lv rv ps,
      )

  -- lcStep
  abbrev pub combine : F → F → F → F → F
  combine cl cr x y = fl.add (fl.mul cl x) (fl.mul cr y)

  abbrev pub lc_step : F → F → Drawn fl → Piece F → Drawn fl
  lc_step cl cr s p =
      let m = combine cl cr (nth fl p.m 0) (nth fl p.m 1) in
      let dt = seconds fl p.to p.from in
      record {
        points =
            if not (fl.eq s.mm m)
            then s.points ++ (p.from, combine cl cr (nth fl p.fa 0) (nth fl p.fa 1)) ∷ []
            else s.points;
        mm = m;
        lasty =
            combine cl cr (fl.add (nth fl p.fa 0) (fl.mul (nth fl p.m 0) dt))
              (fl.add (nth fl p.fa 1) (fl.mul (nth fl p.m 1) dt));
      }

  abbrev pub later : ℕ → List (ℕ × F) → ℕ
  later h [] = h
  later h (p ∷ ps) = let t = last_time p.0 ps in if ltb h t then t else h

  abbrev pub has_points : List (ℕ × F) → List (ℕ × F) → ℕ → Option ℕ
  has_points [] [] h = none
  has_points [] (q ∷ qs) h = some h
  has_points (p ∷ ps) qs h = some h

  -- lc()
  unfoldable pub lc :
      ℕ → LDeltaFunction F → LDeltaFunction F → LDeltaFunction F → F → F → LDeltaFunction F
  unfolding stepper
  lc now old l r cl cr =
      let h = has_points l.points r.points (later (later now l.points) r.points) in
      record {
        points = draw (lc_step cl cr) old.points h (pieces_until now (l ∷ r ∷ []) h);
        slope = combine cl cr l.slope r.slope;
      }
