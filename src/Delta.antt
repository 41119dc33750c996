-- ===== src/Delta.antt =====
-- include/LDeltaFunction.hpp and src/lib/scheduling/policies/LDeltaFunction.cpp: the work that a node can do before each time, as a
-- function of straight pieces. A time does not go below 0.
pub mod Stepper
pub mod Vector
pub mod Update
pub mod Shape
pub mod Ends
use stars.Prelude.{
  ℕ, zero, suc, ◌+◌, ◌-◌, Bool, true, false, not, ◌&&◌, ◌||◌, Option, none, some, List, [], ◌∷◌,
  ◌++◌, length, get_elem?, set, take, drop, map, ltb, leb, ◌==◌, if◌then◌else◌,
}
use stars.Float.{Float, seconds, after}
use stars.Scheduler.Interface.{Task}

-- LDeltaFunction; a point is a time and the work that can be done before it.
pub record LDeltaFunction (F : Type 0) : Type 0 where
  pub points : List (ℕ × F)
  pub slope : F

module _ {F : Type 0} (fl : Float F) where
  -- A read of the vector; out of range the code's behaviour is undefined.
  abbrev pub point_at : List (ℕ × F) → ℕ → ℕ × F
  point_at ps i = elim (get_elem? ps i) [ none ↦ (0, fl.of_nat 0) | some p ↦ p ]

  module _ (estimate : Task → ℕ) where
    -- The loop of the constructor over the tasks from the last one to the second: nextStart, and the endpoints.
    unfoldable pub holes : ℕ → List Task → ℕ × List ℕ
    holes end [] = (end, end ∷ [])
    holes end (t ∷ ts) =
        let (next, ends) = holes end ts in
        if ltb t.description.deadline next
        then (t.description.deadline - estimate t, t.description.deadline ∷ next ∷ ends)
        else (next - estimate t, ends)

    abbrev pub last_deadline : ℕ → List Task → ℕ
    last_deadline d [] = d
    last_deadline d (t ∷ ts) = last_deadline t.description.deadline ts

    abbrev pub endpoints : ℕ → Task → List Task → List ℕ
    endpoints now t [] = (now + estimate t) ∷ []
    endpoints now t (u ∷ us) =
        let (next, ends) = holes (last_deadline 0 (u ∷ us)) (u ∷ us) in
        (now + estimate t) ∷ next ∷ ends

    -- The points of the endpoints, of which there is an odd number.
    unfoldable pub points_of : F → F → List ℕ → List (ℕ × F)
    points_of power avail [] = []
    points_of power avail (a ∷ []) = (a, avail) ∷ []
    points_of power avail (a ∷ b ∷ ends) =
        let more = fl.add avail (fl.mul (seconds fl b a) power) in
        (a, avail) ∷ (b, more) ∷ points_of power more ends

    -- LDeltaFunction() of a power and a queue
    unfoldable pub of_queue : ℕ → F → List Task → LDeltaFunction F
    unfolding holes points_of
    of_queue now power [] = record { points = []; slope = power }
    of_queue now power (t ∷ ts) = record {
      points = points_of power (fl.of_nat 0) (endpoints now t ts);
      slope = power;
    }

  -- The loop of getAvailabilityBefore(): the points around a time.
  unfoldable pub around : ℕ → ℕ × F → List (ℕ × F) → (ℕ × F) × Option (ℕ × F)
  around d prev [] = (prev, none)
  around d prev (p ∷ ps) = let rest = around d p ps in if ltb p.0 d then rest else (prev, some p)

  -- The value at `d` of the line through a point with a slope.
  abbrev pub along : ℕ → ℕ × F → F → F
  along d p m = fl.add p.1 (fl.mul (seconds fl d p.0) m)

  abbrev pub slope_between : ℕ × F → ℕ × F → F
  slope_between p q =
      if not (q.0 == p.0) then fl.div (fl.sub q.1 p.1) (seconds fl q.0 p.0) else fl.of_nat 0

  abbrev pub interpolate : ℕ → F → (ℕ × F) × Option (ℕ × F) → F
  interpolate d slope (prev, none) = along d prev slope
  interpolate d slope (prev, some next) = along d prev (slope_between prev next)

  abbrev pub availability_in : ℕ → ℕ → F → List (ℕ × F) → F
  availability_in now d slope [] =
      if ltb now d then fl.mul slope (fl.sub (seconds fl d now) (fl.of_nat 1)) else fl.of_nat 0
  availability_in now d slope (p ∷ ps) =
      if leb d now || ltb d p.0 then fl.of_nat 0 else interpolate d slope (around d p ps)

  -- getAvailabilityBefore()
  unfoldable pub get_availability_before : ℕ → ℕ → LDeltaFunction F → F
  unfolding around
  get_availability_before now d f = availability_in now d f.slope f.points

  -- lastElim: the points not after the deadline.
  unfoldable pub last_elim : ℕ → List (ℕ × F) → ℕ
  last_elim deadline [] = 0
  last_elim deadline (p ∷ ps) =
      let n = last_elim deadline ps in if leb p.0 deadline then suc n else 0

  -- firstElim: the points of these with less work before them.
  unfoldable pub first_elim : F → List (ℕ × F) → ℕ
  first_elim avail [] = 0
  first_elim avail (p ∷ ps) = let n = first_elim avail ps in if fl.lt p.1 avail then suc n else 0

  -- The work that can be done before the deadline of a task of some length, without the task.
  abbrev pub final_avail : ℕ → ℕ → List (ℕ × F) → F
  final_avail len deadline ps =
      let last = last_elim deadline ps in
      let prev = point_at ps (last - 1) in
      let next = point_at ps last in
      let at_deadline =
        if last == length ps
        then prev.1
        else fl.add prev.1 (
            fl.div (fl.mul (seconds fl deadline prev.0) (fl.sub next.1 prev.1))
              (seconds fl next.0 prev.0)) in
      fl.sub at_deadline (fl.of_nat len)

  -- The time before which so much work can be done, at the first point with as much.
  abbrev pub task_start : F → ℕ → List (ℕ × F) → ℕ
  task_start avail first ps =
      let prev = point_at ps (first - 1) in
      let next = point_at ps first in
      after fl prev.0
        (fl.div (fl.mul (fl.sub avail prev.1) (seconds fl next.0 prev.0)) (fl.sub next.1 prev.1))

  -- `for (...; i++, j++) points[i] = points[j]`, in a number of rounds.
  unfoldable pub move_down : ℕ → ℕ → ℕ → List (ℕ × F) → List (ℕ × F)
  move_down zero i j ps = ps
  move_down (suc k) i j ps = move_down k (suc i) (suc j) (set ps i (point_at ps j))

  -- `for (...; i--, j--) points[i] = points[j]`, down to the points `i` and `j`.
  unfoldable pub move_up : ℕ → ℕ → ℕ → List (ℕ × F) → List (ℕ × F)
  move_up zero i j ps = ps
  move_up (suc k) i j ps = move_up k i j (set ps (i + k) (point_at ps (j + k)))

  -- vector::resize()
  unfoldable pub resize : ℕ → List (ℕ × F) → List (ℕ × F)
  resize zero ps = []
  resize (suc n) [] = (0, fl.of_nat 0) ∷ resize n []
  resize (suc n) (p ∷ ps) = p ∷ resize n ps

  -- The vector with room for two points at `first` instead of the points before `last`.
  unfoldable pub make_room : ℕ → ℕ → List (ℕ × F) → List (ℕ × F)
  unfolding move_down move_up resize
  make_room first last ps =
      let size = length ps in
      let new_size = size - last + first + 2 in
      if ltb 2 (last - first)
      then resize new_size (move_down (size - last) (first + 2) last ps)
      else if ltb (last - first) 2
      then move_up (size - last) (first + 2) last (resize new_size ps)
      else ps

  -- The last loop of update().
  unfoldable pub lower_from : ℕ → ℕ → List (ℕ × F) → List (ℕ × F)
  lower_from len i [] = []
  lower_from len zero ((t, avail) ∷ ps) = (t, fl.sub avail (fl.of_nat len)) ∷ lower_from len zero ps
  lower_from len (suc i) (p ∷ ps) = p ∷ lower_from len i ps

  unfoldable pub update_points : ℕ → ℕ → List (ℕ × F) → List (ℕ × F)
  unfolding last_elim first_elim make_room lower_from
  update_points len deadline ps =
      let last = last_elim deadline ps in
      let avail = final_avail len deadline ps in
      let first = first_elim avail (take last ps) in
      let room = make_room first last ps in
      lower_from len last
        (set (set room first (task_start avail first ps, avail)) (suc first) (deadline, avail))

  abbrev pub update_in : ℕ → ℕ → ℕ → ℕ → F → List (ℕ × F) → List (ℕ × F)
  update_in now len deadline horizon slope [] =
      let start = after fl now (fl.div (fl.of_nat len) slope) in
      (start, fl.of_nat 0) ∷ (horizon, fl.mul slope (seconds fl horizon start)) ∷ []
  update_in now len deadline horizon slope (p ∷ ps) = update_points len deadline (p ∷ ps)

  -- update(): a task of some length with a deadline is assigned.
  unfoldable pub update : ℕ → ℕ → ℕ → ℕ → LDeltaFunction F → LDeltaFunction F
  unfolding update_points
  update now len deadline horizon f = record f {
    points = update_in now len deadline horizon f.slope f.points;
  }
