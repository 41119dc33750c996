-- ===== src/Policies/Fitting.antt =====
-- How many tasks a node of the policy DP accepts, Policies.dp_acceptable.
use native.Mathlib.Nat.{div-mul-le_self, zero-div, mul-le-mul_right}
use stars.Prelude.{
  ℕ, ◌+◌, ◌-◌, ◌*◌, ◌/◌, ◌%◌, ◌≤◌, ◌<◌, ◌≡◌, refl, subst, ◌∙◌, ap, inl, inr, Bool, true, false,
  ◌&&◌, List, [], ◌∷◌, ltb, leb, if◌then◌else◌, Bool-cases, arith, u32,
}
use stars.Scheduler.Interface.{Task, TaskBag}
use stars.Policies.{
  num_tasks, start_behind, all_before, last_deadline, limit_of, free_until, free_time,
  get_availability_before, dp_acceptable,
}

slots-le :
    (available len asked : ℕ)
    → let slots = (available % u32 / len) % u32 in
      let n = if ltb slots asked then slots else asked in (n ≤ asked) × (n * len ≤ available)
slots-le available len asked =
    let q = available % u32 / len in
    let slots = q % u32 in
    let n = if ltb slots asked then slots else asked in
    let few : n ≤ q = ground arith in
    let room : q * len ≤ available % u32 = div-mul-le_self (available % u32) len in
    let more : n * len ≤ q * len = mul-le-mul_right len few in
    (ground arith, omega (arith, room, more))

earliest : (limit d : ℕ) → let e = if ltb limit d then limit else d in (e ≤ d) × (e ≤ limit)
earliest limit d = ground arith

no_slots : (slots asked : ℕ) → slots ≡ 0 → (if ltb slots asked then slots else asked) ≤ 0
no_slots slots asked h = ground (arith, h)

-- Where nothing can be done, no task is accepted.
slots_none :
    (late : Bool) (available len asked : ℕ)
    → let all = if late then 0 else available in
      let slots = (all % u32 / len) % u32 in
      0 < (if ltb slots asked then slots else asked) → late ≡ false
slots_none false available len asked h = refl
slots_none true available len asked h =
    let none_done : 0 % u32 / len ≡ 0 = zero-div len in
    let none : 0 % u32 / len % u32 ≡ 0 = ap (λ q. q % u32) none_done in
    let few = no_slots (0 % u32 / len % u32) asked none in absurd (omega (arith, h, few))

module _ (estimate : Task → ℕ) where
  -- The time that the tasks at the front of a queue take, as long as their deadlines are not later.
  abbrev pub time_before : ℕ → List Task → ℕ
  time_before d [] = 0
  time_before d (t ∷ ts) = if leb t.description.deadline d then estimate t + time_before d ts else 0

  abbrev pub behind : List Task → List Task
  behind [] = []
  behind (t ∷ ts) = ts

  abbrev pub busy_until : ℕ → ℕ → List Task → ℕ
  busy_until now d [] = now
  busy_until now d (t ∷ ts) = now + estimate t + time_before d ts

  -- Whether all tasks have a later deadline.
  abbrev pub all_later : ℕ → List Task → Bool
  all_later d [] = true
  all_later d (t ∷ ts) = all_later d ts && ltb d t.description.deadline

  busy_until-pos : (now d : ℕ) (ts : List Task) → 0 < now → 0 < busy_until now d ts
  busy_until-pos now d [] h = h
  busy_until-pos now d (t ∷ ts) h = omega (arith, h)

  -- The tasks at the end of a queue that all have a later deadline.
  abbrev pub later_tasks : ℕ → List Task → List Task
  later_tasks d [] = []
  later_tasks d (t ∷ ts) =
      if all_later d ts && ltb d t.description.deadline then t ∷ ts else later_tasks d ts

  -- Tasks that are done one after the other from a time on all end before their deadlines.
  abbrev pub AreOnTime : ℕ → List Task → Type 0
  AreOnTime start [] = Unit
  AreOnTime start (t ∷ ts) =
      (start + estimate t ≤ t.description.deadline) × AreOnTime (start + estimate t) ts

  AreOnTime-earlier :
      (e start : ℕ) (ts : List Task) → e ≤ start → AreOnTime start ts → AreOnTime e ts
  AreOnTime-earlier e start [] h k = tt
  AreOnTime-earlier e start (t ∷ ts) h k = (
    omega (arith, h, k.0),
    AreOnTime-earlier (e + estimate t) (start + estimate t) ts (omega (arith, h)) k.1,
  )

  start_behind_lem :
      (d start : ℕ) (ts : List Task) → start_behind estimate d start ts ≡ start + time_before d ts
  unfolding start_behind
  start_behind_lem d start [] = omega arith
  start_behind_lem d start (t ∷ ts) = elim (Bool-cases (leb t.description.deadline d)) [
    | inl e ↦ rw e (omega (arith, start_behind_lem d (start + estimate t) ts))
    | inr e ↦ rw e (omega arith)
  ]

  later_tasks-all_later : (d : ℕ) (ts : List Task) → all_later d ts ≡ true → later_tasks d ts ≡ ts
  later_tasks-all_later d [] h = refl
  later_tasks-all_later d (t ∷ ts) h = rw h refl

  later_tasks-all_before :
      (d : ℕ) (ts : List Task) → all_before estimate d ts ≡ true → later_tasks d ts ≡ []
  unfolding all_before
  later_tasks-all_before d [] h = refl
  later_tasks-all_before d (t ∷ ts) h =
      let soon : (ltb d t.description.deadline ≡ false) × (all_before estimate d ts ≡ true) =
        ground (arith, h) in
      let not_later : (all_later d ts && ltb d t.description.deadline) ≡ false =
        ground (arith, soon.0) in
      rw not_later (later_tasks-all_before d ts soon.1)

  -- The last start of a task before others that have a limit of their own.
  limit_step :
      (dl later : ℕ) (t : Task) (ts : List Task)
      → dl ≡ t.description.deadline
      → (0 < later → AreOnTime later ts)
      → let l = (if ltb dl later then dl else later) - estimate t in 0 < l → AreOnTime l (t ∷ ts)
  limit_step dl later t ts e h pos =
      let l = (if ltb dl later then dl else later) - estimate t in
      let ends : (l + estimate t ≤ dl) × (l + estimate t ≤ later) × (0 < later) =
        ground (arith, pos) in
      (omega (arith, e, ends.0), AreOnTime-earlier (l + estimate t) later ts ends.1 (h ends.2))

  limit_of_lem :
      (d limit : ℕ) (ts : List Task)
      → let r = limit_of estimate d limit ts in
        (r.1 ≡ all_later d ts) × (0 < r.0 → AreOnTime r.0 (later_tasks d ts))
  unfolding limit_of
  limit_of_lem d limit [] = (refl, λ h. tt)
  limit_of_lem d limit (t ∷ ts) =
      let (going, ih) = limit_of_lem d limit ts in
      let r = limit_of estimate d limit ts in
      let dl = t.description.deadline in
      let same : (r.1 && ltb d dl) ≡ (all_later d ts && ltb d dl) = ap (λ g. g && ltb d dl) going in
      elim (Bool-cases (all_later d ts && ltb d dl)) [
        | inl e ↦
            let all : all_later d ts ≡ true = ground (arith, e) in
            rw (same ∙ e, e)
              (
                refl,
                limit_step dl r.0 t ts refl
                    (subst (λ us. 0 < r.0 → AreOnTime r.0 us) (later_tasks-all_later d ts all) ih),
              )
        | inr e ↦ rw (same ∙ e, e) (refl, ih)
      ]

  -- The time that a queue leaves before a deadline.
  free_time_lem :
      (now d : ℕ) (ts : List Task)
      → let r = free_time estimate now d ts in
        (r.0 ≡ busy_until now d ts)
        × (r.1 ≤ d)
        × (0 < r.1 → AreOnTime r.1 (later_tasks d (behind ts)))
  unfolding start_behind limit_of
  free_time_lem now d [] = (refl, omega arith, λ h. tt)
  free_time_lem now d (t ∷ ts) =
      let start = start_behind_lem d (now + estimate t) ts in
      elim (Bool-cases (all_before estimate d ts)) [
        | inl e ↦
            let none_later = later_tasks-all_before d ts e in
            rw e (start, omega arith, λ h. rw none_later tt)
        | inr e ↦
            let limit = (limit_of estimate d (last_deadline estimate d ts) ts).0 in
            let h = limit_of_lem d (last_deadline estimate d ts) ts in
            let small : (free_until estimate d ts ≤ d) × (free_until estimate d ts ≤ limit) =
              earliest limit d in
            rw e (
              start,
              small.0,
              λ pos.
                  AreOnTime-earlier (free_until estimate d ts) limit (later_tasks d ts) small.1
                    (h.1 (omega (arith, pos, small.1))),
            )
      ]

  -- A node of the policy DP with a queue, when it accepts some tasks of a bag. They are no more than the bag has, and their
  -- work fits between two times: the time at which the first task of the queue has ended, and those behind it whose
  -- deadlines are not later than the bag's, and a time that is not after the deadline of the bag and lets the tasks at the
  -- end of the queue, which all have a later deadline, follow one after the other and end before their deadlines.
  pub dp_acceptable_fits :
      (work : ℕ → ℕ) (now : ℕ) (ts : List Task) (msg : TaskBag)
      → 0 < now
      → let n = dp_acceptable estimate work now ts msg in
        let d = msg.min_requirements.deadline in
        let start = busy_until now d ts in
        0 < n
        → (n ≤ num_tasks msg)
          × (end : ℕ) × (start ≤ end)
          × (end ≤ d)
          × (n * msg.min_requirements.length ≤ work (end - start))
          × AreOnTime end (later_tasks d (behind ts))
  unfolding dp_acceptable
  dp_acceptable_fits work now ts msg clock some_task =
      let d = msg.min_requirements.deadline in
      let (starts, ends, on_time) = free_time_lem now d ts in
      let r = free_time estimate now d ts in
      let few =
        slots-le (get_availability_before estimate work now d ts) msg.min_requirements.length
          (num_tasks msg) in
      let late =
        slots_none (ltb r.1 r.0) (work (r.1 - r.0)) msg.min_requirements.length (num_tasks msg)
          some_task in
      let positive = busy_until-pos now d ts clock in
      (
        few.0,
        r.1,
        ground (arith, late, starts),
        ends,
        subst (λ x. dp_acceptable estimate work now ts msg * msg.min_requirements.length ≤ x)
            (ap (λ b. if b then 0 else work (r.1 - r.0)) late ∙ ap (λ s. work (r.1 - s)) starts)
            few.1,
        on_time (ground (arith, late, starts, positive)),
      )
