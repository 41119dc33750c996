-- ===== src/Mmp/Sharing.antt =====
-- What becomes of a bag of tasks at a dispatcher of the policy MMP, Mmp.Routing.handle_task_bag.
use mathlib.Core.List.{append-nil}
use stars.Prelude.{
  ℕ, ◌+◌, ◌-◌, ◌≤◌, ◌<◌, ◌≡◌, refl, ◌⊎◌, inl, inr, ◌∙◌, ap, true, false, Option, none, some, List,
  [], ◌∷◌, ◌++◌, ltb, ◌==◌, if◌then◌else◌, u32, arith, is_some, Bool-cases,
}
use stars.Address.{Address}
use stars.Float.{Float}
use stars.Scheduler.Interface.{TaskBag, TaskDescription}
use stars.Dispatcher.Interface.{Info, Branch, Side, left, right}
use stars.Dispatcher.{Link, Dispatcher, Env, branch_info}
use stars.Dispatcher.Requests.{check_state, goes_up}
use stars.Dispatcher.Tasks.{tasks_from, at, sent, IsKnown, send_tasks-sent}
use stars.Mmp.{MmpInfo, MdptCluster, balanced_queue, until}
use stars.Mmp.Balance.{limit, le-limit, balanced_queue-IsFirstLimit}
use stars.Mmp.Routing.{
  DecisionInfo, Division, give, use_group, divide, groups_of, sort_groups, share_out, summary_in,
  num_tasks, put_shares, put_filled, passes_up, pass_up, share, share_at, route, handle_task_bag,
}

-- The tasks that a division has given away or still has.
abbrev all_of : Division → ℕ
all_of s = s.n_left + s.n_right + s.remaining_tasks

give-all_of :
    (t : ℕ) (c : Side) (index taken : ℕ) (s : Division)
    → taken ≤ s.remaining_tasks
    → all_of s < u32
    → let r = give t c index taken s in
      (all_of r ≡ all_of s) × (r.remaining_tasks + taken ≡ s.remaining_tasks)
give-all_of t left index taken s h k = (omega arith, omega arith)
give-all_of t right index taken s h k = (omega arith, omega arith)

rest_of :
    {r mid before : ℕ} (n m : ℕ)
    → (mid ≡ 0) ⊎ (mid + n ≡ before)
    → (r ≡ 0) ⊎ (r + m ≡ mid)
    → (r ≡ 0) ⊎ (r + (n + m) ≡ before)
rest_of n m h (inl e) = inl e
rest_of n m (inl e) (inr k) = inl (omega arith)
rest_of n m (inr e) (inr k) = inr (omega arith)

later_ne : (a b : ℕ) → 0 < a → a ≤ b → (b == 0) ≡ false
later_ne a b h k = ground arith

none_up :
    (info : Info MmpInfo) (b : Branch) (up : List (Address × ℕ))
    → (if goes_up info b true then up else []) ≡ []
none_up info b up = ground arith

module _ {F : Type 0} (fl : Float F) where
  -- The tasks that fit into some groups.
  abbrev pub asked : List (DecisionInfo F) → ℕ
  asked [] = 0
  asked (g ∷ gs) = g.num_tasks + asked gs

  use_group-all_of :
      (t : ℕ) (g : DecisionInfo F) (s : Division)
      → all_of s < u32
      → let r = use_group fl t g s in
        (all_of r ≡ all_of s)
        × ((r.remaining_tasks ≡ 0) ⊎ (r.remaining_tasks + g.num_tasks ≡ s.remaining_tasks))
  unfolding use_group
  use_group-all_of t g s k = elim (Bool-cases (ltb g.num_tasks s.remaining_tasks)) [
    | inl fits ↦
        let h = give-all_of t g.branch g.index g.num_tasks s (ground (arith, fits)) k in
        rw fits (h.0, inr h.1)
    | inr fills ↦
        let h = give-all_of t g.branch g.index s.remaining_tasks s (omega arith) k in
        rw fills (h.0, inl (omega (arith, h.1)))
  ]

  -- A division gives each task away once or keeps it, and keeps some only when all groups are full.
  divide_lem :
      (t : ℕ) (gs : List (DecisionInfo F)) (s : Division)
      → all_of s < u32
      → let r = divide fl t gs s in
        (all_of r ≡ all_of s)
        × ((r.remaining_tasks ≡ 0) ⊎ (r.remaining_tasks + asked gs ≡ s.remaining_tasks))
  unfolding divide
  divide_lem t [] s k = (refl, inr (omega arith))
  divide_lem t (g ∷ gs) s k = elim (Bool-cases (s.remaining_tasks == 0)) [
    | inl done ↦ rw done (refl, inl (ground arith))
    | inr more ↦
        let h = use_group-all_of t g s k in
        let ih = divide_lem t gs (use_group fl t g s) (omega (arith, h.0)) in
        rw more (ih.0 ∙ h.0, rest_of g.num_tasks (asked gs) h.1 ih.1)
  ]

  -- The groups that a bag may be given to.
  abbrev pub groups :
      ℕ → Branch → TaskBag → TaskDescription → Dispatcher MmpInfo → List (DecisionInfo F)
  groups now b msg req d =
      sort_groups fl (groups_of fl now b msg req left d ++ groups_of fl now b msg req right d)

  share_out_lem :
      (now : ℕ) (b : Branch) (msg : TaskBag) (req : TaskDescription) (d : Dispatcher MmpInfo)
      → msg.first_task ≤ msg.last_task
      → msg.last_task + 1 < u32
      → let s = share_out fl now b msg req d in
        (all_of s ≡ msg.last_task + 1 - msg.first_task)
        × ((s.remaining_tasks ≡ 0) ⊎ (s.n_left + s.n_right ≡ asked (groups now b msg req d)))
  unfolding share_out
  share_out_lem now b msg req d ordered small =
      let n = num_tasks fl msg in
      let all : n ≡ msg.last_task + 1 - msg.first_task = omega arith in
      let h =
        divide_lem req.deadline (groups now b msg req d)
          (record {
            left_summary = summary_in d.left_link.avail;
            right_summary = summary_in d.right_link.avail;
            n_left = 0;
            n_right = 0;
            remaining_tasks = n;
          })
          (omega arith) in
      (omega (arith, h.0), elim h.1 [ inl e ↦ inl e | inr e ↦ inr (omega (arith, e, h.0)) ])

  put_filled-kept :
      (t : ℕ) (cs : List MdptCluster) (n : ℕ) (l : Link MmpInfo) (o : Option MmpInfo)
      → is_some o ≡ true
      → let m = put_filled t cs n l o in (m.addr ≡ l.addr) × IsKnown n m.avail
  put_filled-kept t cs n l none h = cc
  put_filled-kept t cs n l (some i) h = (refl, λ some_tasks e. cc)

  module _ (info : Info MmpInfo) (beta : F) where
    share-sent :
        (now : ℕ) (b : Branch) (msg : TaskBag) (zone : MmpInfo) (t : ℕ) (d : Dispatcher MmpInfo)
        → msg.first_task ≤ msg.last_task
        → msg.last_task + 1 < u32
        → is_some d.left_link.avail ≡ true
        → is_some d.right_link.avail ≡ true
        → let s = share_out fl now b msg (until fl now msg.min_requirements t) d in
          let first = msg.first_task in
          sent (share fl info beta now b msg zone t d).out
          ≡ (sent d.out ++ at d.left_link.addr (tasks_from first s.n_left))
            ++ at d.right_link.addr (tasks_from (first + s.n_left) s.n_right)
    unfolding share put_shares
    share-sent now b msg zone t d ordered small has_left has_right =
        let req = until fl now msg.min_requirements t in
        let s = share_out fl now b msg req d in
        let h = share_out_lem now b msg req d ordered small in
        let l = put_filled-kept t s.left_summary s.n_left d.left_link d.left_link.avail has_left in
        let r =
          put_filled-kept t s.right_summary s.n_right d.right_link d.right_link.avail has_right in
        let tasks =
          send_tasks-sent info b msg s.n_left s.n_right true (put_shares fl now zone req s d) small
            (omega (arith, h.0)) l.1 r.1 (λ e. cc) in
        tasks.0
        ∙ ap
            (λ up.
              ((sent d.out
                  ++ at (put_shares fl now zone req s d).left_link.addr
                      (tasks_from msg.first_task s.n_left))
                ++ at (put_shares fl now zone req s d).right_link.addr
                    (tasks_from (msg.first_task + s.n_left) s.n_right))
              ++ up)
            (none_up info b (
              at b.father (
                tasks_from (msg.first_task + s.n_left + s.n_right)
                  (msg.last_task + 1 - (msg.first_task + s.n_left + s.n_right)))))
        ∙ append-nil _
        ∙ ap
            (λ a.
              (sent d.out ++ at a (tasks_from msg.first_task s.n_left))
              ++ at (put_shares fl now zone req s d).right_link.addr
                  (tasks_from (msg.first_task + s.n_left) s.n_right))
            l.0
        ∙ ap
            (λ a.
              (sent d.out ++ at d.left_link.addr (tasks_from msg.first_task s.n_left))
              ++ at a (tasks_from (msg.first_task + s.n_left) s.n_right))
            r.0

    -- A bag that is not for an execution node, at a node whose children have both told what they offer. Either it goes to
    -- the father as a whole, and nothing else changes, or it is shared out for one of the limits: the left child is sent
    -- the first tasks and the right child the next ones. The others are dropped, and there are some only if the groups with
    -- room before that limit have no place for more.
    pub handle_task_bag-balances :
        (env : Env) (b : Branch) (src : Address) (msg : TaskBag) (zone : MmpInfo)
        (d : Dispatcher MmpInfo)
        → msg.for_en ≡ false
        → check_state info b d ≡ true
        → branch_info d ≡ some zone
        → 0 < env.now
        → msg.first_task ≤ msg.last_task
        → msg.last_task + 1 < u32
        → is_some d.left_link.avail ≡ true
        → is_some d.right_link.avail ≡ true
        → let e = handle_task_bag fl info beta env b src msg d in
          let first = msg.first_task in
          ((passes_up fl info beta env.now src msg zone d ≡ true)
            × (e ≡ pass_up fl info beta msg d))
          ⊎ ((passes_up fl info beta env.now src msg zone d ≡ false)
              × ((k : ℕ) × (let req = until fl env.now msg.min_requirements (limit env.now k) in
                    let s = share_out fl env.now b msg req d in
                    (balanced_queue fl env.now msg.min_requirements (num_tasks fl msg) zone.summary
                      ≡ some (limit env.now k))
                    × (sent e.out
                        ≡ (sent d.out ++ at d.left_link.addr (tasks_from first s.n_left))
                          ++ at d.right_link.addr (tasks_from (first + s.n_left) s.n_right))
                    × (s.n_left + s.n_right + s.remaining_tasks ≡ msg.last_task + 1 - first)
                    × ((s.remaining_tasks ≡ 0)
                        ⊎ (s.n_left + s.n_right ≡ asked (groups env.now b msg req d))))))
    unfolding handle_task_bag
    handle_task_bag-balances env b src msg zone d not_en ready known clock ordered small has_left
          has_right =
        let now = env.now in
        let n = num_tasks fl msg in
        let routed : handle_task_bag fl info beta env b src msg d
            ≡ route fl info beta now b src msg (some zone) d =
          rw (not_en, ready, known) refl in
        elim (Bool-cases (passes_up fl info beta now src msg zone d)) [
          | inl up ↦ inl (
            up,
            routed
                ∙ ap
                    (λ c.
                      if c
                      then pass_up fl info beta msg d
                      else share_at fl info beta now b msg zone
                          (balanced_queue fl now msg.min_requirements n zone.summary) d)
                    up,
          )
          | inr down ↦
              let (k, le, found, enough, before) =
                balanced_queue-IsFirstLimit fl now msg.min_requirements n zone.summary in
              let req = until fl now msg.min_requirements (limit now k) in
              let h = share_out_lem now b msg req d ordered small in
              let at_limit : ((limit now k) == 0) ≡ false =
                later_ne now (limit now k) clock (le-limit now k) in
              let shared : route fl info beta now b src msg (some zone) d
                  ≡ share fl info beta now b msg zone (limit now k) d =
                ap
                  (λ c.
                    if c
                    then pass_up fl info beta msg d
                    else share_at fl info beta now b msg zone
                        (balanced_queue fl now msg.min_requirements n zone.summary) d)
                  down
                ∙ ap (λ o. share_at fl info beta now b msg zone o d) found
                ∙ ap (λ c. if c then d else share fl info beta now b msg zone (limit now k) d)
                    at_limit in
              inr (
                down,
                (
                  k,
                  (
                    found,
                    ap (λ (x : Dispatcher MmpInfo). sent x.out) (routed ∙ shared)
                        ∙ share-sent now b msg zone (limit now k) d ordered small has_left
                            has_right,
                    h.0,
                    h.1,
                  ),
                ),
              )
        ]
