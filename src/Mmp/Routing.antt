-- ===== src/Mmp/Routing.antt =====
-- src/lib/scheduling/policies/MMPDispatcher.cpp: how a bag of tasks is shared out among the children so that their queues end at
-- the same time, and what the children are told of the rest of the tree.
use stars.Prelude.{
  ℕ, ◌+◌, ◌-◌, ◌*◌, ◌%◌, Bool, true, false, not, ◌&&◌, ◌||◌, Option, none, some, List, [], ◌∷◌,
  ◌++◌, get_elem?, set, ltb, ◌==◌, if◌then◌else◌, u32,
}
use stars.Address.{Address, null, same}
use stars.Float.{Float, seconds}
use stars.Scheduler.Interface.{TaskBag, TaskDescription}
use stars.Dispatcher.Interface.{Info, Branch, Side, left, right}
use stars.Dispatcher.{Link, Dispatcher, Env, emit, send_bag, link_of, branch_info}
use stars.Dispatcher.Requests.{check_state, send_tasks}
use stars.Ibp.{set_limits, extend}
use stars.Mmp.{
  MdptCluster, MmpInfo, no_queues, room, found, until, balanced_queue, update_availability,
  update_maximum_queue,
}

abbrev pub later : ℕ → ℕ → ℕ
later a b = if ltb b a then a else b

-- getChildInfo() of a child, from what the father and the other child tell.
unfoldable pub child_info : ℕ → Option MmpInfo → Option MmpInfo → Option MmpInfo
child_info now none none = none
child_info now none (some o) = some (record (no_queues now) { max_queue = o.max_queue })
child_info now (some f) none = some (record (no_queues now) { max_queue = f.max_queue })
child_info now (some f) (some o) =
    some (record (no_queues now) { max_queue = later f.max_queue o.max_queue })

abbrev pub put_waiting : Bool → Option MmpInfo → Link MmpInfo → Link MmpInfo
put_waiting leaf o l = if leaf then l else record l { waiting = o }

-- recomputeChildrenInfo()
unfoldable pub recompute_children : ℕ → Branch → Dispatcher MmpInfo → Dispatcher MmpInfo
recompute_children now b d = record d {
  left_link =
      put_waiting (b.is_leaf left) (child_info now d.father.avail d.right_link.avail) d.left_link;
  right_link =
      put_waiting (b.is_leaf right) (child_info now d.father.avail d.left_link.avail) d.right_link;
}

-- DecissionInfo; the cluster is the one at an index of the summary of a child.
pub record DecisionInfo (F : Type 0) : Type 0 where
  pub branch : Side
  pub index : ℕ
  pub distance : ℕ
  pub availability : F
  pub num_tasks : ℕ

-- The summaries of both children, numTasks and remainingTasks.
pub record Division : Type 0 where
  pub left_summary : List MdptCluster
  pub right_summary : List MdptCluster
  pub n_left : ℕ
  pub n_right : ℕ
  pub remaining_tasks : ℕ

abbrev pub summary_of : Side → Division → List MdptCluster
summary_of left s = s.left_summary
summary_of right s = s.right_summary

abbrev pub fill : ℕ → Option MdptCluster → ℕ → List MdptCluster → List MdptCluster
fill t none index cs = cs
fill t (some c) index cs = set cs index (update_maximum_queue t c)

abbrev pub give : ℕ → Side → ℕ → ℕ → Division → Division
give t left index taken s = record s {
  left_summary = fill t (get_elem? s.left_summary index) index s.left_summary;
  n_left = (s.n_left + taken) % u32;
  remaining_tasks = s.remaining_tasks - taken;
}
give t right index taken s = record s {
  right_summary = fill t (get_elem? s.right_summary index) index s.right_summary;
  n_right = (s.n_right + taken) % u32;
  remaining_tasks = s.remaining_tasks - taken;
}

abbrev pub summary_in : Option MmpInfo → List MdptCluster
summary_in none = []
summary_in (some i) = i.summary

-- A child whose clusters have been filled until `t`, with updateMaxT().
abbrev pub put_filled : ℕ → List MdptCluster → ℕ → Link MmpInfo → Option MmpInfo → Link MmpInfo
put_filled t cs n l none = l
put_filled t cs n l (some i) =
    let filled = record i { summary = cs } in
    record l {
      avail = some (
          if n == 0
          then filled
          else record filled { queue_range = extend i.queue_range (set_limits t) });
    }

module _ {F : Type 0} (fl : Float F) where
  -- Its constructor.
  abbrev pub decide : TaskDescription → Side → ℕ → MdptCluster → ℕ → DecisionInfo F
  decide req c index m dist =
      let one_task_time = fl.div (fl.of_nat req.length) (fl.of_nat m.min_p.parameter) in
      let time = seconds fl req.deadline m.max_t.parameter in
      let lost_memory = (m.min_m.parameter + u32 - req.max_memory) % u32 in
      let lost_disk = (m.min_d.parameter + u32 - req.max_disk) % u32 in
      record {
        branch = c;
        index = index;
        distance = dist;
        availability =
            fl.add (fl.of_nat ((10 * lost_memory + 1 * lost_disk) % u32))
              (fl.div (fl.of_nat 100) (fl.add time one_task_time));
        num_tasks = fl.to_nat (fl.mul (fl.of_nat m.value) (fl.div time one_task_time));
      }

  -- operator<
  abbrev pub better : DecisionInfo F → DecisionInfo F → Bool
  better l r =
      fl.lt l.availability r.availability
      || fl.eq l.availability r.availability && ltb l.distance r.distance

  abbrev pub decide_one :
      TaskDescription
      → Side
      → ℕ
      → ℕ
      → Option MdptCluster
      → List (DecisionInfo F)
      → List (DecisionInfo F)
  decide_one req c dist index none gs = gs
  decide_one req c dist index (some m) gs = decide req c index m dist ∷ gs

  -- The groups of the clusters at some positions.
  unfoldable pub decide_all :
      TaskDescription → Side → ℕ → List MdptCluster → List ℕ → List (DecisionInfo F)
  decide_all req c dist cs [] = []
  decide_all req c dist cs (index ∷ rest) =
      decide_one req c dist index (get_elem? cs index) (decide_all req c dist cs rest)

  -- list::sort, which is stable.
  unfoldable pub insert_group : DecisionInfo F → List (DecisionInfo F) → List (DecisionInfo F)
  insert_group g [] = g ∷ []
  insert_group g (h ∷ hs) =
      let rest = insert_group g hs in if better h g then h ∷ rest else g ∷ h ∷ hs

  unfoldable pub sort_groups : List (DecisionInfo F) → List (DecisionInfo F)
  sort_groups [] = []
  sort_groups (g ∷ gs) = insert_group g (sort_groups gs)

  -- The body of the loop.
  unfoldable pub use_group : ℕ → DecisionInfo F → Division → Division
  use_group t g s =
      if ltb g.num_tasks s.remaining_tasks
      then give t g.branch g.index g.num_tasks s
      else give t g.branch g.index s.remaining_tasks s

  unfoldable pub divide : ℕ → List (DecisionInfo F) → Division → Division
  divide t [] s = s
  divide t (g ∷ gs) s =
      let rest = divide t gs (use_group t g s) in if s.remaining_tasks == 0 then s else rest

  -- The groups of one child.
  unfoldable pub groups_of :
      ℕ → Branch → TaskBag → TaskDescription → Side → Dispatcher MmpInfo → List (DecisionInfo F)
  unfolding decide_all found
  groups_of now b msg req c d =
      let cs = summary_in (link_of c d).avail in
      decide_all req c (b.distance c msg.requester) cs (found fl now req 0 cs)

  -- The tasks that a bag asks for.
  abbrev pub num_tasks : TaskBag → ℕ
  num_tasks msg = (msg.last_task + u32 - msg.first_task + 1) % u32

  unfoldable pub share_out : ℕ → Branch → TaskBag → TaskDescription → Dispatcher MmpInfo → Division
  unfolding divide sort_groups
  share_out now b msg req d =
      divide req.deadline
        (sort_groups (groups_of now b msg req left d ++ groups_of now b msg req right d))
        (record {
          left_summary = summary_in d.left_link.avail;
          right_summary = summary_in d.right_link.avail;
          n_left = 0;
          n_right = 0;
          remaining_tasks = num_tasks msg;
        })

  -- The links after a division, of which the father's tells the branch's new queues.
  unfoldable pub put_shares :
      ℕ → MmpInfo → TaskDescription → Division → Dispatcher MmpInfo → Dispatcher MmpInfo
  unfolding update_availability
  put_shares now zone req s d = record d {
    father = record d.father { waiting = some (update_availability fl now req zone) };
    left_link = put_filled req.deadline s.left_summary s.n_left d.left_link d.left_link.avail;
    right_link = put_filled req.deadline s.right_summary s.n_right d.right_link d.right_link.avail;
  }

  module _ (info : Info MmpInfo) (beta : F) where
    -- The time until when a node takes tasks before the rest of the tree does: the part `beta` of the longest queue there.
    abbrev pub rest_of_tree : ℕ → Option MmpInfo → ℕ
    rest_of_tree now none = now
    rest_of_tree now (some f) = later f.max_queue now

    abbrev pub fair_time : ℕ → Dispatcher MmpInfo → ℕ
    fair_time now d =
        now + fl.to_nat (fl.mul (fl.of_diff (rest_of_tree now d.father.avail) now) beta)

    -- Whether a bag goes to the father as a whole.
    unfoldable pub passes_up : ℕ → Address → TaskBag → MmpInfo → Dispatcher MmpInfo → Bool
    unfolding room same
    passes_up now src msg zone d =
        let req = until fl now msg.min_requirements (fair_time now d) in
        not (same d.father.addr null)
        && (ltb (room fl now req 0 zone.summary) (num_tasks msg)
            && (not (same src d.father.addr) || msg.from_en))

    abbrev pub pass_up : TaskBag → Dispatcher MmpInfo → Dispatcher MmpInfo
    pass_up msg d = emit (send_bag d.father.addr (record msg { from_en = false })) d

    -- The bag is shared out so that the queues end at `t`.
    unfoldable pub share :
        ℕ → Branch → TaskBag → MmpInfo → ℕ → Dispatcher MmpInfo → Dispatcher MmpInfo
    unfolding share_out put_shares
    share now b msg zone t d =
        let req = until fl now msg.min_requirements t in
        let s = share_out now b msg req d in
        send_tasks info b msg s.n_left s.n_right true (put_shares now zone req s d)

    abbrev pub share_at :
        ℕ → Branch → TaskBag → MmpInfo → Option ℕ → Dispatcher MmpInfo → Dispatcher MmpInfo
    share_at now b msg zone none d = d
    share_at now b msg zone (some t) d = if t == 0 then d else share now b msg zone t d

    abbrev pub route :
        ℕ → Branch → Address → TaskBag → Option MmpInfo → Dispatcher MmpInfo → Dispatcher MmpInfo
    route now b src msg none d = d
    route now b src msg (some zone) d =
        if passes_up now src msg zone d
        then pass_up msg d
        else share_at now b msg zone
            (balanced_queue fl now msg.min_requirements (num_tasks msg) zone.summary) d

    -- handle() of a TaskBagMsg.
    unfoldable pub handle_task_bag :
        Env → Branch → Address → TaskBag → Dispatcher MmpInfo → Dispatcher MmpInfo
    unfolding check_state passes_up balanced_queue share
    handle_task_bag env b src msg d =
        if msg.for_en || not (check_state info b d)
        then d
        else route env.now b src msg (branch_info d) d
