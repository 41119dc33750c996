-- ===== src/Ibp/Routing.antt =====
-- src/lib/scheduling/policies/IBPDispatcher.cpp: how a bag of tasks is shared out among the children.
use stars.Prelude.{
  ℕ, suc, ◌+◌, ◌-◌, ◌*◌, ◌%◌, Bool, true, not, ◌&&◌, ◌||◌, Option, none, some, List, [], ◌∷◌, ◌++◌,
  get_elem?, set, ltb, ◌==◌, if◌then◌else◌, u32,
}
use stars.Address.{Address, same}
use stars.Scheduler.Interface.{TaskBag, TaskDescription}
use stars.Dispatcher.Interface.{Info, Branch, Side, left, right}
use stars.Dispatcher.{Link, Dispatcher, Env, link_of, recompute_info, notify}
use stars.Dispatcher.Requests.{send_tasks}
use stars.Ibp.{IbpInfo, MdCluster, fulfills, remaining, take_up_to_nodes, updated}

-- DecisionInfo; the cluster that it refers to is the one at an index of the summary of a child.
pub record DecisionInfo : Type 0 where
  pub branch : Side
  pub index : ℕ
  pub distance : ℕ
  pub availability : ℕ

-- The constructor.
abbrev pub decide : TaskDescription → Side → ℕ → MdCluster → ℕ → DecisionInfo
decide req c index m dist = record {
  branch = c;
  index = index;
  distance = dist;
  availability = (remaining m.min_m req.max_memory * 10 + remaining m.min_d req.max_disk * 1) % u32;
}

-- operator<
abbrev pub better : DecisionInfo → DecisionInfo → Bool
better l r =
    ltb l.availability r.availability
    || l.availability == r.availability && ltb l.distance r.distance

-- The groups of getAvailability() in a summary, from an index on.
unfoldable pub groups_in : TaskDescription → Side → ℕ → ℕ → List MdCluster → List DecisionInfo
groups_in req c dist index [] = []
groups_in req c dist index (m ∷ ms) =
    let rest = groups_in req c dist (suc index) ms in
    if fulfills req m then decide req c index m dist ∷ rest else rest

-- list::sort, which is stable.
unfoldable pub insert_group : DecisionInfo → List DecisionInfo → List DecisionInfo
insert_group g [] = g ∷ []
insert_group g (h ∷ hs) =
    let rest = insert_group g hs in if better h g then h ∷ rest else g ∷ h ∷ hs

unfoldable pub sort_groups : List DecisionInfo → List DecisionInfo
sort_groups [] = []
sort_groups (g ∷ gs) = insert_group g (sort_groups gs)

-- The summaries of both children, numTasks and remainingTasks.
pub record Division : Type 0 where
  pub left_summary : List MdCluster
  pub right_summary : List MdCluster
  pub n_left : ℕ
  pub n_right : ℕ
  pub remaining_tasks : ℕ

abbrev pub summary_of : Side → Division → List MdCluster
summary_of left s = s.left_summary
summary_of right s = s.right_summary

abbrev pub give : Side → List MdCluster → ℕ → Division → Division
give left cs taken s = record s {
  left_summary = cs;
  n_left = (s.n_left + taken) % u32;
  remaining_tasks = s.remaining_tasks - taken;
}
give right cs taken s = record s {
  right_summary = cs;
  n_right = (s.n_right + taken) % u32;
  remaining_tasks = s.remaining_tasks - taken;
}

abbrev pub use_cluster : DecisionInfo → Option MdCluster → Division → Division
use_cluster g none s = s
use_cluster g (some c) s =
    let (after, missing) = take_up_to_nodes s.remaining_tasks c in
    give g.branch (set (summary_of g.branch s) g.index after) (s.remaining_tasks - missing) s

-- The body of the loop.
unfoldable pub use_group : DecisionInfo → Division → Division
use_group g s = use_cluster g (get_elem? (summary_of g.branch s) g.index) s

unfoldable pub divide : List DecisionInfo → Division → Division
divide [] s = s
divide (g ∷ gs) s =
    let rest = divide gs (use_group g s) in if s.remaining_tasks == 0 then s else rest

abbrev pub summary_in : Option IbpInfo → List MdCluster
summary_in none = []
summary_in (some i) = i.summary

-- A child after it has got `n` tasks, with what is left of its nodes.
abbrev pub put_known : List MdCluster → ℕ → Link IbpInfo → Option IbpInfo → Link IbpInfo
put_known cs n l none = l
put_known cs n l (some i) =
    if n == 0
    then record l { avail = some (record i { summary = cs }) }
    else record l { avail = some (updated (record i { summary = cs })); has_new = true }

unfoldable pub put_link : List MdCluster → ℕ → Link IbpInfo → Link IbpInfo
put_link cs n l = put_known cs n l l.avail

abbrev pub put_shares : Division → Dispatcher IbpInfo → Dispatcher IbpInfo
put_shares s d = record d {
  left_link = put_link s.left_summary s.n_left d.left_link;
  right_link = put_link s.right_summary s.n_right d.right_link;
}

module _ (info : Info IbpInfo) where
  -- The groups of one child, unless it is the one that sent the request.
  unfoldable pub groups_of :
      Branch → Address → TaskBag → Side → Dispatcher IbpInfo → List DecisionInfo
  unfolding groups_in same
  groups_of b src msg c d =
      if msg.from_en || not (same (link_of c d).addr src)
      then groups_in msg.min_requirements c (b.distance c msg.requester) 0
          (summary_in (link_of c d).avail)
      else []

  -- The division of a request.
  unfoldable pub share_out : Branch → Address → TaskBag → Dispatcher IbpInfo → Division
  unfolding divide
  share_out b src msg d =
      divide (sort_groups (groups_of b src msg left d ++ groups_of b src msg right d)) (record {
        left_summary = summary_in d.left_link.avail;
        right_summary = summary_in d.right_link.avail;
        n_left = 0;
        n_right = 0;
        remaining_tasks = (msg.last_task + u32 - msg.first_task + 1) % u32;
      })

  -- handle() of a TaskBagMsg.
  unfoldable pub handle_task_bag :
      Env → Branch → Address → TaskBag → Dispatcher IbpInfo → Dispatcher IbpInfo
  handle_task_bag env b src msg d =
      let s = share_out b src msg d in
      let told = notify info env b (recompute_info info (put_shares s d)) in
      if msg.for_en
      then d
      else if not b.in_network
      then d
      else send_tasks info b msg s.n_left s.n_right (same b.father src) told
