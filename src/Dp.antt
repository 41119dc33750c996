-- ===== src/Dp.antt =====
-- src/lib/scheduling/policies/DPDispatcher.cpp: the dispatcher of the policy DP, with its cache of recent requests. Its
-- availability information, which works with functions of time in floating point, is an interface.
pub mod Cache
use stars.Prelude.{
  ℕ, ◌+◌, ◌-◌, ◌*◌, ◌%◌, Bool, true, false, not, ◌&&◌, ◌||◌, Option, none, some, List, [], ◌∷◌,
  ◌++◌, length, any, ltb, ◌==◌, if◌then◌else◌, u32,
}
use stars.Address.{Address, null, same}
use stars.Scheduler.Interface.{TaskBag, TaskDescription}
use stars.Dispatcher.Interface.{Info, Branch, Side, left, right}
use stars.Dispatcher.{Link, Dispatcher, Env, send_bag, emit, link_of, recompute_info, notify}
use stars.Dispatcher.Requests.{send_tasks}

-- AssignmentInfo; a cluster is its position in the summary.
pub record AssignmentInfo : Type 0 where
  pub cluster : ℕ
  pub remng_mem : ℕ
  pub remng_disk : ℕ
  pub remng_avail : ℕ
  pub num_tasks : ℕ

-- DPAvailabilityInformation, as the dispatcher uses it.
pub record DpInfo (T : Type 0) : Type 0 where
  pub get_availability : TaskDescription → T → List AssignmentInfo
  pub update : List AssignmentInfo → TaskDescription → T → T

-- DecissionInfo
pub record DecisionInfo : Type 0 where
  pub ai : AssignmentInfo
  pub branch : Side
  pub distance : ℕ
  pub availability : ℕ

-- Its constructor; the sum is one of 32-bit numbers.
abbrev pub decide : Side → ℕ → AssignmentInfo → DecisionInfo
decide c dist ai = record {
  ai = ai;
  branch = c;
  distance = dist;
  availability = (10 * ai.remng_mem + 1 * ai.remng_disk + 100 * ai.remng_avail) % u32;
}

-- operator<
abbrev pub better : DecisionInfo → DecisionInfo → Bool
better l r =
    ltb l.availability r.availability
    || l.availability == r.availability && ltb l.distance r.distance

unfoldable pub decide_all : Side → ℕ → List AssignmentInfo → List DecisionInfo
decide_all c dist [] = []
decide_all c dist (a ∷ rest) = decide c dist a ∷ decide_all c dist rest

-- list::sort, which is stable.
unfoldable pub insert_group : DecisionInfo → List DecisionInfo → List DecisionInfo
insert_group g [] = g ∷ []
insert_group g (h ∷ hs) =
    let rest = insert_group g hs in if better h g then h ∷ rest else g ∷ h ∷ hs

unfoldable pub sort_groups : List DecisionInfo → List DecisionInfo
sort_groups [] = []
sort_groups (g ∷ gs) = insert_group g (sort_groups gs)

-- RecentRequest
pub record RecentRequest : Type 0 where
  pub requester : Address
  pub request_id : ℕ
  pub when : ℕ

-- REQUEST_CACHE_TIME, in microseconds, and REQUEST_CACHE_SIZE
abbrev pub request_cache_time : ℕ
request_cache_time = 10000000

abbrev pub request_cache_size : ℕ
request_cache_size = 100

-- The members of the class.
pub record DpDispatcher (T : Type 0) : Type 0 where
  pub base : Dispatcher T
  pub recent_requests : List RecentRequest

abbrev pub is_request : TaskBag → RecentRequest → Bool
is_request msg r = r.request_id == msg.request_id && same r.requester msg.requester

-- The requests that are recent enough, as long as the first ones are the oldest.
unfoldable pub drop_old : ℕ → List RecentRequest → List RecentRequest
drop_old now [] = []
drop_old now (r ∷ rs) =
    let rest = drop_old now rs in if ltb (r.when + request_cache_time) now then rest else r ∷ rs

unfoldable pub erase_request : TaskBag → List RecentRequest → List RecentRequest
erase_request msg [] = []
erase_request msg (r ∷ rs) =
    let rest = erase_request msg rs in if is_request msg r then rs else r ∷ rest

abbrev pub new_request : ℕ → TaskBag → RecentRequest
new_request now msg = record { requester = msg.requester; request_id = msg.request_id; when = now }

abbrev pub pop_front : List RecentRequest → List RecentRequest
pop_front [] = []
pop_front (r ∷ rs) = rs

-- The cache with a new request.
unfoldable pub remember : RecentRequest → List RecentRequest → List RecentRequest
remember r rs =
    let more = rs ++ r ∷ [] in if ltb request_cache_size (length more) then pop_front more else more

-- numTasks, remainingTasks and assign.
pub record Division : Type 0 where
  pub n_left : ℕ
  pub n_right : ℕ
  pub remaining_tasks : ℕ
  pub assign_left : List AssignmentInfo
  pub assign_right : List AssignmentInfo

abbrev pub assign : Side → AssignmentInfo → ℕ → Division → Division
assign left a taken s = record s {
  n_left = (s.n_left + taken) % u32;
  remaining_tasks = s.remaining_tasks - taken;
  assign_left = s.assign_left ++ record a { num_tasks = taken } ∷ [];
}
assign right a taken s = record s {
  n_right = (s.n_right + taken) % u32;
  remaining_tasks = s.remaining_tasks - taken;
  assign_right = s.assign_right ++ record a { num_tasks = taken } ∷ [];
}

-- The body of the loop.
unfoldable pub use_group : DecisionInfo → Division → Division
use_group g s =
    if ltb g.ai.num_tasks s.remaining_tasks
    then assign g.branch g.ai g.ai.num_tasks s
    else assign g.branch g.ai s.remaining_tasks s

unfoldable pub divide : List DecisionInfo → Division → Division
divide [] s = s
divide (g ∷ gs) s =
    let rest = divide gs (use_group g s) in if s.remaining_tasks == 0 then s else rest

module _ {T : Type 0} (info : Info T) (dp : DpInfo T) where
  abbrev pub offers : TaskDescription → Option T → List AssignmentInfo
  offers req none = []
  offers req (some i) = dp.get_availability req i

  -- The groups of one child, unless it is the one that sent the request.
  unfoldable pub groups_of : Branch → Address → TaskBag → Side → Dispatcher T → List DecisionInfo
  unfolding decide_all same
  groups_of b src msg c d =
      if msg.from_en || not (same (link_of c d).addr src)
      then decide_all c (b.distance c msg.requester)
          (offers msg.min_requirements (link_of c d).avail)
      else []

  unfoldable pub share_out : Branch → Address → TaskBag → Dispatcher T → Division
  unfolding divide sort_groups
  share_out b src msg d =
      divide (sort_groups (groups_of b src msg left d ++ groups_of b src msg right d)) (record {
        n_left = 0;
        n_right = 0;
        remaining_tasks = (msg.last_task + u32 - msg.first_task + 1) % u32;
        assign_left = [];
        assign_right = [];
      })

  abbrev pub update_link : TaskDescription → List AssignmentInfo → Link T → Link T
  update_link req ais l = elim l.avail [
    | none ↦ l
    | some i ↦ record l { avail = some (dp.update ais req i); has_new = true }
  ]

  unfoldable pub route : Env → Branch → Address → TaskBag → Dispatcher T → Dispatcher T
  unfolding same
  route env b src msg d =
      let s = share_out b src msg d in
      let updated = record d {
        left_link = update_link msg.min_requirements s.assign_left d.left_link;
        right_link = update_link msg.min_requirements s.assign_right d.right_link;
      } in
      send_tasks info b msg s.n_left s.n_right (same updated.father.addr null)
        (notify info env b (recompute_info info updated))

  abbrev pub pass_on : TaskBag → Dispatcher T → Dispatcher T
  pass_on msg d = if same d.father.addr null then d else emit (send_bag d.father.addr msg) d

  -- handle() of a TaskBagMsg, once it is known to be for this node.
  abbrev pub look_up : Env → Branch → Address → TaskBag → DpDispatcher T → DpDispatcher T
  look_up env b src msg d =
      let recent = drop_old env.now d.recent_requests in
      let new = new_request env.now msg in
      if any (is_request msg) recent
      then record {
        base = pass_on msg d.base;
        recent_requests = erase_request msg recent ++ new ∷ [];
      }
      else record { base = route env b src msg d.base; recent_requests = remember new recent }

  -- handle() of a TaskBagMsg.
  unfoldable pub handle_task_bag :
      Env → Branch → Address → TaskBag → DpDispatcher T → DpDispatcher T
  unfolding drop_old erase_request remember same
  handle_task_bag env b src msg d =
      if msg.for_en then d else if b.in_network then look_up env b src msg d else d
