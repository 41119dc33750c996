-- ===== src/Dispatcher.antt =====
-- include/Dispatcher.hpp: the component of an inner node of the tree that collects what its children offer,
-- tells its father and children, and routes bags of tasks.
pub mod Interface
pub mod Updates
pub mod Changes
pub mod Requests
pub mod Tasks
pub mod Kept
use stars.Prelude.{
  ℕ, ◌+◌, ◌%◌, Bool, true, false, not, ◌&&◌, ◌||◌, Option, none, some, List, [], ◌∷◌, ◌++◌, ltb,
  leb, ◌==◌, if◌then◌else◌, is_some, u32,
}
use stars.Address.{Address, null, same}
use stars.Scheduler.Interface.{TaskBag}
use Interface.{Info, Branch, Side, left, right}

-- Dispatcher::Link
pub record Link (T : Type 0) : Type 0 where
  pub addr : Address
  pub avail : Option T
  pub waiting : Option T
  pub notified : Option T
  pub has_new : Bool

-- Link(a)
abbrev pub new_link : {T : Type 0} → Address → Link T
new_link a = record { addr = a; avail = none; waiting = none; notified = none; has_new = true }

-- Link() of an address that is known in the network only.
abbrev link_if : {T : Type 0} → Branch → Address → Link T
link_if b a = new_link (if b.in_network then a else null)

-- What the dispatcher asks of CommLayer; `undefined` marks a read through a null pointer.
pub data Effect (T : Type 0) : Type 0 where
  send_info : Address → T → Effect T
  send_bag : Address → TaskBag → Effect T
  set_timer : ℕ → Effect T
  undefined : Effect T

-- The members of the class, and in `out` the calls that left the node, the latest first.
pub record Dispatcher (T : Type 0) : Type 0 where
  pub father : Link T
  pub left_link : Link T
  pub right_link : Link T
  pub delayed : List (Address × T)
  pub update_timer : ℕ
  pub next_update : ℕ
  pub in_change : Bool
  pub out : List (Effect T)

-- Dispatcher()
abbrev pub create : {T : Type 0} → Branch → Dispatcher T
create b = record {
  father = link_if b b.father;
  left_link = link_if b (b.child left);
  right_link = link_if b (b.child right);
  delayed = [];
  update_timer = 0;
  next_update = 0;
  in_change = false;
  out = [];
}

-- The clock, the number that the next call of setTimer() returns, and the time that a number of bytes
-- takes at the configured bandwidth.
pub record Env : Type 0 where
  pub now : ℕ
  pub timer_id : ℕ
  pub sending_time : ℕ → ℕ

abbrev pub emit : {T : Type 0} → Effect T → Dispatcher T → Dispatcher T
emit x d = record d { out = x ∷ d.out }

abbrev pub link_of : {T : Type 0} → Side → Dispatcher T → Link T
link_of left d = d.left_link
link_of right d = d.right_link

abbrev pub set_link_of : {T : Type 0} → Side → Link T → Dispatcher T → Dispatcher T
set_link_of left l d = record d { left_link = l }
set_link_of right l d = record d { right_link = l }

-- getBranchInfo()
abbrev pub branch_info : {T : Type 0} → Dispatcher T → Option T
branch_info d = elim d.father.waiting [ none ↦ d.father.notified | some t ↦ some t ]

module _ {T : Type 0} (info : Info T) where
  abbrev pub next_seq : Option T → ℕ
  next_seq none = 1
  next_seq (some t) = (info.seq t + 1) % u32

  abbrev pub is_same : Option T → T → Bool
  is_same none w = false
  is_same (some t) w = info.same t w

  -- updateSequenceNumber()
  abbrev pub number : Link T → Link T
  number l = elim l.waiting [
    | none ↦ l
    | some w ↦ record l { waiting = some (info.set_seq (next_seq l.notified) w) }
  ]

  abbrev pub send_waiting : Link T → Option T → Link T × Option T
  send_waiting l none = (l, none)
  send_waiting l (some w) =
      let told = info.set_from_sch false (info.set_seq (next_seq l.notified) w) in
      if is_same l.notified w
      then (l, none)
      else (record l { notified = some told; waiting = none }, some (info.reduce told))

  -- Link::sendUpdate(), with the message that it sends.
  unfoldable pub send_update : Link T → Link T × Option T
  send_update l = send_waiting l l.waiting

  abbrev pub is_old : Option T → T → Bool
  is_old none msg = false
  is_old (some t) msg = leb (info.seq msg) (info.seq t)

  -- Link::update()
  unfoldable pub update : Address → T → Link T → Link T × Bool
  unfolding same
  update src msg l =
      if same l.addr src
      then (if is_old l.avail msg
          then (l, true)
          else (record l { avail = some msg; has_new = true }, true))
      else (l, false)

  abbrev pub join_all : Option T → Option T → Option T
  join_all none r = r
  join_all (some l) none = some l
  join_all (some l) (some r) = some (info.join l r)

  -- recomputeFatherInfo()
  unfoldable pub recompute_father : Dispatcher T → Dispatcher T
  recompute_father d =
      if d.left_link.has_new || d.right_link.has_new
      then record d {
        father =
            number (record d.father { waiting = join_all d.left_link.avail d.right_link.avail });
      }
      else d

  -- recomputeInfo(), where recomputeChildrenInfo() does nothing.
  unfoldable pub recompute_info : Dispatcher T → Dispatcher T
  unfolding recompute_father
  recompute_info d =
      let e = recompute_father d in
      record e {
        father = record e.father { has_new = false };
        left_link = record e.left_link { has_new = false };
        right_link = record e.right_link { has_new = false };
      }

  abbrev pub sent_size : Option T → ℕ
  sent_size none = 0
  sent_size (some t) = info.size t

  abbrev pub emit_update : Address → Option T → Dispatcher T → Dispatcher T
  emit_update to none d = d
  emit_update to (some t) d = emit (send_info to t) d

  unfoldable pub tell_father : Dispatcher T × ℕ → Dispatcher T × ℕ
  unfolding send_update same
  tell_father (d, size) =
      let (l, msg) = send_update d.father in
      if same d.father.addr null
      then (d, size)
      else (emit_update d.father.addr msg (record d { father = l }), size + sent_size msg)

  unfoldable pub tell_child : Branch → Side → Dispatcher T × ℕ → Dispatcher T × ℕ
  unfolding send_update
  tell_child b c (d, size) =
      let (l, msg) = send_update (link_of c d) in
      if b.is_leaf c
      then (d, size)
      else (emit_update (link_of c d).addr msg (set_link_of c l d), size + sent_size msg)

  abbrev pub tell_all : Branch → Dispatcher T → Dispatcher T × ℕ
  tell_all b d =
      if d.in_change then (d, 0) else tell_child b right (tell_child b left (tell_father (d, 0)))

  -- notify()
  unfoldable pub notify : Env → Branch → Dispatcher T → Dispatcher T
  unfolding tell_father tell_child
  notify env b d =
      let (told, size) = tell_all b d in
      if ltb env.now d.next_update || not (d.update_timer == 0)
      then (if d.update_timer == 0
          then emit (set_timer d.next_update) (record d { update_timer = env.timer_id })
          else d)
      else record told { next_update = env.now + env.sending_time size }

  abbrev pub update_right : Address → T → Dispatcher T → Dispatcher T × Bool
  update_right src msg d =
      let (l, mine) = update src msg d.right_link in (record d { right_link = l }, mine)

  abbrev pub update_left : Address → T → Dispatcher T → Dispatcher T × Bool
  update_left src msg d =
      let (l, mine) = update src msg d.left_link in
      if mine then (record d { left_link = l }, true) else update_right src msg d

  -- `(!msg.isFromSch() && father.update(src, msg)) || child[0].update(src, msg) || child[1].update(src, msg)`
  unfoldable pub update_links : Address → T → Dispatcher T → Dispatcher T × Bool
  unfolding update
  update_links src msg d =
      let (l, mine) = update src msg d.father in
      if not (info.from_sch msg) && mine
      then (record d { father = l }, true)
      else update_left src msg d

  -- handle() of an availability message.
  unfoldable pub handle_info : Env → Branch → Address → T → Dispatcher T → Dispatcher T
  handle_info env b src msg d =
      let (updated, mine) = update_links src msg d in
      if d.in_change
      then record d { delayed = d.delayed ++ (src, msg) ∷ [] }
      else if mine
      then notify env b (recompute_info updated)
      else d

  unfoldable pub handle_update_timer : Env → Branch → Dispatcher T → Dispatcher T
  handle_update_timer env b d = notify env b (record d { update_timer = 0 })

  unfoldable pub start_changes : Dispatcher T → Dispatcher T
  start_changes d = record d { in_change = true }

  -- The delayed updates of commitChanges(); handle() does not recompute for these.
  unfoldable pub apply_delayed : List (Address × T) → Dispatcher T → Dispatcher T
  unfolding update_links
  apply_delayed [] d = d
  apply_delayed ((src, msg) ∷ rest) d = apply_delayed rest (update_links src msg d).0

  abbrev pub new_links : Branch → Bool → Bool → Bool → Dispatcher T → Dispatcher T
  new_links b father_changed left_changed right_changed d = record d {
    in_change = false;
    father = if father_changed then new_link b.father else d.father;
    left_link = if left_changed then new_link (b.child left) else d.left_link;
    right_link = if right_changed then new_link (b.child right) else d.right_link;
    delayed = [];
  }

  unfoldable pub commit_changes : Env → Branch → Bool → Bool → Bool → Dispatcher T → Dispatcher T
  commit_changes env b father_changed left_changed right_changed d = notify env b (
      recompute_info
        (apply_delayed d.delayed (new_links b father_changed left_changed right_changed d)))
