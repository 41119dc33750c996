-- ===== src/Dispatcher/Requests.antt =====
-- The requests of include/Dispatcher.hpp: checkState() and sendTasks(), with getSubRequest() of
-- include/TaskBagMsg.hpp.
use stars.Prelude.{
  ℕ, ◌+◌, ◌-◌, ◌%◌, Bool, false, not, ◌&&◌, Option, none, some, leb, ◌==◌, if◌then◌else◌, is_some,
  u32,
}
use stars.Address.{null, same}
use stars.Scheduler.Interface.{TaskBag}
use stars.Dispatcher.Interface.{Info, Branch, Side, left, right}
use stars.Dispatcher.{Dispatcher, emit, link_of, branch_info, send_bag, undefined}

module _ {T : Type 0} (info : Info T) where
  -- checkState()
  unfoldable pub check_state : Branch → Dispatcher T → Bool
  check_state b d = b.in_network && is_some (branch_info d)

  -- getSubRequest()
  abbrev pub sub_request : ℕ → ℕ → TaskBag → TaskBag
  sub_request first last msg = record msg { first_task = first; last_task = last; from_en = false }

  -- The messages of sendTasks() to a child; `next` is the first task that no one has.
  abbrev pub bag_for : Branch → Side → TaskBag → ℕ → ℕ → T → TaskBag
  bag_for b c msg next n t = record (sub_request next ((next + n + u32 - 1) % u32) msg) {
    info_sequence = info.seq t;
    for_en = b.is_leaf c;
  }

  abbrev pub send_known : Branch → Side → TaskBag → ℕ → ℕ → Option T → Dispatcher T → Dispatcher T
  send_known b c msg next n none d = emit undefined d
  send_known b c msg next n (some t) d =
      emit (send_bag (link_of c d).addr (bag_for b c msg next n t)) d

  unfoldable pub send_child : Branch → Side → TaskBag → ℕ → ℕ → Dispatcher T → Dispatcher T
  send_child b c msg next n d =
      if n == 0 then d else send_known b c msg next n (link_of c d).avail d

  abbrev pub send_father : Branch → TaskBag → ℕ → Option T → Dispatcher T → Dispatcher T
  send_father b msg next none d = emit undefined d
  send_father b msg next (some t) d =
      emit
        (send_bag b.father
          (record (sub_request next msg.last_task msg) { info_sequence = info.seq t }))
        d

  -- Whether what is left of a request goes to the father.
  abbrev pub goes_up : Branch → Bool → Bool
  goes_up b dont_send = not (same b.father null) && not dont_send

  unfoldable pub send_rest : Branch → TaskBag → ℕ → Bool → Option T → Dispatcher T → Dispatcher T
  send_rest b msg next dont_send t d =
      if leb next msg.last_task
      then (if goes_up b dont_send then send_father b msg next t d else d)
      else d

  -- sendTasks()
  unfoldable pub send_tasks : Branch → TaskBag → ℕ → ℕ → Bool → Dispatcher T → Dispatcher T
  send_tasks b msg n_left n_right dont_send d =
      let mid = (msg.first_task + n_left) % u32 in
      let next = (mid + n_right) % u32 in
      send_rest b msg next dont_send (branch_info d)
        (send_child b right msg mid n_right (send_child b left msg msg.first_task n_left d))
