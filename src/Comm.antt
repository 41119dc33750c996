-- ===== src/Comm.antt =====
-- src/lib/core/CommLayer.cpp and include/CommLayer.hpp: the queue of messages of a node and its timers. The locks are
-- left out: each operation holds one, so that their orders are sequences of operations. A duration is the
-- microseconds that it has, and the counter of the timers is taken not to overflow.
pub mod Timers
pub mod Delivery
use stars.Prelude.{
  ℕ, ◌+◌, Bool, true, false, Option, none, some, List, [], ◌∷◌, ◌++◌, ltb, leb, ◌==◌, if◌then◌else◌,
}
use stars.Address.{Address, same}

module _ (M : Type 0) where
  -- Timer
  pub record Timer : Type 0 where
    pub timeout : ℕ
    pub msg : M
    pub id : ℕ

-- CommLayer, with the time of the timer of the network manager, and in `sent` what went to other nodes, the latest
-- first.
pub record CommLayer (M : Type 0) : Type 0 where
  pub local_address : Address
  pub message_queue : List (Address × M)
  pub timer_list : List (Timer M)
  pub timer_id : ℕ
  pub alarm : Option ℕ
  pub sent : List (Address × M)

module _ {M : Type 0} where
  -- enqueueMessage()
  abbrev pub enqueue_message : Address → M → CommLayer M → CommLayer M
  enqueue_message src m c = record c { message_queue = c.message_queue ++ (src, m) ∷ [] }

  -- sendMessage(), without the size that it returns.
  unfoldable pub send_message : Address → M → CommLayer M → CommLayer M
  unfolding same
  send_message dst m c =
      if same dst c.local_address
      then enqueue_message dst m c
      else record c { sent = (dst, m) ∷ c.sent }

  -- list::sort, which is stable.
  unfoldable pub insert_timer : Timer M → List (Timer M) → List (Timer M)
  insert_timer t [] = t ∷ []
  insert_timer t (u ∷ us) =
      let rest = insert_timer t us in if ltb u.timeout t.timeout then u ∷ rest else t ∷ u ∷ us

  unfoldable pub sort_timers : List (Timer M) → List (Timer M)
  sort_timers [] = []
  sort_timers (t ∷ ts) = insert_timer t (sort_timers ts)

  abbrev pub front : List (Timer M) → Option ℕ → Option ℕ
  front [] now = now
  front (t ∷ ts) now = some t.timeout

  -- setTimerImpl(), with the id of the timer.
  unfoldable pub set_timer_impl : ℕ → M → CommLayer M → CommLayer M × ℕ
  unfolding sort_timers
  set_timer_impl time m c =
      let timers =
        sort_timers ((record { timeout = time; msg = m; id = c.timer_id + 1 }) ∷ c.timer_list) in
      (
        record c { timer_list = timers; timer_id = c.timer_id + 1; alarm = front timers c.alarm },
        c.timer_id + 1,
      )

  -- setTimer() at a time.
  unfoldable pub set_timer : ℕ → ℕ → M → CommLayer M → CommLayer M × ℕ
  set_timer now time m c = if leb now time then set_timer_impl time m c else (c, 0)

  abbrev pub erase_timer : ℕ → List (Timer M) → List (Timer M)
  erase_timer id [] = []
  erase_timer id (t ∷ ts) = let rest = erase_timer id ts in if t.id == id then ts else t ∷ rest

  -- cancelTimer()
  unfoldable pub cancel_timer : ℕ → CommLayer M → CommLayer M
  cancel_timer id c = record c { timer_list = erase_timer id c.timer_list }

  abbrev pub expire : ℕ → List (Timer M) → CommLayer M → CommLayer M
  expire now [] c = record c { timer_list = [] }
  expire now (t ∷ ts) c =
      let rest = expire now ts (enqueue_message c.local_address t.msg c) in
      if leb t.timeout now then rest else record c { timer_list = t ∷ ts; alarm = some t.timeout }

  -- checkExpired()
  unfoldable pub check_expired : ℕ → CommLayer M → CommLayer M
  check_expired now c = expire now c.timer_list c

  abbrev pub next_of : List (Address × M) → CommLayer M → CommLayer M × Option (Address × M)
  next_of [] c = (c, none)
  next_of (x ∷ xs) c = (record c { message_queue = xs }, some x)

  -- The message that processNextMessage() takes, where it does not have to wait.
  unfoldable pub next_message : CommLayer M → CommLayer M × Option (Address × M)
  next_message c = next_of c.message_queue c

  -- The services that are offered a message: each is, and it is handled if one of them takes it.
  abbrev pub is_handled : List (Address → M → Bool) → Address → M → Bool
  is_handled [] src m = false
  is_handled (s ∷ ss) src m = let rest = is_handled ss src m in if s src m then true else rest
