-- ===== src/Comm/Timers.antt =====
-- The order and the delivery of the timers, Comm.set_timer, cancel_timer and check_expired.
use mathlib.Core.List.Perm
use mathlib.Core.List.{append-nil, append_assoc}
use stars.Prelude.{
  ℕ, ◌+◌, ◌≤◌, ◌≡◌, refl, inl, inr, sym, ◌∙◌, ap, subst, Bool, false, not, List, [], ◌∷◌, ◌++◌, map,
  All, keep_if, Perm, ltb, leb, ◌==◌, if-both, Bool-cases, arith,
}
use stars.Address.{Address}
use stars.Comm.{
  Timer, CommLayer, enqueue_message, insert_timer, sort_timers, set_timer_impl, set_timer,
  erase_timer, cancel_timer, expire, check_expired,
}

module _ {M : Type 0} where
  -- No timer goes off before one that stands in front of it.
  abbrev pub IsOrdered : List (Timer M) → Type 0
  IsOrdered [] = Unit
  IsOrdered (t ∷ ts) = All (λ u. t.timeout ≤ u.timeout) ts × IsOrdered ts

  All-le :
      (m n : ℕ) (ts : List (Timer M))
      → m ≤ n
      → All (λ u. n ≤ u.timeout) ts
      → All (λ u. m ≤ u.timeout) ts
  All-le m n [] l h = tt
  All-le m n (t ∷ ts) l h = (omega (arith, h.0), All-le m n ts l h.1)

  insert_timer-All :
      (m : ℕ) (t : Timer M) (ts : List (Timer M))
      → m ≤ t.timeout
      → All (λ u. m ≤ u.timeout) ts
      → All (λ u. m ≤ u.timeout) (insert_timer t ts)
  unfolding insert_timer
  insert_timer-All m t [] l h = (l, tt)
  insert_timer-All m t (u ∷ us) l h =
      if-both (All (λ u. m ≤ u.timeout)) (ltb u.timeout t.timeout)
        (h.0, insert_timer-All m t us l h.1) (l, h)

  insert_timer-IsOrdered :
      (t : Timer M) (ts : List (Timer M)) → IsOrdered ts → IsOrdered (insert_timer t ts)
  unfolding insert_timer
  insert_timer-IsOrdered t [] h = (tt, tt)
  insert_timer-IsOrdered t (u ∷ us) h = elim (Bool-cases (ltb u.timeout t.timeout)) [
    | inl e ↦
        rw e
          (insert_timer-All u.timeout t us (ground (arith, e)) h.0, insert_timer-IsOrdered t us h.1)
    | inr e ↦
        let l : t.timeout ≤ u.timeout = ground (arith, e) in
        rw e ((l, All-le t.timeout u.timeout us l h.0), h)
  ]

  insert_timer-perm : (t : Timer M) (ts : List (Timer M)) → Perm (insert_timer t ts) (t ∷ ts)
  unfolding insert_timer
  insert_timer-perm t [] = Perm.refl (t ∷ [])
  insert_timer-perm t (u ∷ us) =
      if-both (λ xs. Perm xs (t ∷ u ∷ us)) (ltb u.timeout t.timeout)
        (Perm.trans (Perm.cons u (insert_timer-perm t us)) (Perm.swap t u us))
        (Perm.refl (t ∷ u ∷ us))

  pub sort_timers-IsOrdered : (ts : List (Timer M)) → IsOrdered (sort_timers ts)
  unfolding sort_timers
  sort_timers-IsOrdered [] = tt
  sort_timers-IsOrdered (t ∷ ts) =
      insert_timer-IsOrdered t (sort_timers ts) (sort_timers-IsOrdered ts)

  sort_timers-perm : (ts : List (Timer M)) → Perm (sort_timers ts) ts
  unfolding sort_timers
  sort_timers-perm [] = Perm.refl []
  sort_timers-perm (t ∷ ts) =
      Perm.trans (insert_timer-perm t (sort_timers ts)) (Perm.cons t (sort_timers-perm ts))

  -- Whether a timer has gone off by a time.
  abbrev pub is_due : ℕ → Timer M → Bool
  is_due now t = leb t.timeout now

  keep_if_late :
      (now : ℕ) (ts : List (Timer M))
      → All (λ u. now + 1 ≤ u.timeout) ts
      → (keep_if (is_due now) ts ≡ []) × (keep_if (λ t. not (is_due now t)) ts ≡ ts)
  keep_if_late now [] h = (refl, refl)
  keep_if_late now (t ∷ ts) h =
      let late : is_due now t ≡ false = ground (arith, h.0) in
      let rest = keep_if_late now ts h.1 in rw late (rest.0, ap (λ xs. t ∷ xs) rest.1)

  abbrev pub delivered : Address → List (Timer M) → List (Address × M)
  delivered a ts = map (λ t. (a, t.msg)) ts

  pub expire-due :
      (now : ℕ) (ts : List (Timer M)) (c : CommLayer M)
      → IsOrdered ts
      → ((expire now ts c).message_queue
          ≡ c.message_queue ++ delivered c.local_address (keep_if (is_due now) ts))
        × ((expire now ts c).timer_list ≡ keep_if (λ t. not (is_due now t)) ts)
  expire-due now [] c h = (sym (append-nil c.message_queue), refl)
  expire-due now (t ∷ ts) c h = elim (Bool-cases (is_due now t)) [
    | inl e ↦
        let rest = expire-due now ts (enqueue_message c.local_address t.msg c) h.1 in
        rw e (
          rest.0
              ∙ append_assoc c.message_queue ((c.local_address, t.msg) ∷ [])
                  (delivered c.local_address (keep_if (is_due now) ts)),
          rest.1,
        )
    | inr e ↦
        let late = keep_if_late now ts (All-le (now + 1) t.timeout ts (ground (arith, e)) h.0) in
        rw (e, late.0) (sym (append-nil c.message_queue), ap (λ xs. t ∷ xs) (sym late.1))
  ]

  keep_if-All :
      (P : Timer M → Type 0) (p : Timer M → Bool) (ts : List (Timer M))
      → All P ts
      → All P (keep_if p ts)
  keep_if-All P p [] h = tt
  keep_if-All P p (t ∷ ts) h =
      if-both (All P) (p t) (h.0, keep_if-All P p ts h.1) (keep_if-All P p ts h.1)

  keep_if-IsOrdered :
      (p : Timer M → Bool) (ts : List (Timer M)) → IsOrdered ts → IsOrdered (keep_if p ts)
  keep_if-IsOrdered p [] h = tt
  keep_if-IsOrdered p (t ∷ ts) h =
      if-both IsOrdered (p t)
        (keep_if-All (λ u. t.timeout ≤ u.timeout) p ts h.0, keep_if-IsOrdered p ts h.1)
        (keep_if-IsOrdered p ts h.1)

  erase_timer-All :
      (m id : ℕ) (ts : List (Timer M))
      → All (λ u. m ≤ u.timeout) ts
      → All (λ u. m ≤ u.timeout) (erase_timer id ts)
  erase_timer-All m id [] h = tt
  erase_timer-All m id (t ∷ ts) h =
      if-both (All (λ u. m ≤ u.timeout)) (t.id == id) h.1 (h.0, erase_timer-All m id ts h.1)

  erase_timer-IsOrdered :
      (id : ℕ) (ts : List (Timer M)) → IsOrdered ts → IsOrdered (erase_timer id ts)
  erase_timer-IsOrdered id [] h = tt
  erase_timer-IsOrdered id (t ∷ ts) h =
      if-both IsOrdered (t.id == id) h.1
        (erase_timer-All t.timeout id ts h.0, erase_timer-IsOrdered id ts h.1)

-- What happens to the timers of a node.
pub data Event (M : Type 0) : Type 0 where
  on_set : ℕ → ℕ → M → Event M
  on_cancel : ℕ → Event M
  on_expired : ℕ → Event M

unfoldable pub step : {M : Type 0} → Event M → CommLayer M → CommLayer M
step (on_set now time m) c = (set_timer now time m c).0
step (on_cancel id) c = cancel_timer id c
step (on_expired now) c = check_expired now c

unfoldable pub run : {M : Type 0} → List (Event M) → CommLayer M → CommLayer M
run [] c = c
run (x ∷ xs) c = run xs (step x c)

step-IsOrdered :
    {M : Type 0} (x : Event M) (c : CommLayer M)
    → IsOrdered c.timer_list
    → IsOrdered (step x c).timer_list
unfolding step set_timer set_timer_impl cancel_timer check_expired
step-IsOrdered (on_set now time m) c h =
    if-both (λ (r : CommLayer _ × ℕ). IsOrdered r.0.timer_list) (leb now time)
      (sort_timers-IsOrdered
        ((record { timeout = time; msg = m; id = c.timer_id + 1 }) ∷ c.timer_list))
      h
step-IsOrdered (on_cancel id) c h = erase_timer-IsOrdered id c.timer_list h
step-IsOrdered (on_expired now) c h =
    subst IsOrdered (sym (expire-due now c.timer_list c h).1)
      (keep_if-IsOrdered (λ t. not (is_due now t)) c.timer_list h)

pub run-IsOrdered :
    {M : Type 0} (xs : List (Event M)) (c : CommLayer M)
    → IsOrdered c.timer_list
    → IsOrdered (run xs c).timer_list
unfolding run
run-IsOrdered [] c h = h
run-IsOrdered (x ∷ xs) c h = run-IsOrdered xs (step x c) (step-IsOrdered x c h)

-- After any sequence of timers that are set, cancelled and looked at, starting without a timer: looking at them
-- puts the messages of exactly those that are due into the queue, in the order of the list, which is that of their
-- times, and keeps exactly the others.
pub check_expired-due :
    {M : Type 0} (xs : List (Event M)) (now : ℕ) (start : CommLayer M)
    → start.timer_list ≡ []
    → let c = run xs start in
      let after = check_expired now c in
      IsOrdered c.timer_list
      × (after.message_queue
          ≡ c.message_queue ++ delivered c.local_address (keep_if (is_due now) c.timer_list))
      × (after.timer_list ≡ keep_if (λ t. not (is_due now t)) c.timer_list)
unfolding check_expired
check_expired-due xs now start e =
    let c = run xs start in
    let ordered = run-IsOrdered xs start (subst IsOrdered (sym e) tt) in
    let due = expire-due now c.timer_list c ordered in (ordered, due.0, due.1)
