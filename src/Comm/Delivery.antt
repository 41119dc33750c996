-- ===== src/Comm/Delivery.antt =====
-- That a timer goes off, Comm.set_timer and check_expired.
use mathlib.Core.List.{append_assoc}
use stars.Prelude.{
  ℕ, ◌+◌, ◌≤◌, ◌≡◌, refl, sym, ◌∙◌, ap, Bool, true, List, [], ◌∷◌, ◌++◌, keep_if, ltb, leb, if-both,
  arith,
}
use stars.Address.{Address}
use stars.Comm.{
  Timer, CommLayer, insert_timer, sort_timers, set_timer, set_timer_impl, check_expired,
}
use stars.Comm.Timers.{is_due, delivered, expire-due, sort_timers-IsOrdered}

module _ {M : Type 0} where
  -- Where a timer stands in a list.
  abbrev pub Stands : Timer M → List (Timer M) → Type 0
  Stands t ts = (before : List (Timer M)) × (after : List (Timer M)) × (ts ≡ before ++ t ∷ after)

  insert_timer-Stands : (t : Timer M) (ts : List (Timer M)) → Stands t (insert_timer t ts)
  unfolding insert_timer
  insert_timer-Stands t [] = ([], [], refl)
  insert_timer-Stands t (u ∷ us) =
      let (before, after, e) = insert_timer-Stands t us in
      if-both (Stands t) (ltb u.timeout t.timeout) (u ∷ before, after, ap (λ xs. u ∷ xs) e)
        ([], u ∷ us, refl)

  keep_if-append :
      (p : Timer M → Bool) (xs ys : List (Timer M))
      → keep_if p (xs ++ ys) ≡ keep_if p xs ++ keep_if p ys
  keep_if-append p [] ys = refl
  keep_if-append p (x ∷ xs) ys = ground (arith, keep_if-append p xs ys)

  delivered-append :
      (a : Address) (xs ys : List (Timer M))
      → delivered a (xs ++ ys) ≡ delivered a xs ++ delivered a ys
  delivered-append a [] ys = refl
  delivered-append a (x ∷ xs) ys = ap (λ zs. (a, x.msg) ∷ zs) (delivered-append a xs ys)

  due-delivered :
      (now : ℕ) (a : Address) (t : Timer M) (ts : List (Timer M))
      → t.timeout ≤ now
      → Stands t ts
      → (xs : List (Address × M)) × (ys : List (Address × M)) × (delivered a
            (keep_if (is_due now) ts)
          ≡ xs ++ (a, t.msg) ∷ ys)
  due-delivered now a t ts h (before, after, e) =
      let due : is_due now t ≡ true = ground (arith, h) in
      (
        delivered a (keep_if (is_due now) before),
        delivered a (keep_if (is_due now) after),
        ap (λ xs. delivered a (keep_if (is_due now) xs)) e
            ∙ ap (delivered a) (keep_if-append (is_due now) before (t ∷ after))
            ∙ rw due
                (delivered-append a (keep_if (is_due now) before) (t ∷ keep_if (is_due now) after)),
      )

  -- A timer that is set, not in the past, goes off: when the timers are next looked at at its time or later, its
  -- message is in the queue of the node, from the node itself.
  pub set_timer-delivered :
      (now time later : ℕ) (m : M) (c : CommLayer M)
      → now ≤ time
      → time ≤ later
      → (before : List (Address × M)) × (after : List (Address × M)) × ((check_expired later
            (set_timer now time m c).0).message_queue
          ≡ before ++ (c.local_address, m) ∷ after)
  unfolding set_timer set_timer_impl check_expired sort_timers
  set_timer-delivered now time later m c h h' =
      let t : Timer M = record { timeout = time; msg = m; id = c.timer_id + 1 } in
      let ts = sort_timers (t ∷ c.timer_list) in
      let set = (set_timer_impl time m c).0 in
      let (before, after, e) =
        due-delivered later c.local_address t ts h'
          (insert_timer-Stands t (sort_timers c.timer_list)) in
      let due = (expire-due later ts set (sort_timers-IsOrdered (t ∷ c.timer_list))).0 in
      let not_past : leb now time ≡ true = ground (arith, h) in
      (
        c.message_queue ++ before,
        after,
        rw not_past (
            due
            ∙ ap (λ xs. c.message_queue ++ xs) e
            ∙ sym (append_assoc c.message_queue before ((c.local_address, m) ∷ after))),
      )
