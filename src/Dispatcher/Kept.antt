-- ===== src/Dispatcher/Kept.antt =====
-- What recomputeInfo() and notify() leave alone: the addresses of the links, the information that came over
-- them, the state of a change, and the tasks that were sent.
use stars.Prelude.{
  ℕ, ◌≡◌, refl, sym, ◌∙◌, ap, inl, inr, Bool, ◌≢◌, is_some, true, false, not, ◌||◌, Option, none,
  some, List, ltb, ◌==◌, arith, if-both, Option-cases,
}
use stars.Address.{Address, null, same}
use stars.Dispatcher.Interface.{Info, Branch, Side, left, right}
use stars.Dispatcher.{
  Link, send_waiting, Dispatcher, Env, send_update, is_same, number, emit_update, recompute_father,
  recompute_info, notify, tell_all, tell_father, tell_child, branch_info, join_all,
}
use stars.Dispatcher.Tasks.{sent}

module _ {T : Type 0} where
  abbrev pub link_kept : Link T → Address × Option T
  link_kept l = (l.addr, l.avail)

  abbrev pub kept :
      Dispatcher T
      → (Address × Option T)
        × (Address × Option T)
        × (Address × Option T)
        × (Bool × List (Address × T))
        × List (Address × ℕ)
  kept d = (
    link_kept d.father,
    link_kept d.left_link,
    link_kept d.right_link,
    (d.in_change, d.delayed),
    sent d.out,
  )

module _ {T : Type 0} (info : Info T) where
  number-kept : (l : Link T) → link_kept (number info l) ≡ link_kept l
  number-kept l = elim (Option-cases l.waiting) [ inl e ↦ rw e refl | inr (t, e) ↦ rw e refl ]

  send_update-kept : (l : Link T) → link_kept (send_update info l).0 ≡ link_kept l
  unfolding send_update
  send_update-kept l = elim (Option-cases l.waiting) [
    | inl e ↦ rw e refl
    | inr (w, e) ↦ rw e (
        if-both (λ (t : Link T × Option T). link_kept t.0 ≡ link_kept l) (is_same info l.notified w)
          refl refl)
  ]

  emit_update-kept :
      (to : Address) (msg : Option T) (d : Dispatcher T) → kept (emit_update info to msg d) ≡ kept d
  emit_update-kept to none d = refl
  emit_update-kept to (some t) d = refl

  tell_father-kept : (d : Dispatcher T) (n : ℕ) → kept (tell_father info (d, n)).0 ≡ kept d
  unfolding tell_father
  tell_father-kept d n =
      if-both (λ (t : Dispatcher T × ℕ). kept t.0 ≡ kept d) (same d.father.addr null) refl
        (emit_update-kept d.father.addr _ (record d { father = (send_update info d.father).0 })
          ∙ ap
              (λ l. (
                l,
                link_kept d.left_link,
                link_kept d.right_link,
                (d.in_change, d.delayed),
                sent d.out,
              ))
              (send_update-kept d.father))

  tell_child-kept :
      (b : Branch) (c : Side) (d : Dispatcher T) (n : ℕ)
      → kept (tell_child info b c (d, n)).0 ≡ kept d
  unfolding tell_child
  tell_child-kept b left d n =
      if-both (λ (t : Dispatcher T × ℕ). kept t.0 ≡ kept d) (b.is_leaf left) refl
        (emit_update-kept d.left_link.addr _
            (record d { left_link = (send_update info d.left_link).0 })
          ∙ ap
              (λ l. (
                link_kept d.father,
                l,
                link_kept d.right_link,
                (d.in_change, d.delayed),
                sent d.out,
              ))
              (send_update-kept d.left_link))
  tell_child-kept b right d n =
      if-both (λ (t : Dispatcher T × ℕ). kept t.0 ≡ kept d) (b.is_leaf right) refl
        (emit_update-kept d.right_link.addr _
            (record d { right_link = (send_update info d.right_link).0 })
          ∙ ap
              (λ l. (
                link_kept d.father,
                link_kept d.left_link,
                l,
                (d.in_change, d.delayed),
                sent d.out,
              ))
              (send_update-kept d.right_link))

  tell_all-kept : (b : Branch) (d : Dispatcher T) → kept (tell_all info b d).0 ≡ kept d
  tell_all-kept b d =
      if-both (λ (t : Dispatcher T × ℕ). kept t.0 ≡ kept d) d.in_change refl
        (tell_child-kept b right _ _ ∙ tell_child-kept b left _ _ ∙ tell_father-kept d 0)

  pub notify-kept :
      (env : Env) (b : Branch) (d : Dispatcher T) → kept (notify info env b d) ≡ kept d
  unfolding notify
  notify-kept env b d =
      if-both (λ (e : Dispatcher T). kept e ≡ kept d)
        (ltb env.now d.next_update || not (d.update_timer == 0))
        (if-both (λ (e : Dispatcher T). kept e ≡ kept d) (d.update_timer == 0) refl refl)
        (tell_all-kept b d)

  pub recompute_info-kept : (d : Dispatcher T) → kept (recompute_info info d) ≡ kept d
  unfolding recompute_info recompute_father
  recompute_info-kept d =
      if-both (λ (e : Dispatcher T). kept e ≡ kept d) (d.left_link.has_new || d.right_link.has_new)
        (ap
          (λ l. (
            l,
            link_kept d.left_link,
            link_kept d.right_link,
            (d.in_change, d.delayed),
            sent d.out,
          ))
          (number-kept _))
        refl

  pub recompute_father-kept : (d : Dispatcher T) → kept (recompute_father info d) ≡ kept d
  unfolding recompute_info
  recompute_father-kept d = recompute_info-kept d

  pub updated-kept :
      (env : Env) (b : Branch) (d : Dispatcher T)
      → kept (notify info env b (recompute_info info d)) ≡ kept d
  updated-kept env b d = notify-kept env b (recompute_info info d) ∙ recompute_info-kept d

  -- Whether there is something that the link has been told or is to be told.
  abbrev pub is_told : Option T → Option T → Bool
  is_told (some w) n = true
  is_told none none = false
  is_told none (some t) = true

  abbrev pub told : Link T → Bool
  told l = is_told l.waiting l.notified

  pub is_told-some :
      (w n : Option T) → is_told w n ≡ true → elim w [ none ↦ n | some t ↦ some t ] ≢ none
  is_told-some (some w) n h = ground arith
  is_told-some none none h = ground arith
  is_told-some none (some t) h = ground arith

  join_all-is_some :
      (l r : Option T) → is_some l || is_some r ≡ true → is_some (join_all info l r) ≡ true
  join_all-is_some none none h = h
  join_all-is_some none (some r) h = refl
  join_all-is_some (some l) none h = refl
  join_all-is_some (some l) (some r) h = refl

  number-told : (l : Link T) → is_some l.waiting ≡ true → told (number info l) ≡ true
  number-told l h = elim (Option-cases l.waiting) [
    | inl e ↦ absurd (ground (arith, h, ap is_some e))
    | inr (w, e) ↦ rw e refl
  ]

  send_waiting-told :
      (l : Link T) (o : Option T) → l.waiting ≡ o → told (send_waiting info l o).0 ≡ told l
  send_waiting-told l none e = refl
  send_waiting-told l (some w) e =
      if-both (λ (t : Link T × Option T). told t.0 ≡ told l) (is_same info l.notified w) refl
        (sym (ap (λ o. is_told o l.notified) e))

  emit_update-father :
      (to : Address) (msg : Option T) (d : Dispatcher T)
      → (emit_update info to msg d).father ≡ d.father
  emit_update-father to none d = refl
  emit_update-father to (some t) d = refl

  tell_father-told :
      (d : Dispatcher T) (n : ℕ) → told (tell_father info (d, n)).0.father ≡ told d.father
  unfolding tell_father send_update
  tell_father-told d n =
      let l = (send_update info d.father).0 in
      if-both (λ (t : Dispatcher T × ℕ). told t.0.father ≡ told d.father) (same d.father.addr null)
        refl
        (ap told (emit_update-father d.father.addr _ (record d { father = l }))
          ∙ send_waiting-told d.father d.father.waiting refl)

  tell_child-father :
      (b : Branch) (c : Side) (d : Dispatcher T) (n : ℕ)
      → (tell_child info b c (d, n)).0.father ≡ d.father
  unfolding tell_child
  tell_child-father b left d n =
      if-both (λ (t : Dispatcher T × ℕ). t.0.father ≡ d.father) (b.is_leaf left) refl
        (emit_update-father d.left_link.addr _
          (record d { left_link = (send_update info d.left_link).0 }))
  tell_child-father b right d n =
      if-both (λ (t : Dispatcher T × ℕ). t.0.father ≡ d.father) (b.is_leaf right) refl
        (emit_update-father d.right_link.addr _
          (record d { right_link = (send_update info d.right_link).0 }))

  tell_all-told :
      (b : Branch) (d : Dispatcher T) → told (tell_all info b d).0.father ≡ told d.father
  tell_all-told b d =
      if-both (λ (t : Dispatcher T × ℕ). told t.0.father ≡ told d.father) d.in_change refl
        (ap told (tell_child-father b right _ _ ∙ tell_child-father b left _ _)
          ∙ tell_father-told d 0)

  pub notify-told :
      (env : Env) (b : Branch) (d : Dispatcher T)
      → told (notify info env b d).father ≡ told d.father
  unfolding notify
  notify-told env b d =
      let Same : Dispatcher T → Type 0 = λ e. told e.father ≡ told d.father in
      if-both Same (ltb env.now d.next_update || not (d.update_timer == 0))
        (if-both Same (d.update_timer == 0) refl refl) (tell_all-told b d)

  recompute_info-told :
      (d : Dispatcher T)
      → told d.father ≡ true
      → is_some d.left_link.avail || is_some d.right_link.avail ≡ true
      → told (recompute_info info d).father ≡ true
  unfolding recompute_info recompute_father
  recompute_info-told d h some_child =
      if-both (λ (e : Dispatcher T). told e.father ≡ true)
        (d.left_link.has_new || d.right_link.has_new)
        (number-told _ (join_all-is_some d.left_link.avail d.right_link.avail some_child)) h

  pub recompute_father-told :
      (d : Dispatcher T)
      → told d.father ≡ true
      → is_some d.left_link.avail || is_some d.right_link.avail ≡ true
      → told (recompute_father info d).father ≡ true
  unfolding recompute_info
  recompute_father-told d h some_child = recompute_info-told d h some_child

  -- After an update the node still has information on its branch, as long as a child has told what it offers.
  pub updated-branch_info :
      (env : Env) (b : Branch) (d : Dispatcher T)
      → told d.father ≡ true
      → is_some d.left_link.avail || is_some d.right_link.avail ≡ true
      → branch_info (notify info env b (recompute_info info d)) ≢ none
  updated-branch_info env b d h some_child =
      let e = notify info env b (recompute_info info d) in
      is_told-some e.father.waiting e.father.notified
        (notify-told env b (recompute_info info d) ∙ recompute_info-told d h some_child)
