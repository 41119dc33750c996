-- ===== src/Dispatcher/Updates.antt =====
-- What a dispatcher tells and what it takes from others, Dispatcher.send_update, update, notify and the
-- handlers.
use stars.Prelude.{
  ◌+◌, ◌%◌, ◌≤◌, ◌<◌, ◌≡◌, refl, subst, inl, inr, sym, ◌∙◌, ap, true, false, Option, none, some,
  leb, u32, arith, Option-cases, if-both,
}
use stars.Address.{Address, same}
use stars.Address.Order.{same_refl}
use stars.Dispatcher.Interface.{Info, Branch}
use stars.Dispatcher.{
  Link, Dispatcher, Env, send_update, update, recompute_info, notify, update_links, handle_info,
}
use stars.Dispatcher.Kept.{kept, updated-kept}

module _ {T : Type 0} (info : Info T) where
  -- `b` is no older than `a`.
  abbrev pub NoOlder : Option T → Option T → Type 0
  NoOlder none b = Unit
  NoOlder (some s) none = ⊥
  NoOlder (some s) (some t) = info.seq s ≤ info.seq t

  NoOlder-refl : (a : Option T) → NoOlder a a
  NoOlder-refl none = tt
  NoOlder-refl (some t) = omega arith

  update-NoOlder :
      (src : Address) (msg : T) (l : Link T) → NoOlder l.avail (update info src msg l).0.avail
  unfolding update
  update-NoOlder src msg l = elim (Option-cases l.avail) [
    | inl e ↦ ground (arith, e)
    | inr (t, e) ↦ ground (arith, e)
  ]

  -- The information of each neighbour, after and before.
  abbrev pub NoneOlder : Dispatcher T → Dispatcher T → Type 0
  NoneOlder d e =
      NoOlder d.father.avail e.father.avail
      × NoOlder d.left_link.avail e.left_link.avail
      × NoOlder d.right_link.avail e.right_link.avail

  update_links-NoneOlder :
      (src : Address) (msg : T) (d : Dispatcher T) → NoneOlder d (update_links info src msg d).0
  unfolding update_links
  update_links-NoneOlder src msg d = ground (
    arith,
    update-NoOlder src msg d.father,
    update-NoOlder src msg d.left_link,
    update-NoOlder src msg d.right_link,
    NoOlder-refl d.father.avail,
    NoOlder-refl d.left_link.avail,
    NoOlder-refl d.right_link.avail,
  )

  -- A neighbour that has the last information that was sent takes the next one: the sequence number that
  -- sendUpdate() gives it is higher, as long as it does not wrap around, and the message tells that it comes from a
  -- dispatcher.
  pub update-send_update :
      (l r : Link T) (src : Address) (t u w : T)
      → l.notified ≡ some t
      → l.waiting ≡ some w
      → info.same t w ≡ false
      → r.addr ≡ src
      → r.avail ≡ some u
      → info.seq u ≡ info.seq t
      → info.seq t + 1 < u32
      → (m : T) × ((send_update info l).1 ≡ some m)
        × (info.seq m ≡ info.seq t + 1)
        × ((update info src m r).0.avail ≡ some m)
        × ((update info src m r).0.has_new ≡ true)
        × ((update info src m r).1 ≡ true)
  unfolding send_update update
  update-send_update l r src t u w nt wt differ ra ru eq small =
      let m = info.reduce (info.set_from_sch false (info.set_seq ((info.seq t + 1) % u32) w)) in
      let e : info.seq m ≡ (info.seq t + 1) % u32 =
        info.seq-reduce _ ∙ info.seq-set_from_sch _ _ ∙ info.seq-set_seq _ _ in
      let newer : leb (info.seq m) (info.seq u) ≡ false = ground (arith, e, eq, small) in
      let mine : same r.addr src ≡ true = ap (λ a. same a src) ra ∙ same_refl src in
      (
        m,
        (rw (wt, nt, differ) refl),
        ground (arith, e, small),
        (rw (mine, ru, newer) refl),
        (rw (mine, ru, newer) refl),
        (rw (mine, ru, newer) refl),
      )

  NoneOlder-kept : (d e f : Dispatcher T) → kept f ≡ kept e → NoneOlder d e → NoneOlder d f
  NoneOlder-kept d e f eq (a, b, c) = (
    subst (NoOlder d.father.avail) (sym (ap (λ x. x.0.1) eq)) a,
    subst (NoOlder d.left_link.avail) (sym (ap (λ x. x.1.1) eq)) b,
    subst (NoOlder d.right_link.avail) (sym (ap (λ x. x.2.1) eq)) c,
  )

  -- The information that a dispatcher has of its father and of its children never gets older by a message,
  -- whatever it says and whoever sent it.
  pub handle_info-NoneOlder :
      (env : Env) (b : Branch) (src : Address) (msg : T) (d : Dispatcher T)
      → NoneOlder d (handle_info info env b src msg d)
  unfolding handle_info
  handle_info-NoneOlder env b src msg d =
      let updated = (update_links info src msg d).0 in
      let known = update_links-NoneOlder src msg d in
      let same_old : NoneOlder d d = (
        NoOlder-refl d.father.avail,
        NoOlder-refl d.left_link.avail,
        NoOlder-refl d.right_link.avail,
      ) in
      if-both (NoneOlder d) d.in_change same_old (
        if-both (NoneOlder d) (update_links info src msg d).1
          (NoneOlder-kept d updated (notify info env b (recompute_info info updated))
            (updated-kept info env b updated) known)
          same_old)
