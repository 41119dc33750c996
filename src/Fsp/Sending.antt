-- ===== src/Fsp/Sending.antt =====
-- What Fsp.Routing sends, to the father and to the children.
use mathlib.Core.List.{append-nil}
use stars.Prelude.{
  ℕ, ◌+◌, ◌-◌, ◌≤◌, ◌<◌, ◌≡◌, ◌≢◌, false≢true, refl, inl, inr, sym, ◌∙◌, ap, Bool, true, false,
  ◌||◌, Option, none, some, List, [], ◌∷◌, ◌++◌, if◌then◌else◌, if-both, u32, arith, is_some,
  Option-cases,
}
use stars.Address.{Address}
use stars.Float.{Float}
use stars.Scheduler.Interface.{TaskBag}
use stars.Dispatcher.Interface.{Info, Branch, left, right}
use stars.Dispatcher.{Link, Dispatcher, Env, recompute_father, notify, branch_info}
use stars.Dispatcher.Requests.{send_tasks, goes_up}
use stars.Dispatcher.Tasks.{tasks_from, tasks_of, at, sent, IsKnown, send_tasks-sent}
use stars.Dispatcher.Kept.{
  kept, link_kept, told, recompute_father-kept, notify-kept, recompute_father-told, notify-told,
  is_told, is_told-some,
}
use stars.Fsp.Allocation.{FunctionVector, compute_tasks_per_branch}
use stars.Fsp.Routing.{
  FspInfo, child_info, put_waiting, recompute_children, raise_slowness, remove_used,
  update_slowness, used_clusters, remove_used_clusters, recompute_info, accept, send_back,
  send_down,
}

-- A bag that is shared out as a whole: the tasks that go up are none.
none_left :
    (up : Bool) (a : Address) (first n m last : ℕ)
    → n + m ≡ last + 1 - first
    → (if up then at a (tasks_from (first + n + m) (last + 1 - (first + n + m))) else []) ≡ []
none_left up a first n m last h =
    let e : last + 1 - (first + n + m) ≡ 0 = omega (arith, h) in
    if-both (λ xs. xs ≡ []) up (ap (λ k. at a (tasks_from (first + n + m) k)) e) refl

some_child :
    {A : Type 0} (n m : ℕ) (l r : Option A)
    → (l ≡ none → n ≡ 0)
    → (r ≡ none → m ≡ 0)
    → 0 < n + m
    → is_some l || is_some r ≡ true
some_child n m none none ls rs h = absurd (omega (arith, h, ls refl, rs refl))
some_child n m none (some y) ls rs h = refl
some_child n m (some x) r ls rs h = refl

follow-IsKnown :
    {A : Type 0} (n : ℕ) (l m : Option A) → (l ≡ none → n ≡ 0) → is_some m ≡ is_some l → IsKnown n m
follow-IsKnown n none m ls h some_tasks unknown = some_tasks (ls refl)
follow-IsKnown n (some x) m ls h some_tasks unknown = false≢true (sym (ap is_some unknown) ∙ h)

pub known-told :
    {A : Type 0} (info : Info A) (w n : Option A) (t : A)
    → elim w [ none ↦ n | some t ↦ some t ] ≡ some t
    → is_told info w n ≡ true
known-told info (some w) n t h = refl
known-told info none none t h = absurd (ground (arith, ap is_some h))
known-told info none (some m) t h = refl

pub none-some : {A : Type 0} {t : A} → none ≢ some t
none-some h = absurd (ground (arith, ap is_some h))

module _ {F : Type 0} (fl : Float F) where
  raised-known : (x : F) (o : Option (FspInfo F)) → is_some (raise_slowness fl x o) ≡ is_some o
  raised-known x none = refl
  raised-known x (some i) = refl

  used-known :
      (us : List ℕ) (l : Link (FspInfo F)) → is_some (remove_used us l).avail ≡ is_some l.avail
  used-known [] l = refl
  used-known (u ∷ us) l = elim (Option-cases l.avail) [ inl e ↦ rw e refl | inr (i, e) ↦ rw e refl ]

  used-addr : (us : List ℕ) (l : Link (FspInfo F)) → (remove_used us l).addr ≡ l.addr
  used-addr [] l = refl
  used-addr (u ∷ us) l = refl

  put_waiting-kept :
      (leaf : Bool) (o : Option (FspInfo F)) (l : Link (FspInfo F))
      → link_kept (record (put_waiting fl leaf o l) { has_new = false }) ≡ link_kept l
  put_waiting-kept leaf o l =
      if-both (λ (m : Link (FspInfo F)). link_kept (record m { has_new = false }) ≡ link_kept l)
        leaf refl refl

  module _ (info : Info (FspInfo F)) where
    recompute-kept :
        (b : Branch) (d : Dispatcher (FspInfo F)) → kept (recompute_info fl info b d) ≡ kept d
    unfolding recompute_info recompute_children
    recompute-kept b d =
        let e = recompute_father info d in
        let r =
          put_waiting fl (b.is_leaf right) (child_info fl e.father.avail e.left_link.avail)
            e.right_link in
        ap (λ l. (link_kept e.father, l, link_kept r, (e.in_change, e.delayed), sent e.out))
          (put_waiting-kept (b.is_leaf left) (child_info fl e.father.avail e.right_link.avail)
            e.left_link)
        ∙ ap
            (λ l.
              (link_kept e.father, link_kept e.left_link, l, (e.in_change, e.delayed), sent e.out))
            (put_waiting-kept (b.is_leaf right) (child_info fl e.father.avail e.left_link.avail)
              e.right_link)
        ∙ recompute_father-kept info d

    recompute-told :
        (b : Branch) (d : Dispatcher (FspInfo F))
        → told info d.father ≡ true
        → is_some d.left_link.avail || is_some d.right_link.avail ≡ true
        → told info (recompute_info fl info b d).father ≡ true
    unfolding recompute_info recompute_children
    recompute-told b d h child = recompute_father-told info d h child

    -- A later state that has sent no more tasks, and knows no less.
    abbrev Follows : Dispatcher (FspInfo F) → Dispatcher (FspInfo F) → Type 0
    Follows d e =
        (sent e.out ≡ sent d.out)
        × (e.left_link.addr ≡ d.left_link.addr)
        × (e.right_link.addr ≡ d.right_link.addr)
        × (is_some e.left_link.avail ≡ is_some d.left_link.avail)
        × (is_some e.right_link.avail ≡ is_some d.right_link.avail)
        × (told info d.father ≡ true
            → is_some d.left_link.avail || is_some d.right_link.avail ≡ true
            → told info e.father ≡ true)

    accept-Follows :
        (b : Branch) (v : FunctionVector F) (d : Dispatcher (FspInfo F))
        → Follows d (accept fl info b v d)
    unfolding accept update_slowness remove_used_clusters
    accept-Follows b v d =
        let x = v.branch_slowness in
        let used = remove_used_clusters v.functions (update_slowness fl x d) in
        let k = recompute-kept b used in
        let us = used_clusters left v.functions in
        let ws = used_clusters right v.functions in
        let l = record d.left_link { avail = raise_slowness fl x.of_left d.left_link.avail } in
        let r = record d.right_link { avail = raise_slowness fl x.of_right d.right_link.avail } in
        let known_left = used-known us l ∙ raised-known x.of_left d.left_link.avail in
        let known_right = used-known ws r ∙ raised-known x.of_right d.right_link.avail in
        (
          ap (λ t. t.4) k,
          ap (λ t. t.1.0) k ∙ used-addr us l,
          ap (λ t. t.2.0) k ∙ used-addr ws r,
          ap (λ t. is_some t.1.1) k ∙ known_left,
          ap (λ t. is_some t.2.1) k ∙ known_right,
          λ h child. recompute-told b used h (rw (known_left, known_right) child),
        )

    notify-Follows :
        (env : Env) (b : Branch) (d e : Dispatcher (FspInfo F))
        → Follows d e
        → Follows d (notify info env b e)
    notify-Follows env b d e h =
        let k = notify-kept info env b e in
        (
          ap (λ t. t.4) k ∙ h.0,
          ap (λ t. t.1.0) k ∙ h.1,
          ap (λ t. t.2.0) k ∙ h.2,
          ap (λ t. is_some t.1.1) k ∙ h.3,
          ap (λ t. is_some t.2.1) k ∙ h.4,
          λ father child. notify-told info env b e ∙ h.5 father child,
        )

    -- All tasks of a bag go down.
    abbrev pub all_down : TaskBag → ℕ → ℕ → Dispatcher (FspInfo F) → List (Address × ℕ)
    all_down msg n m d =
        (sent d.out ++ at d.left_link.addr (tasks_from msg.first_task n))
        ++ at d.right_link.addr (tasks_from (msg.first_task + n) m)

    send_tasks-down :
        (b : Branch) (msg : TaskBag) (n m : ℕ) (d e : Dispatcher (FspInfo F))
        → msg.first_task ≤ msg.last_task
        → msg.last_task + 1 < u32
        → n + m ≡ msg.last_task + 1 - msg.first_task
        → (d.left_link.avail ≡ none → n ≡ 0)
        → (d.right_link.avail ≡ none → m ≡ 0)
        → told info d.father ≡ true
        → Follows d e
        → sent (send_tasks info b msg n m false e).out ≡ all_down msg n m d
    send_tasks-down b msg n m d e ordered small all ls rs father h =
        let first = msg.first_task in
        let child : is_some d.left_link.avail || is_some d.right_link.avail ≡ true =
          some_child n m d.left_link.avail d.right_link.avail ls rs (omega (arith, all, ordered)) in
        let tasks =
          send_tasks-sent info b msg n m false e small (omega (arith, all, ordered))
            (follow-IsKnown n d.left_link.avail e.left_link.avail ls h.3)
            (follow-IsKnown m d.right_link.avail e.right_link.avail rs h.4)
            (is_told-some info e.father.waiting e.father.notified (h.5 father child)) in
        tasks.0
        ∙ ap (λ xs. all_down msg n m e ++ xs)
            (none_left (goes_up info b false) b.father first n m msg.last_task all)
        ∙ append-nil _
        ∙ ap
            (λ xs.
              (xs ++ at e.left_link.addr (tasks_from first n))
              ++ at e.right_link.addr (tasks_from (first + n) m))
            h.0
        ∙ ap
            (λ a.
              (sent d.out ++ at a (tasks_from first n))
              ++ at e.right_link.addr (tasks_from (first + n) m))
            h.1
        ∙ ap
            (λ a.
              (sent d.out ++ at d.left_link.addr (tasks_from first n))
              ++ at a (tasks_from (first + n) m))
            h.2

    pub send_down-sent :
        (env : Env) (b : Branch) (must : Bool) (msg : TaskBag) (v : FunctionVector F)
        (d : Dispatcher (FspInfo F))
        → msg.first_task ≤ msg.last_task
        → msg.last_task + 1 < u32
        → let n = compute_tasks_per_branch v in
          n.of_left + n.of_right ≡ msg.last_task + 1 - msg.first_task
          → (d.left_link.avail ≡ none → n.of_left ≡ 0)
          → (d.right_link.avail ≡ none → n.of_right ≡ 0)
          → told info d.father ≡ true
          → sent (send_down fl info env b must msg v d).out ≡ all_down msg n.of_left n.of_right d
    send_down-sent env b must msg v d ordered small all ls rs father =
        let n = compute_tasks_per_branch v in
        let e = accept fl info b v d in
        let h = accept-Follows b v d in
        send_tasks-down b msg n.of_left n.of_right d (if must then e else notify info env b e)
          ordered small all ls rs father (if-both (Follows d) must h (notify-Follows env b d e h))

    pub send_back-sent :
        (b : Branch) (msg : TaskBag) (d : Dispatcher (FspInfo F))
        → msg.first_task ≤ msg.last_task
        → msg.last_task + 1 < u32
        → branch_info d ≢ none
        → sent (send_back fl info b msg d).out
          ≡ sent d.out ++ (if goes_up info b false then at b.father (tasks_of msg) else [])
    send_back-sent b msg d ordered small known =
        let tasks =
          send_tasks-sent info b msg 0 0 false d small (omega (arith, ordered))
            (λ some_tasks. absurd (some_tasks refl)) (λ some_tasks. absurd (some_tasks refl))
            known in
        tasks.0
        ∙ ap
            (λ ts.
              ((sent d.out ++ []) ++ []) ++ (if goes_up info b false then at b.father ts else []))
            (sym tasks.1)
        ∙ ap (λ xs. xs ++ (if goes_up info b false then at b.father (tasks_of msg) else []))
            (append-nil _ ∙ append-nil _)
