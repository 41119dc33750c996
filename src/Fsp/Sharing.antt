-- ===== src/Fsp/Sharing.antt =====
-- What becomes of a bag of tasks at a dispatcher of the policy FSP, Fsp.Routing.handle_task_bag.
use stars.Prelude.{
  ℕ, ◌+◌, ◌-◌, ◌≤◌, ◌<◌, ◌≡◌, refl, ◌⊎◌, inl, inr, sym, ◌∙◌, ap, subst, Bool, true, false, not,
  ◌&&◌, ◌||◌, Option, some, List, [], ◌++◌, ltb, if◌then◌else◌, u32, arith, Bool-cases, Perm,
}
use stars.Address.{Address}
use stars.Float.{Float}
use stars.Scheduler.Interface.{TaskBag}
use stars.Dispatcher.Interface.{Info, Branch}
use stars.Dispatcher.{Dispatcher, Env, branch_info}
use stars.Dispatcher.Requests.{check_state, goes_up}
use stars.Dispatcher.Tasks.{tasks_of, at, sent}
use stars.Dispatcher.Kept.{told}
use stars.Fsp.Allocation.{FunctionVector, compute_tasks_per_function}
use stars.Fsp.Branches.{nodes}
use stars.Fsp.Exact.{compute_tasks_per_function-IsExact}
use stars.Fsp.Routing.{
  FspInfo, must_go_down, functions_in, num_tasks, functions_for, send_back, send_down,
  send_expected, send_given, route, slowness_limit, expected_slowness, handle_task_bag,
}
use stars.Fsp.Sending.{all_down, send_down-sent, send_back-sent, known-told, none-some}

module _ {F : Type 0} (fl : Float F) (info : Info (FspInfo F))
    (pop_order : List (F × ℕ) → List (F × ℕ)) (infinity beta discard_ratio : F)
    (discard : Bool) where
  -- The functions that a bag is given to, when their slowness is much more than was expected of them.
  abbrev pub IsTooSlow : Address → TaskBag → F → Dispatcher (FspInfo F) → Type 0
  IsTooSlow src msg estimated d =
      (v : FunctionVector F) × (compute_tasks_per_function fl pop_order (num_tasks msg + 1)
          (num_tasks msg) msg.min_requirements.length (functions_for fl infinity msg d)
        ≡ some v)
      × (fl.lt (fl.mul (expected_slowness src msg estimated v.min_slowness d) discard_ratio)
            v.min_slowness
          ≡ true)

  abbrev pub sent_up : Branch → TaskBag → Dispatcher (FspInfo F) → List (Address × ℕ)
  sent_up b msg d = sent d.out ++ (if goes_up info b false then at b.father (tasks_of msg) else [])

  -- The tasks of a bag are dropped, go to the father if there is one, or go to the children.
  abbrev pub IsRouted :
      Branch → Address → TaskBag → F → Dispatcher (FspInfo F) → Dispatcher (FspInfo F) → Type 0
  IsRouted b src msg estimated d e =
      ((discard ≡ true) × IsTooSlow src msg estimated d × (sent e.out ≡ sent d.out))
      ⊎ ((((must_go_down src msg d ≡ false) ⊎ IsTooSlow src msg estimated d)
            × (sent e.out ≡ sent_up b msg d))
          ⊎ ((n : ℕ) × (m : ℕ) × (n + m ≡ msg.last_task + 1 - msg.first_task)
              × (sent e.out ≡ all_down fl info msg n m d)))

  send_expected-IsRouted :
      (env : Env) (b : Branch) (src : Address) (must : Bool) (msg : TaskBag) (estimated x : F)
      (v : FunctionVector F) (d : Dispatcher (FspInfo F))
      → (fl.lt (fl.mul x discard_ratio) v.min_slowness ≡ true → IsTooSlow src msg estimated d)
      → sent (send_back fl info b msg d).out ≡ sent_up b msg d
      → IsRouted b src msg estimated d (send_down fl info env b must msg v d)
      → IsRouted b src msg estimated d
          (send_expected fl info pop_order infinity beta discard_ratio discard env b must msg x v d)
  send_expected-IsRouted env b src must msg estimated x v d slow back down =
      let Routed : Dispatcher (FspInfo F) → Type 0 = IsRouted b src msg estimated d in
      let up : Bool → Dispatcher (FspInfo F) = λ c. if c then d else send_back fl info b msg d in
      let down_to = send_down fl info env b must msg v d in
      elim (Bool-cases (fl.lt (fl.mul x discard_ratio) v.min_slowness)) [
        | inr fast ↦ subst (λ c. Routed (if c then up discard else down_to)) (sym fast) down
        | inl e ↦
            subst (λ c. Routed (if c then up discard else down_to)) (sym e)
              (elim (Bool-cases discard) [
                | inl dropped ↦ inl (dropped, slow e, ap (λ c. sent (up c).out) dropped)
                | inr kept_on ↦
                    subst (λ c. Routed (up c)) (sym kept_on) (inr (inl (inr (slow e), back)))
              ])
      ]

  send_given-IsRouted :
      (env : Env) (b : Branch) (src : Address) (msg : TaskBag) (estimated : F) (zone : FspInfo F)
      (v : FunctionVector F) (d : Dispatcher (FspInfo F))
      → (compute_tasks_per_function fl pop_order
            (num_tasks msg + 1)
            (num_tasks msg)
            msg.min_requirements.length
            (functions_for fl infinity msg d)
          ≡ some v)
      → sent (send_back fl info b msg d).out ≡ sent_up b msg d
      → ((must : Bool) → IsRouted b src msg estimated d (send_down fl info env b must msg v d))
      → (r : Dispatcher (FspInfo F) × F) × (send_given fl info pop_order infinity beta discard_ratio
            discard env b src msg estimated zone
            (some v)
            d
          ≡ some r)
        × IsRouted b src msg estimated d r.0
  send_given-IsRouted env b src msg estimated zone v d eq back down =
      let must = must_go_down src msg d in
      let limit = slowness_limit fl beta zone d.father.avail in
      let low = fl.lt v.min_slowness limit || fl.eq v.min_slowness limit in
      let x = expected_slowness src msg estimated v.min_slowness d in
      let given : Bool → Option (Dispatcher (FspInfo F) × F) = λ c.
        if c
        then some (
          send_expected fl info pop_order infinity beta discard_ratio discard env b must msg x v d,
          x,
        )
        else some (send_back fl info b msg d, estimated) in
      let Ends : Option (Dispatcher (FspInfo F) × F) → Type 0 =
        λ o. (r : Dispatcher (FspInfo F) × F) × (o ≡ some r) × IsRouted b src msg estimated d r.0 in
      elim (Bool-cases (must || low)) [
        | inl e ↦
            subst (λ c. Ends (given c)) (sym e)
              (
                (_, _),
                refl,
                send_expected-IsRouted env b src must msg estimated x v d (λ slow. (v, eq, slow))
                    back (down must),
              )
        | inr e ↦
            subst (λ c. Ends (given c)) (sym e)
              ((_, _), refl, inr (inl (inl (ground (arith, e)), back)))
      ]

  -- A bag that is not for an execution node, at a node with information on its branch, whose children have told of some
  -- nodes that fulfil the requirements, where tasks and nodes together do not exceed a machine's integer. The handling
  -- ends. The bag is dropped, if the node is to discard bags and this one is slower than expected, or it is slower
  -- than expected or need not go down, and goes to the father as a whole, or to no one if there is no father, or is shared out as a
  -- whole among the children: the left one is sent the first tasks and the right one the others.
  pub handle_task_bag-IsRouted :
      (env : Env) (b : Branch) (src : Address) (msg : TaskBag) (estimated : F) (zone : FspInfo F)
      (d : Dispatcher (FspInfo F))
      → ((heap : List (F × ℕ)) → Perm (pop_order heap) heap)
      → msg.for_en ≡ false
      → check_state info b d ≡ true
      → branch_info d ≡ some zone
      → msg.first_task ≤ msg.last_task
      → msg.last_task + 1 < u32
      → let req = msg.min_requirements in
        let some_nodes =
          nodes (functions_in req d.left_link.avail)
          + nodes (functions_in req d.right_link.avail) in
        0 < some_nodes
        → (msg.last_task + 1 - msg.first_task) + some_nodes ≤ u32
        → (r : Dispatcher (FspInfo F) × F) × (handle_task_bag fl info pop_order infinity beta
              discard_ratio discard env b src msg estimated d
            ≡ some r)
          × IsRouted b src msg estimated d r.0
  unfolding handle_task_bag functions_in
  handle_task_bag-IsRouted env b src msg estimated zone d perm not_en ready known ordered small
        some_node room =
      let req = msg.min_requirements in
      let v = functions_for fl infinity msg d in
      let wanted = num_tasks msg in
      let all : wanted ≡ msg.last_task + 1 - msg.first_task = omega arith in
      let (r, ended, n) =
        compute_tasks_per_function-IsExact fl pop_order perm req.length wanted infinity
          v.branch_slowness (functions_in req d.left_link.avail)
          (functions_in req d.right_link.avail) (omega (arith, all, ordered)) some_node
          (omega (arith, all, room)) in
      let father : told info d.father ≡ true =
        known-told info d.father.waiting d.father.notified zone known in
      let back = send_back-sent fl info b msg d ordered small (λ e. none-some (sym e ∙ known)) in
      let down : (must : Bool)
          → IsRouted b src msg estimated d (send_down fl info env b must msg r d) =
        λ must. inr (
          inr (
            _,
            _,
            n.0 ∙ all,
            send_down-sent fl info env b must msg r d ordered small (n.0 ∙ all)
                (λ e. n.1 (ap (functions_in req) e)) (λ e. n.2 (ap (functions_in req) e)) father,
          )) in
      let Ends : Option (Dispatcher (FspInfo F) × F) → Type 0 =
        λ o. (x : Dispatcher (FspInfo F) × F) × (o ≡ some x) × IsRouted b src msg estimated d x.0 in
      let given : Option (FunctionVector F) → Option (Dispatcher (FspInfo F) × F) = λ o.
        send_given fl info pop_order infinity beta discard_ratio discard env b src msg estimated
          zone o d in
      let result = compute_tasks_per_function fl pop_order (wanted + 1) wanted req.length v in
      let routed : handle_task_bag fl info pop_order infinity beta discard_ratio discard env b src
            msg estimated d
          ≡ route fl info pop_order infinity beta discard_ratio discard env b src msg estimated
              (some zone) d =
        rw (not_en, ready, known) refl in
      let choice : Bool → Option (Dispatcher (FspInfo F) × F) =
        λ c. if c then some (send_back fl info b msg d, estimated) else given result in
      let go_on =
        subst (λ o. Ends (given o)) (sym ended)
          (send_given-IsRouted env b src msg estimated zone r d ended back down) in
      subst Ends (sym routed)
        (elim (Bool-cases (not (must_go_down src msg d) && ltb v.total_nodes wanted)) [
          | inl e ↦
              subst (λ c. Ends (choice c)) (sym e)
                ((_, _), refl, inr (inl (inl (ground (arith, e)), back)))
          | inr e ↦ subst (λ c. Ends (choice c)) (sym e) go_on
        ])
