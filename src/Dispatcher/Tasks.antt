-- ===== src/Dispatcher/Tasks.antt =====
-- What becomes of the tasks of a request, Dispatcher.Requests.send_tasks.
use mathlib.Core.List.{append-nil}
use stars.Prelude.{
  ℕ, zero, suc, ◌+◌, ◌-◌, ◌%◌, ◌≤◌, ◌<◌, ◌≡◌, refl, ◌≢◌, sym, ◌∙◌, ap, Bool, false, Option, none,
  some, List, [], ◌∷◌, ◌++◌, map, leb, ◌==◌, if◌then◌else◌, u32, arith, inl, inr, Bool-cases,
  Option-cases,
}
use stars.Address.{Address}
use stars.Scheduler.Interface.{TaskBag}
use stars.Dispatcher.Interface.{Info, Branch, Side, left, right}
use stars.Dispatcher.{Link, Dispatcher, Effect, send_bag, link_of, branch_info}
use stars.Dispatcher.Requests.{send_tasks, send_child, send_known, send_rest, send_father, goes_up}

-- `n` tasks from `first` on.
abbrev pub tasks_from : ℕ → ℕ → List ℕ
tasks_from first zero = []
tasks_from first (suc n) = first ∷ tasks_from (first + 1) n

-- The tasks of a request.
abbrev pub tasks_of : TaskBag → List ℕ
tasks_of msg = tasks_from msg.first_task (msg.last_task + 1 - msg.first_task)

-- Tasks that are all with one node.
abbrev pub at : Address → List ℕ → List (Address × ℕ)
at a ts = map (λ t. (a, t)) ts

module _ {T : Type 0} where
  -- The tasks that were sent on, the first sent first, each with the node it went to.
  abbrev pub sent : List (Effect T) → List (Address × ℕ)
  sent [] = []
  sent (send_bag to msg ∷ out) = sent out ++ at to (tasks_of msg)
  sent (_ ∷ out) = sent out

tasks_from-add :
    (first m n : ℕ) → tasks_from first (m + n) ≡ tasks_from first m ++ tasks_from (first + m) n
tasks_from-add first zero n =
    let e : 0 + n ≡ n = omega arith in let e' : first + 0 ≡ first = omega arith in rw (e, e') refl
tasks_from-add first (suc m) n =
    let e : suc m + n ≡ suc (m + n) = omega arith in
    let e' : first + suc m ≡ first + 1 + m = omega arith in
    rw (e, e') (ap (λ xs. first ∷ xs) (tasks_from-add (first + 1) m n))

tasks_from-shares :
    (first m n last : ℕ)
    → first + m + n ≤ last + 1
    → tasks_from first (last + 1 - first)
      ≡ tasks_from first m
        ++ (tasks_from (first + m) n ++ tasks_from (first + m + n) (last + 1 - (first + m + n)))
tasks_from-shares first m n last enough =
    let left_over = last + 1 - (first + m + n) in
    let count : last + 1 - first ≡ m + (n + left_over) = omega arith in
    rw (count, tasks_from-add first m (n + left_over), tasks_from-add (first + m) n left_over) refl

-- Whoever is sent tasks has told what it has.
abbrev pub IsKnown {ℓ} : {A : Type ℓ} → ℕ → Option A → Type ℓ
IsKnown n o = n ≢ 0 → o ≢ none

module _ {T : Type 0} (info : Info T) where
  send_known-sent :
      (b : Branch) (c : Side) (msg : TaskBag) (next n : ℕ) (o : Option T) (d : Dispatcher T)
      → 0 < n
      → next + n < u32
      → o ≢ none
      → sent (send_known info b c msg next n o d).out
        ≡ sent d.out ++ at (link_of c d).addr (tasks_from next n)
  send_known-sent b c msg next n none d pos small known = absurd (known refl)
  send_known-sent b c msg next n (some t) d pos small known =
      let count : ((next + n + u32 - 1) % u32) + 1 - next ≡ n = omega arith in rw count refl

  send_child-sent :
      (b : Branch) (c : Side) (msg : TaskBag) (next n : ℕ) (d : Dispatcher T)
      → next + n < u32
      → IsKnown n (link_of c d).avail
      → sent (send_child info b c msg next n d).out
        ≡ sent d.out ++ at (link_of c d).addr (tasks_from next n)
  unfolding send_child
  send_child-sent b c msg next zero d small known = sym (append-nil (sent d.out))
  send_child-sent b c msg next (suc n) d small known =
      let some_tasks : (suc n == 0) ≡ false = ground arith in
      rw some_tasks (
        send_known-sent b c msg next (suc n) (link_of c d).avail d (omega arith) small
          (known (ground arith)))

  send_child-links :
      (b : Branch) (c : Side) (msg : TaskBag) (next n : ℕ) (d : Dispatcher T)
      → let e = send_child info b c msg next n d in
        (e.father ≡ d.father) × (e.right_link ≡ d.right_link) × (e.left_link ≡ d.left_link)
  unfolding send_child
  send_child-links b c msg next n d = elim (Option-cases (link_of c d).avail) [
    | inl e ↦ ground (arith, e)
    | inr (t, e) ↦ ground (arith, e)
  ]

  send_father-sent :
      (b : Branch) (msg : TaskBag) (next : ℕ) (o : Option T) (d : Dispatcher T)
      → o ≢ none
      → sent (send_father info b msg next o d).out
        ≡ sent d.out ++ at b.father (tasks_from next (msg.last_task + 1 - next))
  send_father-sent b msg next none d known = absurd (known refl)
  send_father-sent b msg next (some t) d known = refl

  send_rest-sent :
      (b : Branch) (msg : TaskBag) (next : ℕ) (dont_send : Bool) (o : Option T) (d : Dispatcher T)
      → o ≢ none
      → sent (send_rest info b msg next dont_send o d).out
        ≡ sent d.out
          ++ (if goes_up info b dont_send
              then at b.father (tasks_from next (msg.last_task + 1 - next))
              else [])
  unfolding send_rest
  send_rest-sent b msg next dont_send o d known = elim (Bool-cases (goes_up info b dont_send)) [
    | inl e ↦ elim (Bool-cases (leb next msg.last_task)) [
      | inl more ↦ rw (e, more) (send_father-sent b msg next o d known)
      | inr done ↦
          let none_left : msg.last_task + 1 - next ≡ 0 = ground arith in
          rw (e, done, none_left) (sym (append-nil (sent d.out)))
    ]
    | inr e ↦ elim (Bool-cases (leb next msg.last_task)) [
      | inl more ↦ rw (e, more) (sym (append-nil (sent d.out)))
      | inr done ↦ rw (e, done) (sym (append-nil (sent d.out)))
    ]
  ]

  send_rest-links :
      (b : Branch) (msg : TaskBag) (next : ℕ) (dont_send : Bool) (o : Option T) (d : Dispatcher T)
      → let e = send_rest info b msg next dont_send o d in
        (e.left_link ≡ d.left_link) × (e.right_link ≡ d.right_link)
  unfolding send_rest
  send_rest-links b msg next dont_send none d = ground arith
  send_rest-links b msg next dont_send (some t) d = ground arith

  pub send_tasks-links :
      (b : Branch) (msg : TaskBag) (n_left n_right : ℕ) (dont_send : Bool) (d : Dispatcher T)
      → let e = send_tasks info b msg n_left n_right dont_send d in
        (e.left_link ≡ d.left_link) × (e.right_link ≡ d.right_link)
  unfolding send_tasks
  send_tasks-links b msg n_left n_right dont_send d =
      let mid = (msg.first_task + n_left) % u32 in
      let after_left = send_child info b left msg msg.first_task n_left d in
      let one = send_child-links b left msg msg.first_task n_left d in
      let two = send_child-links b right msg mid n_right after_left in
      let rest =
        send_rest-links b msg ((mid + n_right) % u32) dont_send (branch_info d)
          (send_child info b right msg mid n_right after_left) in
      (rest.0 ∙ two.2 ∙ one.2, rest.1 ∙ two.1 ∙ one.1)

  -- Each task of a request goes to one place: the left child gets the first tasks, the right child the next
  -- ones, as many as each is to have, and the father all the others; these are together the tasks of the request, in
  -- their order. Where there is no father, or the rest may not go up, the others are sent to no one. A child that is
  -- to have tasks has told what it offers, the node has information on its branch, and no more tasks are shared out
  -- than the request has.
  pub send_tasks-sent :
      (b : Branch) (msg : TaskBag) (n_left n_right : ℕ) (dont_send : Bool) (d : Dispatcher T)
      → msg.last_task + 1 < u32
      → msg.first_task + n_left + n_right ≤ msg.last_task + 1
      → IsKnown n_left d.left_link.avail
      → IsKnown n_right d.right_link.avail
      → branch_info d ≢ none
      → let first = msg.first_task in
        let next = first + n_left + n_right in
        let for_left = tasks_from first n_left in
        let for_right = tasks_from (first + n_left) n_right in
        let others = tasks_from next (msg.last_task + 1 - next) in
        (sent (send_tasks info b msg n_left n_right dont_send d).out
          ≡ ((sent d.out ++ at d.left_link.addr for_left) ++ at d.right_link.addr for_right)
            ++ (if goes_up info b dont_send then at b.father others else []))
        × (tasks_of msg ≡ for_left ++ (for_right ++ others))
  unfolding send_tasks
  send_tasks-sent b msg n_left n_right dont_send d small enough known_left known_right known =
      let first = msg.first_task in
      let next = first + n_left + n_right in
      let others = tasks_from next (msg.last_task + 1 - next) in
      let up = if goes_up info b dont_send then at b.father others else [] in
      let after_left = send_child info b left msg first n_left d in
      let links = send_child-links b left msg first n_left d in
      let after_right = send_child info b right msg (first + n_left) n_right after_left in
      let mid : (first + n_left) % u32 ≡ first + n_left = omega arith in
      let end : (first + n_left + n_right) % u32 ≡ next = omega arith in
      let to_left = send_child-sent b left msg first n_left d (omega arith) known_left in
      let to_right =
        send_child-sent b right msg (first + n_left) n_right after_left (omega arith)
          (rw links.1 known_right) in
      let to_right' =
        to_right
        ∙ ap
            (λ (l : Link T). sent after_left.out ++ at l.addr (tasks_from (first + n_left) n_right))
            links.1 in
      let rest = send_rest-sent b msg next dont_send (branch_info d) after_right known in
      (
        rw (mid, end)
            (rest
              ∙ ap (λ xs. xs ++ up)
                  (to_right'
                    ∙ ap (λ xs. xs ++ at d.right_link.addr (tasks_from (first + n_left) n_right))
                        to_left)),
        tasks_from-shares first n_left n_right msg.last_task enough,
      )
