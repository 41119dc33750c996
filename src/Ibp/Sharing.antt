-- ===== src/Ibp/Sharing.antt =====
-- What becomes of a bag of tasks at a dispatcher of the policy IBP, Ibp.Routing.handle_task_bag.
use stars.Prelude.{
  ℕ, ◌+◌, ◌-◌, ◌%◌, ◌≤◌, ◌<◌, ◌≡◌, refl, ◌⊎◌, inl, inr, sym, ◌∙◌, ap, subst, true, false,
  false≢true, not, ◌||◌, Option, none, some, List, [], ◌∷◌, ◌++◌, ◌==◌, if◌then◌else◌, if-both, u32,
  arith, is_some, Option-cases,
}
use stars.Address.{Address, same}
use stars.Scheduler.Interface.{TaskBag}
use stars.Dispatcher.Interface.{Info, Branch, left, right}
use stars.Dispatcher.{Link, Dispatcher, Env, recompute_info, notify}
use stars.Dispatcher.Requests.{send_tasks, goes_up}
use stars.Dispatcher.Tasks.{
  tasks_from, tasks_of, at, sent, IsKnown, send_tasks-sent, send_tasks-links,
}
use stars.Dispatcher.Kept.{told, updated-kept, updated-branch_info}
use stars.Ibp.{IbpInfo, MdCluster, purge}
use stars.Ibp.Routing.{
  DecisionInfo, groups_of, sort_groups, share_out, summary_in, put_link, put_known, put_shares,
  handle_task_bag,
}
use stars.Ibp.Division.{total, AllEmpty, divide_lem}

total-purge : (cs : List MdCluster) → total (purge cs) ≡ total cs
total-purge [] = refl
total-purge (c ∷ cs) = ground (arith, total-purge cs)

-- The nodes that a link tells of.
abbrev pub nodes : Link IbpInfo → ℕ
nodes l = total (summary_in l.avail)

-- A child that has shared out `n` tasks has its address, still tells something if it did, and tells of `n` nodes
-- less.
abbrev pub HasGiven : ℕ → Link IbpInfo → Link IbpInfo → Type 0
HasGiven n l m = (m.addr ≡ l.addr) × (is_some m.avail ≡ is_some l.avail) × (nodes m + n ≡ nodes l)

put_known-HasGiven :
    (cs : List MdCluster) (n : ℕ) (l : Link IbpInfo) (o : Option IbpInfo)
    → l.avail ≡ o
    → total cs + n ≡ total (summary_in o)
    → HasGiven n l (put_known cs n l o)
put_known-HasGiven cs n l none e h =
    let none_taken : n ≡ 0 = omega (arith, h) in (refl, refl, omega (arith, none_taken))
put_known-HasGiven cs n l (some i) e h =
    let before : nodes l ≡ total i.summary = ap (λ o. total (summary_in o)) e in
    if-both (HasGiven n l) (n == 0) (refl, sym (ap is_some e), omega (arith, h, before))
      (refl, sym (ap is_some e), omega (arith, h, before, total-purge cs))

put_link-HasGiven :
    (cs : List MdCluster) (n : ℕ) (l : Link IbpInfo)
    → total cs + n ≡ nodes l
    → HasGiven n l (put_link cs n l)
unfolding put_link
put_link-HasGiven cs n l h = put_known-HasGiven cs n l l.avail refl h

-- Who has no nodes gets no tasks.
given-IsKnown : (n : ℕ) (l m : Link IbpInfo) → HasGiven n l m → IsKnown n m.avail
given-IsKnown n l m h some_tasks unknown = elim (Option-cases l.avail) [
  | inl e ↦ some_tasks (let z = ap (λ o. total (summary_in o)) e in omega (arith, h, z))
  | inr (i, e) ↦ false≢true (sym (ap is_some unknown) ∙ h.1 ∙ ap is_some e)
]

module _ (info : Info IbpInfo) where
  -- The groups that a request may be given to.
  abbrev pub groups : Branch → Address → TaskBag → Dispatcher IbpInfo → List DecisionInfo
  groups b src msg d =
      sort_groups (groups_of info b src msg left d ++ groups_of info b src msg right d)

  share_out_lem :
      (b : Branch) (src : Address) (msg : TaskBag) (d : Dispatcher IbpInfo)
      → msg.first_task ≤ msg.last_task
      → msg.last_task + 1 < u32
      → let s = share_out info b src msg d in
        (s.n_left + s.n_right + s.remaining_tasks ≡ msg.last_task + 1 - msg.first_task)
        × (total s.left_summary + s.n_left ≡ nodes d.left_link)
        × (total s.right_summary + s.n_right ≡ nodes d.right_link)
        × ((s.remaining_tasks ≡ 0) ⊎ AllEmpty (groups b src msg d) s)
  unfolding share_out
  share_out_lem b src msg d ordered small =
      let requested : (msg.last_task + u32 - msg.first_task + 1) % u32
          ≡ msg.last_task + 1 - msg.first_task =
        omega arith in
      let h =
        divide_lem (groups b src msg d)
          (record {
            left_summary = summary_in d.left_link.avail;
            right_summary = summary_in d.right_link.avail;
            n_left = 0;
            n_right = 0;
            remaining_tasks = (msg.last_task + u32 - msg.first_task + 1) % u32;
          })
          refl refl (omega arith) in
      (h.0 ∙ requested, h.1, h.2, h.3)

  handle_task_bag-routes :
      (env : Env) (b : Branch) (src : Address) (msg : TaskBag) (d : Dispatcher IbpInfo)
      → msg.for_en ≡ false
      → b.in_network ≡ true
      → let s = share_out info b src msg d in
        handle_task_bag info env b src msg d
        ≡ send_tasks info b msg s.n_left s.n_right
            (same b.father src)
            (notify info env b (recompute_info info (put_shares s d)))
  unfolding handle_task_bag
  handle_task_bag-routes env b src msg d not_en net =
      let s = share_out info b src msg d in
      let told = notify info env b (recompute_info info (put_shares s d)) in
      let sent_on = send_tasks info b msg s.n_left s.n_right (same b.father src) told in
      ap (λ c. if c then d else if not b.in_network then d else sent_on) not_en
      ∙ ap (λ c. if not c then d else sent_on) net

  -- A bag of tasks that is not for an execution node, at a node in the network that has information on its branch and on
  -- a child. The left child is sent the first tasks, the right one the next ones, and the father the others; where it
  -- sent the bag, or there is none, the others are sent to no one. Together these are the tasks of the bag. Each child is then known to have as many
  -- nodes less as it was sent tasks, and no task is left for the father as long as a group that fulfils the requirements
  -- has a node.
  pub handle_task_bag-shares :
      (env : Env) (b : Branch) (src : Address) (msg : TaskBag) (d : Dispatcher IbpInfo)
      → msg.for_en ≡ false
      → b.in_network ≡ true
      → msg.first_task ≤ msg.last_task
      → msg.last_task + 1 < u32
      → told info d.father ≡ true
      → is_some d.left_link.avail || is_some d.right_link.avail ≡ true
      → let s = share_out info b src msg d in
        let e = handle_task_bag info env b src msg d in
        let first = msg.first_task in
        let next = first + s.n_left + s.n_right in
        let for_left = tasks_from first s.n_left in
        let for_right = tasks_from (first + s.n_left) s.n_right in
        let others = tasks_from next (msg.last_task + 1 - next) in
        (sent e.out
          ≡ ((sent d.out ++ at d.left_link.addr for_left) ++ at d.right_link.addr for_right)
            ++ (if goes_up info b (same b.father src) then at b.father others else []))
        × (tasks_of msg ≡ for_left ++ (for_right ++ others))
        × (nodes e.left_link + s.n_left ≡ nodes d.left_link)
        × (nodes e.right_link + s.n_right ≡ nodes d.right_link)
        × ((others ≡ []) ⊎ AllEmpty (groups b src msg d) s)
  handle_task_bag-shares env b src msg d not_en net ordered small known child =
      let s = share_out info b src msg d in
      let shared = share_out_lem b src msg d ordered small in
      let gave_left = put_link-HasGiven s.left_summary s.n_left d.left_link shared.1 in
      let gave_right = put_link-HasGiven s.right_summary s.n_right d.right_link shared.2 in
      let given = put_shares s d in
      let after = notify info env b (recompute_info info given) in
      let k = updated-kept info env b given in
      let routed = send_tasks info b msg s.n_left s.n_right (same b.father src) after in
      let e : handle_task_bag info env b src msg d ≡ routed =
        handle_task_bag-routes env b src msg d not_en net in
      let child' : is_some given.left_link.avail || is_some given.right_link.avail ≡ true =
        rw (gave_left.1, gave_right.1) child in
      let known_left =
        subst (IsKnown s.n_left) (sym (ap (λ x. x.1.1) k))
          (given-IsKnown s.n_left d.left_link given.left_link gave_left) in
      let known_right =
        subst (IsKnown s.n_right) (sym (ap (λ x. x.2.1) k))
          (given-IsKnown s.n_right d.right_link given.right_link gave_right) in
      let tasks =
        send_tasks-sent info b msg s.n_left s.n_right (same b.father src) after small
          (omega (arith, shared)) known_left known_right
          (updated-branch_info info env b given known child') in
      let links = send_tasks-links info b msg s.n_left s.n_right (same b.father src) after in
      let first = msg.first_task in
      let next = first + s.n_left + s.n_right in
      let others = tasks_from next (msg.last_task + 1 - next) in
      let all : List (Address × ℕ) → Address → Address → List (Address × ℕ) = λ xs l r.
        ((xs ++ at l (tasks_from first s.n_left)) ++ at r (tasks_from (first + s.n_left) s.n_right))
        ++ (if goes_up info b (same b.father src) then at b.father others else []) in
      let left_avail =
        ap (λ (l : Link IbpInfo). l.avail)
          (ap (λ (x : Dispatcher IbpInfo). x.left_link) e ∙ links.0)
        ∙ ap (λ x. x.1.1) k in
      let right_avail =
        ap (λ (l : Link IbpInfo). l.avail)
          (ap (λ (x : Dispatcher IbpInfo). x.right_link) e ∙ links.1)
        ∙ ap (λ x. x.2.1) k in
      (
        ap (λ (x : Dispatcher IbpInfo). sent x.out) e
            ∙ tasks.0
            ∙ ap (λ xs. all xs after.left_link.addr after.right_link.addr) (ap (λ x. x.4) k)
            ∙ ap (λ l. all (sent d.out) l after.right_link.addr) (ap (λ x. x.1.0) k ∙ gave_left.0)
            ∙ ap (λ r. all (sent d.out) d.left_link.addr r) (ap (λ x. x.2.0) k ∙ gave_right.0),
        tasks.1,
        ap (λ o. total (summary_in o) + s.n_left) left_avail ∙ gave_left.2,
        ap (λ o. total (summary_in o) + s.n_right) right_avail ∙ gave_right.2,
        elim shared.3 [
          | inl done ↦
              let none_left : msg.last_task + 1 - next ≡ 0 = omega (arith, shared.0, done) in
              inl (ap (tasks_from next) none_left)
          | inr empty ↦ inr empty
        ],
      )
