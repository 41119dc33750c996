-- ===== src/Dp/Cache.antt =====
-- A request that comes again, Dp.handle_task_bag.
use mathlib.Core.List.{append_assoc}
use stars.Prelude.{
  ℕ, suc, ◌+◌, ◌≤◌, ◌<◌, ◌≡◌, refl, sym, subst, ◌∙◌, ap, All, length-append, Bool, true, false,
  List, [], ◌∷◌, ◌++◌, length, any, ltb, if◌then◌else◌, if-both, arith,
}
use stars.Address.{Address, same}
use stars.Scheduler.Interface.{TaskBag}
use stars.Dispatcher.Interface.{Info, Branch}
use stars.Dispatcher.{Env}
use stars.Dp.{
  DpInfo, DpDispatcher, RecentRequest, is_request, drop_old, erase_request, new_request, remember,
  request_cache_time, request_cache_size, pass_on, look_up, route, handle_task_bag,
}

-- A request with at most `k` behind it in a list.
abbrev pub IsWithin : ℕ → RecentRequest → List RecentRequest → Type 0
IsWithin k r rs =
    (xs : List RecentRequest) × (ys : List RecentRequest) × (rs ≡ xs ++ r ∷ ys) × (length ys ≤ k)

-- A request that is the last of a list.
abbrev pub IsLast : RecentRequest → List RecentRequest → Type 0
IsLast r rs = (xs : List RecentRequest) × (rs ≡ xs ++ r ∷ [])

remember-IsLast : (r : RecentRequest) (rs : List RecentRequest) → IsLast r (remember r rs)
unfolding remember
remember-IsLast r [] = ([], refl)
remember-IsLast r (s ∷ rs) =
    if-both (IsLast r) (ltb request_cache_size (length (s ∷ rs ++ r ∷ []))) (rs, refl)
      (s ∷ rs, refl)

-- The oldest request that is kept is not behind one that is recent.
drop_old-IsWithin :
    (now k : ℕ) (r : RecentRequest) (xs ys : List RecentRequest)
    → now ≤ r.when + request_cache_time
    → length ys ≤ k
    → IsWithin k r (drop_old now (xs ++ r ∷ ys))
unfolding drop_old
drop_old-IsWithin now k r [] ys h few =
    let recent : ltb (r.when + request_cache_time) now ≡ false = ground (arith, h) in
    ([], ys, rw recent refl, few)
drop_old-IsWithin now k r (x ∷ xs) ys h few =
    if-both (IsWithin k r) (ltb (x.when + request_cache_time) now)
      (drop_old-IsWithin now k r xs ys h few) (x ∷ xs, ys, refl, few)

length-erase_request-le :
    (msg : TaskBag) (rs : List RecentRequest) → length (erase_request msg rs) ≤ length rs
unfolding erase_request
length-erase_request-le msg [] = omega arith
length-erase_request-le msg (r ∷ rs) =
    let shorter = length-erase_request-le msg rs in
    let whole : length rs ≤ length (r ∷ rs) = omega arith in
    let rest : length (r ∷ erase_request msg rs) ≤ length (r ∷ rs) = omega (arith, shorter) in
    if-both (λ (xs : List RecentRequest). length xs ≤ length (r ∷ rs)) (is_request msg r) whole rest

-- Another request is erased, in front of it or behind it.
erase_request-IsWithin :
    (msg : TaskBag) (k : ℕ) (r : RecentRequest) (xs ys : List RecentRequest)
    → is_request msg r ≡ false
    → length ys ≤ k
    → IsWithin k r (erase_request msg (xs ++ r ∷ ys))
unfolding erase_request
erase_request-IsWithin msg k r [] ys other few =
    ([], erase_request msg ys, rw other refl, omega (arith, few, length-erase_request-le msg ys))
erase_request-IsWithin msg k r (x ∷ xs) ys other few =
    let (us, vs, e, short) = erase_request-IsWithin msg k r xs ys other few in
    if-both (IsWithin k r) (is_request msg x) (xs, ys, refl, few)
      (x ∷ us, vs, ap (λ zs. x ∷ zs) e, short)

append-IsWithin :
    (k : ℕ) (r new : RecentRequest) (rs : List RecentRequest)
    → IsWithin k r rs
    → IsWithin (k + 1) r (rs ++ new ∷ [])
append-IsWithin k r new rs (xs, ys, e, few) = (
  xs,
  ys ++ new ∷ [],
  ap (λ zs. zs ++ new ∷ []) e ∙ append_assoc xs (r ∷ ys) (new ∷ []),
  omega (arith, few, length-append ys (new ∷ [])),
)

-- The cache is full only when there are others in front of it.
remember-IsWithin :
    (k : ℕ) (r new : RecentRequest) (xs ys : List RecentRequest)
    → length ys ≤ k
    → k + 1 < request_cache_size
    → IsWithin (k + 1) r (remember new (xs ++ r ∷ ys))
unfolding remember
remember-IsWithin k r new [] ys few small =
    let fits : ltb request_cache_size (length (r ∷ ys ++ new ∷ [])) ≡ false =
      ground (arith, few, small, length-append ys (new ∷ [])) in
    rw fits (append-IsWithin k r new (r ∷ ys) ([], ys, refl, few))
remember-IsWithin k r new (x ∷ xs) ys few small =
    if-both (IsWithin (k + 1) r) (ltb request_cache_size (length (x ∷ (xs ++ r ∷ ys) ++ new ∷ [])))
      (append-IsWithin k r new (xs ++ r ∷ ys) (xs, ys, refl, few))
      (append-IsWithin k r new (x ∷ xs ++ r ∷ ys) (x ∷ xs, ys, refl, few))

any-within :
    (p : RecentRequest → Bool) (r : RecentRequest) (xs ys : List RecentRequest)
    → p r ≡ true
    → any p (xs ++ r ∷ ys) ≡ true
any-within p r [] ys h = rw h refl
any-within p r (x ∷ xs) ys h = if-both (λ b. b ≡ true) (p x) refl (any-within p r xs ys h)

is_request_refl : (now : ℕ) (msg : TaskBag) → is_request msg (new_request now msg) ≡ true
unfolding same
is_request_refl now msg = ground arith

if-true : {A : Type 0} {b : Bool} (p q : A) → b ≡ true → (if b then p else q) ≡ p
if-true p q h = rw h refl

-- The arrival of a bag.
pub record Arrival : Type 0 where
  pub env : Env
  pub branch : Branch
  pub src : Address
  pub msg : TaskBag

-- An arrival of another request, within ten seconds of one.
abbrev pub IsOther : RecentRequest → Arrival → Type 0
IsOther r a = (is_request a.msg r ≡ false) × (a.env.now ≤ r.when + request_cache_time)

module _ {T : Type 0} (info : Info T) (dp : DpInfo T) where
  unfoldable pub receive_all : List Arrival → DpDispatcher T → DpDispatcher T
  receive_all [] d = d
  receive_all (a ∷ rest) d = receive_all rest (handle_task_bag info dp a.env a.branch a.src a.msg d)

  look_up-IsLast :
      (env : Env) (b : Branch) (src : Address) (msg : TaskBag) (d : DpDispatcher T)
      → IsLast (new_request env.now msg) (look_up info dp env b src msg d).recent_requests
  look_up-IsLast env b src msg d =
      let recent = drop_old env.now d.recent_requests in
      let new = new_request env.now msg in
      if-both (λ e. IsLast new (DpDispatcher.recent_requests e)) (any (is_request msg) recent)
        (erase_request msg recent, refl) (remember-IsLast new recent)

  -- A request that is in the cache, and recent, is only passed on to the father.
  look_up-again :
      (env : Env) (b : Branch) (src : Address) (msg : TaskBag) (k : ℕ) (r : RecentRequest)
      (d : DpDispatcher T)
      → is_request msg r ≡ true
      → env.now ≤ r.when + request_cache_time
      → IsWithin k r d.recent_requests
      → (look_up info dp env b src msg d).base ≡ pass_on info dp msg d.base
  look_up-again env b src msg k r d h recent (xs, ys, e, few) =
      let (us, vs, kept, short) = drop_old-IsWithin env.now k r xs ys recent few in
      let found : any (is_request msg) (drop_old env.now d.recent_requests) ≡ true =
        ap (λ rs. any (is_request msg) (drop_old env.now rs)) e
        ∙ ap (any (is_request msg)) kept
        ∙ any-within (is_request msg) r us vs h in
      ap DpDispatcher.base (
        if-true
          (record {
            base = pass_on info dp msg d.base;
            recent_requests =
                erase_request msg (drop_old env.now d.recent_requests)
                ++ new_request env.now msg ∷ [];
          })
          (record {
            base = route info dp env b src msg d.base;
            recent_requests =
                remember (new_request env.now msg) (drop_old env.now d.recent_requests);
          })
          found)

  look_up-IsWithin :
      (env : Env) (b : Branch) (src : Address) (msg : TaskBag) (k : ℕ) (r : RecentRequest)
      (d : DpDispatcher T)
      → is_request msg r ≡ false
      → env.now ≤ r.when + request_cache_time
      → k + 1 < request_cache_size
      → IsWithin k r d.recent_requests
      → IsWithin (k + 1) r (look_up info dp env b src msg d).recent_requests
  look_up-IsWithin env b src msg k r d other recent small (xs, ys, e, few) =
      let (us, vs, kept, short) = drop_old-IsWithin env.now k r xs ys recent few in
      let new = new_request env.now msg in
      let dropped : drop_old env.now d.recent_requests ≡ us ++ r ∷ vs =
        ap (drop_old env.now) e ∙ kept in
      if-both (λ x. IsWithin (k + 1) r (DpDispatcher.recent_requests x))
        (any (is_request msg) (drop_old env.now d.recent_requests))
        (append-IsWithin k r new (erase_request msg (drop_old env.now d.recent_requests)) (
          subst (λ rs. IsWithin k r (erase_request msg rs)) (sym dropped)
            (erase_request-IsWithin msg k r us vs other short)))
        (subst (λ rs. IsWithin (k + 1) r (remember new rs)) (sym dropped)
          (remember-IsWithin k r new us vs short small))

  handle_task_bag-look_up :
      (env : Env) (b : Branch) (src : Address) (msg : TaskBag) (d : DpDispatcher T)
      → msg.for_en ≡ false
      → b.in_network ≡ true
      → handle_task_bag info dp env b src msg d ≡ look_up info dp env b src msg d
  unfolding handle_task_bag
  handle_task_bag-look_up env b src msg d h_en h_net = rw h_en (rw h_net refl)

  handle_task_bag-IsWithin :
      (a : Arrival) (k : ℕ) (r : RecentRequest) (d : DpDispatcher T)
      → is_request a.msg r ≡ false
      → a.env.now ≤ r.when + request_cache_time
      → k + 1 < request_cache_size
      → IsWithin k r d.recent_requests
      → IsWithin (k + 1) r (handle_task_bag info dp a.env a.branch a.src a.msg d).recent_requests
  unfolding handle_task_bag
  handle_task_bag-IsWithin a k r d other recent small (xs, ys, e, few) =
      let still : IsWithin (k + 1) r d.recent_requests = (xs, ys, e, omega (arith, few)) in
      let Within : DpDispatcher T → Type 0 = λ x. IsWithin (k + 1) r x.recent_requests in
      if-both Within a.msg.for_en still (
        if-both Within a.branch.in_network
          (look_up-IsWithin a.env a.branch a.src a.msg k r d other recent small (xs, ys, e, few))
          still)

  receive_all-IsWithin :
      (others : List Arrival) (k : ℕ) (r : RecentRequest) (d : DpDispatcher T)
      → All (IsOther r) others
      → k + length others < request_cache_size
      → IsWithin k r d.recent_requests
      → IsWithin (k + length others) r (receive_all others d).recent_requests
  unfolding receive_all
  receive_all-IsWithin [] k r d h small within = let e : k + 0 ≡ k = omega arith in rw e within
  receive_all-IsWithin (a ∷ others) k r d h small within =
      let e : k + suc (length others) ≡ k + 1 + length others = omega arith in
      rw e (
        receive_all-IsWithin others (k + 1) r (handle_task_bag info dp a.env a.branch a.src a.msg d)
          h.1 (omega (arith, small))
          (handle_task_bag-IsWithin a k r d h.0.0 h.0.1 (omega (arith, small)) within))

  -- A request that comes again within the ten seconds after its last arrival, from any node and with any tasks, with fewer
  -- than 100 arrivals of other requests in between, is not shared out a second time: the dispatcher only passes it on to
  -- the father, if there is one, and keeps its links. The new arrival is then the latest one in the cache, so the ten
  -- seconds start again.
  pub handle_task_bag-again :
      (env later : Env) (b b' : Branch) (src src' : Address) (msg msg' : TaskBag)
      (others : List Arrival) (d : DpDispatcher T)
      → msg.for_en ≡ false
      → b.in_network ≡ true
      → msg'.for_en ≡ false
      → b'.in_network ≡ true
      → msg'.requester ≡ msg.requester
      → msg'.request_id ≡ msg.request_id
      → later.now ≤ env.now + 10000000
      → length others < 100
      → All (IsOther (new_request env.now msg)) others
      → let between = receive_all others (handle_task_bag info dp env b src msg d) in
        let again = handle_task_bag info dp later b' src' msg' between in
        (again.base ≡ pass_on info dp msg' between.base)
        × IsLast (new_request later.now msg') again.recent_requests
  unfolding same
  handle_task_bag-again env later b b' src src' msg msg' others d h_en h_net h_en' h_net' h_from
        h_id h_time few other =
      let r = new_request env.now msg in
      let first = look_up info dp env b src msg d in
      let between = receive_all others first in
      let is_first = handle_task_bag-look_up env b src msg d h_en h_net in
      let is_second = handle_task_bag-look_up later b' src' msg' between h_en' h_net' in
      let again : is_request msg' r ≡ true = ground arith in
      let (xs, e) = look_up-IsLast env b src msg d in
      let within : IsWithin (0 + length others) r between.recent_requests =
        receive_all-IsWithin others 0 r first other (omega (arith, few)) (xs, [], e, omega arith) in
      rw is_first (
        rw is_second (
          look_up-again later b' src' msg' (0 + length others) r between again h_time within,
          look_up-IsLast later b' src' msg' between,
        ))
