-- ===== src/Mmp/Balance.antt =====
-- What the search for the end of the queues finds, Mmp.balanced_queue.
use native.Mathlib.Nat.{pow-suc, pow-le-pow_right}
use stars.Prelude.{
  ℕ, zero, suc, ◌+◌, ◌*◌, ◌/◌, ◌^◌, ◌≤◌, ◌<◌, ◌≡◌, refl, ◌⊎◌, inl, inr, sym, ◌∙◌, ap, subst, Bool,
  ◌≢◌, true, false, ◌&&◌, some, All, List, [], ◌∷◌, ltb, ◌==◌, if-both, Bool-cases, arith,
}
use stars.Float.{Float}
use stars.Scheduler.Interface.{TaskDescription}
use stars.Mmp.{
  MdptCluster, Search, room, slots, until, widen, grow, halve, refine, refined, start_search,
  high_of, balanced_queue,
}

-- The times that the first loop tries: 300 s, and each time twice as much more.
pub limit : ℕ → ℕ → ℕ
limit now zero = now
limit now (suc k) = limit now k + 300000000 * 2 ^ k

pub le-limit : (now k : ℕ) → now ≤ limit now k
unfolding limit
le-limit now zero = omega arith
le-limit now (suc k) = omega (arith, le-limit now k)

-- The numbers below one.
abbrev pub numbers : ℕ → List ℕ
numbers zero = []
numbers (suc k) = k ∷ numbers k

All-numbers : (P : ℕ → Type 0) (k : ℕ) → ((j : ℕ) → j < k → P j) → All P (numbers k)
All-numbers P zero h = tt
All-numbers P (suc k) h = (h k (omega arith), All-numbers P k (λ j p. h j (omega (arith, p))))

before_from :
    {P : ℕ → Type 0} (k m : ℕ)
    → P k
    → ((j : ℕ) → suc k ≤ j → j < m → P j)
    → (j : ℕ) → k ≤ j
    → j < m
    → P j
before_from {P} k m h rest j p q = elim (Bool-cases (j == k)) [
  | inl e ↦ let same : k ≡ j = ground arith in subst P same h
  | inr e ↦ rest j (ground arith) q
]

module _ {F : Type 0} (fl : Float F) (now : ℕ) (req : TaskDescription) (n : ℕ)
    (cs : List MdptCluster) where
  -- The tasks that fit before the time that the first loop tries as number `k`.
  abbrev pub room_at : ℕ → ℕ
  room_at k = room fl now (until fl now req (limit now k)) 0 cs

  search_at : ℕ → Search
  search_at zero = start_search fl now
  search_at (suc k) = widen fl now req cs (search_at k)

  search_at-step : (k : ℕ) → (search_at k).step ≡ 300000000 * 2 ^ k
  unfolding search_at
  search_at-step zero = omega arith
  search_at-step (suc k) = omega (arith, search_at-step k, pow-suc 2 k)

  search_at-high : (k : ℕ) → (search_at k).high ≡ limit now k
  unfolding search_at limit
  search_at-high zero = refl
  search_at-high (suc k) = omega (arith, search_at-high k, search_at-step k)

  slots-now : (c : MdptCluster) → slots fl now (until fl now req now) c ≡ 0
  unfolding slots
  slots-now c = ground arith

  room-now : (xs : List MdptCluster) → room fl now (until fl now req now) 0 xs ≡ 0
  unfolding room
  room-now [] = refl
  room-now (x ∷ xs) = rw (slots-now x) (room-now xs)

  search_at-tasks : (k : ℕ) → (search_at k).tasks ≡ room_at k
  unfolding search_at limit
  search_at-tasks zero = sym (room-now cs)
  search_at-tasks (suc k) = ap (λ t. room fl now (until fl now req t) 0 cs) (search_at-high (suc k))

  -- The test of the first loop.
  abbrev goes_on : ℕ → Bool
  goes_on k = ltb (search_at k).tasks n && ltb (search_at k).step 1000000000000000000

  goes_on-true : (k : ℕ) → k ≤ 32 → goes_on k ≡ true → (k < 32) × (room_at k < n)
  goes_on-true k h e =
      let p = search_at-step k in
      let t = search_at-tasks k in
      let few : (search_at k).tasks < n = ground arith in
      let short : (search_at k).step < 1000000000000000000 = ground arith in
      let not_last : k ≢ 32 =
        λ last. let q = ap (λ (x : ℕ). 300000000 * 2 ^ x) last in omega (arith, p, q, short) in
      (omega (arith, not_last), omega (arith, t, few))

  goes_on-false : (k : ℕ) → k ≤ 32 → goes_on k ≡ false → (n ≤ room_at k) ⊎ (k ≡ 32)
  goes_on-false k h e = elim (Bool-cases (k == 32)) [
    | inl last ↦ inr (ground arith)
    | inr early ↦
        let p = search_at-step k in
        let t = search_at-tasks k in
        let small : k ≤ 31 = ground arith in
        let q : 2 ^ k ≤ 2 ^ 31 = pow-le-pow_right (omega arith) small in
        let short : (search_at k).step < 1000000000000000000 = omega (arith, p, q) in
        let enough : n ≤ (search_at k).tasks = ground (arith, e, short) in
        inl (omega (arith, t, enough))
  ]

  -- The first loop ends within its fuel, at the first limit with room enough, or at the last.
  grow-search_at :
      (f k : ℕ)
      → f + k ≡ 33
      → k ≤ 32
      → (m : ℕ) × (m ≤ 32)
        × (grow fl now f req n cs (search_at k) ≡ some (search_at m))
        × ((n ≤ room_at m) ⊎ (m ≡ 32))
        × ((j : ℕ) → k ≤ j → j < m → room_at j < n)
  unfolding grow search_at
  grow-search_at zero k e h = absurd (omega (arith, e, h))
  grow-search_at (suc f) k e h = elim (Bool-cases (goes_on k)) [
    | inl more ↦
        let now_few = goes_on-true k h more in
        let (m, le, found, enough, before) =
          grow-search_at f (suc k) (omega (arith, e)) (omega (arith, now_few)) in
        (m, le, rw more found, enough, before_from k m now_few.1 before)
    | inr done ↦ (k, h, rw done refl, goes_on-false k h done, λ j p q. absurd (omega (arith, p, q)))
  ]

  refine-stop :
      (f last : ℕ) (s : Search) → last ≡ s.tasks → refine fl now (suc f) last req n cs s ≡ some s
  unfolding refine
  refine-stop f last s e = let same : (last == s.tasks) ≡ true = ground arith in rw same refl

  refine-go :
      (f last : ℕ) (s : Search)
      → (last == s.tasks) ≡ false
      → refine fl now (suc f) last req n cs s
        ≡ refine fl now f s.tasks req n cs (halve fl now req n cs s)
  unfolding refine
  refine-go f last s e = rw e refl

  -- The second loop leaves the limit as it is: its first round tries the limit again, and then it ends.
  refine-high :
      (f : ℕ) (s : Search)
      → s.low + s.step / 2 ≡ s.high
      → s.tasks ≡ room fl now (until fl now req s.high) 0 cs
      → (r : Search) × (refine fl now (suc (suc f)) 0 req n cs s ≡ some r) × (r.high ≡ s.high)
  refine-high f s mid again =
      let t = room fl now (until fl now req (s.low + s.step / 2)) 0 cs in
      let same_tasks : s.tasks ≡ (halve fl now req n cs s).tasks =
        again ∙ ap (λ t. room fl now (until fl now req t) 0 cs) (sym mid) in
      let same_high : (halve fl now req n cs s).high ≡ s.high =
        if-both (λ h. h ≡ s.high) (ltb t n) refl mid in
      elim (Bool-cases (0 == s.tasks)) [
        | inl none_found ↦ (s, refine-stop (suc f) 0 s (ground arith), refl)
        | inr some_found ↦ (
          halve fl now req n cs s,
          refine-go (suc f) 0 s some_found
              ∙ refine-stop f s.tasks (halve fl now req n cs s) same_tasks,
          same_high,
        )
      ]

  refine-search_at :
      (k : ℕ)
      → (s : Search) × (refine fl now 64 0 req n cs (search_at k) ≡ some s) × (s.high ≡ limit now k)
  unfolding search_at
  refine-search_at zero =
      (start_search fl now, refine-stop 63 0 (start_search fl now) refl, search_at-high 0)
  refine-search_at (suc k) =
      let p = search_at-step k in
      let mid : (search_at k).high + (search_at k).step * 2 / 2
          ≡ (search_at k).high + (search_at k).step =
        omega arith in
      let (s, e, h) = refine-high 62 (search_at (suc k)) mid refl in
      (s, e, h ∙ search_at-high (suc k))

  -- The search for the time until when the queues have room for `n` tasks ends, and gives the first of the times 0 s, 300 s, 900 s,
  -- 2100 s, ... from now, each with twice the distance to the one before, at which there is room, or the thirty-second of these
  -- distances if there is no such time. So the second loop, which halves the last distance, refines nothing.
  pub balanced_queue-IsFirstLimit :
      (k : ℕ) × (k ≤ 32)
      × (balanced_queue fl now req n cs ≡ some (limit now k))
      × ((n ≤ room_at k) ⊎ (k ≡ 32))
      × All (λ j. room_at j < n) (numbers k)
  unfolding balanced_queue search_at
  balanced_queue-IsFirstLimit =
      let (k, le, found, enough, before) = grow-search_at 33 0 (omega arith) (omega arith) in
      let (s, ends, high) = refine-search_at k in
      (
        k,
        le,
        ap (λ o. high_of fl now (refined fl now req n cs o)) found
            ∙ ap (high_of fl now) ends
            ∙ ap some high,
        enough,
        All-numbers (λ j. room_at j < n) k (λ j p. before j (omega arith) p),
      )
