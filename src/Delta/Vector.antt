-- ===== src/Delta/Vector.antt =====
-- The loops of update() over the vector of points, Delta.move_down, move_up and resize, one point at a time.
use stars.Prelude.{
  ℕ, zero, suc, ◌+◌, ◌≤◌, ◌<◌, ◌≡◌, ◌≢◌, refl, inl, inr, sym, ◌∙◌, ap, some, List, [], ◌∷◌, length,
  get_elem?, set, ltb, Bool-cases, arith,
}
use stars.Float.{Float}
use stars.Delta.{point_at, move_down, move_up, resize}

module _ {ℓ} {A : Type ℓ} where
  pub length-set : (xs : List A) (i : ℕ) (v : A) → length (set xs i v) ≡ length xs
  length-set [] i v = refl
  length-set (x ∷ xs) zero v = refl
  length-set (x ∷ xs) (suc i) v = ap suc (length-set xs i v)

  pub get_elem?-set_self :
      (xs : List A) (i : ℕ) (v : A) → i < length xs → get_elem? (set xs i v) i ≡ some v
  get_elem?-set_self [] i v h = absurd (omega (arith, h))
  get_elem?-set_self (x ∷ xs) zero v h = refl
  get_elem?-set_self (x ∷ xs) (suc i) v h = get_elem?-set_self xs i v (omega (arith, h))

  pub get_elem?-set_other :
      (xs : List A) (i j : ℕ) (v : A) → i ≢ j → get_elem? (set xs i v) j ≡ get_elem? xs j
  get_elem?-set_other [] i j v h = refl
  get_elem?-set_other (x ∷ xs) zero zero v h = absurd (h refl)
  get_elem?-set_other (x ∷ xs) zero (suc j) v h = refl
  get_elem?-set_other (x ∷ xs) (suc i) zero v h = refl
  get_elem?-set_other (x ∷ xs) (suc i) (suc j) v h =
      get_elem?-set_other xs i j v (λ e. h (ap suc e))

module _ {F : Type 0} (fl : Float F) where
  pub get_elem?-point_at :
      (ps : List (ℕ × F)) (i : ℕ) → i < length ps → get_elem? ps i ≡ some (point_at fl ps i)
  get_elem?-point_at [] i h = absurd (omega (arith, h))
  get_elem?-point_at (p ∷ ps) zero h = refl
  get_elem?-point_at (p ∷ ps) (suc i) h = get_elem?-point_at ps i (omega (arith, h))

  pub move_down-length :
      (k i j : ℕ) (ps : List (ℕ × F)) → length (move_down fl k i j ps) ≡ length ps
  unfolding move_down
  move_down-length zero i j ps = refl
  move_down-length (suc k) i j ps =
      move_down-length k (suc i) (suc j) (set ps i (point_at fl ps j))
      ∙ length-set ps i (point_at fl ps j)

  pub move_down-kept :
      (k i j n : ℕ) (ps : List (ℕ × F))
      → n < i
      → get_elem? (move_down fl k i j ps) n ≡ get_elem? ps n
  unfolding move_down
  move_down-kept zero i j n ps h = refl
  move_down-kept (suc k) i j n ps h =
      move_down-kept k (suc i) (suc j) n (set ps i (point_at fl ps j)) (omega (arith, h))
      ∙ get_elem?-set_other ps i n (point_at fl ps j) (λ e. omega (arith, h, e))

  pub move_down-moved :
      (k i j m : ℕ) (ps : List (ℕ × F))
      → i < j
      → j + k ≤ length ps
      → m < k
      → get_elem? (move_down fl k i j ps) (i + m) ≡ get_elem? ps (j + m)
  unfolding move_down
  move_down-moved zero i j m ps h enough few = absurd (omega (arith, few))
  move_down-moved (suc k) i j zero ps h enough few =
      let v = point_at fl ps j in
      let here : i + 0 ≡ i = omega arith in
      let there : j + 0 ≡ j = omega arith in
      rw (here, there)
        (move_down-kept k (suc i) (suc j) i (set ps i v) (omega arith)
          ∙ get_elem?-set_self ps i v (omega (arith, h, enough))
          ∙ sym (get_elem?-point_at ps j (omega (arith, enough))))
  move_down-moved (suc k) i j (suc m) ps h enough few =
      let v = point_at fl ps j in
      let here : i + suc m ≡ suc i + m = omega arith in
      let there : j + suc m ≡ suc j + m = omega arith in
      let same = length-set ps i v in
      rw (here, there)
        (move_down-moved k (suc i) (suc j) m (set ps i v) (omega (arith, h))
            (omega (arith, same, enough)) (omega (arith, few))
          ∙ get_elem?-set_other ps i (suc j + m) v (λ e. omega (arith, h, e)))

  pub move_up-length : (k i j : ℕ) (ps : List (ℕ × F)) → length (move_up fl k i j ps) ≡ length ps
  unfolding move_up
  move_up-length zero i j ps = refl
  move_up-length (suc k) i j ps =
      move_up-length k i j (set ps (i + k) (point_at fl ps (j + k)))
      ∙ length-set ps (i + k) (point_at fl ps (j + k))

  pub move_up-above :
      (k i j n : ℕ) (ps : List (ℕ × F))
      → i + k ≤ n
      → get_elem? (move_up fl k i j ps) n ≡ get_elem? ps n
  unfolding move_up
  move_up-above zero i j n ps h = refl
  move_up-above (suc k) i j n ps h =
      move_up-above k i j n (set ps (i + k) (point_at fl ps (j + k))) (omega (arith, h))
      ∙ get_elem?-set_other ps (i + k) n (point_at fl ps (j + k)) (λ e. omega (arith, h, e))

  pub move_up-moved :
      (k i j m : ℕ) (ps : List (ℕ × F))
      → j < i
      → i + k ≤ length ps
      → m < k
      → get_elem? (move_up fl k i j ps) (i + m) ≡ get_elem? ps (j + m)
  unfolding move_up
  move_up-moved zero i j m ps h enough few = absurd (omega (arith, few))
  move_up-moved (suc k) i j m ps h enough few =
      let v = point_at fl ps (j + k) in
      let same = length-set ps (i + k) v in
      elim (Bool-cases (ltb m k)) [
        | inl e ↦
            move_up-moved k i j m (set ps (i + k) v) h (omega (arith, same, enough))
              (ground (arith, e))
            ∙ get_elem?-set_other ps (i + k) (j + m) v
                (let less : m < k = ground (arith, e) in λ e'. omega (arith, h, e', less))
        | inr e ↦
            let top : m ≡ k = ground (arith, e, few) in
            rw top (
              move_up-above k i j (i + k) (set ps (i + k) v) (omega arith)
              ∙ get_elem?-set_self ps (i + k) v (omega (arith, enough))
              ∙ sym (get_elem?-point_at ps (j + k) (omega (arith, h, enough))))
      ]

  pub resize-length : (n : ℕ) (ps : List (ℕ × F)) → length (resize fl n ps) ≡ n
  unfolding resize
  resize-length zero ps = refl
  resize-length (suc n) [] = ap suc (resize-length n [])
  resize-length (suc n) (p ∷ ps) = ap suc (resize-length n ps)

  pub resize-kept :
      (n i : ℕ) (ps : List (ℕ × F))
      → i < n
      → i < length ps
      → get_elem? (resize fl n ps) i ≡ get_elem? ps i
  unfolding resize
  resize-kept n i [] h k = absurd (omega (arith, k))
  resize-kept zero i (p ∷ ps) h k = absurd (omega (arith, h))
  resize-kept (suc n) zero (p ∷ ps) h k = refl
  resize-kept (suc n) (suc i) (p ∷ ps) h k =
      resize-kept n i ps (omega (arith, h)) (omega (arith, k))
