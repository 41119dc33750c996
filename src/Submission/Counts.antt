-- ===== src/Submission/Counts.antt =====
-- Lemmas on the updates of the tables of Submission.Tables: how they change the number of rows that a test selects.
use stars.Prelude.{
  ◌+◌, ◌≡◌, refl, inl, inr, ap, Bool, true, false, ◌||◌, List, [], ◌∷◌, ◌++◌, All, any, keep_if,
  length, if◌then◌else◌, Bool-cases, arith,
}
use stars.Submission.Tables.{update_where, count_where}

module _ {A : Type 0} (p q : A → Bool) (f : A → A) where
  -- The updated rows stay as they are for `q`.
  pub count-stay :
      (xs : List A)
      → ((x : A) → p x ≡ true → q (f x) ≡ q x)
      → count_where q (update_where p f xs) ≡ count_where q xs
  count-stay [] h = refl
  count-stay (x ∷ xs) h = elim (Bool-cases (p x)) [
    | inl e ↦ let e' = h x e in rw (e, e') (omega (arith, count-stay xs h))
    | inr e ↦ rw e (omega (arith, count-stay xs h))
  ]

  -- The updated rows were selected by `q`, and are no more.
  pub count-leave :
      (xs : List A)
      → ((x : A) → p x ≡ true → (q x ≡ true) × (q (f x) ≡ false))
      → count_where q (update_where p f xs) + count_where p xs ≡ count_where q xs
  count-leave [] h = omega arith
  count-leave (x ∷ xs) h = elim (Bool-cases (p x)) [
    | inl e ↦ let e' = h x e in rw (e, e'.0, e'.1) (omega (arith, count-leave xs h))
    | inr e ↦ rw e (omega (arith, count-leave xs h))
  ]

  -- The updated rows were not selected by `q`, and are now.
  pub count-enter :
      (xs : List A)
      → ((x : A) → p x ≡ true → (q x ≡ false) × (q (f x) ≡ true))
      → count_where q (update_where p f xs) ≡ count_where q xs + count_where p xs
  count-enter [] h = omega arith
  count-enter (x ∷ xs) h = elim (Bool-cases (p x)) [
    | inl e ↦ let e' = h x e in rw (e, e'.0, e'.1) (omega (arith, count-enter xs h))
    | inr e ↦ rw e (omega (arith, count-enter xs h))
  ]

module _ {A : Type 0} where
  -- Tests that agree on the rows select the same.
  pub update-agree :
      (p q : A → Bool) (f : A → A) (xs : List A)
      → All (λ x. p x ≡ q x) xs
      → update_where p f xs ≡ update_where q f xs
  update-agree p q f [] h = refl
  update-agree p q f (x ∷ xs) h =
      rw h.0 (ap (λ ys. (if q x then f x else x) ∷ ys) (update-agree p q f xs h.1))

  pub count-agree :
      (p q : A → Bool) (xs : List A) → All (λ x. p x ≡ q x) xs → count_where p xs ≡ count_where q xs
  count-agree p q [] h = refl
  count-agree p q (x ∷ xs) h =
      rw h.0 (ap (λ n. (if q x then 1 else 0) + n) (count-agree p q xs h.1))

  pub length-keep_if : (p : A → Bool) (xs : List A) → length (keep_if p xs) ≡ count_where p xs
  length-keep_if p [] = refl
  length-keep_if p (x ∷ xs) = ground (arith, length-keep_if p xs)

  pub any-append : (p : A → Bool) (xs ys : List A) → any p (xs ++ ys) ≡ (any p xs || any p ys)
  any-append p [] ys = refl
  any-append p (x ∷ xs) ys = ground (arith, any-append p xs ys)

  pub All-map : {P Q : A → Type 0} (xs : List A) → ((x : A) → P x → Q x) → All P xs → All Q xs
  All-map [] f h = tt
  All-map (x ∷ xs) f h = (f x h.0, All-map xs f h.1)

  pub All-zip :
      {P Q R : A → Type 0} (xs : List A)
      → ((x : A) → P x → Q x → R x)
      → All P xs
      → All Q xs
      → All R xs
  All-zip [] f h k = tt
  All-zip (x ∷ xs) f h k = (f x h.0 k.0, All-zip xs f h.1 k.1)

  -- An update that is undone.
  pub update-undo :
      (p q : A → Bool) (f g : A → A) (xs : List A)
      → All (λ x. q (if p x then f x else x) ≡ p x) xs
      → ((x : A) → p x ≡ true → g (f x) ≡ x)
      → update_where q g (update_where p f xs) ≡ xs
  update-undo p q f g [] h undo = refl
  update-undo p q f g (x ∷ xs) h undo =
      rw (h.0, update-undo p q f g xs h.1 undo)
        (elim (Bool-cases (p x)) [ inl e ↦ rw e (ap (λ y. y ∷ xs) (undo x e)) | inr e ↦ rw e refl ])

  pub count-update :
      (p q : A → Bool) (f : A → A) (xs : List A)
      → All (λ x. q (if p x then f x else x) ≡ p x) xs
      → count_where q (update_where p f xs) ≡ count_where p xs
  count-update p q f [] h = refl
  count-update p q f (x ∷ xs) h =
      rw h.0 (ap (λ n. (if p x then 1 else 0) + n) (count-update p q f xs h.1))

  pub any-none : (p : A → Bool) (xs : List A) → any p xs ≡ false → All (λ x. p x ≡ false) xs
  any-none p [] h = tt
  any-none p (x ∷ xs) h = elim (Bool-cases (p x)) [
    | inl e ↦ absurd (ground (arith, e, h))
    | inr e ↦ (e, any-none p xs (ground (arith, e, h)))
  ]
