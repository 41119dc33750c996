-- ===== src/Structure/Nearest.antt =====
-- The choice of a child for an insertion, Structure.Routing.direction_to.
use native.Mathlib.Omega.{arith}
use stars.Prelude.{
  ℕ, suc, ◌≤◌, ◌≡◌, refl, ◌≢◌, ◌⊎◌, inl, inr, none, some, List, [], ◌∷◌, Bool-cases, Option-cases,
  leb,
}
use stars.Address.{Address}
use stars.Zone.{distance}
use stars.TxZone.{TxZone}
use stars.Structure.Routing.{Choice, nearest, direction_to}
use stars.Structure.Sorted.{AllKnown}

-- No child with information is nearer than the score.
abbrev pub IsNearest : Address → ℕ → List TxZone → Type 0
IsNearest who score [] = Unit
IsNearest who score (t ∷ ts) =
    elim t.actual_zone [ none ↦ Unit | some z ↦ score ≤ distance z who ] × IsNearest who score ts

-- The choice is the child at its index, counted from `i`, with its link, its zone and its distance.
abbrev pub IsChild : Address → ℕ → Choice → List TxZone → Type 0
IsChild who i c [] = ⊥
IsChild who i c (t ∷ ts) =
    ((c.index ≡ i)
      × (c.link ≡ t.actual_link)
      × (t.actual_zone ≡ some c.zone)
      × (c.score ≡ distance c.zone who))
    ⊎ IsChild who (suc i) c ts

IsNearest-le :
    (who : Address) (x y : ℕ) (ts : List TxZone) → x ≤ y → IsNearest who y ts → IsNearest who x ts
IsNearest-le who x y [] l h = tt
IsNearest-le who x y (t ∷ ts) l (h, hs) = ground (arith, IsNearest-le who x y ts l hs)

nearest_lem :
    (who : Address) (i : ℕ) (ts : List TxZone) (b : Choice)
    → AllKnown ts
    → (c : Choice) × (nearest who i ts (some b) ≡ some c)
      × (c.score ≤ b.score)
      × IsNearest who c.score ts
      × ((c ≡ b) ⊎ IsChild who i c ts)
unfolding nearest
nearest_lem who i [] b h = (b, refl, omega arith, tt, inl refl)
nearest_lem who i (t ∷ ts) b (k, h) = elim (Option-cases t.actual_zone) [
  | inl e ↦ ground arith
  | inr (z, e) ↦ elim (Bool-cases (leb (distance z who) b.score)) [
    | inl e' ↦
        let (c, found, low, all, place) =
          nearest_lem who (suc i) ts
            (record { link = t.actual_link; zone = z; score = distance z who; index = i }) h in
        (
          c,
          ground (arith, found),
          ground arith,
          rw e (low, all),
          elim place [ inl p ↦ inr (inl (cc p, cc p, cc (p, e), cc p)) | inr q ↦ inr (inr q) ],
        )
    | inr e' ↦
        let (c, found, low, all, place) = nearest_lem who (suc i) ts b h in
        (
          c,
          ground (arith, found),
          low,
          rw e (ground arith, all),
          elim place [ inl p ↦ inl p | inr q ↦ inr (inr q) ],
        )
  ]
]

-- Among children that have all reported, at least one, the choice for an address is one of them, and none
-- of them is nearer to the address.
pub direction_to-IsNearest :
    (who : Address) (i : ℕ) (ts : List TxZone)
    → ts ≢ []
    → AllKnown ts
    → (c : Choice) × (direction_to who i ts ≡ some c)
      × IsNearest who c.score ts
      × IsChild who i c ts
unfolding direction_to
direction_to-IsNearest who i [] nonempty h = absurd (nonempty refl)
direction_to-IsNearest who i (t ∷ ts) nonempty (k, h) = elim (Option-cases t.actual_zone) [
  | inl e ↦ ground arith
  | inr (z, e) ↦
      let (c, found, low, all, place) =
        nearest_lem who (suc i) ts
          (record { link = t.actual_link; zone = z; score = distance z who; index = i }) h in
      (
        c,
        ground (arith, found),
        rw e (low, all),
        elim place [ inl p ↦ inl (cc p, cc p, cc (p, e), cc p) | inr q ↦ inr q ],
      )
]
