-- ===== src/Structure/Sorted.antt =====
-- The order of the child zones: those without information come first, so that the first child tells
-- whether all of them have reported.
use mathlib.Core.List.Perm
use stars.Prelude.{
  ◌≢◌, ◌↔◌, ◌≡◌, refl, inl, inr, true, false, List, [], ◌∷◌, Perm, arith, is_some, Bool-cases,
}
use stars.TxZone.{TxZone}
use stars.Structure.Zones.{compare_zones, insert_zone, sort_zones, front_known}

abbrev pub Known : TxZone → Type 0
Known t = is_some t.actual_zone ≡ true

abbrev pub AllKnown : List TxZone → Type 0
AllKnown [] = Unit
AllKnown (t ∷ ts) = Known t × AllKnown ts

-- Behind an entry with information there are only such entries.
abbrev pub NullsFirst : List TxZone → Type 0
NullsFirst [] = Unit
NullsFirst (t ∷ ts) = (Known t → AllKnown ts) × NullsFirst ts

pub front_AllKnown : (ts : List TxZone) → NullsFirst ts → front_known ts ≡ true → AllKnown ts
front_AllKnown [] h e = tt
front_AllKnown (t ∷ ts) (all, rest) e = (e, all e)

insert_zone-AllKnown :
    (x : TxZone) (ts : List TxZone) → Known x → AllKnown ts → AllKnown (insert_zone x ts)
unfolding insert_zone
insert_zone-AllKnown x [] k h = (k, tt)
insert_zone-AllKnown x (t ∷ ts) k (kt, h) = ground (arith, insert_zone-AllKnown x ts k h)

compare-Known : (t x : TxZone) → compare_zones t x ≡ true → Known t → Known x
unfolding compare_zones
compare-Known t x e k = ground arith

compare-Known' : (t x : TxZone) → compare_zones t x ≡ false → Known t
unfolding compare_zones
compare-Known' t x e = ground arith

insert_zone-NullsFirst :
    (x : TxZone) (ts : List TxZone) → NullsFirst ts → NullsFirst (insert_zone x ts)
unfolding insert_zone
insert_zone-NullsFirst x [] h = (λ _. tt, tt)
insert_zone-NullsFirst x (t ∷ ts) (all, rest) = elim (Bool-cases (compare_zones t x)) [
  | inl e ↦ rw e (
    (λ k. insert_zone-AllKnown x ts (compare-Known t x e k) (all k)),
    insert_zone-NullsFirst x ts rest,
  )
  | inr e ↦ rw e ((λ k. (compare-Known' t x e, all (compare-Known' t x e))), (all, rest))
]

pub sort_zones-NullsFirst : (ts : List TxZone) → NullsFirst (sort_zones ts)
unfolding sort_zones
sort_zones-NullsFirst [] = tt
sort_zones-NullsFirst (t ∷ ts) = insert_zone-NullsFirst t (sort_zones ts) (sort_zones-NullsFirst ts)

insert_zone-perm : (x : TxZone) (ts : List TxZone) → Perm (insert_zone x ts) (x ∷ ts)
unfolding insert_zone
insert_zone-perm x [] = Perm.refl (x ∷ [])
insert_zone-perm x (t ∷ ts) = elim (Bool-cases (compare_zones t x)) [
  | inl e ↦ rw e (Perm.trans (Perm.cons t (insert_zone-perm x ts)) (Perm.swap x t ts))
  | inr e ↦ rw e (Perm.refl (x ∷ t ∷ ts))
]

pub sort_zones-perm : (ts : List TxZone) → Perm (sort_zones ts) ts
unfolding sort_zones
sort_zones-perm [] = Perm.refl []
sort_zones-perm (t ∷ ts) =
    Perm.trans (insert_zone-perm t (sort_zones ts)) (Perm.cons t (sort_zones-perm ts))

pub front_iff : (ts : List TxZone) → ts ≢ [] → NullsFirst ts → (front_known ts ≡ true) ↔ AllKnown ts
front_iff [] nonempty h = absurd (nonempty refl)
front_iff (t ∷ ts) nonempty (all, h) = (λ e. (e, all e), λ known. known.0)

-- Sorting the children loses and adds none, and puts those without information first.
pub sort_zones_lem : (ts : List TxZone) → Perm (sort_zones ts) ts × NullsFirst (sort_zones ts)
sort_zones_lem ts = (sort_zones-perm ts, sort_zones-NullsFirst ts)
