-- ===== src/Structure/UpdateKeeps.antt =====
-- An update of a child's zone keeps the invariant of a structure node.
use stars.Prelude.{◌≡◌, ◌≢◌, inl, inr, true, List, [], ◌∷◌, arith, Bool-cases}
use stars.Address.{Address, null}
use stars.Address.Order.{same_iff}
use stars.TxZone.{TxZone, comes_from}
use stars.Message.{UpdateZoneMsg, Env}
use stars.Structure.{Node}
use stars.Structure.Zones.{sort_zones, insert_zone, front_known}
use stars.Structure.Receive.{
  Found, missing, stale, updated, apply_update, after_update, update_in, behind,
}
use stars.Structure.Sorted.{sort_zones-NullsFirst}
use stars.Structure.Consistent.{Consistent, Unborn, AllUnborn, is_unborn}
use stars.Structure.Keeps.{recompute_zone-Consistent, notify_father-Consistent}
use stars.Structure.Invariant.{settle_if-Consistent}

after_update-Consistent :
    (env : Env) (msg : UpdateZoneMsg) (n : Node)
    → env.random_id ≢ 0
    → Consistent n
    → Consistent (after_update env msg n)
after_update-Consistent env msg n random c = elim (Bool-cases (front_known n.sub_zones)) [
  | inl e ↦ rw e (settle_if-Consistent env _ n _ random (notify_father-Consistent n msg.tid c) c)
  | inr e ↦ rw e (settle_if-Consistent env _ n _ random c c)
]

insert_zone-AllUnborn :
    (x : TxZone) (ts : List TxZone) → Unborn x → AllUnborn ts → AllUnborn (insert_zone x ts)
unfolding insert_zone
insert_zone-AllUnborn x [] k h = (k, tt)
insert_zone-AllUnborn x (t ∷ ts) k (kt, h) = ground (arith, insert_zone-AllUnborn x ts k h)

sort_zones-AllUnborn : (ts : List TxZone) → AllUnborn ts → AllUnborn (sort_zones ts)
unfolding sort_zones
sort_zones-AllUnborn [] h = tt
sort_zones-AllUnborn (t ∷ ts) (k, h) =
    insert_zone-AllUnborn t (sort_zones ts) k (sort_zones-AllUnborn ts h)

abbrev pub FoundUnborn : Found → Type 0
FoundUnborn missing = Unit
FoundUnborn stale = Unit
FoundUnborn (updated ts) = AllUnborn ts

behind-FoundUnborn :
    (t : TxZone) (found : Found) → Unborn t → FoundUnborn found → FoundUnborn (behind t found)
behind-FoundUnborn t missing k h = tt
behind-FoundUnborn t stale k h = tt
behind-FoundUnborn t (updated ts) k h = (k, h)

pub update_in-FoundUnborn :
    (src : Address) (msg : UpdateZoneMsg) (ts : List TxZone)
    → src ≢ null
    → AllUnborn ts
    → FoundUnborn (update_in src msg ts)
unfolding update_in
update_in-FoundUnborn src msg [] real h = tt
update_in-FoundUnborn src msg (t ∷ ts) real (k, h) = elim (Bool-cases (comes_from t src)) [
  | inl e ↦ rw e (ground (arith, same_iff t.actual_link src, h, k))
  | inr e ↦ rw e (behind-FoundUnborn t _ k (update_in-FoundUnborn src msg ts real h))
]

pub apply_update-Consistent :
    (env : Env) (msg : UpdateZoneMsg) (n : Node) (found : Found)
    → env.random_id ≢ 0
    → (is_unborn n.state ≡ true → FoundUnborn found)
    → Consistent n
    → Consistent (apply_update env msg n found)
apply_update-Consistent env msg n missing random unborn c = c
apply_update-Consistent env msg n stale random unborn c = c
apply_update-Consistent env msg n (updated ts) random unborn c =
    after_update-Consistent env msg _ random (
      recompute_zone-Consistent _ (record {
        nulls_first = sort_zones-NullsFirst ts;
        idle = c.idle;
        busy = c.busy;
        used = c.used;
        unborn = λ e. sort_zones-AllUnborn ts (unborn e);
        named = c.named;
      }))
