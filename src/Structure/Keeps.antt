-- ===== src/Structure/Keeps.antt =====
-- The helpers of a structure node keep its invariant.
use stars.Prelude.{ℕ, ◌≡◌, ◌≢◌, true, false, List, [], ◌∷◌, arith}
use stars.TxZone.{TxZone, is_addition, is_deletion}
use stars.TxZone
use stars.Address.{null}
use stars.Message.{Env, commit_changes, null_transaction_id}
use stars.Structure.{Node, is_leaving, emit}
use stars.Structure.Zones.{recompute_zone, sort_zones}
use stars.Structure.Helpers.{notify_father, fix_size, check_fanout}
use stars.Structure.Outcome.{
  drive_commit, move_father, drive_rollback, drop_timer, rollback_state, close_commit, commit_state,
  roll_back, rollback_zones, commit_zones,
}
use stars.Structure.Sorted.{AllKnown, NullsFirst, sort_zones-NullsFirst}
use stars.Structure.Consistent.{Consistent, AllNamed, AllUnborn, is_unborn}

pub notify_father-Consistent :
    (n : Node) (tid : ℕ) → Consistent n → Consistent (notify_father n tid)
unfolding notify_father
notify_father-Consistent n tid c = ground arith

pub recompute_zone-Consistent : (n : Node) → Consistent n → Consistent (recompute_zone n)
unfolding recompute_zone
recompute_zone-Consistent n c = ground arith

fix_size-Consistent :
    (env : Env) (n : Node)
    → env.random_id ≢ 0
    → n.transaction ≡ 0
    → Consistent n
    → Consistent (fix_size env n)
unfolding fix_size
fix_size-Consistent env n named idle c = ground arith

pub check_fanout-Consistent :
    (env : Env) (n : Node) → env.random_id ≢ 0 → Consistent n → Consistent (check_fanout env n)
unfolding check_fanout
check_fanout-Consistent env n named c = ground (arith, fix_size-Consistent env n named)

rollback_zones-AllKnown : (ts : List TxZone) → AllKnown ts → AllKnown (rollback_zones ts)
unfolding rollback_zones TxZone.rollback
rollback_zones-AllKnown [] h = tt
rollback_zones-AllKnown (t ∷ ts) (k, h) = ground (arith, rollback_zones-AllKnown ts h)

rollback_zones-NullsFirst : (ts : List TxZone) → NullsFirst ts → NullsFirst (rollback_zones ts)
unfolding rollback_zones TxZone.rollback
rollback_zones-NullsFirst [] h = tt
rollback_zones-NullsFirst (t ∷ ts) (all, h) =
    ground (arith, rollback_zones-NullsFirst ts h, rollback_zones-AllKnown ts)

rollback_zones-AllUnborn : (ts : List TxZone) → AllUnborn ts → AllUnborn (rollback_zones ts)
unfolding rollback_zones TxZone.rollback is_deletion
rollback_zones-AllUnborn [] h = tt
rollback_zones-AllUnborn (t ∷ ts) (k, h) = ground (arith, rollback_zones-AllUnborn ts h)

drive_rollback-fields :
    (env : Env) (n : Node)
    → let r = drive_rollback env n in
      (r.sub_zones ≡ n.sub_zones) × (r.state ≡ n.state) × (r.delayed ≡ n.delayed)
unfolding drive_rollback
drive_rollback-fields env n = ground arith

drop_timer-fields :
    (n : Node)
    → let r = drop_timer n in
      (r.sub_zones ≡ n.sub_zones)
      × (r.state ≡ n.state)
      × (r.delayed ≡ n.delayed)
      × (r.transaction ≡ n.transaction)
      × (r.acked ≡ n.acked)
unfolding drop_timer
drop_timer-fields n = ground arith

rollback_state-Consistent :
    (n : Node)
    → n.transaction ≡ 0
    → NullsFirst n.sub_zones
    → AllNamed n.delayed
    → (is_unborn n.state ≡ true → AllUnborn n.sub_zones)
    → Consistent (rollback_state n)
unfolding rollback_state
rollback_state-Consistent n closed sorted named unborn = ground arith

-- A rollback closes the transaction.
pub roll_back-Consistent : (env : Env) (n : Node) → Consistent n → Consistent (roll_back env n)
unfolding roll_back
roll_back-Consistent env n c =
    let driven = drive_rollback env n in
    let undone = record driven { sub_zones = rollback_zones driven.sub_zones; new_father = null } in
    let closed = record (emit (commit_changes false true true) undone) {
      transaction = null_transaction_id;
    } in
    let (zones, state, delayed) = drive_rollback-fields env n in
    let kept = drop_timer-fields closed in
    rollback_state-Consistent (drop_timer closed) kept.3
      (rw (kept.0, zones) (rollback_zones-NullsFirst n.sub_zones c.nulls_first))
      (rw (kept.2, delayed) c.named)
      (rw (kept.0, kept.1, zones, state) (λ e. rollback_zones-AllUnborn n.sub_zones (c.unborn e)))

pub close_commit-fields :
    (env : Env) (n : Node)
    → let r = close_commit env n in
      (r.transaction ≡ 0)
      × (r.delayed ≡ n.delayed)
      × (r.state ≡ n.state)
      × (r.acked ≡ [])
      × NullsFirst r.sub_zones
unfolding close_commit
close_commit-fields env n =
    let driven = drive_commit env n in
    let moved =
      move_father (record driven { sub_zones = sort_zones (commit_zones driven.sub_zones) }) in
    let closed = record (emit (commit_changes true true true) moved) {
      acked = [];
      transaction = null_transaction_id;
    } in
    ground (arith, drop_timer-fields closed, sort_zones-NullsFirst (commit_zones n.sub_zones))

pub commit_state-Consistent :
    (tid : ℕ) (n : Node)
    → is_leaving n.state ≡ false
    → n.transaction ≡ 0
    → NullsFirst n.sub_zones
    → AllNamed n.delayed
    → Consistent (commit_state tid n)
unfolding commit_state
commit_state-Consistent tid n staying closed sorted named = ground arith
