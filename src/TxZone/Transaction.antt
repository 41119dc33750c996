-- ===== src/TxZone/Transaction.antt =====
-- TransactionalZoneDescription as a transaction: what commit and rollback make of any changes.
use native.Mathlib.Nat.{le_refl, le_trans}
use stars.Prelude.{ℕ, ◌≤◌, ◌≡◌, refl, ◌∙◌, ◌≢◌, true, false, List, [], ◌∷◌, Option, none, arith}
use stars.Address.{Address, null}
use stars.Address.Order.{same_iff}
use stars.Zone.{Zone}
use stars.TxZone.{
  TxZone, commit, rollback, test_and_set, set_link, reset_link, set_zone, set_zone_from,
}

-- The calls that a structure node makes while an entry changes.
pub data Change : Type 0 where
  sets_link : Address → Change
  resets_link : Change
  sets_zone : Option Zone → Change
  tests : ℕ → Change
  updates : Address → Option Zone → Change

pub change : TxZone → Change → TxZone
unfolding set_link reset_link set_zone test_and_set set_zone_from
change t (sets_link a) = set_link t a
change t resets_link = reset_link t
change t (sets_zone z) = set_zone t z
change t (tests s) = (test_and_set t s).0
change t (updates src z) = set_zone_from t src z

pub changes : TxZone → List Change → TxZone
changes t [] = t
changes t (c ∷ cs) = changes (change t c) cs

-- An update that comes from the actual link is the one change that may reach the actual zone.
abbrev pub Foreign : Address → Change → Type 0
Foreign link (updates src z) = src ≢ link
Foreign link _ = Unit

abbrev pub AllForeign : Address → List Change → Type 0
AllForeign link [] = Unit
AllForeign link (c ∷ cs) = Foreign link c × AllForeign link cs

change_keeps :
    (t : TxZone) (c : Change)
    → t.changing ≡ true
    → ((change t c).changing ≡ true)
      × ((change t c).actual_link ≡ t.actual_link)
      × (t.seq ≤ (change t c).seq)
      × (Foreign t.actual_link c → (change t c).actual_zone ≡ t.actual_zone)
unfolding change
change_keeps t (sets_link a) busy = ground arith
change_keeps t resets_link busy = ground arith
change_keeps t (sets_zone z) busy = ground arith
change_keeps t (tests s) busy = ground arith
change_keeps t (updates src z) busy =
    ground (arith, same_iff t.actual_link src, same_iff t.new_link src)

changes_keep :
    (t : TxZone) (cs : List Change)
    → t.changing ≡ true
    → AllForeign t.actual_link cs
    → ((changes t cs).changing ≡ true)
      × ((changes t cs).actual_link ≡ t.actual_link)
      × ((changes t cs).actual_zone ≡ t.actual_zone)
      × (t.seq ≤ (changes t cs).seq)
unfolding changes
changes_keep t [] busy foreign = (busy, refl, refl, le_refl _)
changes_keep t (c ∷ cs) busy (first, foreign) =
    let (busy', link, seq, zone) = change_keeps t c busy in
    let rest = changes_keep (change t c) cs busy' (rw link foreign) in
    (rest.0, rest.1 ∙ link, rest.2 ∙ zone first, le_trans seq rest.3)

-- Rolling back undoes everything: after a link is set on an entry that does not change, and after any
-- further changes but updates from its actual child, rollback() yields the same link and zone, an
-- entry that does not change, and a sequence number that is not lower.
pub rollback-changes :
    (t : TxZone) (a : Address) (cs : List Change)
    → t.changing ≡ false
    → AllForeign t.actual_link cs
    → let r = rollback (changes (set_link t a) cs) in
      (r.actual_link ≡ t.actual_link)
      × (r.actual_zone ≡ t.actual_zone)
      × (r.changing ≡ false)
      × (r.new_link ≡ t.actual_link)
      × (t.seq ≤ r.seq)
unfolding rollback set_link
rollback-changes t a cs idle foreign =
    ground (arith, changes_keep (record t { new_link = a; changing = true }) cs refl foreign)

-- Committing publishes the link and the zone that were set last: those of set_link() and set_zone(),
-- or the zone of a later update, if that comes from the new child. What commits once does not change
-- when it commits again.
pub commit-set_link :
    (t : TxZone) (a src : Address) (z : Option Zone) (u : Option Zone)
    → let changed = set_zone (set_link t a) z in
      (commit changed ≡ record t {
        actual_link = a;
        actual_zone = z;
        new_link = null;
        new_zone = none;
        changing = false;
      })
      × ((commit (set_zone_from changed a u)).actual_zone ≡ u)
      × (src ≢ a → (commit (set_zone_from changed src u)).actual_zone ≡ z)
      × (commit (commit changed) ≡ commit changed)
unfolding commit set_link set_zone set_zone_from
commit-set_link t a src z u =
    ground (arith, same_iff a a, same_iff a src, same_iff t.actual_link src)
