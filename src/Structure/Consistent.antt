-- ===== src/Structure/Consistent.antt =====
-- The invariant of a structure node, and what keeps it below the handlers.
use stars.Prelude.{◌≡◌, ◌≢◌, Bool, true, false, not, ◌||◌, none, List, [], ◌∷◌, ◌++◌}
use stars.Address.{Address, null}
use stars.TxZone.{TxZone}
use stars.Message.{
  Msg, insert, str_node_needed, new_father, new_child, ack, nack, commit, rollback, Effect,
}
use stars.Structure.{
  State, Node, offline, start_in, init, online, wait_offers, merging, leaving_wsn, leaving, emit,
  delay,
}
use stars.Structure.Sorted.{NullsFirst}

-- The states in which no transaction may be open, those in which one must be, and those that no code
-- enters.
abbrev pub is_idle : State → Bool
is_idle s = elim s [ offline ↦ true | online ↦ true | leaving ↦ true | _ ↦ false ]

abbrev pub is_unused : State → Bool
is_unused s = elim s [ wait_offers ↦ true | merging ↦ true | leaving_wsn ↦ true | _ ↦ false ]

abbrev pub is_busy : State → Bool
is_busy s = not (is_idle s || is_unused s)

-- The states before a node has taken its place in the tree.
abbrev pub is_unborn : State → Bool
is_unborn s = elim s [ offline ↦ true | start_in ↦ true | init ↦ true | _ ↦ false ]

-- A message that opens or closes a transaction names one.
abbrev pub IsNamed : Msg → Type 0
IsNamed (insert msg) = msg.tid ≢ 0
IsNamed (str_node_needed msg) = msg.tid ≢ 0
IsNamed (new_father msg) = msg.tid ≢ 0
IsNamed (new_child msg) = msg.tid ≢ 0
IsNamed (ack msg) = msg.tid ≢ 0
IsNamed (nack msg) = msg.tid ≢ 0
IsNamed (commit msg) = msg.tid ≢ 0
IsNamed (rollback msg) = msg.tid ≢ 0
IsNamed _ = Unit

-- An entry for a child that is still to be committed, and has no information.
abbrev pub Unborn : TxZone → Type 0
Unborn t = (t.changing ≡ true) × (t.actual_link ≡ null) × (t.actual_zone ≡ none)

abbrev pub AllUnborn : List TxZone → Type 0
AllUnborn [] = Unit
AllUnborn (t ∷ ts) = Unborn t × AllUnborn ts

abbrev pub AllNamed : List (Address × Msg) → Type 0
AllNamed [] = Unit
AllNamed ((src, msg) ∷ rest) = IsNamed msg × AllNamed rest

pub record Consistent (n : Node) : Type 0 where
  pub nulls_first : NullsFirst n.sub_zones
  pub idle : is_idle n.state ≡ true → n.transaction ≡ 0
  pub busy : is_busy n.state ≡ true → n.transaction ≢ 0
  pub used : is_unused n.state ≡ false
  pub unborn : is_unborn n.state ≡ true → AllUnborn n.sub_zones
  pub named : AllNamed n.delayed

pub AllNamed-append :
    (xs : List (Address × Msg)) (src : Address) (msg : Msg)
    → AllNamed xs
    → IsNamed msg
    → AllNamed (xs ++ (src, msg) ∷ [])
AllNamed-append [] src msg h k = (k, tt)
AllNamed-append ((a, x) ∷ xs) src msg h k = (h.0, AllNamed-append xs src msg h.1 k)

pub emit-Consistent : {n : Node} (e : Effect) → Consistent n → Consistent (emit e n)
emit-Consistent e c = record {
  nulls_first = c.nulls_first;
  idle = c.idle;
  busy = c.busy;
  used = c.used;
  unborn = c.unborn;
  named = c.named;
}

pub delay-Consistent :
    {n : Node} (src : Address) (msg : Msg)
    → Consistent n
    → IsNamed msg
    → Consistent (delay src msg n)
delay-Consistent {n} src msg c h = record {
  nulls_first = c.nulls_first;
  idle = c.idle;
  busy = c.busy;
  used = c.used;
  unborn = c.unborn;
  named = AllNamed-append n.delayed src msg c.named h;
}
