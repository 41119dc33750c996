-- ===== src/Examples/Leaves.antt =====
-- A resource node whose father is the structure node at 10:2030.
use stars.Prelude.{◌≡◌, refl, true, false, [], ◌∷◌, arith}
use stars.Address.{same, null}
use stars.Message.{
  insert, OutcomeMsg, AckMsg, NewFatherMsg, ack, commit, new_father, send, father_changing,
  father_changed,
}
use stars.Resource.{
  Leaf, change_father, get_status, handle_new_father, handle_commit, handle_undo,
  handle_insert_command, handle_ack, own_update, receive, availability_changed,
}
use stars.Resource.Delayed.{IsSettled, receive-IsSettled}
use stars.Resource.Transaction.{change_of_father, insertion, same_father_stays}
use stars.Examples.{here, father_addr, env}

abbrev leaf : Leaf
leaf = record {
  father = here;
  seq = 3;
  transaction = 0;
  new_father_addr = null;
  available_str_nodes = true;
  delayed = [];
  out = [];
}

abbrev move : NewFatherMsg
move = record { tid = 9; father = father_addr; for_rn = true }

abbrev other : OutcomeMsg
other = record { tid = 8; for_rn = true }

change_of_father_example :
    let prepared = handle_new_father here move leaf in
    let outcome : OutcomeMsg = record { tid = 9; for_rn = true } in
    (prepared.father ≡ here)
    × (prepared.out
        ≡ send here (ack (record { tid = 9; for_rn = false; from_rn = true }))
          ∷ father_changing
          ∷ [])
    × ((handle_commit env outcome prepared).father ≡ father_addr)
    × ((handle_commit env outcome prepared).transaction ≡ 0)
    × ((handle_undo outcome prepared).father ≡ here)
    × ((handle_undo outcome prepared).transaction ≡ 0)
    × ((handle_undo outcome prepared).seq ≡ 3)
    × (handle_commit env other prepared ≡ prepared)
    × (handle_undo other prepared ≡ prepared)
change_of_father_example =
    change_of_father env leaf move other refl refl (ground arith) refl (ground arith)

abbrev outside : Leaf
outside = record leaf { father = null; seq = 1 }

insertion_example :
    let asked = handle_insert_command env (record { place = father_addr }) outside in
    let answer : AckMsg = record { tid = 77; for_rn = true; from_rn = false } in
    let placed = handle_ack env father_addr answer asked in
    (asked.transaction ≡ 77)
    × (placed.father ≡ father_addr)
    × (placed.transaction ≡ 0)
    × (placed.seq ≡ 2)
    × (placed.out
        ≡ send father_addr (commit (record { tid = 77; for_rn = false }))
          ∷ father_changed true
          ∷ send father_addr (own_update env (record outside { seq = 1 }))
          ∷ send father_addr (insert (record { tid = 77; who = here; for_rn = true }))
          ∷ father_changing
          ∷ [])
unfolding same
insertion_example =
    insertion env outside (record { place = father_addr }) father_addr refl refl (ground arith)

same_father_stays_example :
    let done =
      handle_commit env
        (record { tid = 9; for_rn = true })
        (handle_new_father here (record move { father = here }) leaf) in
    (done.transaction ≡ 0) × (get_status done ≡ change_father)
same_father_stays_example =
    same_father_stays env leaf (record move { father = here }) refl refl (ground arith) refl refl

receive-IsSettled_example :
    IsSettled (receive env here (new_father move) leaf).0
    × IsSettled (availability_changed env true leaf)
receive-IsSettled_example =
    receive-IsSettled env here (new_father move) true leaf (ground arith) (λ _. refl)
