-- ===== src/Structure/Voting.antt =====
-- The driver of a transaction, Structure.Receive.handle_ack, over a sequence of acknowledgements.
use stars.Prelude.{ℕ, ◌≡◌, refl, ap, Bool, true, false, List, [], ◌∷◌, ==_iff, All, arith}
use stars.Address.{Address, same}
use stars.Address.Order.{same_iff}
use stars.Message.{Env}
use stars.Structure.{Node}
use stars.Structure.Outcome.{same_member}
use stars.Structure.Zones.{is_empty}
use stars.Structure.Receive.{handle_ack, note_ack, drop_member, has_member}

-- The acknowledgements of these members arrive, in this order.
pub votes : Env → ℕ → List (Address × Bool) → Node → Node
votes env tid [] n = n
votes env tid ((addr, rn) ∷ rest) n =
    votes env tid rest (handle_ack env addr (record { tid = tid; for_rn = false; from_rn = rn }) n)

same_member_trans :
    (a b x : Address × Bool)
    → same_member a b ≡ true
    → same_member x b ≡ true
    → same_member a x ≡ true
same_member_trans (a, true) (b, true) (x, true) h k =
    ground (arith, same_iff a b, same_iff x b, same_iff a x)
same_member_trans (a, true) (b, true) (x, false) h k = k
same_member_trans (a, true) (b, false) (x, r) h k = ground arith
same_member_trans (a, false) (b, true) (x, r) h k = ground arith
same_member_trans (a, false) (b, false) (x, true) h k = k
same_member_trans (a, false) (b, false) (x, false) h k =
    ground (arith, same_iff a b, same_iff x b, same_iff a x)

has_member-drop_member :
    (x a : Address × Bool) (bs : List (Address × Bool))
    → same_member a x ≡ false
    → has_member x bs ≡ true
    → has_member x (drop_member a bs) ≡ true
unfolding drop_member
has_member-drop_member x a [] d h = h
has_member-drop_member x a (b ∷ bs) d h =
    ground (arith, has_member-drop_member x a bs d, same_member_trans a b x)

note_ack-still :
    (v awaited : Address × Bool) (n : Node)
    → has_member awaited n.no_ack ≡ true
    → same_member v awaited ≡ false
    → let n' = note_ack v n in
      (n'.out ≡ n.out)
      × (n'.state ≡ n.state)
      × (n'.transaction ≡ n.transaction)
      × (n'.sub_zones ≡ n.sub_zones)
      × (n'.tx_driver ≡ n.tx_driver)
      × (has_member awaited n'.no_ack ≡ true)
unfolding note_ack
note_ack-still v awaited n waits d =
    ground (arith, has_member-drop_member awaited v n.no_ack d waits)

is_empty-has_member :
    (x : Address × Bool) (xs : List (Address × Bool)) → has_member x xs ≡ true → is_empty xs ≡ false
is_empty-has_member x [] h = ground arith
is_empty-has_member x (y ∷ ys) h = refl

handle_ack-waits :
    (env : Env) (v awaited : Address × Bool) (n : Node)
    → same n.tx_driver env.self ≡ true
    → has_member awaited n.no_ack ≡ true
    → same_member v awaited ≡ false
    → handle_ack env v.0 (record { tid = n.transaction; for_rn = false; from_rn = v.1 }) n
      ≡ note_ack v n
unfolding handle_ack
handle_ack-waits env v awaited n driver waits d =
    let still = note_ack-still v awaited n waits d in
    ground (
      arith,
      driver,
      is_empty-has_member awaited (note_ack v n).no_ack still.5,
      ==_iff n.transaction n.transaction,
    )

votes-cons :
    (env : Env) (awaited v : Address × Bool) (vs : List (Address × Bool)) (n : Node)
    → same n.tx_driver env.self ≡ true
    → has_member awaited n.no_ack ≡ true
    → same_member v awaited ≡ false
    → votes env n.transaction (v ∷ vs) n ≡ votes env (note_ack v n).transaction vs (note_ack v n)
unfolding votes note_ack
votes-cons env awaited v vs n driver waits d =
    rw (note_ack-still v awaited n waits d).2
      (ap (votes env n.transaction vs) (handle_ack-waits env v awaited n driver waits d))

-- While a member of the transaction has not acknowledged it, however many of the others do, in any order
-- and any number of times, the driver does not commit: it sends nothing, and its state, its children and
-- its open transaction stay, with that member still awaited.
pub votes-no_early_commit :
    (env : Env) (awaited : Address × Bool) (voters : List (Address × Bool)) (n : Node)
    → same n.tx_driver env.self ≡ true
    → has_member awaited n.no_ack ≡ true
    → All (λ v. same_member v awaited ≡ false) voters
    → let n' = votes env n.transaction voters n in
      (n'.out ≡ n.out)
      × (n'.state ≡ n.state)
      × (n'.transaction ≡ n.transaction)
      × (n'.sub_zones ≡ n.sub_zones)
      × (has_member awaited n'.no_ack ≡ true)
unfolding votes
votes-no_early_commit env awaited [] n driver waits h = (refl, refl, refl, refl, waits)
votes-no_early_commit env awaited (v ∷ vs) n driver waits (d, h) =
    let still = note_ack-still v awaited n waits d in
    let rest = votes-no_early_commit env awaited vs (note_ack v n) (rw still.4 driver) still.5 h in
    rw (votes-cons env awaited v vs n driver waits d) (ground (arith, rest, still))
