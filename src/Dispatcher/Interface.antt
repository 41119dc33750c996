-- ===== src/Dispatcher/Interface.antt =====
-- What a dispatcher takes from its policy (the class of the availability information, its template argument)
-- and from the overlay (OverlayBranch).
use stars.Prelude.{ℕ, ◌≡◌, Bool}
use stars.Address.{Address}

-- OverlayBranch::left and right
pub data Side : Type 0 where
  left right : Side

-- AvailabilityInformation, with the join and the comparison of the classes that derive from it. Setting
-- the sequence number or the flag sets it, and leaves the other alone.
pub record Info (T : Type 0) : Type 0 where
  pub seq : T → ℕ
  pub set_seq : ℕ → T → T
  pub from_sch : T → Bool
  pub set_from_sch : Bool → T → T
  pub join : T → T → T
  pub reduce : T → T
  pub same : T → T → Bool
  pub size : T → ℕ
  pub seq-set_seq : (n : ℕ) (t : T) → seq (set_seq n t) ≡ n
  pub seq-set_from_sch : (f : Bool) (t : T) → seq (set_from_sch f t) ≡ seq t
  pub seq-reduce : (t : T) → seq (reduce t) ≡ seq t

-- OverlayBranch; a distance is a double that the code compares only.
pub record Branch : Type 0 where
  pub in_network : Bool
  pub father : Address
  pub child : Side → Address
  pub is_leaf : Side → Bool
  pub distance : Side → Address → ℕ
