-- ===== src/Submission/Maps.antt =====
-- std::map, as an association list in the order of its keys.
use stars.Prelude.{ℕ, Bool, Option, none, some, List, [], ◌∷◌, if◌then◌else◌, ltb}
use stars.Address.{Address, below}

-- The order of the keys, and the operations that the code uses; a new key is put in its place.
module _ {ℓ κ} {K : Type ℓ} {V : Type κ} (less : K → K → Bool) where
  abbrev pub find_by : K → List (K × V) → Option V
  find_by k [] = none
  find_by k ((j, v) ∷ m) =
      let rest = find_by k m in if less k j then none else if less j k then rest else some v

  abbrev pub put_by : K → V → List (K × V) → List (K × V)
  put_by k v [] = (k, v) ∷ []
  put_by k v ((j, w) ∷ m) =
      let rest = put_by k v m in
      if less k j then (k, v) ∷ (j, w) ∷ m else if less j k then (j, w) ∷ rest else (k, v) ∷ m

  abbrev pub erase_by : K → List (K × V) → List (K × V)
  erase_by k [] = []
  erase_by k ((j, w) ∷ m) =
      let rest = erase_by k m in
      if less k j then (j, w) ∷ m else if less j k then (j, w) ∷ rest else m

module _ {κ} {V : Type κ} where
  -- A map from the numbers of applications or requests.
  unfoldable pub find : ℕ → List (ℕ × V) → Option V
  find k m = find_by ltb k m

  unfoldable pub put : ℕ → V → List (ℕ × V) → List (ℕ × V)
  put k v m = put_by ltb k v m

  unfoldable pub erase : ℕ → List (ℕ × V) → List (ℕ × V)
  erase k m = erase_by ltb k m

  -- A map from the addresses of nodes.
  unfoldable pub find_node : Address → List (Address × V) → Option V
  unfolding below
  find_node k m = find_by below k m

  unfoldable pub put_node : Address → V → List (Address × V) → List (Address × V)
  unfolding below
  put_node k v m = put_by below k v m

  unfoldable pub erase_node : Address → List (Address × V) → List (Address × V)
  unfolding below
  erase_node k m = erase_by below k m

-- The value of a key, which operator[] adds with a default.
abbrev pub value_or {κ} : {V : Type κ} → V → Option V → V
value_or d none = d
value_or d (some v) = v
