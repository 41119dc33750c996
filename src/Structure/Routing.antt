-- ===== src/Structure/Routing.antt =====
-- How src/lib/overlay/StructureNode.cpp picks a child: the nearest one for an insertion, and the one with
-- most available structure nodes.
use stars.Prelude.{
  ℕ, zero, suc, ◌+◌, ◌-◌, ◌%◌, ◌^◌, Option, none, some, List, [], ◌∷◌, ltb, leb, if◌then◌else◌, u32,
}
use stars.Address.{Address}
use stars.Zone.{Zone, distance}
use stars.TxZone.{TxZone}

-- The loop over the zones behind the first one with information: the index of the nearest one, with its
-- link and zone. `none` is a zone without information.
pub record Choice : Type 0 where
  pub link : Address
  pub zone : Zone
  pub score : ℕ
  pub index : ℕ

abbrev pub nearer : Address → ℕ → TxZone → Zone → Choice → Choice
nearer who i t z best =
    if leb (distance z who) best.score
    then record { link = t.actual_link; zone = z; score = distance z who; index = i }
    else best

unfoldable pub nearest : Address → ℕ → List TxZone → Option Choice → Option Choice
unfolding distance
nearest who i [] best = best
nearest who i (t ∷ ts) best = nearest who (suc i) ts (elim best [
  | none ↦ none
  | some b ↦ elim t.actual_zone [ none ↦ none | some z ↦ some (nearer who i t z b) ]
])

unfoldable pub direction_to : Address → ℕ → List TxZone → Option Choice
unfolding nearest
direction_to who i [] = none
direction_to who i (t ∷ ts) = elim t.actual_zone [
  | none ↦ direction_to who (suc i) ts
  | some z ↦
      nearest who (suc i) ts
        (some (record { link = t.actual_link; zone = z; score = distance z who; index = i }))
]

-- getAvailableStrNodes() as an int, in an order of the bit patterns.
abbrev pub int_rank : ℕ → ℕ
int_rank x = (x + 2 ^ 31) % u32

abbrev better : ℕ → TxZone → Zone → Choice → Choice
better i t z best =
    if ltb (int_rank best.zone.available_str_nodes) (int_rank z.available_str_nodes)
    then record { link = t.actual_link; zone = z; score = 0; index = i }
    else best

unfoldable pub most : ℕ → List TxZone → Option Choice → Option Choice
most i [] best = best
most i (t ∷ ts) best = most (suc i) ts (elim best [
  | none ↦ none
  | some b ↦ elim t.actual_zone [ none ↦ none | some z ↦ some (better i t z b) ]
])

-- The loop ends with `some none` if no zone has information.
unfoldable pub most_available : ℕ → List TxZone → Option (Option Choice)
unfolding most
most_available i [] = some none
most_available i (t ∷ ts) = elim t.actual_zone [
  | none ↦ most_available (suc i) ts
  | some z ↦
      elim (most (suc i) ts
        (some (record { link = t.actual_link; zone = z; score = 0; index = i }))) [
          | none ↦ none
          | some best ↦ some (some best)
        ]
]

-- `setAvailableStrNodes(getAvailableStrNodes() - 1)` on the zone of the chosen child.
unfoldable pub spend_node : ℕ → List TxZone → List TxZone
spend_node i [] = []
spend_node zero (t ∷ ts) = elim t.actual_zone [
  | none ↦ t ∷ ts
  | some z ↦
      record t { actual_zone = some (record z { available_str_nodes = z.available_str_nodes - 1 }) }
      ∷ ts
]
spend_node (suc i) (t ∷ ts) = t ∷ spend_node i ts
