-- ===== src/Zone/Rounding.antt =====
-- The loop of ZoneDescription::aggregate that rounds the number of available nodes.
use native.Mathlib.Nat.{pow-suc, mul-le-mul, le_refl}
use stars.Prelude.{
  ℕ, zero, suc, ◌*◌, ◌/◌, ◌%◌, ◌^◌, ◌≤◌, ◌<◌, ◌≡◌, refl, ap, ◌∙◌, inl, inr, none, some, arith, ◌==◌,
  Bool-cases, u32,
}
use stars.Zone.{round_loop, round_nodes, shift_int}

-- `p` is the highest power of two that is not above `n`.
pub record IsFloorPower (p n : ℕ) : Type 0 where
  pub exponent : ℕ
  pub is_power : p ≡ 2 ^ exponent
  pub low : p ≤ n
  pub high : n < 2 * p

-- A bit pattern whose sign bit is set keeps it, so that the loop never meets 1.
pub round_loop_negative :
    (fuel avail nodes : ℕ) → 2 ^ 31 ≤ avail → avail < 2 ^ 32 → round_loop fuel avail nodes ≡ none
unfolding round_loop
round_loop_negative zero avail nodes l h = refl
round_loop_negative (suc fuel) avail nodes l h =
    ground (arith, round_loop_negative fuel (shift_int avail) ((nodes * 2) % u32))

double_half : (avail : ℕ) → 2 * (avail / 2) ≤ avail
double_half avail = omega arith

-- A round on a positive int: nothing wraps.
half_fits :
    (avail nodes : ℕ)
    → 1 < avail
    → nodes * avail < 2 ^ 31
    → ((nodes * 2) % u32 ≡ nodes * 2) × (nodes * 2 * (avail / 2) < 2 ^ 31)
half_fits avail nodes more fits =
    let few : nodes * 2 ≤ nodes * avail = grind arith in
    let half : nodes * 2 * (avail / 2) ≤ nodes * avail =
      omega (arith, mul-le-mul (le_refl nodes) (double_half avail)) in
    (omega arith, omega arith)

half_of : (avail : ℕ) → avail < 2 ^ 31 → shift_int avail ≡ avail / 2
half_of avail small = ground arith

double_power : (nodes k : ℕ) → nodes * 2 * 2 ^ k ≡ nodes * 2 ^ suc k
double_power nodes k = rw (pow-suc 2 k) (omega arith)

round_loop_floor :
    (fuel avail nodes : ℕ)
    → 0 < avail
    → avail < 2 ^ 31
    → avail < 2 ^ fuel
    → nodes * avail < 2 ^ 31
    → (k : ℕ) × (2 ^ k ≤ avail)
      × (avail < 2 * 2 ^ k)
      × (round_loop fuel avail nodes ≡ some (nodes * 2 ^ k))
unfolding round_loop
round_loop_floor zero avail nodes pos small enough fits = absurd (omega arith)
round_loop_floor (suc fuel) avail nodes pos small enough fits = elim (Bool-cases (avail == 1)) [
  | inl one ↦ (0, ground arith, ground arith, rw one (ap some (omega arith)))
  | inr more ↦
      let big : 1 < avail = ground arith in
      let (same, half) = half_fits avail nodes big fits in
      let (k, low, high, e) =
        round_loop_floor fuel (avail / 2) (nodes * 2) (omega arith) (omega arith)
          (omega (arith, pow-suc 2 fuel)) half in
      (
        suc k,
        omega (arith, pow-suc 2 k),
        omega (arith, pow-suc 2 k),
        rw (more, round_loop, same) (rw (half_of avail small) (e ∙ ap some (double_power nodes k))),
      )
]

-- When the sum of the available nodes is a positive int, the loop ends, and yields the highest power of
-- two that is not above the sum.
pub round_nodes-IsFloorPower :
    (avail : ℕ)
    → 0 < avail
    → avail < 2 ^ 31
    → (nodes : ℕ) × (round_nodes avail ≡ some nodes) × IsFloorPower nodes avail
unfolding round_nodes
round_nodes-IsFloorPower avail pos small =
    let (k, low, high, e) = round_loop_floor 32 avail 1 pos small (omega arith) (omega arith) in
    (2 ^ k, ground (arith, e), record { exponent = k; is_power = refl; low = low; high = high })

pub round_nodes_negative : (avail : ℕ) → 2 ^ 31 ≤ avail → avail < 2 ^ 32 → round_nodes avail ≡ none
unfolding round_nodes
round_nodes_negative avail big word = ground (arith, round_loop_negative 32 avail 1)
