-- ===== src/Float.antt =====
-- The operations on `double` that the policies compute with, and on src/include/Time.hpp those that mix a time with a `double`.
-- The arithmetic is the machine's, so it is an interface; the laws that a theorem needs of it are its hypotheses.
use stars.Prelude.{ℕ, Bool}

pub record Float (F : Type 0) : Type 0 where
  pub of_nat : ℕ → F
  -- The difference of two integers, which may be negative.
  pub of_diff : ℕ → ℕ → F
  pub add : F → F → F
  pub sub : F → F → F
  pub mul : F → F → F
  pub div : F → F → F
  pub lt : F → F → Bool
  pub eq : F → F → Bool
  -- The conversion of a value that is not negative to an unsigned integer.
  pub to_nat : F → ℕ
  -- The sum of an integer and the conversion of a value, which may be negative, to an integer.
  pub add_trunc : ℕ → F → ℕ

module _ {F : Type 0} (fl : Float F) where
  -- (a - b).seconds() of two times in microseconds
  abbrev pub seconds : ℕ → ℕ → F
  seconds a b = fl.div (fl.of_diff a b) (fl.of_nat 1000000)

  -- t + Duration(x)
  abbrev pub after : ℕ → F → ℕ
  after t x = fl.add_trunc t (fl.mul x (fl.of_nat 1000000))
