-- ===== src/Bits/Step.antt =====
-- Equations for the lowest binary digit of the native `&` and `|`, which are given by a recursion on
-- fuel: more fuel than the first operand changes nothing.
use Prim.Native.Nat.{digits, bitwise, bit_and-bitwise, bit_or-bitwise}
use cameratrack.Base.{
  ℕ, zero, suc, ◌+◌, ◌-◌, ◌*◌, ◌/◌, ◌%◌, ◌≤◌, ◌≡◌, refl, sym, ◌∙◌, ap, min, max, bit_and, bit_or,
  arith,
}

module _ (high : ℕ → ℕ) (low : ℕ → ℕ → ℕ) where
  none_left : (fuel b : ℕ) → digits high low fuel 0 b ≡ high b
  none_left zero b = refl
  none_left (suc fuel) b = refl

  one_more : (fuel a b : ℕ) → a ≤ fuel → digits high low (suc fuel) a b ≡ digits high low fuel a b
  one_more fuel zero b enough = sym (none_left fuel b)
  one_more zero (suc a) b enough = absurd (omega arith)
  one_more (suc fuel) (suc a) b enough =
      ap (λ (x : ℕ). x * 2 + low (suc a % 2) (b % 2))
        (one_more fuel (suc a / 2) (b / 2) (omega arith))

  enough_fuel : (k fuel a b : ℕ) → fuel ≡ k + a → digits high low fuel a b ≡ bitwise high low a b
  enough_fuel zero fuel a b h = let same : fuel ≡ a = omega arith in rw same
  enough_fuel (suc k) zero a b h = absurd (omega arith)
  enough_fuel (suc k) (suc fuel) a b h =
      one_more fuel a b (omega arith) ∙ enough_fuel k fuel a b (omega arith)

  lowest :
      (a b : ℕ)
      → 1 ≤ a
      → bitwise high low a b ≡ bitwise high low (a / 2) (b / 2) * 2 + low (a % 2) (b % 2)
  lowest zero b h = absurd (omega arith)
  lowest (suc n) b h =
      ap (λ (x : ℕ). x * 2 + low (suc n % 2) (b % 2))
        (enough_fuel (n - suc n / 2) n (suc n / 2) (b / 2) (omega arith))

pub bit_and_step : (x y : ℕ) → bit_and x y ≡ bit_and (x / 2) (y / 2) * 2 + min (x % 2) (y % 2)
bit_and_step zero y = omega (arith, bit_and-bitwise 0 y, bit_and-bitwise 0 (y / 2))
bit_and_step (suc n) y =
    rw (bit_and-bitwise (suc n) y, bit_and-bitwise (suc n / 2) (y / 2))
      (lowest (λ _. 0) min (suc n) y (omega arith))

pub bit_or_step : (x y : ℕ) → bit_or x y ≡ bit_or (x / 2) (y / 2) * 2 + max (x % 2) (y % 2)
bit_or_step zero y = omega (arith, bit_or-bitwise 0 y, bit_or-bitwise 0 (y / 2))
bit_or_step (suc n) y =
    rw (bit_or-bitwise (suc n) y, bit_or-bitwise (suc n / 2) (y / 2))
      (lowest (λ rest. rest) max (suc n) y (omega arith))
