-- ===== src/Bits.antt =====
-- Laws of `&` and `|` on machine words, at every width, by recursion on the binary digits.
-- C's `c & ~m` on a 32-bit word is `clear c m`, with the complement written out.
mod Step
use Step.{bit_and_step, bit_or_step}
use native.Mathlib.Nat.{pow-suc}
use cameratrack.Base.{
  ℕ, zero, suc, ◌+◌, ◌-◌, ◌*◌, ◌/◌, ◌%◌, ◌^◌, ◌≤◌, ◌⊎◌, ◌<◌, ◌≡◌, refl, sym, ◌∙◌, ap, min, max,
  bit_and, bit_or, arith,
}

-- The 32-bit complement `~m`.
abbrev pub complement : ℕ → ℕ
complement m = 0xffff_ffff - m

abbrev pub clear : ℕ → ℕ → ℕ
clear c m = bit_and c (complement m)

bit_and-halves :
    (a b : ℕ)
    → (bit_and a b / 2 ≡ bit_and (a / 2) (b / 2)) × (bit_and a b % 2 ≡ min (a % 2) (b % 2))
bit_and-halves a b = omega (arith, bit_and_step a b)

bit_or-halves :
    (a b : ℕ) → (bit_or a b / 2 ≡ bit_or (a / 2) (b / 2)) × (bit_or a b % 2 ≡ max (a % 2) (b % 2))
bit_or-halves a b = omega (arith, bit_or_step a b)

pub zero-bit_and : (b : ℕ) → bit_and 0 b ≡ 0
zero-bit_and b = go b b (omega arith)
  where
    go : (n c : ℕ) → c ≤ n → bit_and 0 c ≡ 0
    go n zero h = refl
    go zero (suc c) h = absurd (omega arith)
    go (suc n) (suc c) h = omega (arith, bit_and_step 0 (suc c), go n (suc c / 2) (omega arith))

pub zero-bit_or : (b : ℕ) → bit_or 0 b ≡ b
zero-bit_or b = go b b (omega arith)
  where
    go : (n c : ℕ) → c ≤ n → bit_or 0 c ≡ c
    go n zero h = refl
    go zero (suc c) h = absurd (omega arith)
    go (suc n) (suc c) h = omega (arith, bit_or_step 0 (suc c), go n (suc c / 2) (omega arith))

comm_fuel : (n a b : ℕ) → a ≤ n → b ≤ n → (bit_and a b ≡ bit_and b a) × (bit_or a b ≡ bit_or b a)
comm_fuel zero zero zero p q = (refl, refl)
comm_fuel zero (suc a) b p q = absurd (omega arith)
comm_fuel zero zero (suc b) p q = absurd (omega arith)
comm_fuel (suc n) a b p q =
    let ih = comm_fuel n (a / 2) (b / 2) (omega arith) (omega arith) in
    (
      omega (arith, bit_and_step a b, bit_and_step b a, ih),
      omega (arith, bit_or_step a b, bit_or_step b a, ih),
    )

pub bit_and_comm : (a b : ℕ) → bit_and a b ≡ bit_and b a
bit_and_comm a b = (comm_fuel (a + b) a b (omega arith) (omega arith)).0

pub bit_or_comm : (a b : ℕ) → bit_or a b ≡ bit_or b a
bit_or_comm a b = (comm_fuel (a + b) a b (omega arith) (omega arith)).1

pub bit_and-zero : (a : ℕ) → bit_and a 0 ≡ 0
bit_and-zero a = bit_and_comm a 0 ∙ zero-bit_and a

pub bit_or-zero : (a : ℕ) → bit_or a 0 ≡ a
bit_or-zero a = bit_or_comm a 0 ∙ zero-bit_or a

-- One digit of a nested operation.
and_and_step :
    (a b c : ℕ)
    → bit_and (bit_and a b) c
      ≡ bit_and (bit_and (a / 2) (b / 2)) (c / 2) * 2 + min (min (a % 2) (b % 2)) (c % 2)
and_and_step a b c =
    rw ((bit_and-halves a b).0, (bit_and-halves a b).1) at (bit_and_step (bit_and a b) c)

or_or_step :
    (a b c : ℕ)
    → bit_or (bit_or a b) c
      ≡ bit_or (bit_or (a / 2) (b / 2)) (c / 2) * 2 + max (max (a % 2) (b % 2)) (c % 2)
or_or_step a b c = rw ((bit_or-halves a b).0, (bit_or-halves a b).1) at (bit_or_step (bit_or a b) c)

and_or_step :
    (a b c : ℕ)
    → bit_and (bit_or a b) c
      ≡ bit_and (bit_or (a / 2) (b / 2)) (c / 2) * 2 + min (max (a % 2) (b % 2)) (c % 2)
and_or_step a b c =
    rw ((bit_or-halves a b).0, (bit_or-halves a b).1) at (bit_and_step (bit_or a b) c)

or_and_and_step :
    (a b c : ℕ)
    → bit_or (bit_and a c) (bit_and b c)
      ≡ bit_or (bit_and (a / 2) (c / 2)) (bit_and (b / 2) (c / 2)) * 2
        + max (min (a % 2) (c % 2)) (min (b % 2) (c % 2))
or_and_and_step a b c =
    rw
      (
        (bit_and-halves a c).0,
        (bit_and-halves a c).1,
        (bit_and-halves b c).0,
        (bit_and-halves b c).1,
      )
      at (bit_or_step (bit_and a c) (bit_and b c))

abbrev Laws : ℕ → ℕ → ℕ → Type 0
Laws a b c =
    (bit_and (bit_and a b) c ≡ bit_and a (bit_and b c))
    × (bit_or (bit_or a b) c ≡ bit_or a (bit_or b c))
    × (bit_and (bit_or a b) c ≡ bit_or (bit_and a c) (bit_and b c))

laws_next : (a b c : ℕ) → Laws (a / 2) (b / 2) (c / 2) → Laws a b c
laws_next a b c (i, j, k) = (
  omega (
    arith,
    and_and_step a b c,
    bit_and_comm a (bit_and b c),
    and_and_step b c a,
    bit_and_comm (a / 2) (bit_and (b / 2) (c / 2)),
    i,
  ),
  omega (
    arith,
    or_or_step a b c,
    bit_or_comm a (bit_or b c),
    or_or_step b c a,
    bit_or_comm (a / 2) (bit_or (b / 2) (c / 2)),
    j,
  ),
  omega (arith, and_or_step a b c, or_and_and_step a b c, k),
)

laws_fuel : (n a b c : ℕ) → a < n → b < n → c < n → Laws a b c
laws_fuel zero a b c p q r = absurd (omega arith)
laws_fuel (suc zero) zero zero zero p q r = (refl, refl, refl)
laws_fuel (suc zero) (suc a) b c p q r = absurd (omega arith)
laws_fuel (suc zero) zero (suc b) c p q r = absurd (omega arith)
laws_fuel (suc zero) zero zero (suc c) p q r = absurd (omega arith)
laws_fuel (suc (suc n)) a b c p q r =
    laws_next a b c
      (laws_fuel (suc n) (a / 2) (b / 2) (c / 2) (omega arith) (omega arith) (omega arith))

laws : (a b c : ℕ) → Laws a b c
laws a b c = laws_fuel (suc (a + b + c)) a b c (omega arith) (omega arith) (omega arith)

pub bit_and_assoc : (a b c : ℕ) → bit_and (bit_and a b) c ≡ bit_and a (bit_and b c)
bit_and_assoc a b c = (laws a b c).0

pub bit_or_assoc : (a b c : ℕ) → bit_or (bit_or a b) c ≡ bit_or a (bit_or b c)
bit_or_assoc a b c = (laws a b c).1

pub bit_and-bit_or : (a b c : ℕ) → bit_and (bit_or a b) c ≡ bit_or (bit_and a c) (bit_and b c)
bit_and-bit_or a b c = (laws a b c).2

-- These push a mask through any nest of sets and clears, until it meets the numerals.
pub ruleset mask_laws =
    (bit_and-bit_or, bit_and_assoc, bit_and-zero, zero-bit_and, bit_or-zero, zero-bit_or)

absorb_fuel : (n a b : ℕ) → a < n → b < n → bit_or (bit_and a b) b ≡ b
absorb_fuel zero a b p q = absurd (omega arith)
absorb_fuel (suc zero) zero zero p q = refl
absorb_fuel (suc zero) (suc a) b p q = absurd (omega arith)
absorb_fuel (suc zero) zero (suc b) p q = absurd (omega arith)
absorb_fuel (suc (suc n)) a b p q = omega (
  arith,
  rw ((bit_and-halves a b).0, (bit_and-halves a b).1) at (bit_or_step (bit_and a b) b),
  absorb_fuel (suc n) (a / 2) (b / 2) (omega arith) (omega arith),
)

-- Absorption.
pub bit_or-bit_and_absorb : (a b : ℕ) → bit_or (bit_and a b) b ≡ b
bit_or-bit_and_absorb a b = absorb_fuel (suc (a + b)) a b (omega arith) (omega arith)

self_fuel : (n a : ℕ) → a < n → bit_and a a ≡ a
self_fuel zero a p = absurd (omega arith)
self_fuel (suc zero) zero p = refl
self_fuel (suc zero) (suc a) p = absurd (omega arith)
self_fuel (suc (suc n)) a p =
    omega (arith, bit_and_step a a, self_fuel (suc n) (a / 2) (omega arith))

pub bit_and_self : (a : ℕ) → bit_and a a ≡ a
bit_and_self a = self_fuel (suc a) a (omega arith)

bit_and-double : (a m : ℕ) → bit_and a (m * 2) ≡ bit_and (a / 2) m * 2
bit_and-double a m =
    let half : m * 2 / 2 ≡ m = omega arith in
    let even : m * 2 % 2 ≡ 0 = omega arith in
    let step = rw (half, even) at (bit_and_step a (m * 2)) in omega (arith, step)

-- A mask of a single bit reads as 0 or as itself.
pub bit_and_single : (k a : ℕ) → (bit_and a (2 ^ k) ≡ 0) ⊎ (bit_and a (2 ^ k) ≡ 2 ^ k)
bit_and_single zero a = omega (arith, bit_and_step a 1, bit_and-zero (a / 2))
bit_and_single (suc k) a =
    rw (pow-suc 2 k, bit_and-double) (omega (arith, bit_and_single k (a / 2)))

split_width :
    (k a m : ℕ) → a < 2 ^ k → m < 2 ^ k → bit_or (bit_and a m) (bit_and a (2 ^ k - 1 - m)) ≡ a
split_width zero a m p q =
    let z : a ≡ 0 = omega arith in let y : m ≡ 0 = omega arith in rw (z, y) refl
split_width (suc k) a m p q =
    let e = pow-suc 2 k in
    let rest : ℕ = 2 ^ suc k - 1 - m in
    let half : rest / 2 ≡ 2 ^ k - 1 - m / 2 = omega arith in
    let odd : rest % 2 + m % 2 ≡ 1 = omega arith in
    let step =
      rw
        (
          (bit_and-halves a m).0,
          (bit_and-halves a m).1,
          (bit_and-halves a rest).0,
          (bit_and-halves a rest).1,
          half,
        )
        at (bit_or_step (bit_and a m) (bit_and a rest)) in
    omega (arith, step, split_width k (a / 2) (m / 2) (omega arith) (omega arith))

-- A word is what it holds under a mask and what it holds outside.
pub bit_or-clear :
    (a m : ℕ) → a ≤ 0xffff_ffff → m ≤ 0xffff_ffff → bit_or (bit_and a m) (clear a m) ≡ a
bit_or-clear a m p q = split_width 32 a m (omega arith) (omega arith)

-- A word with nothing outside a mask is unchanged by it.
pub bit_and-of_clear :
    (a m : ℕ) → a ≤ 0xffff_ffff → m ≤ 0xffff_ffff → clear a m ≡ 0 → bit_and a m ≡ a
bit_and-of_clear a m p q e = sym (bit_or-zero _) ∙ rw e at (bit_or-clear a m p q)

-- Test: a mask after a clear and a set of other bits.
mask_example : (c : ℕ) → bit_and (bit_or (clear c 0o60) 0o40) 0o100 ≡ bit_and c 0o100
mask_example c = simp mask_laws

mask_example2 : (c : ℕ) → bit_and (bit_or (clear c 0o60) 0o40) 0o60 ≡ 0o40
mask_example2 c = simp mask_laws
