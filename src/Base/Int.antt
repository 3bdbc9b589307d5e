-- ===== src/Base/Int.antt =====
-- The integers that a Java `int` stands for. `negsuc n` is -(n + 1).
use Prim.Native.Nat.{ℕ, compare, Ordering}
use mathlib.Core.Bool.{Bool, true, false}

pub data ℤ : Type 0 where
  pos : ℕ → ℤ
  negsuc : ℕ → ℤ

-- `switch (a) { case k: ... }` with a label that is not negative.
infix 50 ◌is◌
abbrev pub ◌is◌ : ℤ → ℕ → Bool
pos n is k = elim (compare n k) [ Ordering.eq ↦ true | _ ↦ false ]
negsuc n is k = false

abbrev pub same_int : ℤ → ℤ → Bool
same_int (pos m) (pos n) = elim (compare m n) [ Ordering.eq ↦ true | _ ↦ false ]
same_int (negsuc m) (negsuc n) = elim (compare m n) [ Ordering.eq ↦ true | _ ↦ false ]
same_int (pos m) (negsuc n) = false
same_int (negsuc m) (pos n) = false
