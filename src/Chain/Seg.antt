-- ===== src/Chain/Seg.antt =====
-- Which list a chain of nodes stands for.
use cameratrack.Base.{
  ℕ, zero, suc, ◌≤◌, ◌≡◌, ◌≢◌, Bool, true, false, ◌||◌, ◌==◌, Option, some, List, [], ◌∷◌, ◌++◌,
  length, arith,
}
use cameratrack.Chain.{Node, Heap, node, write, walk}

-- The address and the item of each node, in order.
abbrev pub Cells : Type 0 → Type 0
Cells A = List (ℕ × A)

module _ {A : Type 0} where
  abbrev pub has_address : ℕ → Cells A → Bool
  has_address a [] = false
  has_address a ((b, _) ∷ xs) = (a == b) || has_address a xs

  -- The addresses are not NULL, and no two are the same.
  abbrev pub AreDistinct : Cells A → Type 0
  AreDistinct [] = Unit
  AreDistinct ((a, _) ∷ xs) = (a ≢ 0) × (has_address a xs ≡ false) × AreDistinct xs

  abbrev pub first_or : Cells A → ℕ → ℕ
  first_or [] end = end
  first_or ((a, _) ∷ _) end = a

  abbrev pub last_or : ℕ → Cells A → ℕ
  last_or before [] = before
  last_or before ((a, _) ∷ xs) = last_or a xs

  -- The nodes `xs` stand between `before` and `end`.
  abbrev pub Seg : Heap A → ℕ → Cells A → ℕ → Type 0
  Seg h before [] end = Unit
  Seg h before ((a, x) ∷ xs) end = (h a ≡ some (node x before (first_or xs end))) × Seg h a xs end

  abbrev pub AllFail : (A → Bool) → Cells A → Type 0
  AllFail stop [] = Unit
  AllFail stop ((_, x) ∷ xs) = (stop x ≡ false) × AllFail stop xs

  pub Seg-append :
      (h : Heap A) (before : ℕ) (xs ys : Cells A) (end : ℕ)
      → Seg h before xs (first_or ys end)
      → Seg h (last_or before xs) ys end
      → Seg h before (xs ++ ys) end
  Seg-append h before [] ys end front back = back
  Seg-append h before ((a, x) ∷ []) ys end front back = (front.0, back)
  Seg-append h before ((a, x) ∷ y ∷ xs) ys end front back =
      (front.0, Seg-append h a (y ∷ xs) ys end front.1 back)

  pub Seg-split :
      (h : Heap A) (before : ℕ) (xs ys : Cells A) (end : ℕ)
      → Seg h before (xs ++ ys) end
      → Seg h before xs (first_or ys end) × Seg h (last_or before xs) ys end
  Seg-split h before [] ys end seg = (tt, seg)
  Seg-split h before ((a, x) ∷ []) ys end seg = ((seg.0, tt), seg.1)
  Seg-split h before ((a, x) ∷ y ∷ xs) ys end seg =
      let (front, back) = Seg-split h a (y ∷ xs) ys end seg.1 in ((seg.0, front), back)

  -- Changes elsewhere do not matter.
  pub Seg-same :
      (h g : Heap A) (before : ℕ) (xs : Cells A) (end : ℕ)
      → ((a : ℕ) → has_address a xs ≡ true → g a ≡ h a)
      → Seg h before xs end
      → Seg g before xs end
  Seg-same h g before [] end same seg = tt
  Seg-same h g before ((a, x) ∷ xs) end same seg =
      (ground (arith, same a), Seg-same h g a xs end (λ b i. same b (ground (arith, i))) seg.1)

  pub Seg-write :
      (h : Heap A) (before : ℕ) (xs : Cells A) (end p : ℕ) (n : Option (Node A))
      → has_address p xs ≡ false
      → Seg h before xs end
      → Seg (write p n h) before xs end
  unfolding write
  Seg-write h before xs end p n out =
      Seg-same h (write p n h) before xs end λ a i. ground (arith, i, out)

  -- The walk ends at the first node that stops it, or at the last.
  pub walk-stops :
      (stop : A → Bool) (h : Heap A) (fuel before : ℕ) (xs : Cells A) (a : ℕ) (x : A) (ys : Cells A)
      → Seg h before (xs ++ (a, x) ∷ ys) 0
      → AreDistinct (xs ++ (a, x) ∷ ys)
      → AllFail stop xs
      → (stop x || first_or ys 0 == 0) ≡ true
      → length (xs ++ (a, x) ∷ ys) ≤ fuel
      → walk stop fuel (first_or (xs ++ (a, x) ∷ ys) 0) h
        ≡ some (a, node x (last_or before xs) (first_or ys 0))
  unfolding walk
  walk-stops stop h zero before [] a x ys seg out fail halt enough = absurd (omega arith)
  walk-stops stop h zero before (b ∷ xs) a x ys seg out fail halt enough = absurd (omega arith)
  walk-stops stop h (suc fuel) before [] a x ys seg out fail halt enough = rw (seg.0, halt)
  walk-stops stop h (suc fuel) before ((b, y) ∷ []) a x ys seg out fail halt enough =
      let next : (a == 0) ≡ false = ground (arith, out.2.0) in
      rw (seg.0, fail.0, next)
        (walk-stops stop h fuel b [] a x ys seg.1 out.2 tt halt (omega arith))
  walk-stops stop h (suc fuel) before ((b, y) ∷ (c, z) ∷ xs) a x ys seg out fail halt enough =
      let next : (c == 0) ≡ false = ground (arith, out.2.0) in
      rw (seg.0, fail.0, next)
        (walk-stops stop h fuel b ((c, z) ∷ xs) a x ys seg.1 out.2 fail.1 halt (omega arith))
