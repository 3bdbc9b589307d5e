-- ===== src/Chain/Change.antt =====
-- What changing the chain does to the list.
use mathlib.Core.Bool.{or_assoc}
use cameratrack.Base.{ℕ, ◌≡◌, refl, ◌∙◌, true, false, ◌||◌, ◌==◌, some, [], ◌∷◌, ◌++◌, arith}
use cameratrack.Chain.{Heap, node, write, set_next, set_prev}
use cameratrack.Chain.Seg.{Cells, has_address, AreDistinct, first_or, last_or, Seg, Seg-write}

module _ {A : Type 0} where
  abbrev pub SameOutside : Cells A → Heap A → Heap A → Type 0
  SameOutside xs h g = (a : ℕ) → has_address a xs ≡ false → g a ≡ h a

  pub has_address-append :
      (a : ℕ) (xs ys : Cells A) → has_address a (xs ++ ys) ≡ (has_address a xs || has_address a ys)
  has_address-append a [] ys = refl
  has_address-append a (x ∷ xs) ys = rw (has_address-append a xs ys, or_assoc)

  pub AreDistinct-front : (xs ys : Cells A) → AreDistinct (xs ++ ys) → AreDistinct xs
  AreDistinct-front [] ys out = tt
  AreDistinct-front ((a, x) ∷ xs) ys out =
      let apart = has_address-append a xs ys in
      (out.0, ground (arith, out.1, apart), AreDistinct-front xs ys out.2)

  pub AreDistinct-back : (xs ys : Cells A) → AreDistinct (xs ++ ys) → AreDistinct ys
  AreDistinct-back [] ys out = out
  AreDistinct-back ((a, x) ∷ xs) ys out = AreDistinct-back xs ys out.2

  pub AreDistinct-apart :
      (xs ys : Cells A) (a : ℕ)
      → AreDistinct (xs ++ ys)
      → has_address a xs ≡ true
      → has_address a ys ≡ false
  AreDistinct-apart [] ys a out i = absurd (ground (arith, i))
  AreDistinct-apart ((b, x) ∷ xs) ys a out i =
      let later = λ (j : has_address a xs ≡ true). AreDistinct-apart xs ys a out.2 j in
      let apart = has_address-append b xs ys in ground (arith, out.1, apart, i, later)

  -- One address fewer.
  pub AreDistinct-drop :
      (xs ys : Cells A) (a : ℕ) (x : A)
      → AreDistinct (xs ++ (a, x) ∷ ys)
      → AreDistinct (xs ++ ys) × (has_address a (xs ++ ys) ≡ false)
  AreDistinct-drop [] ys a x out = (out.2, out.1)
  AreDistinct-drop ((b, y) ∷ xs) ys a x out =
      let (less, gone) = AreDistinct-drop xs ys a x out.2 in
      let with_a = has_address-append b xs ((a, x) ∷ ys) in
      let without = has_address-append b xs ys in
      ((out.0, ground (arith, out.1, with_a, without), less), ground (arith, out.1, with_a, gone))

  pub last_or-ne_zero :
      (xs : Cells A) (a : ℕ) (x : A) → AreDistinct ((a, x) ∷ xs) → (last_or a xs == 0) ≡ false
  last_or-ne_zero [] a x out = ground (arith, out.0)
  last_or-ne_zero ((b, y) ∷ xs) a x out = last_or-ne_zero xs b y out.2

  pub set_next-last :
      (h : Heap A) (before a : ℕ) (x : A) (xs : Cells A) (end q : ℕ)
      → Seg h before ((a, x) ∷ xs) end
      → AreDistinct ((a, x) ∷ xs)
      → (g : Heap A) × (set_next (last_or a xs) q h ≡ some g)
        × Seg g before ((a, x) ∷ xs) q
        × SameOutside ((a, x) ∷ xs) h g
  unfolding set_next write
  set_next-last h before a x [] end q seg out =
      (write a (some (node x before q)) h, rw (seg.0), (ground arith, tt), λ b o. ground (arith, o))
  set_next-last h before a x ((b, y) ∷ xs) end q seg out =
      let (g, done, chain, same) = set_next-last h a b y xs end q seg.1 out.2 in
      (g, done, (same a out.1 ∙ seg.0, chain), λ c o. same c (ground (arith, o)))

  pub set_prev-first :
      (h : Heap A) (before a : ℕ) (x : A) (xs : Cells A) (end p : ℕ)
      → Seg h before ((a, x) ∷ xs) end
      → AreDistinct ((a, x) ∷ xs)
      → (g : Heap A) × (set_prev a p h ≡ some g)
        × Seg g p ((a, x) ∷ xs) end
        × SameOutside ((a, x) ∷ xs) h g
  unfolding set_prev
  set_prev-first h before a x xs end p seg out =
      let new = some (node x p (first_or xs end)) in
      (
        write a new h,
        rw (seg.0),
        (unfold write in ground arith, Seg-write h a xs end a new out.1 seg.1),
        λ b o. unfold write in ground (arith, o),
      )
