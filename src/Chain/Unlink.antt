-- ===== src/Chain/Unlink.antt =====
-- Taking a node out of the chain, and putting one behind it.
use cameratrack.Base.{
  ℕ, ◌≡◌, refl, ◌∙◌, inl, inr, Bool-cases, true, false, ◌==◌, some, [], ◌∷◌, ◌++◌, arith,
}
use cameratrack.Chain.{Heap, node, write, set_next, detach}
use cameratrack.Chain.Seg.{
  Cells, has_address, AreDistinct, first_or, last_or, Seg, Seg-append, Seg-split, Seg-same,
  Seg-write,
}
use cameratrack.Chain.Change.{
  SameOutside, has_address-append, AreDistinct-front, AreDistinct-back, AreDistinct-apart,
  AreDistinct-drop, last_or-ne_zero, set_next-last, set_prev-first,
}

module _ {A : Type 0} where
  -- An address of the back is not one of the front.
  AreDistinct-apart_back :
      (xs ys : Cells A) (a : ℕ)
      → AreDistinct (xs ++ ys)
      → has_address a ys ≡ true
      → has_address a xs ≡ false
  AreDistinct-apart_back xs ys a out i = elim (Bool-cases (has_address a xs)) [
    | inr e ↦ e
    | inl e ↦ absurd (ground (arith, i, AreDistinct-apart xs ys a out e))
  ]

  pub outside_parts :
      (xs ys : Cells A) (a : ℕ)
      → has_address a (xs ++ ys) ≡ false
      → (has_address a xs ≡ false) × (has_address a ys ≡ false)
  outside_parts xs ys a o =
      let apart = has_address-append a xs ys in (ground (arith, o, apart), ground (arith, o, apart))

  pub detach-Seg :
      (h : Heap A) (xs : Cells A) (a : ℕ) (x : A) (ys : Cells A)
      → Seg h 0 (xs ++ (a, x) ∷ ys) 0
      → AreDistinct (xs ++ (a, x) ∷ ys)
      → (g : Heap A) × (detach (node x (last_or 0 xs) (first_or ys 0)) h ≡ some g)
        × Seg g 0 (xs ++ ys) 0
        × SameOutside (xs ++ ys) h g
  unfolding detach
  detach-Seg h [] a x [] seg out = (h, refl, tt, λ b o. refl)
  detach-Seg h [] a x ((b, y) ∷ ys) seg out =
      let here : (b == 0) ≡ false = ground (arith, out.2.0) in
      let (g, done, chain, same) = set_prev-first h a b y ys 0 0 seg.1 out.2 in
      (g, rw here done, chain, same)
  detach-Seg h ((c, z) ∷ xs) a x [] seg out =
      let front = (Seg-split h 0 ((c, z) ∷ xs) ((a, x) ∷ []) 0 seg).0 in
      let distinct = AreDistinct-front ((c, z) ∷ xs) ((a, x) ∷ []) out in
      let (g, done, chain, same) = set_next-last h 0 c z xs a 0 front distinct in
      let there = last_or-ne_zero xs c z distinct in
      (
        g,
        rw there done,
        Seg-append g 0 ((c, z) ∷ xs) [] 0 chain tt,
        λ b o. same b (outside_parts ((c, z) ∷ xs) [] b o).0,
      )
  detach-Seg h ((c, z) ∷ xs) a x ((b, y) ∷ ys) seg out =
      let (front, (at_a, back)) = Seg-split h 0 ((c, z) ∷ xs) ((a, x) ∷ (b, y) ∷ ys) 0 seg in
      let less = (AreDistinct-drop ((c, z) ∷ xs) ((b, y) ∷ ys) a x out).0 in
      let in_front = AreDistinct-front ((c, z) ∷ xs) ((b, y) ∷ ys) less in
      let in_back = AreDistinct-back ((c, z) ∷ xs) ((b, y) ∷ ys) less in
      let here : (b == 0) ≡ false = ground (arith, in_back.0) in
      let there = last_or-ne_zero xs c z in_front in
      let (h1, next, chain, same) = set_next-last h 0 c z xs a b front in_front in
      let back1 =
        Seg-same h h1 a ((b, y) ∷ ys) 0
          (λ d i. same d (AreDistinct-apart_back ((c, z) ∷ xs) ((b, y) ∷ ys) d less i)) back in
      let (g, prev, chain', same') = set_prev-first h1 a b y ys 0 (last_or c xs) back1 in_back in
      let chain1 =
        Seg-same h1 g 0 ((c, z) ∷ xs) b
          (λ d i. same' d (AreDistinct-apart ((c, z) ∷ xs) ((b, y) ∷ ys) d less i)) chain in
      (
        g,
        rw (here, there, next) prev,
        Seg-append g 0 ((c, z) ∷ xs) ((b, y) ∷ ys) 0 chain1 chain',
        λ d o. let (f, r) = outside_parts ((c, z) ∷ xs) ((b, y) ∷ ys) d o in same' d r ∙ same d f,
      )

  -- A node is made, and the last one, if there is one, leads to it.
  pub push-Seg :
      (h : Heap A) (c : ℕ) (z : A) (xs : Cells A) (p : ℕ) (x : A)
      → Seg h 0 ((c, z) ∷ xs) 0
      → AreDistinct ((c, z) ∷ xs)
      → has_address p ((c, z) ∷ xs) ≡ false
      → (g : Heap A) × (set_next (last_or c xs) p h ≡ some g)
        × Seg (write p (some (node x (last_or c xs) 0)) g) 0 ((c, z) ∷ xs ++ (p, x) ∷ []) 0
        × SameOutside ((c, z) ∷ xs) h g
  push-Seg h c z xs p x seg out fresh =
      let (g, done, chain, same) = set_next-last h 0 c z xs 0 p seg out in
      let new = some (node x (last_or c xs) 0) in
      (
        g,
        done,
        Seg-append (write p new g) 0 ((c, z) ∷ xs) ((p, x) ∷ []) 0
            (Seg-write g 0 ((c, z) ∷ xs) p p new fresh chain) (unfold write in ground arith, tt),
        same,
      )
