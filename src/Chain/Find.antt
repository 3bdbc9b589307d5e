-- ===== src/Chain/Find.antt =====
-- Searching the chain, and changing one item of it.
use cameratrack.Base.{
  ℕ, ◌≢◌, length, ◌≤◌, ◌≡◌, ◌⊎◌, refl, ◌∙◌, ap, sym, inl, inr, Bool, Bool-cases, true, false, ◌||◌,
  ◌==◌, some, [], ◌∷◌, ◌++◌, arith, if◌then◌else◌,
}
use cameratrack.Chain.{Heap, node, write, walk}
use cameratrack.Chain.Seg.{
  Cells, has_address, AreDistinct, AllFail, first_or, last_or, Seg, Seg-append, Seg-split,
  Seg-write, walk-stops,
}
use cameratrack.Chain.Change.{has_address-append, AreDistinct-drop}

module _ {A : Type 0} where
  unfoldable pub update_first : (A → Bool) → (A → A) → Cells A → Cells A
  update_first stop f [] = []
  update_first stop f ((a, x) ∷ xs) =
      if stop x then (a, f x) ∷ xs else (a, x) ∷ update_first stop f xs

  unfoldable pub update_at : ℕ → (A → A) → Cells A → Cells A
  update_at p f [] = []
  update_at p f ((a, x) ∷ xs) = if p == a then (a, f x) ∷ xs else (a, x) ∷ update_at p f xs

  unfoldable pub remove_at : ℕ → Cells A → Cells A
  remove_at p [] = []
  remove_at p ((a, x) ∷ xs) = if p == a then xs else (a, x) ∷ remove_at p xs

  pub update_first-hit :
      (stop : A → Bool) (f : A → A) (ys : Cells A) (a : ℕ) (x : A) (zs : Cells A)
      → AllFail stop ys
      → stop x ≡ true
      → update_first stop f (ys ++ (a, x) ∷ zs) ≡ ys ++ (a, f x) ∷ zs
  unfolding update_first
  update_first-hit stop f [] a x zs fail hit = rw hit
  update_first-hit stop f ((b, y) ∷ ys) a x zs fail hit =
      rw (fail.0, update_first-hit stop f ys a x zs fail.1 hit)

  pub update_first-miss :
      (stop : A → Bool) (f : A → A) (ys : Cells A) (a : ℕ) (x : A)
      → AllFail stop ys
      → stop x ≡ false
      → update_first stop f (ys ++ (a, x) ∷ []) ≡ ys ++ (a, x) ∷ []
  unfolding update_first
  update_first-miss stop f [] a x fail miss = rw miss
  update_first-miss stop f ((b, y) ∷ ys) a x fail miss =
      rw (fail.0, update_first-miss stop f ys a x fail.1 miss)

  pub update_at-hit :
      (p : ℕ) (f : A → A) (ys : Cells A) (x : A) (zs : Cells A)
      → has_address p ys ≡ false
      → update_at p f (ys ++ (p, x) ∷ zs) ≡ ys ++ (p, f x) ∷ zs
  unfolding update_at
  update_at-hit p f [] x zs out = ground arith
  update_at-hit p f ((b, y) ∷ ys) x zs out =
      let other : (p == b) ≡ false = ground (arith, out) in
      rw (other, update_at-hit p f ys x zs (ground (arith, out)))

  pub remove_at-hit :
      (p : ℕ) (ys : Cells A) (x : A) (zs : Cells A)
      → has_address p ys ≡ false
      → remove_at p (ys ++ (p, x) ∷ zs) ≡ ys ++ zs
  unfolding remove_at
  remove_at-hit p [] x zs out = ground arith
  remove_at-hit p ((b, y) ∷ ys) x zs out =
      let other : (p == b) ≡ false = ground (arith, out) in
      rw (other, remove_at-hit p ys x zs (ground (arith, out)))

  -- Where a walk ends.
  pub walk_split :
      (stop : A → Bool) (c : ℕ) (z : A) (xs : Cells A)
      → (ys : Cells A) × (a : ℕ) × (x : A) × (zs : Cells A) × ((c, z) ∷ xs ≡ ys ++ (a, x) ∷ zs)
        × AllFail stop ys
        × ((stop x ≡ true) ⊎ ((stop x ≡ false) × (zs ≡ [])))
  walk_split stop c z [] = elim (Bool-cases (stop z)) [
    | inl e ↦ ([], c, z, [], refl, tt, inl e)
    | inr e ↦ ([], c, z, [], refl, tt, inr (e, refl))
  ]
  walk_split stop c z ((b, y) ∷ xs) = elim (Bool-cases (stop z)) [
    | inl e ↦ ([], c, z, (b, y) ∷ xs, refl, tt, inl e)
    | inr e ↦
        let (ys, a, x, zs, parts, fail, end) = walk_split stop b y xs in
        ((c, z) ∷ ys, a, x, zs, ap (λ (l : Cells A). (c, z) ∷ l) parts, (e, fail), end)
  ]

  pub address_split :
      (p : ℕ) (xs : Cells A)
      → has_address p xs ≡ true
      → (ys : Cells A) × (x : A) × (zs : Cells A) × (xs ≡ ys ++ (p, x) ∷ zs)
        × (has_address p ys ≡ false)
  address_split p [] i = absurd (ground (arith, i))
  address_split p ((a, x) ∷ xs) i = elim (Bool-cases (p == a)) [
    | inl e ↦
        let same : a ≡ p = ground (arith, e) in ([], x, xs, ap (λ (b : ℕ). (b, x) ∷ xs) same, refl)
    | inr e ↦
        let (ys, y, zs, parts, out) = address_split p xs (ground (arith, e, i)) in
        ((a, x) ∷ ys, y, zs, ap (λ (l : Cells A). (a, x) ∷ l) parts, ground (arith, e, out))
  ]

  pub has_address-put :
      (p : ℕ) (ys : Cells A) (a : ℕ) (x y : A) (zs : Cells A)
      → has_address p (ys ++ (a, x) ∷ zs) ≡ has_address p (ys ++ (a, y) ∷ zs)
  has_address-put p [] a x y zs = refl
  has_address-put p ((b, z) ∷ ys) a x y zs =
      ap (λ (t : Bool). (p == b) || t) (has_address-put p ys a x y zs)

  pub AreDistinct-put :
      (ys : Cells A) (a : ℕ) (x y : A) (zs : Cells A)
      → AreDistinct (ys ++ (a, x) ∷ zs)
      → AreDistinct (ys ++ (a, y) ∷ zs)
  AreDistinct-put [] a x y zs out = out
  AreDistinct-put ((b, z) ∷ ys) a x y zs out =
      (out.0, sym (has_address-put b ys a x y zs) ∙ out.1, AreDistinct-put ys a x y zs out.2)

  -- A new item in a node that is not in the front.
  pub Seg-put :
      (h : Heap A) (ys : Cells A) (a : ℕ) (x y : A) (zs : Cells A)
      → Seg h 0 (ys ++ (a, x) ∷ zs) 0
      → AreDistinct (ys ++ (a, x) ∷ zs)
      → Seg (write a (some (node y (last_or 0 ys) (first_or zs 0))) h) 0 (ys ++ (a, y) ∷ zs) 0
  Seg-put h ys a x y zs seg out =
      let new = some (node y (last_or 0 ys) (first_or zs 0)) in
      let (front, (here, back)) = Seg-split h 0 ys ((a, x) ∷ zs) 0 seg in
      let gone = AreDistinct-drop ys zs a x out in
      let apart = has_address-append a ys zs in
      Seg-append (write a new h) 0 ys ((a, y) ∷ zs) 0
        (Seg-write h 0 ys a a new (ground (arith, gone.1, apart)) front)
        (
          (unfold write in ground arith),
          Seg-write h a zs 0 a new (ground (arith, gone.1, apart)) back,
        )

  pub AreDistinct-push :
      (xs : Cells A) (p : ℕ) (x : A)
      → AreDistinct xs
      → p ≢ 0
      → has_address p xs ≡ false
      → AreDistinct (xs ++ (p, x) ∷ [])
  AreDistinct-push [] p x out ne fresh = (ne, refl, tt)
  AreDistinct-push ((a, y) ∷ xs) p x out ne fresh =
      let apart = has_address-append a xs ((p, x) ∷ []) in
      (
        out.0,
        ground (arith, out.1, fresh, apart),
        AreDistinct-push xs p x out.2 ne (ground (arith, fresh)),
      )

  pub last_or-snoc :
      (before : ℕ) (ys : Cells A) (a : ℕ) (x : A) → last_or before (ys ++ (a, x) ∷ []) ≡ a
  last_or-snoc before [] a x = refl
  last_or-snoc before ((b, y) ∷ ys) a x = last_or-snoc b ys a x

  pub first_or-ne_zero :
      (ys : Cells A) (a : ℕ) (x : A) (zs : Cells A)
      → AreDistinct (ys ++ (a, x) ∷ zs)
      → (first_or (ys ++ (a, x) ∷ zs) 0 == 0) ≡ false
  first_or-ne_zero [] a x zs out = ground (arith, out.0)
  first_or-ne_zero ((c, z) ∷ ys) a x zs out = ground (arith, out.0)

  -- A walk from the pointer to the first node.
  pub walk-head :
      (stop : A → Bool) (fuel head before : ℕ) (h : Heap A) (ys : Cells A) (a : ℕ) (x : A)
      (zs : Cells A)
      → head ≡ first_or (ys ++ (a, x) ∷ zs) 0
      → Seg h before (ys ++ (a, x) ∷ zs) 0
      → AreDistinct (ys ++ (a, x) ∷ zs)
      → AllFail stop ys
      → (stop x ≡ true) ⊎ ((stop x ≡ false) × (zs ≡ []))
      → length (ys ++ (a, x) ∷ zs) ≤ fuel
      → ((head == 0) ≡ false)
        × (walk stop fuel head h ≡ some (a, node x (last_or before ys) (first_or zs 0)))
  walk-head stop fuel head before h ys a x zs at seg out fail end enough =
      let halt : (stop x || first_or zs 0 == 0) ≡ true = elim end [
        | inl e ↦ rw e refl
        | inr (e, nil) ↦ rw (e, nil) refl
      ] in
      (
        ap (λ (p : ℕ). p == 0) at ∙ first_or-ne_zero ys a x zs out,
        ap (λ (p : ℕ). walk stop fuel p h) at
            ∙ walk-stops stop h fuel before ys a x zs seg out fail halt enough,
      )

  pub AllFail-split :
      (stop : A → Bool) (xs ys : Cells A)
      → AllFail stop (xs ++ ys)
      → AllFail stop xs × AllFail stop ys
  AllFail-split stop [] ys fail = (tt, fail)
  AllFail-split stop ((a, x) ∷ xs) ys fail =
      let (front, back) = AllFail-split stop xs ys fail.1 in ((fail.0, front), back)

  pub last_or-append :
      (before : ℕ) (xs ys : Cells A) → last_or before (xs ++ ys) ≡ last_or (last_or before xs) ys
  last_or-append before [] ys = refl
  last_or-append before ((a, x) ∷ xs) ys = last_or-append a xs ys

  -- The last node of a list that is not empty.
  pub last_split :
      (c : ℕ) (z : A) (xs : Cells A)
      → (ys : Cells A) × (a : ℕ) × (x : A) × ((c, z) ∷ xs ≡ ys ++ (a, x) ∷ [])
  last_split c z xs =
      let (ys, a, x, zs, parts, fail, end) = walk_split (λ (l : A). false) c z xs in
      let nil : zs ≡ [] = elim end [ inl e ↦ absurd (ground (arith, e)) | inr (e, n) ↦ n ] in
      (ys, a, x, parts ∙ ap (λ (r : Cells A). ys ++ (a, x) ∷ r) nil)
