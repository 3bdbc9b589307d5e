-- ===== src/Serial/Loops/Steps.antt =====
-- What the operations on the chain do to the list.
use mathlib.Core.Path.{subst}
use cameratrack.Base.{
  ℕ, ◌≤◌, ◌≡◌, refl, sym, ap, ◌∙◌, ◌⊎◌, inl, inr, Bool, Bool-cases, true, false, ◌==◌, some, [],
  ◌∷◌, ◌++◌, length, arith,
}
use cameratrack.Chain.{node, write, walk}
use cameratrack.Chain.Seg.{Cells, has_address, AllFail, first_or, last_or, Seg-split}
use cameratrack.Chain.Find.{
  update_first, update_first-hit, update_first-miss, walk_split, has_address-put, AreDistinct-put,
  walk-head, Seg-put,
}
use cameratrack.Serial.Loops.{Loop, Loops, is_loop_of, put_item, change_loop_of}
use cameratrack.Serial.Loops.Spec.{IsChain, IsLinked, AreReady}

first_or-put :
    {A : Type 0} (ys : Cells A) (a : ℕ) (x y : A) (zs : Cells A)
    → first_or (ys ++ (a, x) ∷ zs) 0 ≡ first_or (ys ++ (a, y) ∷ zs) 0
first_or-put [] a x y zs = refl
first_or-put (c ∷ ys) a x y zs = refl

has_address-here :
    {A : Type 0} (ys : Cells A) (a : ℕ) (x : A) (zs : Cells A)
    → has_address a (ys ++ (a, x) ∷ zs) ≡ true
has_address-here [] a x zs = ground arith
has_address-here ((b, y) ∷ ys) a x zs = ground (arith, has_address-here ys a x zs)

pub AreReady-append : (xs ys : Cells Loop) → AreReady xs → AreReady ys → AreReady (xs ++ ys)
AreReady-append [] ys front back = back
AreReady-append ((a, x) ∷ xs) ys front back = (front.0, AreReady-append xs ys front.1 back)

pub AreReady-split : (xs ys : Cells Loop) → AreReady (xs ++ ys) → AreReady xs × AreReady ys
AreReady-split [] ys ready = (tt, ready)
AreReady-split ((a, x) ∷ xs) ys ready =
    let (front, back) = AreReady-split xs ys ready.1 in ((ready.0, front), back)

pub at_node :
    (s : Loops) (ys : Cells Loop) (a : ℕ) (x : Loop) (zs : Cells Loop)
    → IsChain s (ys ++ (a, x) ∷ zs)
    → s.heap a ≡ some (node x (last_or 0 ys) (first_or zs 0))
at_node s ys a x zs l = (Seg-split s.heap 0 ys ((a, x) ∷ zs) 0 l.seg).1.0

pub put_item-IsLinked :
    (s : Loops) (ys : Cells Loop) (a : ℕ) (x y : Loop) (zs : Cells Loop)
    → IsLinked s (ys ++ (a, x) ∷ zs)
    → y.initialised ≡ true
    → IsLinked (put_item a (node x (last_or 0 ys) (first_or zs 0)) y s) (ys ++ (a, y) ∷ zs)
put_item-IsLinked s ys a x y zs l done =
    let (front, (_, back)) = AreReady-split ys ((a, x) ∷ zs) l.ready in
    let here = has_address-here ys a x zs in
    record {
      chain = record {
        master = l.chain.master ∙ first_or-put ys a x y zs;
        seg = Seg-put s.heap ys a x y zs l.chain.seg l.chain.distinct;
        distinct = AreDistinct-put ys a x y zs l.chain.distinct;
      };
      live = λ b.
          let same = has_address-put b ys a x y zs in
          unfold write in
          elim (Bool-cases (b == a)) [
            | inl e ↦
                let at : b ≡ a = ground (arith, e) in rw (e, at) (sym (has_address-here ys a y zs))
            | inr e ↦ rw e (l.live b ∙ same)
          ];
      ready = AreReady-append ys ((a, y) ∷ zs) front (rw done refl, back);
    }

-- The walk of the code, from where it begins.
pub walk_from :
    (stop : Loop → Bool) (fuel : ℕ) (s : Loops) (ys : Cells Loop) (a : ℕ) (x : Loop)
    (zs : Cells Loop)
    → IsChain s (ys ++ (a, x) ∷ zs)
    → AllFail stop ys
    → (stop x ≡ true) ⊎ ((stop x ≡ false) × (zs ≡ []))
    → length (ys ++ (a, x) ∷ zs) ≤ fuel
    → ((s.master_index == 0) ≡ false)
      × (walk stop fuel s.master_index s.heap ≡ some (a, node x (last_or 0 ys) (first_or zs 0)))
walk_from stop fuel s ys a x zs l fail end enough =
    walk-head stop fuel s.master_index 0 s.heap ys a x zs l.master l.seg l.distinct fail end enough

change_at :
    (fuel fd : ℕ) (change : Loop → Loop) (s : Loops) (ys : Cells Loop) (a : ℕ) (x : Loop)
    (zs : Cells Loop)
    → ((l : Loop) → (change l).initialised ≡ l.initialised)
    → AllFail (is_loop_of fd) ys
    → (is_loop_of fd x ≡ true) ⊎ ((is_loop_of fd x ≡ false) × (zs ≡ []))
    → IsLinked s (ys ++ (a, x) ∷ zs)
    → length (ys ++ (a, x) ∷ zs) ≤ fuel
    → (s' : Loops) × (change_loop_of fuel fd change s ≡ some s')
      × IsLinked s' (update_first (is_loop_of fd) change (ys ++ (a, x) ∷ zs))
unfolding change_loop_of
change_at fuel fd change s ys a x zs keeps fail end l enough =
    let (some_loop, found) = walk_from (is_loop_of fd) fuel s ys a x zs l.chain fail end enough in
    let n = node x (last_or 0 ys) (first_or zs 0) in
    elim end [
      | inl hit ↦
          let (_, (ready, _)) = AreReady-split ys ((a, x) ∷ zs) l.ready in
          let done : (change x).initialised ≡ true = ground (arith, keeps x, ready) in
          (
            put_item a n (change x) s,
            rw (some_loop, found, hit) refl,
            rw (update_first-hit (is_loop_of fd) change ys a x zs fail hit)
                (put_item-IsLinked s ys a x (change x) zs l done),
          )
      | inr (miss, nil) ↦ (
        s,
        rw (some_loop, found, miss) refl,
        rw
            (ap (λ (r : Cells Loop). update_first (is_loop_of fd) change (ys ++ (a, x) ∷ r)) nil
              ∙ update_first-miss (is_loop_of fd) change ys a x fail miss
              ∙ ap (λ (r : Cells Loop). ys ++ (a, x) ∷ r) (sym nil))
            l,
      )
    ]

pub change_loop_of-IsLinked :
    (fuel fd : ℕ) (change : Loop → Loop) (s : Loops) (xs : Cells Loop)
    → ((l : Loop) → (change l).initialised ≡ l.initialised)
    → IsLinked s xs
    → length xs ≤ fuel
    → (s' : Loops) × (change_loop_of fuel fd change s ≡ some s')
      × IsLinked s' (update_first (is_loop_of fd) change xs)
unfolding change_loop_of update_first
change_loop_of-IsLinked fuel fd change s [] keeps l enough =
    let nothing : (s.master_index == 0) ≡ true = ground (arith, l.chain.master) in
    (s, rw nothing refl, l)
change_loop_of-IsLinked fuel fd change s ((c, z) ∷ xs) keeps l enough =
    let (ys, a, x, zs, parts, fail, end) = walk_split (is_loop_of fd) c z xs in
    subst
      (λ (xs' : Cells Loop).
        IsLinked s xs'
        → length xs' ≤ fuel
        → (s' : Loops) × (change_loop_of fuel fd change s ≡ some s')
          × IsLinked s' (update_first (is_loop_of fd) change xs'))
      (sym parts) (change_at fuel fd change s ys a x zs keeps fail end) l enough
