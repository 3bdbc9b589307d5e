-- ===== src/Serial/Loops/Ends.antt =====
-- Linking a structure behind the list, and unlinking one.
use mathlib.Core.Path.{subst}
use cameratrack.Base.{
  ℕ, ◌≤◌, ◌≡◌, ◌≢◌, refl, sym, ap, ◌∙◌, inl, inr, Bool-cases, true, false, ◌||◌, ◌==◌, some,
  is_some, if◌then◌else◌, [], ◌∷◌, ◌++◌, length, arith,
}
use cameratrack.Chain.{Node, Heap, node, write, walk}
use cameratrack.Chain.Seg.{Cells, has_address, AreDistinct, AllFail, first_or, last_or, Seg}
use cameratrack.Chain.Change.{
  SameOutside, has_address-append, AreDistinct-drop, AreDistinct-front, last_or-ne_zero,
}
use cameratrack.Chain.Unlink.{detach-Seg, push-Seg}
use cameratrack.Chain.Find.{last_split, AreDistinct-push, last_or-snoc}
use cameratrack.Serial.Loops.{Loop, Loops, link, finalize_event_info_struct}
use cameratrack.Serial.Loops.Spec.{IsChain}
use cameratrack.Serial.Loops.Steps.{at_node, walk_from}

pub Seg-is_some :
    {A : Type 0} (h : Heap A) (before : ℕ) (xs : Cells A) (end a : ℕ)
    → Seg h before xs end
    → has_address a xs ≡ true
    → is_some (h a) ≡ true
Seg-is_some h before [] end a seg i = absurd (ground (arith, i))
Seg-is_some h before ((b, x) ∷ xs) end a seg i = elim (Bool-cases (a == b)) [
  | inl e ↦ let at : a ≡ b = ground (arith, e) in rw (at, seg.0) refl
  | inr e ↦ Seg-is_some h b xs end a seg.1 (ground (arith, e, i))
]

-- Changes to the nodes of a list leave the same addresses in use.
same_domain :
    {A : Type 0} (h g : Heap A) (before before' : ℕ) (xs : Cells A) (end end' : ℕ)
    → Seg h before xs end
    → Seg g before' xs end'
    → SameOutside xs h g
    → (a : ℕ) → is_some (g a) ≡ is_some (h a)
same_domain h g before before' xs end end' old new same a = elim (Bool-cases (has_address a xs)) [
  | inl i ↦ Seg-is_some g before' xs end' a new i ∙ sym (Seg-is_some h before xs end a old i)
  | inr o ↦ ap is_some (same a o)
]

all_go : {A : Type 0} (xs : Cells A) → AllFail (λ (x : A). false) xs
all_go [] = tt
all_go (x ∷ xs) = (refl, all_go xs)

-- The walk to the end of the list.
walk_last :
    (fuel : ℕ) (s : Loops) (c : ℕ) (z : Loop) (xs : Cells Loop)
    → IsChain s ((c, z) ∷ xs)
    → length ((c, z) ∷ xs) ≤ fuel
    → (n : Node Loop) × ((s.master_index == 0) ≡ false)
      × (walk (λ _. false) fuel s.master_index s.heap ≡ some (last_or c xs, n))
walk_last fuel s c z xs l enough =
    let (ys, a, x, all) = last_split c z xs in
    let (some_loop, found) =
      walk_from (λ _. false) fuel s ys a x [] (subst (IsChain s) all l) (all_go ys)
        (inr (refl, refl)) (subst (λ (r : Cells Loop). length r ≤ fuel) all enough) in
    let last : last_or c xs ≡ a = ap (last_or 0) all ∙ last_or-snoc 0 ys a x in
    let n = node x (last_or 0 ys) 0 in
    (n, some_loop, found ∙ ap (λ (b : ℕ). some (b, n)) (sym last))

link_domain :
    (h g : Heap Loop) (xs : Cells Loop) (p : ℕ) (n : Node Loop) (x : Loop)
    → Seg h 0 xs 0
    → Seg (write p (some n) g) 0 (xs ++ (p, x) ∷ []) 0
    → SameOutside xs h g
    → (a : ℕ) → is_some (write p (some n) g a) ≡ (a == p || is_some (h a))
link_domain h g xs p n x old new same a = elim (Bool-cases (a == p)) [
  | inl e ↦ unfold write in rw e refl
  | inr e ↦ elim (Bool-cases (has_address a xs)) [
    | inr o ↦ unfold write in rw (e, same a o) refl
    | inl i ↦
        let there : has_address a (xs ++ (p, x) ∷ []) ≡ true =
          ground (arith, i, has_address-append a xs ((p, x) ∷ [])) in
        Seg-is_some (write p (some n) g) 0 (xs ++ (p, x) ∷ []) 0 a new there
        ∙ sym (rw e (Seg-is_some h 0 xs 0 a old i))
  ]
]

pub link-IsChain :
    (fuel p : ℕ) (loop : Loop) (s : Loops) (xs : Cells Loop)
    → IsChain s xs
    → p ≢ 0
    → has_address p xs ≡ false
    → length xs ≤ fuel
    → (s' : Loops) × (link fuel p loop s ≡ some s')
      × IsChain s' (xs ++ (p, loop) ∷ [])
      × ((a : ℕ) → is_some (s'.heap a) ≡ (a == p || is_some (s.heap a)))
unfolding link
link-IsChain fuel p loop s [] l ne fresh enough =
    let nothing : (s.master_index == 0) ≡ true = ground (arith, l.master) in
    (
      record { heap = write p (some (node loop 0 0)) s.heap; master_index = p },
      rw nothing refl,
      record { master = refl; seg = (unfold write in ground arith, tt); distinct = (ne, refl, tt) },
      λ a. unfold write in ground arith,
    )
link-IsChain fuel p loop s ((c, z) ∷ xs) l ne fresh enough =
    let (g, done, chain, same) = push-Seg s.heap c z xs p loop l.seg l.distinct fresh in
    let (n, some_loop, found) = walk_last fuel s c z xs l enough in
    let new = node loop (last_or c xs) 0 in
    (
      record s { heap = write p (some new) g },
      rw (some_loop, found, done) refl,
      record {
        master = l.master;
        seg = chain;
        distinct = AreDistinct-push ((c, z) ∷ xs) p loop l.distinct ne fresh;
      },
      link_domain s.heap g ((c, z) ∷ xs) p new loop l.seg chain same,
    )

pub finalize-IsChain :
    (s : Loops) (ys : Cells Loop) (a : ℕ) (x : Loop) (zs : Cells Loop)
    → IsChain s (ys ++ (a, x) ∷ zs)
    → (s' : Loops) × (finalize_event_info_struct a s ≡ some s')
      × IsChain s' (ys ++ zs)
      × SameOutside (ys ++ zs) s.heap s'.heap
unfolding finalize_event_info_struct
finalize-IsChain s ys a x zs l =
    let (g, done, chain, same) = detach-Seg s.heap ys a x zs l.seg l.distinct in
    (
      record {
        heap = g;
        master_index = if last_or 0 ys == 0 then first_or zs 0 else s.master_index;
      },
      rw (at_node s ys a x zs l, done) refl,
      record {
        master = head ys l.master l.distinct;
        seg = chain;
        distinct = (AreDistinct-drop ys zs a x l.distinct).0;
      },
      same,
    )
  where
    head :
        (ys : Cells Loop)
        → s.master_index ≡ first_or (ys ++ (a, x) ∷ zs) 0
        → AreDistinct (ys ++ (a, x) ∷ zs)
        → (if last_or 0 ys == 0 then first_or zs 0 else s.master_index) ≡ first_or (ys ++ zs) 0
    head [] m out = refl
    head ((c, z) ∷ ys) m out =
        rw (last_or-ne_zero ys c z (AreDistinct-front ((c, z) ∷ ys) ((a, x) ∷ zs) out)) m
