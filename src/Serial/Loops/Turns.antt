-- ===== src/Serial/Loops/Turns.antt =====
-- The start and the turns of an event loop.
use mathlib.Core.List.{append-nil}
use mathlib.Core.Path.{subst}
use cameratrack.Base.{
  ℕ, ◌≤◌, ◌≡◌, ◌≢◌, refl, sym, ap, ◌∙◌, inl, inr, Bool, Bool-cases, true, false, ◌==◌, Option, none,
  some, is_some, if◌then◌else◌, [], ◌∷◌, ◌++◌, length, arith, if_true, if_false,
}
use cameratrack.Chain.{Node, Heap, node, write}
use cameratrack.Chain.Seg.{Cells, has_address, first_or, last_or, Seg, Seg-write}
use cameratrack.Chain.Change.{SameOutside, has_address-append, AreDistinct-drop}
use cameratrack.Chain.Unlink.{outside_parts}
use cameratrack.Serial.Events.{Calls}
use cameratrack.Serial.Loops.{
  Loop, Loops, put_item, initialise_event_info_struct, event_loop_start, event_loop_turn,
}
use cameratrack.Serial.Loops.Spec.{IsChain, IsLinked, turn_of, started}
use cameratrack.Serial.Loops.Steps.{at_node, put_item-IsLinked, AreReady-append, AreReady-split}
use cameratrack.Serial.Loops.Ends.{Seg-is_some, link-IsChain, finalize-IsChain}

-- A structure whose address is given back.
freed-live :
    (h g : Heap Loop) (xs : Cells Loop) (p : ℕ)
    → Seg g 0 xs 0
    → SameOutside xs h g
    → has_address p xs ≡ false
    → ((a : ℕ) → (a == p) ≡ false → has_address a xs ≡ false → is_some (h a) ≡ false)
    → (a : ℕ) → is_some (write p none g a) ≡ has_address a xs
unfolding write
freed-live h g xs p seg same out gone a = elim (Bool-cases (a == p)) [
  | inl e ↦ let at : a ≡ p = ground (arith, e) in rw (e, at) (sym out)
  | inr e ↦ elim (Bool-cases (has_address a xs)) [
    | inl i ↦ rw (e, i) (Seg-is_some g 0 xs 0 a seg i)
    | inr o ↦ rw (e, o) (ap is_some (same a o) ∙ gone a e o)
  ]
]

fresh-IsChain :
    (s : Loops) (xs : Cells Loop) (p : ℕ) (n : Option (Node Loop))
    → IsChain s xs
    → has_address p xs ≡ false
    → IsChain (record s { heap = write p n s.heap }) xs
fresh-IsChain s xs p n c fresh = record {
  master = c.master;
  seg = Seg-write s.heap 0 xs 0 p n fresh c.seg;
  distinct = c.distinct;
}

module _ {W : Type 0} (calls : Calls W) (select : W → Bool × W) where
  pub event_loop_start-IsLinked :
      (fuel p : ℕ) (loop : Loop) (java_fd : ℕ) (method : Bool) (s : Loops) (w : W) (xs : Cells Loop)
      → IsLinked s xs
      → p ≢ 0
      → has_address p xs ≡ false
      → length xs ≤ fuel
      → let (l, w') = started calls select loop java_fd method w in
        (s' : Loops) × (event_loop_start calls select fuel p loop java_fd method s w
          ≡ some (s', w'))
        × IsLinked s' (if method then xs ++ (p, l) ∷ [] else xs)
  unfolding event_loop_start initialise_event_info_struct started
  event_loop_start-IsLinked fuel p loop java_fd true s w xs l ne fresh enough =
      let new : Loop = (started calls select loop java_fd true w).0 in
      let eis : Loop = record loop { initialised = false } in
      let s0 : Loops = record s { heap = write p (some (node eis 0 0)) s.heap } in
      let at_p : s0.heap p ≡ some (node eis 0 0) = unfold write in ground arith in
      let chain0 = fresh-IsChain s xs p (some (node eis 0 0)) l.chain fresh in
      let (s1, linked, chain1, domain) = link-IsChain fuel p new s0 xs chain0 ne fresh enough in
      (
        s1,
        rw (at_p, linked) refl,
        record {
          chain = chain1;
          live = λ a.
              let apart = has_address-append a xs ((p, new) ∷ []) in
              let old = l.live a in
              let changed = domain a in unfold write in ground (arith, apart, old, changed);
          ready = AreReady-append xs ((p, new) ∷ []) l.ready (refl, tt);
        },
      )
  event_loop_start-IsLinked fuel p loop java_fd false s w xs l ne fresh enough =
      let new : Loop = (started calls select loop java_fd false w).0 in
      let eis : Loop = record loop { initialised = false } in
      let s0 : Loops = record s { heap = write p (some (node eis 0 0)) s.heap } in
      let at_p : s0.heap p ≡ some (node eis 0 0) = unfold write in ground arith in
      let chain0 = fresh-IsChain s xs p (some (node eis 0 0)) l.chain fresh in
      let (s1, linked, chain1, domain) = link-IsChain fuel p new s0 xs chain0 ne fresh enough in
      let (s2, unlinked, chain2, same) = finalize-IsChain s1 xs p new [] chain1 in
      let less : IsChain s2 xs = subst (IsChain s2) (append-nil xs) chain2 in
      let kept : SameOutside xs s1.heap s2.heap =
        subst (λ (r : Cells Loop). SameOutside r s1.heap s2.heap) (append-nil xs) same in
      (
        record s2 { heap = write p none s2.heap },
        rw (at_p, linked, unlinked) refl,
        record {
          chain = fresh-IsChain s2 xs p none less fresh;
          live = freed-live s1.heap s2.heap xs p less.seg kept fresh λ a e o.
              let old = l.live a in
              let changed = domain a in unfold write in ground (arith, e, o, old, changed);
          ready = l.ready;
        },
      )

  -- The structure is initialised already.
  initialise-again :
      (fuel p java_fd : ℕ) (s : Loops) (n : Node Loop) (y : Loop) (w : W)
      → y.initialised ≡ true
      → initialise_event_info_struct calls select fuel p java_fd true (put_item p n y s) w
        ≡ some (true, put_item p n y s, w)
  unfolding initialise_event_info_struct
  initialise-again fuel p java_fd s n y w done =
      let here : (write p (some (record n { item = y })) s.heap) p ≡ some (record n { item = y }) =
        unfold write in ground arith in
      rw here (if_true _ _ done)

  pub event_loop_turn-closing :
      (fuel p : ℕ) (s : Loops) (w : W) (ys : Cells Loop) (x : Loop) (zs : Cells Loop)
      → IsLinked s (ys ++ (p, x) ∷ zs)
      → x.closing ≡ true
      → (s' : Loops) × (event_loop_turn calls select fuel p true s w ≡ some (s', w))
        × IsLinked s' (ys ++ zs)
  unfolding event_loop_turn
  event_loop_turn-closing fuel p s w ys x zs l closing =
      let (less, gone) = AreDistinct-drop ys zs p x l.chain.distinct in
      let (s1, unlinked, chain1, same) = finalize-IsChain s ys p x zs l.chain in
      let (front, (_, back)) = AreReady-split ys ((p, x) ∷ zs) l.ready in
      (
        record s1 { heap = write p none s1.heap },
        rw (at_node s ys p x zs l.chain) (if_true _ _ closing ∙ rw unlinked refl),
        record {
          chain = fresh-IsChain s1 (ys ++ zs) p none chain1 gone;
          live = freed-live s.heap s1.heap (ys ++ zs) p chain1.seg same gone λ a e o.
              let old = l.live a in
              let with_p = has_address-append a ys ((p, x) ∷ zs) in
              let (f, r) = outside_parts ys zs a o in ground (arith, old, with_p, f, r, e);
          ready = AreReady-append ys zs front back;
        },
      )

  pub event_loop_turn-going :
      (fuel p : ℕ) (s : Loops) (w : W) (ys : Cells Loop) (x : Loop) (zs : Cells Loop)
      → IsLinked s (ys ++ (p, x) ∷ zs)
      → x.closing ≡ false
      → let (y, w') = turn_of calls select x w in
        (s' : Loops) × (event_loop_turn calls select fuel p true s w ≡ some (s', w'))
        × IsLinked s' (ys ++ (p, y) ∷ zs)
  unfolding event_loop_turn turn_of
  event_loop_turn-going fuel p s w ys x zs l going =
      let (front, (ready, back)) = AreReady-split ys ((p, x) ∷ zs) l.ready in
      let done : x.initialised ≡ true = ground (arith, ready) in
      let n = node x (last_or 0 ys) (first_or zs 0) in
      let y = (turn_of calls select x w).0 in
      let again = initialise-again fuel p x.fd s n y (turn_of calls select x w).1 done in
      (
        put_item p n y s,
        rw (at_node s ys p x zs l.chain) (if_false _ _ going ∙ rw again refl),
        put_item-IsLinked s ys p x y zs l done,
      )
