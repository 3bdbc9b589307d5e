-- ===== src/Serial/Preopened/Laws.antt =====
-- What is put on the list is found.
use mathlib.Core.Path.{subst}
use mathlib.Core.List.{append-nil}
use cameratrack.Base.{
  ℕ, ◌+◌, ◌≤◌, ◌<◌, ◌≡◌, ◌≢◌, refl, sym, ap, ◌∙◌, inl, inr, true, false, ◌&&◌, ◌==◌, none, some,
  if◌then◌else◌, [], ◌∷◌, ◌++◌, length, arith, lt→ltb,
}
use cameratrack.Chain.{Node, Heap, node, write, walk}
use cameratrack.Chain.Seg.{
  Cells, has_address, AreDistinct, AllFail, first_or, last_or, Seg, Seg-split, Seg-write,
}
use cameratrack.Chain.Change.{AreDistinct-drop, AreDistinct-back, last_or-ne_zero}
use cameratrack.Chain.Unlink.{detach-Seg, push-Seg}
use cameratrack.Chain.Find.{
  walk-head, last_or-append, last_or-snoc, last_split, AreDistinct-push, AllFail-split,
}
use cameratrack.Locks.Text.{Bytes, same}
use cameratrack.Locks.System.Laws.{same_refl}
use cameratrack.Serial.Preopened.{
  Preopened, Opened, is_named, find_preopened_ports, static_add_filename,
}

-- `preopened_port` leads through the ports of the list.
pub record IsChain (s : Opened) (xs : Cells Preopened) : Type 0 where
  pub head : s.preopened_port ≡ first_or xs 0
  pub seg : Seg s.heap 0 xs 0
  pub distinct : AreDistinct xs

append_assoc : {A : Type 0} (xs ys zs : Cells A) → (xs ++ ys) ++ zs ≡ xs ++ (ys ++ zs)
append_assoc [] ys zs = refl
append_assoc (x ∷ xs) ys zs = ap (λ (r : Cells _). x ∷ r) (append_assoc xs ys zs)

-- The pointer leads to the nodes behind `us`. The first of the name is given and taken out of the
-- list; its memory is given back, also where the pointer still leads there.
pub find_preopened_ports-taken :
    (fuel : ℕ) (filename : Bytes) (s : Opened) (us ys : Cells Preopened) (a : ℕ) (x : Preopened)
    (zs : Cells Preopened)
    → s.preopened_port ≡ first_or (ys ++ (a, x) ∷ zs) 0
    → Seg s.heap 0 ((us ++ ys) ++ (a, x) ∷ zs) 0
    → AreDistinct ((us ++ ys) ++ (a, x) ∷ zs)
    → AllFail (is_named filename) ys
    → is_named filename x ≡ true
    → length (ys ++ (a, x) ∷ zs) ≤ fuel
    → let alone = last_or 0 (us ++ ys) == 0 && first_or zs 0 == 0 in
      (s' : Opened) × (find_preopened_ports fuel filename s ≡ some (x.fd, s'))
      × Seg s'.heap 0 ((us ++ ys) ++ zs) 0
      × (s'.heap a ≡ none)
      × (s'.preopened_port ≡ (if alone then 0 else s.preopened_port))
unfolding find_preopened_ports
find_preopened_ports-taken fuel filename s us ys a x zs at seg out fail named enough =
    let assoc = append_assoc us ys ((a, x) ∷ zs) in
    let suffix =
      (Seg-split s.heap 0 us (ys ++ (a, x) ∷ zs) 0 (subst (λ r. Seg s.heap 0 r 0) assoc seg)).1 in
    let apart = AreDistinct-back us (ys ++ (a, x) ∷ zs) (subst AreDistinct assoc out) in
    let (some_port, found) =
      walk-head (is_named filename) fuel s.preopened_port (last_or 0 us) s.heap ys a x zs at suffix
        apart fail (inl named) enough in
    let (g, detached, chain, same) = detach-Seg s.heap (us ++ ys) a x zs seg out in
    let last = last_or-append 0 us ys in
    let gone = (AreDistinct-drop (us ++ ys) zs a x out).1 in
    (
      record {
        heap = write a none g;
        preopened_port =
            if last_or 0 (us ++ ys) == 0 && first_or zs 0 == 0 then 0 else s.preopened_port;
      },
      rw (some_port, found, named, ← last, detached) refl,
      Seg-write g 0 ((us ++ ys) ++ zs) 0 a none gone chain,
      (unfold write in ground arith),
      refl,
    )

-- The list with the new port is there.
abbrev IsAdded : ℕ → ℕ → Bytes → ℕ → Opened → Cells Preopened → Type 0
IsAdded fuel newp filename fd s xs =
    (s1 : Opened) × (static_add_filename fuel newp filename fd s ≡ some s1)
    × Seg s1.heap 0 (xs ++ (newp, record { filename = filename; fd = fd }) ∷ []) 0
    × (s1.preopened_port ≡ (if last_or 0 xs == 0 then newp else last_or 0 xs))

-- No port of the list has the name: the walk ends at the last.
walk_unnamed :
    (fuel : ℕ) (filename : Bytes) (head : ℕ) (h : Heap Preopened) (c : ℕ) (z : Preopened)
    (xs : Cells Preopened)
    → head ≡ c
    → Seg h 0 ((c, z) ∷ xs) 0
    → AreDistinct ((c, z) ∷ xs)
    → AllFail (is_named filename) ((c, z) ∷ xs)
    → length ((c, z) ∷ xs) ≤ fuel
    → (n : Node Preopened) × ((head == 0) ≡ false)
      × (walk (is_named filename) fuel head h ≡ some (last_or c xs, n))
      × (is_named filename n.item ≡ false)
walk_unnamed fuel filename head h c z xs at seg out fail enough =
    let (us, q, y, parts) = last_split c z xs in
    let named = is_named filename in
    let last_fails = (AllFail-split named us ((q, y) ∷ []) (subst (AllFail named) parts fail)) in
    let (some_port, found) =
      walk-head named fuel head 0 h us q y []
        (at ∙ ap (λ (r : Cells Preopened). first_or r 0) parts)
        (subst (λ (r : Cells Preopened). Seg h 0 r 0) parts seg) (subst AreDistinct parts out)
        last_fails.0 (inr (last_fails.1.0, refl))
        (subst (λ (r : Cells Preopened). length r ≤ fuel) parts enough) in
    let last : last_or c xs ≡ q = ap (last_or 0) parts ∙ last_or-snoc 0 us q y in
    let n = node y (last_or 0 us) 0 in
    (n, some_port, found ∙ ap (λ (b : ℕ). some (b, n)) (sym last), last_fails.1.0)

static_add_filename-IsAdded :
    (fuel newp : ℕ) (filename : Bytes) (fd : ℕ) (s : Opened) (xs : Cells Preopened)
    → IsChain s xs
    → AllFail (is_named filename) xs
    → has_address newp xs ≡ false
    → length filename < 40
    → length xs ≤ fuel
    → IsAdded fuel newp filename fd s xs
unfolding static_add_filename
static_add_filename-IsAdded fuel newp filename fd s [] l fail fresh short enough =
    let new : Preopened = record { filename = filename; fd = fd } in
    let empty : (s.preopened_port == 0) ≡ true = ground (arith, l.head) in
    (
      record { heap = write newp (some (node new 0 0)) s.heap; preopened_port = newp },
      rw (lt→ltb (length filename) 40 short, empty) refl,
      ((unfold write in ground arith), tt),
      refl,
    )
static_add_filename-IsAdded fuel newp filename fd s ((c, z) ∷ xs) l fail fresh short enough =
    let new : Preopened = record { filename = filename; fd = fd } in
    let h = write newp (some (node new 0 0)) s.heap in
    let seg = Seg-write s.heap 0 ((c, z) ∷ xs) 0 newp (some (node new 0 0)) fresh l.seg in
    let (n, some_port, found, other) =
      walk_unnamed fuel filename s.preopened_port h c z xs l.head seg l.distinct fail enough in
    let (g, linked, chain, _) = push-Seg h c z xs newp new seg l.distinct fresh in
    let last = last_or c xs in
    (
      record { heap = write newp (some (node new last 0)) g; preopened_port = last },
      rw (lt→ltb (length filename) 40 short, some_port, found, other, linked) refl,
      chain,
      rw (last_or-ne_zero xs c z l.distinct) refl,
    )

-- It is found and taken out again.
find_added :
    (fuel newp : ℕ) (filename : Bytes) (fd : ℕ) (s1 : Opened) (xs : Cells Preopened)
    → Seg s1.heap 0 (xs ++ (newp, record { filename = filename; fd = fd }) ∷ []) 0
    → AreDistinct xs
    → AreDistinct (xs ++ (newp, record { filename = filename; fd = fd }) ∷ [])
    → AllFail (is_named filename) xs
    → s1.preopened_port ≡ (if last_or 0 xs == 0 then newp else last_or 0 xs)
    → 2 ≤ fuel
    → (s2 : Opened) × (find_preopened_ports fuel filename s1 ≡ some (fd, s2))
      × Seg s2.heap 0 xs 0
      × (s2.heap newp ≡ none)
      × (s2.preopened_port ≡ last_or 0 xs)
find_added fuel newp filename fd s1 [] seg _ out fail at enough =
    let new : Preopened = record { filename = filename; fd = fd } in
    find_preopened_ports-taken fuel filename s1 [] [] newp new [] at seg out tt (same_refl filename)
      (omega arith)
find_added fuel newp filename fd s1 ((c, z) ∷ xs) seg distinct out fail at enough =
    let new : Preopened = record { filename = filename; fd = fd } in
    let (us, q, y, parts) = last_split c z xs in
    let end : Cells Preopened = (newp, new) ∷ [] in
    let last : last_or c xs ≡ q = ap (last_or 0) parts ∙ last_or-snoc 0 us q y in
    let some_last = last_or-ne_zero xs c z distinct in
    let at_last : s1.preopened_port ≡ last_or c xs = rw some_last at at in
    let (_, fails) =
      AllFail-split (is_named filename) us ((q, y) ∷ [])
        (subst (AllFail (is_named filename)) parts fail) in
    let (s2, found, chain, gone, head) =
      find_preopened_ports-taken fuel filename s1 us ((q, y) ∷ []) newp new [] (at_last ∙ last)
        (subst (λ (r : Cells Preopened). Seg s1.heap 0 (r ++ end) 0) parts seg)
        (subst (λ (r : Cells Preopened). AreDistinct (r ++ end)) parts out) fails
        (same_refl filename) (omega arith) in
    let kept : last_or 0 (us ++ (q, y) ∷ []) ≡ last_or c xs = sym (ap (last_or 0) parts) in
    (
      s2,
      found,
      subst (λ (r : Cells Preopened). Seg s2.heap 0 r 0)
          (append-nil (us ++ (q, y) ∷ []) ∙ sym parts) chain,
      gone,
      (rw (kept, some_last) at head) ∙ at_last,
    )

-- From a chain at preopened_port that does not have the name, which is less than 40 bytes long, and
-- fresh memory for a node, static_add_filename puts the port on the list, find_preopened_ports then
-- gives its descriptor, takes it out and frees its node, and the chain is as it was; but
-- preopened_port now leads to its last port, not to its first.
pub static_add_filename-find_preopened_ports :
    (fuel newp : ℕ) (filename : Bytes) (fd : ℕ) (s : Opened) (xs : Cells Preopened)
    → IsChain s xs
    → AllFail (is_named filename) xs
    → newp ≢ 0
    → has_address newp xs ≡ false
    → length filename < 40
    → length xs + 2 ≤ fuel
    → (s1 s2 : Opened) × (static_add_filename fuel newp filename fd s ≡ some s1)
      × (find_preopened_ports fuel filename s1 ≡ some (fd, s2))
      × Seg s2.heap 0 xs 0
      × (s2.heap newp ≡ none)
      × (s2.preopened_port ≡ last_or 0 xs)
static_add_filename-find_preopened_ports fuel newp filename fd s xs l fail ne fresh short enough =
    let (s1, added, seg, at) =
      static_add_filename-IsAdded fuel newp filename fd s xs l fail fresh short (omega arith) in
    let new : Preopened = record { filename = filename; fd = fd } in
    let (s2, found, seg2, gone, head) =
      find_added fuel newp filename fd s1 xs seg l.distinct
        (AreDistinct-push xs newp new l.distinct ne fresh) fail at (omega arith) in
    (s1, s2, added, found, seg2, gone, head)

-- From the last port of the list no other is found.
pub find_preopened_ports-missing :
    (fuel : ℕ) (filename : Bytes) (s : Opened) (xs : Cells Preopened)
    → Seg s.heap 0 xs 0
    → AreDistinct xs
    → AllFail (is_named filename) xs
    → s.preopened_port ≡ last_or 0 xs
    → 1 ≤ fuel
    → find_preopened_ports fuel filename s ≡ some (0, s)
unfolding find_preopened_ports
find_preopened_ports-missing fuel filename s [] seg out fail at enough =
    let empty : (s.preopened_port == 0) ≡ true = ground (arith, at) in rw empty refl
find_preopened_ports-missing fuel filename s ((c, z) ∷ xs) seg out fail at enough =
    let (us, q, y, parts) = last_split c z xs in
    let end : Cells Preopened = (q, y) ∷ [] in
    let last : last_or c xs ≡ q = ap (last_or 0) parts ∙ last_or-snoc 0 us q y in
    let suffix =
      (Seg-split s.heap 0 us end 0
        (subst (λ (r : Cells Preopened). Seg s.heap 0 r 0) parts seg)).1 in
    let fails =
      (AllFail-split (is_named filename) us end
        (subst (AllFail (is_named filename)) parts fail)).1 in
    let (some_port, found) =
      walk-head (is_named filename) fuel s.preopened_port (last_or 0 us) s.heap [] q y []
        (at ∙ last) suffix (AreDistinct-back us end (subst AreDistinct parts out)) tt
        (inr (fails.0, refl)) enough in
    rw (some_port, found, fails.0) refl
