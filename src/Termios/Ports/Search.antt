-- ===== src/Termios/Ports/Search.antt =====
-- Searching a list of ports after a node is put in.
use cameratrack.Base.{
  ℕ, ◌<◌, ◌≡◌, ◌≢◌, refl, ◌∙◌, Bool-cases, inl, inr, true, false, ltb, ◌==◌, Option, none, some,
  if◌then◌else◌, List, [], ◌∷◌, arith,
}
use cameratrack.Termios.Ports.{Entry, find_from, find_port, insert}
use cameratrack.Termios.Ports.Order.{Ascending, is_used, find_from-cons}

-- The new node finds its place, and the search finds it and the others.
pub insert-Ascending :
    (low : ℕ) (port index : Entry) (after : List Entry)
    → Ascending low (index ∷ after)
    → low < port.fd
    → is_used port.fd (index ∷ after) ≡ false
    → Ascending low (insert port index after)
unfolding insert
insert-Ascending low port index [] (lt, up) above unused =
    elim (Bool-cases (ltb port.fd index.fd)) [
      | inl s ↦ rw s (above, (ground (arith, s), tt))
      | inr s ↦ rw s (lt, (ground (arith, s, unused), tt))
    ]
insert-Ascending low port index (next ∷ after) (lt, up) above unused =
    elim (Bool-cases (ltb index.fd port.fd)) [
      | inl s ↦
          rw s (lt, insert-Ascending index.fd port next after up (ground (arith, s)) (ground arith))
      | inr s ↦
          let less : ltb port.fd index.fd ≡ true = ground arith in
          rw (s, less) (above, (ground (arith, less), up))
    ]

pub if_swap :
    (k a b : ℕ) (x y z : Option Entry)
    → a ≢ b
    → (if k == a then x else if k == b then y else z)
      ≡ (if k == b then y else if k == a then x else z)
if_swap k a b x y z ne = ground arith

-- A node in front of both lists.
ahead :
    (low k : ℕ) (port index : Entry) (xs ys : List Entry)
    → low < index.fd
    → index.fd ≢ port.fd
    → find_from k xs ≡ (if k == port.fd then some port else find_from k ys)
    → find_from k (index ∷ xs) ≡ (if k == port.fd then some port else find_from k (index ∷ ys))
ahead low k port index xs ys lt ne same =
    find_from-cons low k index xs lt
    ∙ rw (same, find_from-cons low k index ys lt)
        (if_swap k index.fd port.fd (some index) (some port) (find_from k ys) ne)

pub insert-find_from :
    (low k : ℕ) (port index : Entry) (after : List Entry)
    → Ascending low (index ∷ after)
    → low < port.fd
    → is_used port.fd (index ∷ after) ≡ false
    → find_from k (insert port index after)
      ≡ (if k == port.fd then some port else find_from k (index ∷ after))
unfolding insert
insert-find_from low k port index [] (lt, up) above unused =
    elim (Bool-cases (ltb port.fd index.fd)) [
      | inl s ↦ rw s (find_from-cons low k port (index ∷ []) above)
      | inr s ↦ rw s (
          ahead low k port index (port ∷ []) [] lt (ground (arith, unused))
            (find_from-cons low k port [] above))
    ]
insert-find_from low k port index (next ∷ after) (lt, up) above unused =
    elim (Bool-cases (ltb index.fd port.fd)) [
      | inl s ↦
          let rest =
            insert-find_from index.fd k port next after up (ground (arith, s)) (ground arith) in
          rw s (
            ahead low k port index (insert port next after) (next ∷ after) lt (ground (arith, s))
              rest)
      | inr s ↦
          let less : ltb port.fd index.fd ≡ true = ground arith in
          rw (s, less) (find_from-cons low k port (index ∷ next ∷ after) above)
    ]

find_from-unused :
    (low fd : ℕ) (es : List Entry)
    → Ascending low es
    → is_used fd es ≡ false
    → find_from fd es ≡ none
unfolding find_from
find_from-unused low fd [] up unused = refl
find_from-unused low fd (e ∷ es) (lt, up) unused =
    let other : (e.fd == fd) ≡ false = ground (arith, unused) in
    let some_fd : (e.fd == 0) ≡ false = ground arith in
    rw (some_fd, other, find_from-unused e.fd fd es up (ground (arith, unused)))

-- Finding ports by a positive descriptor.
pub find_port-from :
    (k fd : ℕ) (a : Option Entry) (xs ys : List Entry)
    → 0 < fd
    → find_from k xs ≡ (if k == fd then a else find_from k ys)
    → find_port k xs ≡ (if k == fd then a else find_port k ys)
unfolding find_port
find_port-from k fd a xs ys above same = elim (Bool-cases (k == 0)) [
  | inl z ↦ let other : (k == fd) ≡ false = ground (arith, z) in rw (z, other)
  | inr z ↦ rw z same
]

pub find_port-unused :
    (fd : ℕ) (es : List Entry) → Ascending 0 es → is_used fd es ≡ false → find_port fd es ≡ none
unfolding find_port
find_port-unused fd es up unused = ground (arith, find_from-unused 0 fd es up unused)
