-- ===== src/Termios/Open/Store.antt =====
-- Writing the members of a port of the list in place.
use cameratrack.Base.{
  ℕ, ◌<◌, ◌≡◌, refl, Bool, Bool-cases, inl, inr, true, false, ◌==◌, ==_iff, Option, none, some,
  if◌then◌else◌, List, [], ◌∷◌, arith,
}
use cameratrack.Termios.Comm.{Port}
use cameratrack.Termios.Ports.{Entry, find_from, find_port}
use cameratrack.Termios.Ports.Order.{Ascending, find_from-cons}
use cameratrack.Termios.Ports.Table.{store}

abbrev pub with_port : Port → Option Entry → Option Entry
with_port port none = none
with_port port (some e) = some (record e { port = port })

pub store-Ascending :
    (low fd : ℕ) (port : Port) (es : List Entry)
    → Ascending low es
    → Ascending low (store fd port es)
store-Ascending low fd port [] up = tt
store-Ascending low fd port (e ∷ es) (lt, up) = elim (Bool-cases (e.fd == fd)) [
  | inl s ↦ rw s (lt, up)
  | inr s ↦ rw s (lt, store-Ascending e.fd fd port es up)
]

find_from-empty : (k : ℕ) → find_from k [] ≡ none
unfolding find_from
find_from-empty k = refl

if_same : (b : Bool) (a : Option Entry) → a ≡ (if b then a else a)
if_same true a = refl
if_same false a = refl

find_from-store :
    (low k fd : ℕ) (port : Port) (es : List Entry)
    → Ascending low es
    → find_from k (store fd port es)
      ≡ (if k == fd then with_port port (find_from fd es) else find_from k es)
find_from-store low k fd port [] up =
    rw (find_from-empty k, find_from-empty fd) (if_same (k == fd) none)
find_from-store low k fd port (e ∷ es) (lt, up) = elim (Bool-cases (e.fd == fd)) [
  | inl s ↦
      let there : e.fd ≡ fd = (==_iff e.fd fd).0 s in
      let here : (fd == e.fd) ≡ true = ground (arith, there) in
      let alike : (k == e.fd) ≡ (k == fd) = rw there refl in
      rw
        (
          s,
          find_from-cons low k (record e { port = port }) es lt,
          find_from-cons low fd e es lt,
          find_from-cons low k e es lt,
          here,
          alike,
        )
        (elim (Bool-cases (k == fd)) [ inl q ↦ rw q | inr q ↦ rw q ])
  | inr s ↦
      let away : (fd == e.fd) ≡ false = ground (arith, s) in
      rw
        (
          s,
          find_from-cons low k e (store fd port es) lt,
          find_from-cons low fd e es lt,
          find_from-cons low k e es lt,
          away,
        )
        (elim (Bool-cases (k == e.fd)) [
          | inl q ↦ let other : (k == fd) ≡ false = ground (arith, s, q) in rw (q, other)
          | inr q ↦ rw q (find_from-store e.fd k fd port es up)
        ])
]

pub find_port-store :
    (k fd : ℕ) (port : Port) (es : List Entry)
    → Ascending 0 es
    → 0 < fd
    → find_port k (store fd port es)
      ≡ (if k == fd then with_port port (find_port fd es) else find_port k es)
unfolding find_port
find_port-store k fd port es up above =
    let open_fd : (fd == 0) ≡ false = ground arith in
    elim (Bool-cases (k == 0)) [
      | inl q ↦ let other : (k == fd) ≡ false = ground (arith, q) in rw (q, other)
      | inr q ↦ rw (q, open_fd) (find_from-store 0 k fd port es up)
    ]

-- The first node of the list is found.
pub find_port-first :
    (e : Entry) (es : List Entry) → Ascending 0 (e ∷ es) → find_port e.fd (e ∷ es) ≡ some e
unfolding find_port
find_port-first e es (lt, up) =
    let open_fd : (e.fd == 0) ≡ false = ground arith in
    let same : (e.fd == e.fd) ≡ true = ground arith in rw (open_fd, same) refl
