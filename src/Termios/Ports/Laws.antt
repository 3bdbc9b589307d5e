-- ===== src/Termios/Ports/Laws.antt =====
-- Opening and closing ports, as the calls that look a port up see it.
use cameratrack.Base.{
  ℕ, zero, suc, ◌<◌, ◌≡◌, ◌≢◌, refl, Bool-cases, inl, inr, false, ◌==◌, ==_iff, ==_ne, ==_refl,
  Option, Option-cases, none, some, on_some, is_some, if◌then◌else◌, List, [], ◌∷◌, length, lt→ltb,
  arith,
}
use cameratrack.Termios.Ports.{
  Entry, zeroed_port, find_from, find_port, get_free_fd, insert, with_new_port, add_port, take_out,
  serial_close,
}
use cameratrack.Termios.Ports.Order.{
  Ascending, is_used, Ascending-weaken, find_from-below, find_from-cons, get_free_fd-IsLeast,
}
use cameratrack.Termios.Ports.Search.{
  insert-Ascending, if_swap, insert-find_from, find_port-from, find_port-unused,
}

abbrev pub IsAdded : Entry → List Entry → List Entry → Type 0
IsAdded port es es' =
    (find_port port.fd es ≡ none)
    × Ascending 0 es'
    × ((k : ℕ) → find_port k es' ≡ (if k == port.fd then some port else find_port k es))

insert-IsAdded :
    (port e : Entry) (es : List Entry)
    → Ascending 0 (e ∷ es)
    → 0 < port.fd
    → is_used port.fd (e ∷ es) ≡ false
    → IsAdded port (e ∷ es) (insert port e es)
insert-IsAdded port e es up above unused = (
  find_port-unused port.fd (e ∷ es) up unused,
  insert-Ascending 0 port e es up above unused,
  λ k.
      find_port-from k port.fd (some port) (insert port e es) (e ∷ es) above
        (insert-find_from 0 k port e es up above unused),
)

new_port : List ℕ → List Entry → Entry
new_port filename es = record { filename = filename; fd = get_free_fd es; port = zeroed_port }

pub with_new_port-IsAdded :
    (filename : List ℕ) (es : List Entry)
    → Ascending 0 es
    → ((with_new_port filename es).0.filename ≡ filename)
      × IsAdded (with_new_port filename es).0 es (with_new_port filename es).1
unfolding with_new_port new_port
with_new_port-IsAdded filename [] up =
    let port : Entry = record { filename = filename; fd = 1; port = zeroed_port } in
    (
      refl,
      (
        find_port-unused 1 [] tt refl,
        (omega arith, tt),
        λ k.
            find_port-from k 1 (some port) (port ∷ []) [] (omega arith)
              (find_from-cons 0 k port [] (omega arith)),
      ),
    )
with_new_port-IsAdded filename (e ∷ es) up =
    let (above, unused, _) = get_free_fd-IsLeast (e ∷ es) up in
    (refl, insert-IsAdded (new_port filename (e ∷ es)) e es up above unused)

pub add_port-some :
    (filename : List ℕ) (es : List Entry)
    → length filename < 80
    → add_port filename es ≡ some (with_new_port filename es)
unfolding add_port
add_port-some filename es short = rw (lt→ltb (length filename) 80 short) refl

-- On an ascending list and for a name of less than 80 bytes, which is what its field holds, add_port
-- makes a node with the name, whose descriptor was free, and keeps the order; find_port then finds
-- the new node under its descriptor and the others as before.
pub add_port-IsAdded :
    (filename : List ℕ) (es : List Entry)
    → length filename < 80
    → Ascending 0 es
    → (new : Entry) × (es' : List Entry) × (add_port filename es ≡ some (new, es'))
      × (new.filename ≡ filename)
      × IsAdded new es es'
add_port-IsAdded filename es short up = (
  (with_new_port filename es).0,
  (with_new_port filename es).1,
  add_port-some filename es short,
  (with_new_port-IsAdded filename es up).0,
  (with_new_port-IsAdded filename es up).1,
)

-- What closing leaves.
take_out-Ascending :
    (low fd : ℕ) (es : List Entry) → Ascending low es → Ascending low (take_out fd es)
unfolding take_out
take_out-Ascending low fd [] up = tt
take_out-Ascending low fd (e ∷ es) (lt, up) = elim (Bool-cases (e.fd == fd)) [
  | inl s ↦ rw s (Ascending-weaken low e.fd es (omega arith) up)
  | inr s ↦ rw s (lt, take_out-Ascending e.fd fd es up)
]

find_from-empty : (k : ℕ) → find_from k [] ≡ none
unfolding find_from
find_from-empty k = refl

if_same : (k fd : ℕ) (a : Option Entry) → a ≡ (if k == fd then a else a)
if_same k fd a = ground arith

take_out-find_from :
    (low k fd : ℕ) (es : List Entry)
    → Ascending low es
    → find_from k (take_out fd es) ≡ (if k == fd then none else find_from k es)
unfolding take_out
take_out-find_from low k fd [] up = rw (find_from-empty k) (if_same k fd none)
take_out-find_from low k fd (e ∷ es) (lt, up) = elim (Bool-cases (e.fd == fd)) [
  | inl s ↦
      let gone : k ≡ e.fd → find_from k es ≡ none =
        λ q. find_from-below e.fd k es up (omega arith) in
      rw (s, find_from-cons low k e es lt) (ground (arith, s, gone))
  | inr s ↦
      rw
        (
          s,
          find_from-cons low k e es lt,
          find_from-cons low k e (take_out fd es) lt,
          take_out-find_from e.fd k fd es up,
        )
        (if_swap k e.fd fd (some e) none (find_from k es) (ground (arith, s)))
]

pub find_port-positive :
    (fd : ℕ) (es : List Entry) (index : Entry) → find_port fd es ≡ some index → 0 < fd
unfolding find_port
find_port-positive zero es index e = absurd (ground (arith, e))
find_port-positive (suc n) es index e = omega arith

find_port-missing :
    (k fd : ℕ) (es : List Entry)
    → find_port fd es ≡ none
    → find_port k es ≡ (if k == fd then none else find_port k es)
find_port-missing k fd es missing = elim (Bool-cases (k == fd)) [
  | inl s ↦ let same : k ≡ fd = (==_iff k fd).0 s in rw (same, ==_refl fd) missing
  | inr s ↦ rw s
]

-- On an ascending list whose first port has a handle, serial_close returns 0 exactly when the port
-- is open, and then closes its handles; after it the port is not found, all others are as before,
-- and the list is in order.
pub serial_close-find_port :
    {W : Type 0} (close : Entry → W → W) (fd : ℕ) (first : Entry) (next : List Entry) (w : W)
    → Ascending 0 (first ∷ next)
    → first.port.h_comm ≢ 0
    → let es = first ∷ next in
      let r = serial_close close fd es w in
      (r.0 ≡ is_some (find_port fd es))
      × Ascending 0 r.1
      × ((k : ℕ) → find_port k r.1 ≡ (if k == fd then none else find_port k es))
      × (r.2 ≡ on_some (find_port fd es) w (λ index. close index w))
unfolding serial_close
serial_close-find_port close fd first next w up handle =
    let es : List Entry = first ∷ next in
    elim (Option-cases (find_port fd es)) [
      | inl e ↦ rw (==_ne handle, e) (refl, up, λ k. find_port-missing k fd es e, refl)
      | inr (index, e) ↦
          let above : 0 < fd = find_port-positive fd es index e in
          rw (==_ne handle, e)
            (
              refl,
              take_out-Ascending 0 fd es up,
              λ k.
                  find_port-from k fd none (take_out fd es) es above
                    (take_out-find_from 0 k fd es up),
              refl,
            )
    ]
