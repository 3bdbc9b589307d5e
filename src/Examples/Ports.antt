-- ===== src/Examples/Ports.antt =====
-- A list with the ports 1 and 3.
use cameratrack.Base.{
  some, ℕ, ◌<◌, ◌≡◌, refl, is_some, on_some, true, false, none, List, [], ◌∷◌, ◌==◌, if◌then◌else◌,
  arith,
}
use cameratrack.Termios.Ports.{
  Entry, find_port, get_free_fd, free_after, add_port, port_opened, serial_close, zeroed_port,
}
use cameratrack.Termios.Ports.Order.{Ascending, is_used, get_free_fd-IsLeast}
use cameratrack.Termios.Ports.Laws.{IsAdded, add_port-IsAdded, serial_close-find_port}

abbrev pub open_at : ℕ → ℕ → Entry
open_at name fd = record { filename = name ∷ []; fd = fd; port = record zeroed_port { h_comm = 7 } }

abbrev pub two : List Entry
two = open_at 65 1 ∷ open_at 67 3 ∷ []

pub two_ordered : Ascending 0 two
two_ordered = (omega arith, (omega arith, tt))

-- Test: the gap is used.
next_free : get_free_fd two ≡ 2
unfolding get_free_fd free_after
next_free = refl

-- Test: a port that is open is known by its name.
known : port_opened (67 ∷ []) two ≡ 3
unfolding port_opened
known = refl

get_free_fd-IsLeast_example :
    (0 < get_free_fd two)
    × (is_used (get_free_fd two) two ≡ false)
    × ((k : ℕ) → 0 < k → k < get_free_fd two → is_used k two ≡ true)
get_free_fd-IsLeast_example = get_free_fd-IsLeast two two_ordered

add_port-IsAdded_example :
    (new : Entry) × (es' : List Entry) × (add_port (66 ∷ []) two ≡ some (new, es'))
    × (new.filename ≡ 66 ∷ [])
    × IsAdded new two es'
add_port-IsAdded_example = add_port-IsAdded (66 ∷ []) two (omega arith) two_ordered

close : Entry → List ℕ → List ℕ
close index w = index.fd ∷ w

serial_close-find_port_example :
    let r = serial_close close 3 two [] in
    (r.0 ≡ is_some (find_port 3 two))
    × Ascending 0 r.1
    × ((k : ℕ) → find_port k r.1 ≡ (if k == 3 then none else find_port k two))
    × (r.2 ≡ on_some (find_port 3 two) [] (λ index. close index []))
serial_close-find_port_example =
    serial_close-find_port close 3 (open_at 65 1) (open_at 67 3 ∷ []) [] two_ordered (omega arith)
