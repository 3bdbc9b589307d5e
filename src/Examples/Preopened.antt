-- ===== src/Examples/Preopened.antt =====
-- Ports that are opened before the Java program opens them.
use cameratrack.Base.{
  ℕ, ◌≡◌, refl, Option, none, some, on_some, ◌==◌, if◌then◌else◌, [], ◌∷◌, arith,
}
use cameratrack.Chain.{node, write, set_next, set_prev, walk, detach}
use cameratrack.Chain.Seg.{Cells, Seg}
use cameratrack.Locks.Text.{Bytes, bytes}
use cameratrack.Serial.Preopened.{Preopened, Opened, find_preopened_ports, static_add_filename}
use cameratrack.Serial.Preopened.Laws.{IsChain, static_add_filename-find_preopened_ports}

abbrev pub tty : ℕ → Preopened
tty fd = record { filename = bytes "/dev/ttyS"; fd = fd }

abbrev usb : Preopened
usb = record { filename = bytes "/dev/ttyUSB0"; fd = 8 }

abbrev cells : Cells Preopened
cells = (4, tty 7) ∷ (6, usb) ∷ []

abbrev two : Opened
two = record {
  heap = λ (a : ℕ).
      if a == 4 then some (node (tty 7) 0 6) else if a == 6 then some (node usb 4 0) else none;
  preopened_port = 4;
}

two-IsChain : IsChain two cells
two-IsChain = record {
  head = refl;
  seg = (refl, (refl, tt));
  distinct = (omega arith, refl, (omega arith, refl, tt));
}

static_add_filename-find_preopened_ports_example :
    (s1 s2 : Opened) × (static_add_filename 4 9 (bytes "/dev/ttyS1") 3 two ≡ some s1)
    × (find_preopened_ports 4 (bytes "/dev/ttyS1") s1 ≡ some (3, s2))
    × Seg s2.heap 0 cells 0
    × (s2.heap 9 ≡ none)
    × (s2.preopened_port ≡ 6)
static_add_filename-find_preopened_ports_example =
    static_add_filename-find_preopened_ports 4 9 (bytes "/dev/ttyS1") 3 two cells two-IsChain
      (refl, (refl, tt)) (omega arith) refl (omega arith) (omega arith)

abbrev next_find : Bytes → Option (ℕ × Opened) → Option (ℕ × Opened)
next_find filename r = on_some r none (λ (fd, s). find_preopened_ports 4 filename s)

-- Test: taking the first of two ports leaves a pointer to memory that was given back.
dangling : next_find (bytes "/dev/ttyUSB0") (find_preopened_ports 4 (bytes "/dev/ttyS") two) ≡ none
unfolding find_preopened_ports walk detach write set_next set_prev
dangling = refl
