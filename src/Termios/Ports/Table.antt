-- ===== src/Termios/Ports/Table.antt =====
-- The list of ports as the other calls of rxtx-devel/src/termios.c use it: they look a node up by its
-- descriptor, and write its members in place.
use cameratrack.Base.{ℕ, ◌==◌, Option, none, some, if◌then◌else◌, List, [], ◌∷◌}
use cameratrack.Termios.Comm.{Port, Sys}
use cameratrack.Termios.Ports.{Entry, find_port}

abbrev pub port_of : Option Entry → Option Port
port_of none = none
port_of (some index) = some index.port

-- The table of Termios/Comm that a list stands for.
abbrev pub table : {W : Type 0} → List Entry → W → Sys W
table es w = record { find_port = λ (fd : ℕ). port_of (find_port fd es); comm = w }

-- The list after the members of the node with this descriptor are written.
abbrev pub store : ℕ → Port → List Entry → List Entry
store fd port [] = []
store fd port (index ∷ next) =
    let rest = store fd port next in
    if index.fd == fd then record index { port = port } ∷ next else index ∷ rest
