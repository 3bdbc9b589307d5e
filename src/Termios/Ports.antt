-- ===== src/Termios/Ports.antt =====
-- The list of open ports of rxtx-devel/src/termios.c: `find_port`, `get_free_fd`, `add_port`,
-- `port_opened` and `serial_close`. The list is what `next` leads through from `first_tl`; `prev` of a
-- node is the node before it. That `malloc` gives memory is taken for granted.
pub mod Order
pub mod Search
pub mod Laws
pub mod Table
use cameratrack.Base.{
  ℕ, zero, suc, ◌+◌, Bool, true, false, not, ltb, ◌==◌, Option, none, some, on_some, if◌then◌else◌,
  List, [], ◌∷◌, length,
}
use cameratrack.Termios.{Termios}
use cameratrack.Termios.Comm.{Counters, Port}

-- `struct termios_list`: what the list is searched by, and the members that the calls on a port use.
pub record Entry : Type 0 where
  pub filename : List ℕ
  pub fd : ℕ
  pub port : Port

abbrev pub same_name : List ℕ → List ℕ → Bool
same_name [] [] = true
same_name [] (b ∷ ys) = false
same_name (a ∷ xs) [] = false
same_name (a ∷ xs) (b ∷ ys) = if a == b then same_name xs ys else false

-- The loop of `find_port` from a node on. A node without a descriptor ends it.
unfoldable pub find_from : ℕ → List Entry → Option Entry
find_from fd [] = none
find_from fd (index ∷ next) =
    let rest = find_from fd next in
    if index.fd == 0 then none else if index.fd == fd then some index else rest

unfoldable pub find_port : ℕ → List Entry → Option Entry
unfolding find_from
find_port fd first = if fd == 0 then none else find_from fd first

-- The loop of `get_free_fd`, past a node with the descriptor `last`.
unfoldable pub free_after : ℕ → List Entry → ℕ
free_after last [] = last + 1
free_after last (index ∷ next) =
    let rest = free_after index.fd next in if index.fd == last + 1 then rest else last + 1

unfoldable pub get_free_fd : List Entry → ℕ
unfolding free_after
get_free_fd [] = 1
get_free_fd (first ∷ next) =
    if first.fd == 0 then 1 else if ltb 1 first.fd then 1 else free_after first.fd next

-- The loop of `add_port` from `index` on. Behind a node with the same descriptor, where the list would
-- be cut off, the new node is the last.
unfoldable pub insert : Entry → Entry → List Entry → List Entry
insert port index [] = if ltb port.fd index.fd then port ∷ index ∷ [] else index ∷ port ∷ []
insert port index (next ∷ after) =
    let rest = insert port next after in
    if ltb index.fd port.fd
    then index ∷ rest
    else if ltb port.fd index.fd
    then port ∷ index ∷ next ∷ after
    else index ∷ port ∷ []

abbrev pub zeroed_port : Port
zeroed_port = record {
  h_comm = 0;
  ttyset = record {
    c_iflag = 0;
    c_oflag = 0;
    c_cflag = 0;
    c_lflag = 0;
    c_cc = λ _. 0;
    c_ispeed = 0;
    c_ospeed = 0;
  };
  msr = 0;
  sis = record { frame = 0; overrun = 0; parity = 0; brk = 0 };
  event_flag = 0;
  tx_happened = 0;
}

-- The new node and the list with it.
unfoldable pub with_new_port : List ℕ → List Entry → Entry × List Entry
unfolding get_free_fd insert
with_new_port filename [] =
    let port : Entry = record { filename = filename; fd = get_free_fd []; port = zeroed_port } in
    (port, port ∷ [])
with_new_port filename (first ∷ next) =
    let port : Entry = record {
      filename = filename;
      fd = get_free_fd (first ∷ next);
      port = zeroed_port;
    } in
    (port, insert port first next)

-- The name is copied into the 80 bytes of `filename`, with its end: `none` where it is too long.
unfoldable pub add_port : List ℕ → List Entry → Option (Entry × List Entry)
unfolding with_new_port
add_port filename es = if ltb (length filename) 80 then some (with_new_port filename es) else none

unfoldable pub port_opened : List ℕ → List Entry → ℕ
port_opened filename [] = 0
port_opened filename (index ∷ next) =
    let rest = port_opened filename next in
    if same_name index.filename filename then index.fd else rest

-- The node that was found is taken out of the list.
unfoldable pub take_out : ℕ → List Entry → List Entry
take_out fd [] = []
take_out fd (index ∷ next) =
    let rest = take_out fd next in if index.fd == fd then next else index ∷ rest

-- The result (0 or -1), the list, and the state after the handles of the port are closed by `close`.
-- If the first port has no handle, nothing is closed and the result is 0.
unfoldable pub serial_close :
    {W : Type 0} → (Entry → W → W) → ℕ → List Entry → W → Bool × List Entry × W
unfolding find_port take_out
serial_close close fd [] w = (true, [], w)
serial_close close fd (first ∷ next) w =
    if first.port.h_comm == 0
    then (true, first ∷ next, w)
    else on_some (find_port fd (first ∷ next)) (false, first ∷ next, w)
        λ index. (true, take_out fd (first ∷ next), close index w)
