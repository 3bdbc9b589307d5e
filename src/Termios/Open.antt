-- ===== src/Termios/Open.antt =====
-- `serial_open` of rxtx-devel/src/termios.c, with `open_port` and `check_port_capabilities`, on the list
-- of open ports. Of the capabilities only GetCommState decides.
pub mod Store
pub mod Calls
pub mod Laws
use cameratrack.Base.{
  ℕ, ℤ, pos, negsuc, Bool, true, false, not, ◌==◌, Option, none, some, is_some, on_some,
  if◌then◌else◌, List, length, ltb,
}
use cameratrack.Termios.{Termios}
use cameratrack.Termios.Comm.{CommApi, Port}
use cameratrack.Termios.Convert.{init_termios}
use cameratrack.Termios.Attr.{tcsetattr}
use cameratrack.Termios.Ports.{Entry, find_port, add_port, port_opened, serial_close}
use cameratrack.Termios.Ports.Table.{table, store}

-- The Windows calls that open a port. `create_file` answers `none` for INVALID_HANDLE_VALUE, and
-- `create_event` false for NULL; `close` closes the handles of a port.
pub record OpenApi (W : Type 0) : Type 0 where
  pub create_file : List ℕ → W → Option ℕ × W
  pub setup_comm : ℕ → W → Bool × W
  pub create_event : W → Bool × W
  pub close : Entry → W → W

abbrev pub invalid_handle_value : ℕ
invalid_handle_value = 0xffff_ffff

abbrev pub with_handle : ℕ → Entry → Entry
with_handle handle index = record index { port = record index.port { h_comm = handle } }

module _ {W : Type 0} (open_api : OpenApi W) where
  -- The three events, for reading, selecting and writing.
  unfoldable pub create_events : W → Bool × W
  create_events w =
      let (rol, w1) = open_api.create_event w in
      let (sol, w2) = open_api.create_event w1 in
      if not rol then (false, w1) else if not sol then (false, w2) else open_api.create_event w2

  -- The result (0 or -1) and the port with its handle.
  unfoldable pub open_port : Entry → W → Bool × Entry × W
  unfolding create_events
  open_port port w =
      let (created, w1) = open_api.create_file port.filename w in
      on_some created (false, with_handle invalid_handle_value port, w1)
        λ handle.
          let (set_up, w2) = open_api.setup_comm handle w1 in
          if not set_up
          then (false, with_handle handle port, w2)
          else let (events, w3) = create_events w2 in (events, with_handle handle port, w3)

  module _ (api : CommApi W) where
    unfoldable pub check_port_capabilities : Entry → W → Bool
    check_port_capabilities index w = is_some (api.get_state index.port.h_comm w)

    -- The structure that `tcsetattr` is given is the one of the port, so what it leaves there stays.
    unfoldable pub set_defaults : Entry → List Entry → W → List Entry × W
    set_defaults index es w =
        let (_, ttyset, s) = tcsetattr api index.fd init_termios (table es w) in
        (store index.fd (record index.port { ttyset = ttyset }) es, s.comm)

    -- The descriptor or -1, and the list of open ports. `none` where the name is too long for the node,
    -- or for the message of 80 bytes, of which 45 are its own, when the port cannot be opened.
    unfoldable pub serial_open : List ℕ → List Entry → W → Option (ℤ × List Entry × W)
    unfolding set_defaults
    serial_open filename es w =
        if not (port_opened filename es == 0)
        then some (negsuc 0, es, w)
        else on_some (add_port filename es) none λ (new, es1).
          let (opened, index, w1) = open_port new w in
          let es2 = store new.fd index.port es1 in
          let (_, es3, w2) = serial_close open_api.close new.fd es2 w1 in
          if not opened
          then (if ltb (length filename) 36 then some (negsuc 0, es3, w2) else none)
          else if not (check_port_capabilities index w1)
          then some (negsuc 0, es3, w2)
          else let (es4, w4) = set_defaults index es2 w1 in some (pos new.fd, es4, w4)
