-- ===== src/Examples/Static.antt =====
-- A line of a port on the list is set before the Java program opens the port.
use cameratrack.Base.{
  ℕ, ℤ, pos, Option, on_some, ◌≡◌, refl, true, false, none, some, ◌==◌, if◌then◌else◌, [], ◌∷◌,
  arith,
}
use cameratrack.Chain.{node, write, walk, detach}
use cameratrack.Termios.Attr.{tcgetattr, tcsetattr}
use cameratrack.Termios.Speed.{cfsetospeed, cfsetispeed}
use cameratrack.Termios.Modem.Laws.{IsOpen, IsLive}
use cameratrack.Termios.Ports.{find_port, add_port, get_free_fd, free_after, port_opened}
use cameratrack.Termios.Ports.Table.{table}
use cameratrack.Locks.Text.{bytes}
use cameratrack.Serial.Preopened.{Opened, find_preopened_ports}
use cameratrack.Serial.Preopened.Laws.{IsChain}
use cameratrack.Serial.Static.{Statics, static_is_rts, preopened_or_open, static_set_rts}
use cameratrack.Serial.Static.Laws.{static_set_rts-static_is_rts}
use cameratrack.Serial.Lines.{is_rts}
use cameratrack.Serial.Open.{JavaVars, java_open}
use cameratrack.Termios.Open.{open_port, create_events, check_port_capabilities, serial_open}
use cameratrack.Serial.Static.{configure_port}
use cameratrack.Examples.Setup.{Driver, driver, modes, port, dcb, timeouts}
use cameratrack.Examples.Opening.{open_driver}
use cameratrack.Examples.Preopened.{tty}

-- The port 7 is on the list.
abbrev pub start : Statics Driver
start = record {
  opened = record {
    heap = λ (a : ℕ). if a == 4 then some (node (tty 7) 0 0) else none;
    preopened_port = 4;
  };
  ports = record { filename = bytes "/dev/ttyS"; fd = 7; port = port } ∷ [];
  comm = (dcb, timeouts);
}

-- It is taken off the list.
abbrev emptied : Opened
emptied = record { heap = write 4 none start.opened.heap; preopened_port = 0 }

abbrev taken : Statics Driver
taken = record start { opened = emptied }

is_taken :
    preopened_or_open driver modes 4 open_driver (bytes "/dev/ttyS") start ≡ some (some 7, taken)
unfolding preopened_or_open find_preopened_ports walk detach
is_taken = refl

is_open : IsOpen (table taken.ports taken.comm) 7 7 modes 2
unfolding find_port
is_open = record { port = port; found = refl; handle = refl; settings = refl; register = refl }

live : IsLive driver 7 7
live = λ w. refl

nothing-IsChain : IsChain emptied []
nothing-IsChain = record { head = refl; seg = tt; distinct = tt }

abbrev vars : JavaVars
vars = record { speed = pos 9600; data_bits = pos 8; stop_bits = pos 1; parity = pos 0 }

abbrev opened_fd : Option (ℤ × JavaVars × Statics Driver) → Option ℤ
opened_fd r = on_some r none (λ (fd, _, _). some fd)

static_set_rts-static_is_rts_example :
    (s2 s3 : Statics Driver) × (static_set_rts driver modes 4 open_driver 9 0xcafe true
        (bytes "/dev/ttyS")
        start
      ≡ some (true, s2))
    × (static_is_rts driver modes 4 (bytes "/dev/ttyS") s2 ≡ some (true, s3))
    × (static_is_rts driver modes 4 (bytes "/dev/ttyS") s3 ≡ some (false, s3))
    × ((vars' : JavaVars) × (s4 : Statics Driver) × (java_open driver modes 4 open_driver
            (bytes "/dev/ttyS")
            vars
            s2
          ≡ some (pos 7, vars', s4))
        × ((is_rts driver 7 (table s4.ports s4.comm)).0 ≡ true))
static_set_rts-static_is_rts_example =
    static_set_rts-static_is_rts driver modes 4 open_driver 9 7 7 0xcafe true (bytes "/dev/ttyS")
      vars start taken [] modes 2 is_taken (omega arith) (omega arith, tt) is_open live
      nothing-IsChain tt (omega arith) refl (omega arith) (omega arith)

-- Test: a port that is not on the list is opened, and gets the settings of `configure_port`.
opens : opened_fd (java_open driver modes 4 open_driver (66 ∷ []) vars start) ≡ some (pos 1)
unfolding java_open find_preopened_ports walk serial_open open_port create_events
    check_port_capabilities add_port get_free_fd free_after port_opened configure_port tcgetattr
    find_port tcsetattr cfsetospeed cfsetispeed
opens = refl
