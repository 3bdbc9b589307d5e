-- ===== src/Examples/Opening.antt =====
-- A port is opened beside the ports 1 and 3.
use cameratrack.Base.{
  ℕ, ℤ, Option, on_some, pos, negsuc, ◌≡◌, refl, true, ◌==◌, ◌&&◌, none, some, if◌then◌else◌, List,
  [], ◌∷◌, arith,
}
use cameratrack.Termios.Ports.{Entry, find_port, get_free_fd, free_after, add_port, port_opened}
use cameratrack.Termios.Open.{
  OpenApi, create_events, open_port, check_port_capabilities, serial_open,
}
use cameratrack.Termios.Open.Calls.{GivesHandles, calls_succeed}
use cameratrack.Termios.Open.Laws.{HaveHandles, IsOpened, is_descriptor, serial_open-IsOpened}
use cameratrack.Locks.Text.{bytes}
use cameratrack.Examples.Setup.{Driver, driver, dcb, timeouts}
use cameratrack.Examples.Ports.{two, two_ordered}

-- There is a device with the name B, and none other.
abbrev pub open_driver : OpenApi Driver
open_driver = record {
  create_file = λ (name : List ℕ) (w : Driver).
      (elim name [ [] ↦ none | c ∷ cs ↦ if c == 66 then some 8 else none ], w);
  setup_comm = λ h w. (true, w);
  create_event = λ w. (true, w);
  close = λ index w. w;
}

abbrev opened_fd : Option (ℤ × List Entry × Driver) → Option ℤ
opened_fd r = on_some r none (λ (fd, _, _). some fd)

-- Test: the new port is between the others.
opens_two : opened_fd (serial_open open_driver driver (66 ∷ []) two (dcb, timeouts)) ≡ some (pos 2)
unfolding serial_open open_port create_events check_port_capabilities add_port get_free_fd
    free_after port_opened
opens_two = refl

-- Test: there is no such device.
no_device :
    opened_fd (serial_open open_driver driver (70 ∷ []) two (dcb, timeouts)) ≡ some (negsuc 0)
unfolding serial_open open_port create_events check_port_capabilities add_port get_free_fd
    free_after port_opened
no_device = refl

-- Test: there is no such device, and its name is too long for the message.
long_name : List ℕ
long_name = bytes "/dev/serial/by-id/usb-FTDI_FT232R_USB_UART"

overflows : opened_fd (serial_open open_driver driver long_name two (dcb, timeouts)) ≡ none
unfolding serial_open open_port create_events check_port_capabilities add_port get_free_fd
    free_after port_opened long_name
overflows = refl

two_handles : HaveHandles two
unfolding find_port
two_handles k e found = ground (arith, found)

open_driver-gives : GivesHandles open_driver driver
open_driver-gives [] w h e = ground (arith, e)
open_driver-gives (c ∷ cs) w h e = ground (arith, e)

serial_open-IsOpened_example :
    (fd : ℤ) × (es' : List Entry) × (w' : Driver) × (serial_open open_driver driver
        (66 ∷ [])
        two
        (dcb, timeouts)
      ≡ some (fd, es', w'))
    × HaveHandles es'
    × IsOpened (66 ∷ []) two fd es'
    × (is_descriptor fd ≡ (
        port_opened (66 ∷ []) two == 0
        && calls_succeed open_driver driver (66 ∷ []) (dcb, timeouts)))
serial_open-IsOpened_example =
    serial_open-IsOpened open_driver driver (66 ∷ []) two (dcb, timeouts) (omega arith) two_ordered
      two_handles open_driver-gives

-- Test: every call succeeds for the device.
all_succeed : calls_succeed open_driver driver (66 ∷ []) (dcb, timeouts) ≡ true
all_succeed = refl
