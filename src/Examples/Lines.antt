-- ===== src/Examples/Lines.antt =====
-- Modem lines and flow control of the example port.
use cameratrack.Base.{◌≡◌, refl, true, arith}
use cameratrack.Termios.Comm.{Sys}
use cameratrack.Termios.Convert.{
  termios_to_dcb, dcb_to_termios, iflag_of_dcb, cflag_of_dcb, framing_of_dcb, add_parity,
  add_stop_bits, bytesize_to_termios,
}
use cameratrack.Termios.Speed.{cbr_to_b}
use cameratrack.Termios.Attr.{tcgetattr, tcsetattr, control, termios_of}
use cameratrack.Termios.Attr.Laws.{IsRaw}
use cameratrack.Termios.Modem.{status_or_off}
use cameratrack.Termios.Modem.Laws.{IsOpen, IsLive}
use cameratrack.Serial.Lines.{
  is_dsr, is_cd, is_cts, is_ri, is_rts, is_dtr, set_rts, set_dsr, set_dtr,
}
use cameratrack.Serial.Lines.Laws.{set_rts-set_dtr, set_dsr-IsOpen, lines-status_or_off}
use cameratrack.Serial.Flow.{setflowcontrol, flow_modes, native_get_flow_control_mode}
use cameratrack.Serial.Flow.Laws.{setflowcontrol-native_get_flow_control_mode}
use cameratrack.Examples.Setup.{Driver, driver, driver_laws, modes, port, sys}

open_port : IsOpen sys 1 7 modes 2
open_port = record { port = port; found = refl; handle = refl; settings = refl; register = refl }

live : IsLive driver 1 7
live = λ w. refl

set_rts-set_dtr_example :
    (((is_rts driver 1 (set_rts driver 1 true sys)).0 ≡ true)
      × ((is_dtr driver 1 (set_rts driver 1 true sys)).0 ≡ (is_dtr driver 1 sys).0))
    × (((is_dtr driver 1 (set_dtr driver 1 true sys)).0 ≡ true)
        × ((is_rts driver 1 (set_dtr driver 1 true sys)).0 ≡ (is_rts driver 1 sys).0))
set_rts-set_dtr_example = set_rts-set_dtr driver 1 (omega arith) sys open_port live true

set_dsr-IsOpen_example : IsOpen (set_dsr driver 1 true sys) 1 7 modes 2
set_dsr-IsOpen_example = set_dsr-IsOpen driver 1 (omega arith) sys open_port live true (omega arith)

lines-status_or_off_example :
    let status = λ (s' : Sys Driver). status_or_off (driver.modem_status 7 s'.comm) in
    ((is_cts driver 1 sys).0 ≡ (status (is_cts driver 1 sys).1).cts_on)
    × ((is_dsr driver 1 sys).0 ≡ (status (is_dsr driver 1 sys).1).dsr_on)
    × ((is_ri driver 1 sys).0 ≡ (status (is_ri driver 1 sys).1).ring_on)
    × ((is_cd driver 1 sys).0 ≡ (status (is_cd driver 1 sys).1).rlsd_on)
lines-status_or_off_example = lines-status_or_off driver 1 (omega arith) sys open_port live

raw : IsRaw modes
raw = record { not_canonical = refl; not_ignored = refl }

after : Sys Driver
after = (setflowcontrol driver modes 1 5 sys).1

flow_set : setflowcontrol driver modes 1 5 sys ≡ (true, after)
unfolding after setflowcontrol flow_modes tcgetattr termios_of iflag_of_dcb cflag_of_dcb
    framing_of_dcb add_parity add_stop_bits bytesize_to_termios dcb_to_termios cbr_to_b tcsetattr
    control termios_to_dcb
flow_set = refl

setflowcontrol-native_get_flow_control_mode_example :
    native_get_flow_control_mode driver modes 1 after ≡ 7
setflowcontrol-native_get_flow_control_mode_example =
    setflowcontrol-native_get_flow_control_mode driver driver_laws 1 5 modes port sys after
      (omega arith) refl raw flow_set modes
