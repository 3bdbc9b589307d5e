-- ===== src/Examples/Timeouts.antt =====
-- Receive timeouts of the example port.
use cameratrack.Base.{ℕ, ℤ, Bool, pos, ◌≡◌, refl, false, Option, some}
use cameratrack.Termios.Attr.{tcgetattr, tcsetattr, control, timeouts_of, dcb_of_modes, termios_of}
use cameratrack.Termios.Convert.{
  termios_to_dcb, dcb_to_termios, cflag_of_dcb, framing_of_dcb, add_parity, add_stop_bits,
  bytesize_to_termios,
}
use cameratrack.Serial.Timeouts.{
  native_enable_receive_timeout_threshold, nativeget_receive_timeout,
  nativeis_receive_timeout_enabled,
}
use cameratrack.Examples.Setup.{driver, modes, sys}

-- What is read after a timeout was set.
abbrev set_to : ℤ → Option ℕ × Option Bool
set_to time =
    let (_, s) = native_enable_receive_timeout_threshold driver modes 1 time (pos 0) sys in
    (nativeget_receive_timeout driver modes 1 s, nativeis_receive_timeout_enabled driver modes 1 s)

-- Test: whole tenths of a second are kept.
kept : (set_to (pos 1250)).0 ≡ some 1200
unfolding native_enable_receive_timeout_threshold nativeget_receive_timeout tcgetattr tcsetattr
    control timeouts_of dcb_of_modes termios_of termios_to_dcb dcb_to_termios cflag_of_dcb
    framing_of_dcb add_parity add_stop_bits bytesize_to_termios
kept = refl

-- Test: of 25.6 seconds nothing is left.
wrapped : (set_to (pos 25600)).1 ≡ some false
unfolding native_enable_receive_timeout_threshold nativeis_receive_timeout_enabled tcgetattr
    tcsetattr control timeouts_of dcb_of_modes termios_of termios_to_dcb dcb_to_termios cflag_of_dcb
    framing_of_dcb add_parity add_stop_bits bytesize_to_termios
wrapped = refl
