-- ===== src/Serial/Params.antt =====
-- `set_port_params` and `nativeSetSerialPortParams` of rxtx-devel/src/SerialImp.c. The Windows build
-- has neither TIOCGSERIAL nor a failing `cfsetospeed`, so the fallback to a divisor is not compiled
-- or not reached.
pub mod Speeds
pub mod Readers
pub mod Device
pub mod Accepted
use cameratrack.Base.{ℕ, ℤ, pos, negsuc, ◌==◌, if◌then◌else◌, on_some}
use cameratrack.Bits.{clear}
use cameratrack.Flags.{tiocm_dtr}
use cameratrack.Termios.{Termios}
use cameratrack.Termios.Comm.{CommApi, Sys}
use cameratrack.Termios.Speed.{cfsetispeed, cfsetospeed}
use cameratrack.Termios.Attr.{tcgetattr, tcsetattr}
use cameratrack.Termios.Modem.{tiocmget, tiocmset}
use cameratrack.Serial.Rates.{translate_speed}
use cameratrack.Serial.Settings.{translate_settings}

module _ {W : Type 0} (api : CommApi W) where
  -- A speed of 0 hangs up: DTR is dropped.
  unfoldable pub drop_dtr : ℕ → Sys W → Sys W
  drop_dtr fd s =
      let (_, result, s1) = tiocmget api fd 0 s in
      let (_, s2) = tiocmset api fd (clear result tiocm_dtr) s1 in s2

  -- The result 0 is success. `local` is what the uninitialised `ttyset` holds.
  unfoldable pub set_port_params : Termios → ℕ → ℕ → ℤ → ℤ → ℤ → Sys W → ℕ × Sys W
  set_port_params local fd cspeed data_bits stop_bits parity s =
      on_some (tcgetattr api fd local s) (1, s)
        λ t.
          on_some (translate_settings t.c_cflag data_bits stop_bits parity) (1, s)
            λ word.
              let s1 = if cspeed == 0 then drop_dtr fd s else s in
              let t1 = cfsetospeed (cfsetispeed (record t { c_cflag = word }) cspeed) cspeed in
              let (done, _, s2) = tcsetattr api fd t1 s1 in if done then (0, s2) else (1, s2)

  -- A rate below 0 is refused.
  set_params_at : Termios → ℕ → ℤ → ℤ → ℤ → ℤ → Sys W → ℕ × Sys W
  set_params_at local fd (pos cspeed) data_bits stop_bits parity s =
      set_port_params local fd cspeed data_bits stop_bits parity s
  set_params_at local fd (negsuc n) data_bits stop_bits parity s = (1, s)

  unfoldable pub native_set_serial_port_params : Termios → ℕ → ℤ → ℤ → ℤ → ℤ → Sys W → ℕ × Sys W
  unfolding set_params_at
  native_set_serial_port_params local fd speed data_bits stop_bits parity s =
      set_params_at local fd (translate_speed speed) data_bits stop_bits parity s
