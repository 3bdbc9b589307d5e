-- ===== src/Serial/Params/Accepted.antt =====
-- When `set_port_params` succeeds.
use cameratrack.Base.{
  ℕ, ℤ, ◌is◌, ◌≡◌, ◌≢◌, ◌≤◌, sym, Bool, true, false, ◌&&◌, ◌||◌, Option-cases, inl, inr, some, ◌==◌,
  if◌then◌else◌,
}
use cameratrack.Termios.{Termios}
use cameratrack.Termios.Comm.{CommApi, Port, Sys}
use cameratrack.Termios.Attr.{tcsetattr}
use cameratrack.Termios.Attr.Laws.{IsRaw, tcgetattr-IsRaw}
use cameratrack.Termios.Attr.Reliable.{IsReliable, tcgetattr-IsReliable, tcsetattr-IsReliable}
use cameratrack.Serial.Settings.{translate_settings}
use cameratrack.Serial.Settings.Laws.{settings-read_back, settings-accepted}
use cameratrack.Serial.Params.{drop_dtr, set_port_params}
use cameratrack.Serial.Params.Device.{ready, written, written-IsRaw}

-- The values of gnu.io.SerialPort.
abbrev pub is_valid : ℤ → ℤ → ℤ → Bool
is_valid data_bits stop_bits parity =
    (data_bits is 5 || data_bits is 6 || data_bits is 7 || data_bits is 8)
    && (stop_bits is 1 || stop_bits is 2 || stop_bits is 3)
    && (parity is 0 || parity is 1 || parity is 2 || parity is 3 || parity is 4)

-- On an open port with raw settings (no ICANON, no CIGNORE), a positive descriptor and a speed of 32
-- bits, whose Windows calls succeed, set_port_params returns 0 for exactly the data bits, stop bits
-- and parities of gnu.io.SerialPort, and 1 for all others.
pub set_port_params-is_valid :
    {W : Type 0} (api : CommApi W) (fd cspeed : ℕ) (data_bits stop_bits parity : ℤ)
    (local : Termios) (port : Port) (s : Sys W)
    → fd ≢ 0
    → cspeed ≤ 0xffff_ffff
    → s.find_port fd ≡ some port
    → IsRaw port.ttyset
    → IsReliable api port.h_comm
    → (set_port_params api local fd cspeed data_bits stop_bits parity s).0
      ≡ (if is_valid data_bits stop_bits parity then 0 else 1)
unfolding set_port_params
set_port_params-is_valid api fd cspeed data_bits stop_bits parity local port s nonzero fits found
      raw reliable =
    let (t, e) = tcgetattr-IsReliable api fd nonzero port reliable s found local in
    let valid = settings-accepted t.c_cflag data_bits stop_bits parity in
    elim (Option-cases (translate_settings t.c_cflag data_bits stop_bits parity)) [
      | inl f ↦
          let refused : false ≡ is_valid data_bits stop_bits parity = rw f at valid in
          rw (e, f, sym refused)
      | inr (word, f) ↦
          let taken : true ≡ is_valid data_bits stop_bits parity = rw f at valid in
          let s1 = if cspeed == 0 then drop_dtr api fd s else s in
          let (msr, o) = ready api fd nonzero cspeed s port found in
          let raw1 = tcgetattr-IsRaw api fd nonzero port local t s found raw e in
          let (_, _, _, keep) = settings-read_back t.c_cflag data_bits stop_bits parity word f in
          let set : (tcsetattr api fd (written t word cspeed) s1).0 ≡ true =
            tcsetattr-IsReliable api fd nonzero o.port (rw (o.handle) reliable) s1 o.found
              (written t word cspeed) (written-IsRaw t word cspeed fits raw1 keep) in
          rw (e, f, sym taken, set)
    ]
