-- ===== src/Serial/Open.antt =====
-- `open` of RXTXPort in rxtx-devel/src/SerialImp.c with `set_java_vars`, as they are built for Windows,
-- where LOCK does nothing and OPEN is `serial_open`, which does not set EINTR: the loop around it makes
-- one pass.
use cameratrack.Base.{ℕ, ℤ, pos, negsuc, ◌==◌, Option, none, some, on_some, if◌then◌else◌, bit_and}
use cameratrack.Flags.{cbaud}
use cameratrack.Termios.{Termios}
use cameratrack.Termios.Comm.{CommApi, Sys}
use cameratrack.Termios.Attr.{tcgetattr}
use cameratrack.Termios.Ports.Table.{table}
use cameratrack.Termios.Open.{OpenApi, serial_open}
use cameratrack.Locks.Text.{Bytes}
use cameratrack.Serial.Rates.{get_java_baudrate}
use cameratrack.Serial.Settings.{get_data_bits, get_parity_switch, java_stop_bits}
use cameratrack.Serial.Preopened.{find_preopened_ports}
use cameratrack.Serial.Static.{Statics, on_port, configure_port}

-- The fields of the Java object that tell the settings.
pub record JavaVars : Type 0 where
  pub speed : ℤ
  pub data_bits : ℤ
  pub stop_bits : ℤ
  pub parity : ℤ

module _ {W : Type 0} (api : CommApi W) (local : Termios) where
  unfoldable pub set_java_vars : ℕ → JavaVars → Sys W → JavaVars
  set_java_vars fd vars s = on_some (tcgetattr api fd local s) vars λ t. record {
    speed = get_java_baudrate (bit_and t.c_cflag cbaud);
    data_bits = get_data_bits t.c_cflag;
    stop_bits = java_stop_bits t.c_cflag;
    parity = get_parity_switch t.c_cflag;
  }

  -- The descriptor, or -1 with an exception. A port that was opened before is taken as it is.
  unfoldable pub java_open :
      ℕ → OpenApi W → Bytes → JavaVars → Statics W → Option (ℤ × JavaVars × Statics W)
  java_open fuel open_api filename vars s =
      on_some (find_preopened_ports fuel filename s.opened) none λ (found, opened).
        let s1 : Statics W = record s { opened = opened } in
        if found == 0
        then (on_some (serial_open open_api api filename s1.ports s1.comm) none λ (fd, ports, w).
            let s2 : Statics W = record s1 { ports = ports; comm = w } in
            elim fd [
              | pos n ↦
                  let (done, s3) = on_port n (configure_port api local n) s2 in
                  if done then some (pos n, vars, s3) else some (negsuc 0, vars, s3)
              | negsuc n ↦ some (negsuc 0, vars, s2)
            ])
        else some (pos found, set_java_vars found vars (table s1.ports s1.comm), s1)
