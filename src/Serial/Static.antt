-- ===== src/Serial/Static.antt =====
-- The methods of rxtx-devel/src/SerialImp.c that set a port before the Java program opens it:
-- `configure_port`, nativeStaticSetRTS to nativeStaticSetSerialPortParams, nativeStaticIsRTS to
-- nativeStaticGetStopBits. On Windows LOCK and UNLOCK do nothing, and OPEN is `serial_open`, which does
-- not set EINTR: the loop around it makes one pass.
pub mod Laws
use cameratrack.Base.{
  ℕ, ℤ, pos, negsuc, Bool, true, false, ◌==◌, Option, none, some, on_some, if◌then◌else◌, List,
  bit_and, bit_or,
}
use cameratrack.Bits.{clear}
use cameratrack.Flags.{
  b9600, inpck, cread, cs8, clocal, cbaud, vmin, vtime, tiocm_dsr, tiocm_rts, tiocm_dtr,
}
use cameratrack.Termios.{Termios, update}
use cameratrack.Termios.Comm.{CommApi, Sys}
use cameratrack.Termios.Speed.{cfsetospeed, cfsetispeed}
use cameratrack.Termios.Attr.{tcgetattr, tcsetattr}
use cameratrack.Termios.Modem.{tiocmget, tiocmset}
use cameratrack.Termios.Ports.{Entry}
use cameratrack.Termios.Ports.Table.{table, store}
use cameratrack.Termios.Open.{OpenApi, serial_open}
use cameratrack.Locks.Text.{Bytes}
use cameratrack.Serial.Rates.{translate_speed, get_java_baudrate}
use cameratrack.Serial.Settings.{get_data_bits, get_parity_switch, static_stop_bits}
use cameratrack.Serial.Lines.{is_dsr, is_cd, is_cts, is_ri, is_rts, is_dtr}
use cameratrack.Serial.Params.{set_port_params}
use cameratrack.Serial.Preopened.{Opened, find_preopened_ports, static_add_filename}

-- The two lists, and the state behind the Windows calls.
pub record Statics (W : Type 0) : Type 0 where
  pub opened : Opened
  pub ports : List Entry
  pub comm : W

-- A call on a port of the list writes its members in place.
abbrev pub on_port : {A W : Type 0} → ℕ → (Sys W → A × Sys W) → Statics W → A × Statics W
on_port fd call s =
    let (a, s') = call (table s.ports s.comm) in
    (
      a,
      record s {
        ports = on_some (s'.find_port fd) s.ports (λ port. store fd port s.ports);
        comm = s'.comm;
      },
    )

-- What `configure_port` asks for.
unfoldable pub configured : Termios → Termios
configured t =
    let modes : Termios = record t {
      c_iflag = inpck;
      c_lflag = 0;
      c_oflag = 0;
      c_cflag = bit_or cread (bit_or cs8 clocal);
      c_cc = update (update t.c_cc vmin 0) vtime 0;
    } in
    cfsetospeed (cfsetispeed modes b9600) b9600

module _ {W : Type 0} (api : CommApi W) (local : Termios) where
  -- The result `true` is 0. `local` is what the uninitialised `ttyset` holds.
  unfoldable pub configure_port : ℕ → Sys W → Bool × Sys W
  unfolding configured
  configure_port fd s =
      on_some (tcgetattr api fd local s) (false, s)
        λ t. let (done, _, s') = tcsetattr api fd (configured t) s in (done, s')

  -- The line of `line` is put as `flag` says. `held` is what the uninitialised `result` holds.
  unfoldable pub drive : ℕ → ℕ → ℕ → Bool → Sys W → Sys W
  drive fd line held flag s =
      let (_, result, s1) = tiocmget api fd held s in
      let arg = if flag then bit_or result line else clear result line in
      let (_, s2) = tiocmset api fd arg s1 in s2

  module _ (fuel : ℕ) where
    -- Where a port is read that was opened before. Without one, `otherwise` is the answer.
    unfoldable pub static_read :
        {A : Type 0} → A → (ℕ → Sys W → A × Sys W) → Bytes → Statics W → Option (A × Statics W)
    static_read otherwise read filename s =
        on_some (find_preopened_ports fuel filename s.opened) none λ (fd, opened).
          let s1 : Statics W = record s { opened = opened } in
          if fd == 0 then some (otherwise, s1) else some (on_port fd (read fd) s1)

    unfoldable pub static_is_rts : Bytes → Statics W → Option (Bool × Statics W)
    unfolding static_read
    static_is_rts = static_read false (is_rts api)

    unfoldable pub static_is_dsr : Bytes → Statics W → Option (Bool × Statics W)
    unfolding static_read
    static_is_dsr = static_read false (is_dsr api)

    unfoldable pub static_is_dtr : Bytes → Statics W → Option (Bool × Statics W)
    unfolding static_read
    static_is_dtr = static_read false (is_dtr api)

    unfoldable pub static_is_cd : Bytes → Statics W → Option (Bool × Statics W)
    unfolding static_read
    static_is_cd = static_read false (is_cd api)

    unfoldable pub static_is_cts : Bytes → Statics W → Option (Bool × Statics W)
    unfolding static_read
    static_is_cts = static_read false (is_cts api)

    unfoldable pub static_is_ri : Bytes → Statics W → Option (Bool × Statics W)
    unfolding static_read
    static_is_ri = static_read false (is_ri api)

    -- The control modes are read and looked at.
    abbrev pub reads : (ℕ → ℤ) → ℕ → Sys W → ℤ × Sys W
    reads look fd s = (on_some (tcgetattr api fd local s) (negsuc 0) (λ t. look t.c_cflag), s)

    unfoldable pub static_get_baud_rate : Bytes → Statics W → Option (ℤ × Statics W)
    unfolding static_read
    static_get_baud_rate =
        static_read (negsuc 0) (reads (λ cflag. get_java_baudrate (bit_and cflag cbaud)))

    unfoldable pub static_get_data_bits : Bytes → Statics W → Option (ℤ × Statics W)
    unfolding static_read
    static_get_data_bits = static_read (negsuc 0) (reads get_data_bits)

    unfoldable pub static_get_parity : Bytes → Statics W → Option (ℤ × Statics W)
    unfolding static_read
    static_get_parity = static_read (negsuc 0) (reads get_parity_switch)

    unfoldable pub static_get_stop_bits : Bytes → Statics W → Option (ℤ × Statics W)
    unfolding static_read
    static_get_stop_bits = static_read (negsuc 0) (reads static_stop_bits)

    module _ (open_api : OpenApi W) where
      -- The descriptor of a port that was opened before, or of one that is opened and configured now.
      unfoldable pub preopened_or_open : Bytes → Statics W → Option (Option ℕ × Statics W)
      unfolding configure_port
      preopened_or_open filename s =
          on_some (find_preopened_ports fuel filename s.opened) none λ (found, opened).
            let s1 : Statics W = record s { opened = opened } in
            if found == 0
            then (on_some (serial_open open_api api filename s1.ports s1.comm) none
                λ (fd, ports, w).
                  let s2 : Statics W = record s1 { ports = ports; comm = w } in
                  elim fd [
                    | pos n ↦
                        let (done, s3) = on_port n (configure_port n) s2 in
                        if done then some (some n, s3) else some (none, s3)
                    | negsuc n ↦ some (none, s2)
                  ])
            else some (some found, s1)

      -- `set` sets the port; if it says so, the port is put on the list, in a node at `newp`.
      unfoldable pub static_set :
          ℕ → (ℕ → Sys W → Bool × Sys W) → Bytes → Statics W → Option (Bool × Statics W)
      static_set newp set filename s = on_some (preopened_or_open filename s) none λ (found, s1).
          on_some found (some (false, s1)) λ fd.
            let (done, s2) = on_port fd (set fd) s1 in
            if done
            then on_some (static_add_filename fuel newp filename fd s2.opened) none
                (λ opened. some (true, record s2 { opened = opened }))
            else some (false, s2)

      unfoldable pub static_set_rts : ℕ → ℕ → Bool → Bytes → Statics W → Option (Bool × Statics W)
      unfolding static_set
      static_set_rts newp held flag =
          static_set newp (λ fd s. (true, drive fd tiocm_rts held flag s))

      unfoldable pub static_set_dsr : ℕ → ℕ → Bool → Bytes → Statics W → Option (Bool × Statics W)
      unfolding static_set
      static_set_dsr newp held flag =
          static_set newp (λ fd s. (true, drive fd tiocm_dsr held flag s))

      unfoldable pub static_set_dtr : ℕ → ℕ → Bool → Bytes → Statics W → Option (Bool × Statics W)
      unfolding static_set
      static_set_dtr newp held flag =
          static_set newp (λ fd s. (true, drive fd tiocm_dtr held flag s))

      -- The speed is -1 where `translate_speed` refuses the rate.
      abbrev pub set_params : ℤ → ℤ → ℤ → ℤ → ℕ → Sys W → Bool × Sys W
      set_params (negsuc n) data_bits stop_bits parity fd s = (false, s)
      set_params (pos cspeed) data_bits stop_bits parity fd s =
          let (result, s') = set_port_params api local fd cspeed data_bits stop_bits parity s in
          (result == 0, s')

      unfoldable pub static_set_serial_port_params :
          ℕ → ℤ → ℤ → ℤ → ℤ → Bytes → Statics W → Option (Bool × Statics W)
      unfolding static_set
      static_set_serial_port_params newp rate data_bits stop_bits parity =
          static_set newp (set_params (translate_speed rate) data_bits stop_bits parity)
