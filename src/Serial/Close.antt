-- ===== src/Serial/Close.antt =====
-- `nativeClose`, `nativeClearCommInput`, `nativeavailable` and `sendBreak` of RXTXPort in
-- rxtx-devel/src/SerialImp.c, as they are built for Windows, where UNLOCK does nothing and CLOSE is `serial_close`.
use cameratrack.Base.{ℕ, ℤ, pos, negsuc, same_int, not, ◌/◌, Bool, ◌==◌, if◌then◌else◌}
use cameratrack.Termios.Comm.{CommApi, Sys}
use cameratrack.Termios.Ports.{Entry, serial_close}
use cameratrack.Termios.Queues.{QueueApi, tciflush, tcioflush, tcflush, tcsendbreak}
use cameratrack.Termios.Status.{fionread}
use cameratrack.Serial.Static.{Statics, on_port}

module _ {W : Type 0} (queue_api : QueueApi W) where
  -- A descriptor of 0 stands for all that are not positive. `serial_close` does not set EINTR, so the
  -- loop makes one pass.
  unfoldable pub native_close : (Entry → W → W) → ℕ → ℤ → Statics W → Statics W
  native_close close fd pid s =
      if same_int pid (pos 0)
      then s
      else if fd == 0
      then s
      else let (_, s1) = on_port fd (tcflush queue_api fd tcioflush) s in
        let (_, ports, w) = serial_close close fd s1.ports s1.comm in
        record s1 { ports = ports; comm = w }

  unfoldable pub native_clear_comm_input : ℕ → Sys W → Bool × Sys W
  native_clear_comm_input fd s = tcflush queue_api fd tciflush s

  -- The duration is in milliseconds. `tcsendbreak` takes all that is not positive for 1.
  unfoldable pub send_break : CommApi W → ℕ → ℤ → Sys W → Sys W
  send_break api fd (pos duration) s = (tcsendbreak queue_api api fd (pos (duration / 250)) s).1
  send_break api fd (negsuc n) s = (tcsendbreak queue_api api fd (pos 0) s).1

-- Whether an exception is thrown, and the result. `held` is what the uninitialised `result` holds.
unfoldable pub nativeavailable : {W : Type 0} → CommApi W → ℕ → ℕ → Sys W → Bool × ℕ × Sys W
nativeavailable api fd held s =
    let (done, result, s') = fionread api fd held s in (not done, result, s')
