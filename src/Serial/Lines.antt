-- ===== src/Serial/Lines.antt =====
-- The modem lines of RXTXPort in rxtx-devel/src/SerialImp.c: `isDSR`, `isCD`, `isCTS`, `isRI`,
-- `isRTS`, `isDTR`, `setRTS`, `setDSR` and `setDTR`. The results of `ioctl` are not looked at.
pub mod Laws
pub mod Words
use cameratrack.Base.{ℕ, Bool, if◌then◌else◌, bit_or}
use cameratrack.Bits.{clear}
use cameratrack.Flags.{tiocm_cd, tiocm_rng, tiocm_dsr, tiocm_cts, tiocm_dtr, tiocm_rts}
use cameratrack.Termios.Comm.{CommApi, Sys}
use cameratrack.Termios.Convert.{has}
use cameratrack.Termios.Modem.{tiocmget, tiocmset}

module _ {W : Type 0} (api : CommApi W) (fd : ℕ) where
  unfoldable pub is_dsr : Sys W → Bool × Sys W
  is_dsr s = let (_, result, s') = tiocmget api fd 0 s in (has result tiocm_dsr, s')

  unfoldable pub is_cd : Sys W → Bool × Sys W
  is_cd s = let (_, result, s') = tiocmget api fd 0 s in (has result tiocm_cd, s')

  unfoldable pub is_cts : Sys W → Bool × Sys W
  is_cts s = let (_, result, s') = tiocmget api fd 0 s in (has result tiocm_cts, s')

  unfoldable pub is_ri : Sys W → Bool × Sys W
  is_ri s = let (_, result, s') = tiocmget api fd 0 s in (has result tiocm_rng, s')

  unfoldable pub is_rts : Sys W → Bool × Sys W
  is_rts s = let (_, result, s') = tiocmget api fd 0 s in (has result tiocm_rts, s')

  unfoldable pub is_dtr : Sys W → Bool × Sys W
  is_dtr s = let (_, result, s') = tiocmget api fd 0 s in (has result tiocm_dtr, s')

  unfoldable pub set_rts : Bool → Sys W → Sys W
  set_rts state s =
      let (_, result, s1) = tiocmget api fd 0 s in
      let arg = if state then bit_or result tiocm_rts else clear result tiocm_rts in
      let (_, s2) = tiocmset api fd arg s1 in s2

  unfoldable pub set_dsr : Bool → Sys W → Sys W
  set_dsr state s =
      let (_, result, s1) = tiocmget api fd 0 s in
      let arg = if state then bit_or result tiocm_dsr else clear result tiocm_dsr in
      let (_, s2) = tiocmset api fd arg s1 in s2

  unfoldable pub set_dtr : Bool → Sys W → Sys W
  set_dtr state s =
      let (_, result, s1) = tiocmget api fd 0 s in
      let arg = if state then bit_or result tiocm_dtr else clear result tiocm_dtr in
      let (_, s2) = tiocmset api fd arg s1 in s2
