-- ===== src/Termios/Modem.antt =====
-- `ClearErrors` and the requests TIOCMGET, TIOCMSET and TIOCGICOUNT of `ioctl` in
-- rxtx-devel/src/termios.c. The result `true` is 0 and `false` is -1.
pub mod Laws
use cameratrack.Base.{
  ℕ, ◌+◌, Bool, true, false, Option, none, some, if◌then◌else◌, ◌==◌, on_some, bit_or,
}
use cameratrack.Bits.{clear}
use cameratrack.Flags.{tiocm_cd, tiocm_rng, tiocm_dsr, tiocm_cts, tiocm_dtr, tiocm_rts}
use cameratrack.Termios.Comm.{
  Errors, ModemStatus, set_dtr, clr_dtr, set_rts, clr_rts, CommApi, Counters, Port, Sys, set_port,
}
use cameratrack.Termios.Convert.{has}

-- The overrun counter is not kept: that part of `ClearErrors` is compiled out.
unfoldable pub count_errors : Errors → Counters → Counters
count_errors e c = record c {
  frame = if e.ce_frame then c.frame + 1 else c.frame;
  parity = if e.ce_rxparity then c.parity + 1 else c.parity;
  brk = if e.ce_break then c.brk + 1 else c.brk;
}

abbrev pub put : Bool → ℕ → ℕ → ℕ
put on mask arg = if on then bit_or arg mask else clear arg mask

-- When GetCommModemStatus fails, its lines read as off.
abbrev pub status_or_off : Option ModemStatus → ModemStatus
status_or_off (some m) = m
status_or_off none = record { rlsd_on = false; ring_on = false; dsr_on = false; cts_on = false }

unfoldable pub read_lines : ModemStatus → ℕ → ℕ → ℕ
read_lines m msr arg =
    let a1 = put m.rlsd_on tiocm_cd arg in
    let a2 = put m.ring_on tiocm_rng a1 in
    let a3 = put m.dsr_on tiocm_dsr a2 in
    let a4 = put m.cts_on tiocm_cts a3 in
    let a5 = put (has msr tiocm_dtr) tiocm_dtr a4 in put (has msr tiocm_rts) tiocm_rts a5

-- The register that TIOCMSET keeps: only DTR and RTS are stored.
unfoldable pub store_lines : ℕ → ℕ → ℕ
store_lines arg msr = put (has arg tiocm_rts) tiocm_rts (put (has arg tiocm_dtr) tiocm_dtr msr)

module _ {W : Type 0} (api : CommApi W) where
  -- `ClearErrors`: `none` when ClearCommError fails.
  unfoldable pub clear_errors : Port → W → Option (Port × W)
  unfolding count_errors
  clear_errors port w =
      on_some (api.clear_error port.h_comm w) none
        λ (errors, w'). some (record port { sis = count_errors errors port.sis }, w')

  -- What `ioctl` does before it looks at the request.
  unfoldable pub ioctl_port : ℕ → Sys W → Option (Port × Sys W)
  ioctl_port fd s = on_some (s.find_port fd) none λ port.
      on_some (clear_errors port s.comm) none
        λ (port', w). some (port', set_port fd port' (record s { comm = w }))

  unfoldable pub tiocmget : ℕ → ℕ → Sys W → Bool × ℕ × Sys W
  unfolding read_lines
  tiocmget fd arg s =
      if fd == 0
      then (true, arg, s)
      else on_some (ioctl_port fd s) (false, arg, s)
          λ (port, s'). (
            true,
            read_lines (status_or_off (api.modem_status port.h_comm s'.comm)) port.msr arg,
            s',
          )

  unfoldable pub tiocmset : ℕ → ℕ → Sys W → Bool × Sys W
  unfolding store_lines
  tiocmset fd arg s =
      if fd == 0
      then (true, s)
      else on_some (ioctl_port fd s) (false, s)
          λ (port, s').
            let w1 =
              api.escape port.h_comm (if has arg tiocm_dtr then set_dtr else clr_dtr) s'.comm in
            let w2 = api.escape port.h_comm (if has arg tiocm_rts then set_rts else clr_rts) w1 in
            (
              true,
              set_port fd (record port { msr = store_lines arg port.msr })
                  (record s' { comm = w2 }),
            )

  -- ClearErrors runs a second time for TIOCGICOUNT. The fields are copied where they differ.
  unfoldable pub tiocgicount : ℕ → Counters → Sys W → Bool × Counters × Sys W
  tiocgicount fd arg s =
      if fd == 0
      then (true, arg, s)
      else on_some (ioctl_port fd s) (false, arg, s)
          λ (port, s').
            on_some (clear_errors port s'.comm) (false, arg, s')
              λ (port', w). (true, port'.sis, set_port fd port' (record s' { comm = w }))
