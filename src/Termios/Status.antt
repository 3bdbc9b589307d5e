-- ===== src/Termios/Status.antt =====
-- The requests TIOCSERGETLSR and FIONREAD of `ioctl` in rxtx-devel/src/termios.c. The result `true` is 0
-- and `false` is -1; counts of bytes are taken to be below 2 ^ 31.
use cameratrack.Base.{ℕ, Bool, true, false, ◌&&◌, ◌==◌, Option, none, some, on_some, if◌then◌else◌}
use cameratrack.Bits.{clear}
use cameratrack.Termios.Comm.{Errors, CommApi, Port, Sys, set_port}
use cameratrack.Termios.Modem.{count_errors, ioctl_port}
use cameratrack.Termios.Queues.{QueueApi, ev_txempty}

module _ {W : Type 0} (api : CommApi W) where
  -- The second `ClearErrors` of a request, with what it reports.
  abbrev pub clear_again : ℕ → Port → Sys W → Option (Errors × Port × Sys W)
  clear_again fd port s = on_some (api.clear_error port.h_comm s.comm) none λ (errors, w).
      let port' = record port { sis = count_errors errors port.sis } in
      some (errors, port', set_port fd port' (record s { comm = w }))

  unfoldable pub fionread : ℕ → ℕ → Sys W → Bool × ℕ × Sys W
  fionread fd arg s =
      if fd == 0
      then (true, arg, s)
      else on_some (ioctl_port api fd s) (false, arg, s)
          λ (port, s1).
            on_some (clear_again fd port s1) (false, arg, s1)
              λ (stat, _, s2). (true, stat.cb_in_que, s2)

  -- 1 the first time that the output is seen to be empty after something happened to it.
  unfoldable pub tiocsergetlsr : QueueApi W → ℕ → ℕ → Sys W → Bool × ℕ × Sys W
  tiocsergetlsr queue_api fd arg s =
      if fd == 0
      then (true, arg, s)
      else on_some (ioctl_port api fd s) (false, arg, s)
          λ (port, s1).
            on_some (clear_again fd port s1) (false, arg, s1)
              λ (stat, port', s2).
                if (stat.cb_out_que == 0) && (port'.tx_happened == 1)
                then (let (_, w) =
                      queue_api.set_comm_mask port'.h_comm
                        (clear port'.event_flag (queue_api.mask ev_txempty)) s2.comm in
                    (
                      true,
                      1,
                      set_port fd (record port' { tx_happened = 0 }) (record s2 { comm = w }),
                    ))
                else (true, 0, s2)
