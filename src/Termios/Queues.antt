-- ===== src/Termios/Queues.antt =====
-- The calls of rxtx-devel/src/termios.c on the queues of a port, and on the events that are waited for:
-- `tcsendbreak`, `tcdrain`, `tcflush` and `termios_setflags`.
use cameratrack.Base.{
  ℕ, ℤ, pos, negsuc, ◌+◌, Bool, true, false, not, ◌&&◌, ◌==◌, on_some, if◌then◌else◌, List, [], ◌∷◌,
  bit_or,
}
use cameratrack.Bits.{clear}
use cameratrack.Termios.Comm.{CommApi, Port, Sys, set_port}
use cameratrack.Termios.Convert.{has}
use cameratrack.Termios.Modem.{clear_errors}

-- The events of SetCommMask, and the queues of PurgeComm.
pub data Event : Type 0 where
  ev_rxchar ev_txempty ev_cts ev_dsr ev_ring ev_rlsd ev_err ev_break : Event

pub data Purge : Type 0 where
  purge_rxabort purge_txabort : Purge

-- What FlushFileBuffers answers: TRUE, FALSE with the last error 0, or FALSE with another.
pub data Flushed : Type 0 where
  flushed no_error flush_failed : Flushed

-- The Windows calls on a handle over the state `W` behind them, and the bits of the events.
pub record QueueApi (W : Type 0) : Type 0 where
  pub mask : Event → ℕ
  pub set_comm_mask : ℕ → ℕ → W → Bool × W
  pub purge_comm : ℕ → Purge → W → Bool × W
  pub flush_file_buffers : ℕ → W → Flushed × W
  pub set_comm_break : ℕ → W → Bool × W
  pub clear_comm_break : ℕ → W → Bool × W

abbrev pub tciflush : ℕ
tciflush = 0

abbrev pub tcoflush : ℕ
tcoflush = 1

abbrev pub tcioflush : ℕ
tcioflush = 2

module _ {W : Type 0} (queue_api : QueueApi W) where
  -- The mask with the event of an empty output is set; the port's own flags are as before.
  abbrev pub wait_for_empty : Port → W → W
  wait_for_empty port w =
      (queue_api.set_comm_mask port.h_comm (bit_or port.event_flag (queue_api.mask ev_txempty)) w).1

  -- Whether the queues could be purged; any other selector is refused.
  unfoldable pub purge : ℕ → ℕ → W → Bool × W
  purge selector h w =
      if selector == tciflush
      then queue_api.purge_comm h purge_rxabort w
      else if selector == tcoflush
      then queue_api.purge_comm h purge_txabort w
      else if selector == tcioflush
      then (let (done, w') = queue_api.purge_comm h purge_txabort w in
          if done then queue_api.purge_comm h purge_rxabort w' else (false, w'))
      else (false, w)

  -- The result `true` is 0 and `false` is -1.
  unfoldable pub tcflush : ℕ → ℕ → Sys W → Bool × Sys W
  tcflush fd selector s =
      on_some (s.find_port fd) (false, s)
        λ port.
          let s1 = set_port fd (record port { tx_happened = 1 }) s in
          let (done, w) = purge selector port.h_comm s1.comm in
          if done
          then (true, record s1 { comm = wait_for_empty port w })
          else (false, record s1 { comm = w })

  unfoldable pub tcdrain : ℕ → Sys W → Bool × Sys W
  tcdrain fd s =
      on_some (s.find_port fd) (false, s)
        λ port.
          let (answer, w) = queue_api.flush_file_buffers port.h_comm s.comm in
          elim answer [
            | flushed ↦ (true, record s { comm = wait_for_empty port w })
            | no_error ↦ (true, record s { comm = w })
            | flush_failed ↦ (false, record s { comm = w })
          ]

  -- `ClearErrors`, where its own failure is not looked at.
  abbrev count_if : CommApi W → ℕ → Bool → Sys W → Sys W
  count_if api fd failed s =
      if failed
      then on_some (s.find_port fd) s (λ port.
        on_some (clear_errors api port s.comm) s
          (λ (port', w). set_port fd port' (record s { comm = w })))
      else s

  -- The result is 1, and -1 where there is no port. How long the break lasts is left out.
  unfoldable pub tcsendbreak : CommApi W → ℕ → ℤ → Sys W → ℤ × Sys W
  tcsendbreak api fd duration s =
      on_some (s.find_port fd) (negsuc 0, s)
        λ port.
          let (set, w) = queue_api.set_comm_break port.h_comm s.comm in
          let s1 = count_if api fd (not set) (record s { comm = w }) in
          let (cleared, w') = queue_api.clear_comm_break port.h_comm s1.comm in
          (pos 1, count_if api fd (not cleared) (record s1 { comm = w' }))

  -- The events of the eleven flags of a listener; the other edge of the ring is the bit 0x2000.
  abbrev pub windows_flags : List ℕ
  windows_flags =
      0
      ∷ queue_api.mask ev_rxchar
      ∷ queue_api.mask ev_txempty
      ∷ queue_api.mask ev_cts
      ∷ queue_api.mask ev_dsr
      ∷ bit_or (queue_api.mask ev_ring) 0x2000
      ∷ queue_api.mask ev_rlsd
      ∷ queue_api.mask ev_err
      ∷ queue_api.mask ev_err
      ∷ queue_api.mask ev_err
      ∷ queue_api.mask ev_break
      ∷ []

  -- From the flag `i` on.
  abbrev pub collect : (ℕ → ℕ) → ℕ → List ℕ → ℕ → ℕ
  collect flags i [] acc = acc
  collect flags i (w ∷ ws) acc =
      collect flags (i + 1) ws (if flags i == 0 then acc else bit_or acc w)

  -- If the mask with the other edge is refused, it is set without.
  unfoldable pub termios_setflags : ℕ → (ℕ → ℕ) → Sys W → Sys W
  termios_setflags fd flags s = on_some (s.find_port fd) s λ port.
      let all = collect flags 0 windows_flags 0 in
      let (done, w) = queue_api.set_comm_mask port.h_comm all s.comm in
      if has all 0x2000 && not done
      then (let less = clear all 0x2000 in
          let (_, w') = queue_api.set_comm_mask port.h_comm less w in
          set_port fd (record port { event_flag = less }) (record s { comm = w' }))
      else set_port fd (record port { event_flag = all }) (record s { comm = w })
