-- ===== src/Examples/Close.antt =====
-- The port 7 is closed, and its events are chosen, over a driver that accepts everything but the bit
-- 0x2000.
use cameratrack.Base.{ℕ, pos, negsuc, ◌≡◌, refl, true, not, on_some, [], ◌==◌, if◌then◌else◌}
use cameratrack.Termios.Convert.{has}
use cameratrack.Termios.Comm.{Sys}
use cameratrack.Termios.Ports.{serial_close, find_port, take_out}
use cameratrack.Termios.Queues.{
  QueueApi, ev_rxchar, ev_txempty, ev_cts, ev_dsr, ev_ring, ev_rlsd, ev_err, ev_break, flushed,
  purge, tcflush, termios_setflags,
}
use cameratrack.Serial.Close.{native_close}
use cameratrack.Examples.Setup.{Driver, sys}
use cameratrack.Examples.Static.{start}

abbrev pub queues : QueueApi Driver
queues = record {
  mask = λ event. elim event [
    | ev_rxchar ↦ 1
    | ev_txempty ↦ 4
    | ev_cts ↦ 8
    | ev_dsr ↦ 0x10
    | ev_rlsd ↦ 0x20
    | ev_break ↦ 0x40
    | ev_err ↦ 0x80
    | ev_ring ↦ 0x100
  ];
  set_comm_mask = λ h mask w. (not (has mask 0x2000), w);
  purge_comm = λ h which w. (true, w);
  flush_file_buffers = λ h w. (flushed, w);
  set_comm_break = λ h w. (true, w);
  clear_comm_break = λ h w. (true, w);
}

-- Test: the port is gone.
closes : (native_close queues (λ index w. w) 7 (negsuc 0) start).ports ≡ []
unfolding native_close tcflush purge find_port serial_close take_out
closes = refl

-- Test: without the number of a process nothing is closed.
stays : native_close queues (λ index w. w) 7 (pos 0) start ≡ start
unfolding native_close
stays = refl

abbrev flag_of : Sys Driver → ℕ
flag_of s = on_some (s.find_port 1) 0 (λ port. port.event_flag)

-- Test: the ring is waited for without its other edge.
rings : flag_of (termios_setflags queues 1 (λ (i : ℕ). if i == 5 then 1 else 0) sys) ≡ 0x100
unfolding termios_setflags
rings = refl
