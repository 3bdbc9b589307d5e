-- ===== src/Termios/Comm.antt =====
-- The Windows calls that rxtx-devel/src/termios.c makes on a port, as a parameter, and the state that
-- it keeps for an open port: members of `struct termios_list`.
use cameratrack.Base.{ℕ, ◌≡◌, Bool, Option, some, ◌==◌, if◌then◌else◌}
use cameratrack.Termios.{Termios, Dcb, Timeouts}

-- The error bits of ClearCommError that the code reads and the bytes that it reports to be in the
-- queues, and the modem lines of GetCommModemStatus.
pub record Errors : Type 0 where
  pub ce_frame : Bool
  pub ce_rxparity : Bool
  pub ce_break : Bool
  pub cb_in_que : ℕ
  pub cb_out_que : ℕ

pub record ModemStatus : Type 0 where
  pub rlsd_on : Bool
  pub ring_on : Bool
  pub dsr_on : Bool
  pub cts_on : Bool

pub data Escape : Type 0 where
  set_dtr clr_dtr set_rts clr_rts : Escape

-- The Windows calls on a handle, over the state `W` behind them: `none` for FALSE. Of
-- EscapeCommFunction the code only reports the result.
pub record CommApi (W : Type 0) : Type 0 where
  pub get_state : ℕ → W → Option Dcb
  pub set_state : ℕ → Dcb → W → Option W
  pub get_timeouts : ℕ → W → Option Timeouts
  pub set_timeouts : ℕ → Timeouts → W → Option W
  pub clear_error : ℕ → W → Option (Errors × W)
  pub modem_status : ℕ → W → Option ModemStatus
  pub escape : ℕ → Escape → W → W

-- What Windows documents: a successful set is what the next get returns, and the state and the
-- timeouts of a port are kept apart.
pub record CommLaws {W : Type 0} (api : CommApi W) : Type 0 where
  pub get-set_state :
      (h : ℕ) (d : Dcb) (w w' : W) → api.set_state h d w ≡ some w' → api.get_state h w' ≡ some d
  pub get-set_timeouts :
      (h : ℕ) (t : Timeouts) (w w' : W)
      → api.set_timeouts h t w ≡ some w'
      → api.get_timeouts h w' ≡ some t
  pub state-set_timeouts :
      (h : ℕ) (t : Timeouts) (w w' : W)
      → api.set_timeouts h t w ≡ some w'
      → api.get_state h w' ≡ api.get_state h w

-- The counters of `struct serial_icounter_struct` that the code changes.
pub record Counters : Type 0 where
  pub frame : ℕ
  pub overrun : ℕ
  pub parity : ℕ
  pub brk : ℕ

-- The members of `struct termios_list` that these calls use.
pub record Port : Type 0 where
  pub h_comm : ℕ
  pub ttyset : Termios
  pub msr : ℕ
  pub sis : Counters
  pub event_flag : ℕ
  pub tx_happened : ℕ

-- The port that `find_port` returns for each descriptor, and the state behind the Windows calls.
pub record Sys (W : Type 0) : Type 0 where
  pub find_port : ℕ → Option Port
  pub comm : W

abbrev pub set_port : {W : Type 0} → ℕ → Port → Sys W → Sys W
set_port fd port s = record s {
  find_port = λ (n : ℕ). if n == fd then some port else s.find_port n;
}
