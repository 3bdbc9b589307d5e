-- ===== src/Termios.antt =====
-- The termios layer of the Windows build, rxtx-devel/src/termios.c, and the structures that it
-- converts between: `struct termios` of rxtx-devel/src/win32termios.h, and the DCB and COMMTIMEOUTS
-- of the Windows API.
pub mod Speed
pub mod Convert
pub mod Comm
pub mod Modem
pub mod Attr
pub mod Ports
pub mod Open
pub mod Queues
pub mod Status
use cameratrack.Base.{ℕ, Bool, ◌==◌, if◌then◌else◌}

-- A `c_cc` array as the function from its indices, all of which are in range.
abbrev pub ControlChars : Type 0
ControlChars = ℕ → ℕ

abbrev pub update : ControlChars → ℕ → ℕ → ControlChars
update cc i v j = if j == i then v else cc j

pub record Termios : Type 0 where
  pub c_iflag : ℕ
  pub c_oflag : ℕ
  pub c_cflag : ℕ
  pub c_lflag : ℕ
  pub c_cc : ControlChars
  pub c_ispeed : ℕ
  pub c_ospeed : ℕ

-- The documented values of `Parity`, `StopBits` and `fRtsControl` in a DCB.
pub data Parity : Type 0 where
  no_parity odd_parity even_parity mark_parity space_parity : Parity

pub data StopBits : Type 0 where
  one_stop_bit one5_stop_bits two_stop_bits : StopBits

pub data RtsControl : Type 0 where
  rts_disable rts_enable rts_handshake rts_toggle : RtsControl

-- The members of a DCB that the code reads or writes.
pub record Dcb : Type 0 where
  pub baud_rate : ℕ
  pub byte_size : ℕ
  pub parity : Parity
  pub stop_bits : StopBits
  pub f_parity : Bool
  pub f_binary : Bool
  pub f_out_x : Bool
  pub f_in_x : Bool
  pub f_tx_continue_on_xoff : Bool
  pub f_dtr_enabled : Bool
  pub f_rts_control : RtsControl
  pub f_outx_cts_flow : Bool
  pub f_outx_dsr_flow : Bool
  pub f_dsr_sensitivity : Bool
  pub xon_char : ℕ
  pub xoff_char : ℕ
  pub xon_lim : ℕ
  pub xoff_lim : ℕ
  pub eof_char : ℕ
  pub evt_char : ℕ

pub record Timeouts : Type 0 where
  pub read_interval : ℕ
  pub read_total_multiplier : ℕ
  pub read_total_constant : ℕ
  pub write_total_multiplier : ℕ
  pub write_total_constant : ℕ
