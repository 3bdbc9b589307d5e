-- ===== src/Examples/Setup.antt =====
-- A driver that keeps the DCB and the timeouts that it was last given, and one open port on it.
use cameratrack.Base.{ℕ, true, false, none, some, ◌==◌, if◌then◌else◌, arith}
use cameratrack.Termios.{Termios, Dcb, Timeouts, no_parity, one_stop_bit, rts_disable}
use cameratrack.Termios.Comm.{CommApi, CommLaws, Port, Sys}

abbrev pub Driver : Type 0
Driver = Dcb × Timeouts

abbrev pub driver : CommApi Driver
driver = record {
  get_state = λ h w. some w.0;
  set_state = λ h d w. some (d, w.1);
  get_timeouts = λ h w. some w.1;
  set_timeouts = λ h t w. some (w.0, t);
  clear_error = λ h w. some (
    record {
      ce_frame = false;
      ce_rxparity = true;
      ce_break = false;
      cb_in_que = 3;
      cb_out_que = 0;
    },
    w,
  );
  modem_status =
      λ h w. some (record { rlsd_on = false; ring_on = false; dsr_on = true; cts_on = true });
  escape = λ h e w. w;
}

pub driver_laws : CommLaws driver
driver_laws = record {
  get-set_state = λ h d w w' e. ground (arith, e);
  get-set_timeouts = λ h t w w' e. ground (arith, e);
  state-set_timeouts = λ h t w w' e. ground (arith, e);
}

abbrev pub modes : Termios
modes = record {
  c_iflag = 0;
  c_oflag = 0;
  c_cflag = 0o275;
  c_lflag = 0;
  c_cc = λ _. 0;
  c_ispeed = 13;
  c_ospeed = 13;
}

abbrev pub dcb : Dcb
dcb = record {
  baud_rate = 9600;
  byte_size = 8;
  parity = no_parity;
  stop_bits = one_stop_bit;
  f_parity = false;
  f_binary = true;
  f_out_x = false;
  f_in_x = false;
  f_tx_continue_on_xoff = false;
  f_dtr_enabled = false;
  f_rts_control = rts_disable;
  f_outx_cts_flow = false;
  f_outx_dsr_flow = false;
  f_dsr_sensitivity = false;
  xon_char = 17;
  xoff_char = 19;
  xon_lim = 0;
  xoff_lim = 0;
  eof_char = 0;
  evt_char = 10;
}

abbrev pub timeouts : Timeouts
timeouts = record {
  read_interval = 0;
  read_total_multiplier = 0;
  read_total_constant = 0;
  write_total_multiplier = 0;
  write_total_constant = 0;
}

abbrev pub port : Port
port = record {
  h_comm = 7;
  ttyset = modes;
  msr = 2;
  sis = record { frame = 0; overrun = 0; parity = 0; brk = 0 };
  event_flag = 0;
  tx_happened = 0;
}

abbrev pub sys : Sys Driver
sys = record { find_port = λ (fd : ℕ). if fd == 1 then some port else none; comm = (dcb, timeouts) }
