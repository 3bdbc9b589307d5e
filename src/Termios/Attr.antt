-- ===== src/Termios/Attr.antt =====
-- `tcgetattr` and `tcsetattr` of rxtx-devel/src/termios.c, over the Windows calls. The caller's
-- structure is what `tcgetattr` leaves alone when it returns 0 at once for a descriptor that is not
-- positive; `find_port` would fail on it.
pub mod Laws
pub mod Reliable
use cameratrack.Base.{
  ℕ, ◌*◌, ◌/◌, ◌%◌, Bool, true, false, ◌&&◌, Option, none, some, ◌==◌, if◌then◌else◌, on_some,
}
use cameratrack.Flags.{cignore, icanon, ixon, ixoff, ixany, vtime, vmin, vstart, vstop, veof}
use cameratrack.Termios.{Termios, Dcb, Timeouts, update}
use cameratrack.Termios.Comm.{CommApi, Port, Sys, set_port}
use cameratrack.Termios.Convert.{has, termios_to_dcb, dcb_to_termios, iflag_of_dcb, cflag_of_dcb}

abbrev pub maxdword : ℕ
maxdword = 0xffff_ffff

-- The DCB that `tcsetattr` sends, apart from the fields that `termios_to_DCB` fills in.
unfoldable pub dcb_of_modes : Termios → Dcb → Dcb
dcb_of_modes t dcb = record dcb {
  f_binary = t.c_cc veof == 0;
  f_out_x = has t.c_iflag ixon;
  f_in_x = has t.c_iflag ixoff;
  f_tx_continue_on_xoff = has t.c_iflag ixany;
  f_dtr_enabled = false;
  f_outx_dsr_flow = false;
  f_dsr_sensitivity = false;
  xon_char = t.c_cc vstart;
  xoff_char = t.c_cc vstop;
  xon_lim = 0;
  xoff_lim = 0;
  eof_char = t.c_cc veof;
  evt_char = 0x0a;
}

unfoldable pub timeouts_of : Termios → Timeouts
timeouts_of t =
    let v = t.c_cc vtime * 100 in
    let immediate = (t.c_cc vmin == 0) && (v == 0) in
    record {
      read_interval = if immediate then maxdword else 0;
      read_total_multiplier = 0;
      read_total_constant = if immediate then 0 else v;
      write_total_multiplier = 0;
      write_total_constant = v;
    }

-- The body of `tcgetattr` behind the Windows calls. VTIME is kept in an `unsigned char`.
unfoldable pub termios_of : Termios → Dcb → Timeouts → Termios
termios_of t dcb timeouts = dcb_to_termios dcb (record t {
  c_iflag = iflag_of_dcb dcb t.c_iflag;
  c_cflag = cflag_of_dcb dcb t.c_cflag;
  c_cc =
      update
        (update
          (update (update t.c_cc vtime (timeouts.read_total_constant / 100 % 256)) vstart
            dcb.xon_char)
          vstop dcb.xoff_char)
        veof dcb.eof_char;
})

-- With CIGNORE the control modes and the speed are left as they are.
unfoldable pub control : Termios → Dcb → Termios × Dcb
control t dcb =
    if has t.c_cflag cignore then (t, dcb) else termios_to_dcb t (record dcb { f_parity = true })

module _ {W : Type 0} (api : CommApi W) where
  unfoldable pub tcgetattr : ℕ → Termios → Sys W → Option Termios
  tcgetattr fd caller s =
      if fd == 0
      then some caller
      else on_some (s.find_port fd) none λ port.
        on_some (api.get_state port.h_comm s.comm) none λ dcb.
          on_some (api.get_timeouts port.h_comm s.comm) none
            λ timeouts. some (termios_of port.ttyset dcb timeouts)

  -- The result (0 or -1), the caller's structure and the state. A failure of SetCommTimeouts comes
  -- after the DCB was set.
  unfoldable pub tcsetattr : ℕ → Termios → Sys W → Bool × Termios × Sys W
  tcsetattr fd t s =
      if fd == 0
      then (true, t, s)
      else on_some (s.find_port fd) (false, t, s)
          λ port.
            if has t.c_lflag icanon
            then (false, t, s)
            else on_some (api.get_state port.h_comm s.comm) (false, t, s)
                λ dcb.
                  on_some (api.get_timeouts port.h_comm s.comm) (false, t, s)
                    λ timeouts.
                      let (t', dcb') = control t dcb in
                      on_some (api.set_state port.h_comm (dcb_of_modes t' dcb') s.comm)
                        (false, t', s)
                        λ w.
                          let set = record s { comm = w } in
                          on_some (api.set_timeouts port.h_comm (timeouts_of t') w) (false, t', set)
                            λ w'. (
                              true,
                              t',
                              set_port fd (record port { ttyset = t' }) (record s { comm = w' }),
                            )
