-- ===== src/Serial/Events.antt =====
-- One pass of the event loop in rxtx-devel/src/SerialImp.c: `send_event`, `check_line_status_register`,
-- `check_cgi_count`, `check_tiocmget_changes`, `port_has_changed_fionread` and `report_serial_events`,
-- with TIOCSERGETLSR and TIOCGICOUNT defined, over the calls on the port.
pub mod Counts
pub mod Heard
pub mod Lines
pub mod Passes
use cameratrack.Base.{
  ℕ, zero, suc, ℤ, pos, negsuc, ◌+◌, ◌-◌, ◌%◌, ◌^◌, Bool, true, false, not, ltb, leb, ◌==◌, Option,
  none, some, is_some, on_some, if◌then◌else◌, List, [], ◌∷◌, ◌++◌, bit_and,
}
use cameratrack.Flags.{
  tiocm_cd, tiocm_rng, tiocm_dsr, tiocm_cts, spe_data_available, spe_output_buffer_empty, spe_cts,
  spe_dsr, spe_ri, spe_cd, spe_oe, spe_pe, spe_fe, spe_bi,
}
use cameratrack.Termios.Comm.{Counters}

-- The calls over the state `W` behind them; `none` is a failure. `fstat` only fails or not.
pub record Calls (W : Type 0) : Type 0 where
  pub fstat : W → Bool × W
  pub tiocsergetlsr : W → Option ℕ × W
  pub tiocgicount : W → Option Counters × W
  pub tiocmget : W → Option ℕ × W
  pub fionread : W → Option ℕ × W
  pub usleep : ℕ → W → W

-- A call of RXTXPort.sendEvent: the type and the value.
abbrev pub Event : Type 0
Event = ℕ × Bool

-- `struct event_info_struct` of a loop that has its class: the members that a pass uses, and the calls
-- of sendEvent so far.
pub record Eis : Type 0 where
  pub eventflags : ℕ → ℕ
  pub change : ℕ
  pub omflags : ℕ
  pub has_tiocgicount : Bool
  pub eventloop_interrupted : ℕ
  pub osis : Counters
  pub sent : List Event

-- `flag > 0` is what Java gets.
abbrev pub is_positive : ℤ → Bool
is_positive (pos n) = ltb 0 n
is_positive (negsuc n) = false

unfoldable pub send_event : ℕ → ℤ → Eis → Eis
send_event type flag eis =
    if ltb 1 eis.eventloop_interrupted
    then eis
    else record eis { sent = eis.sent ++ ((type, is_positive flag) ∷ []) }

-- A difference of two words as an `int`, for words below 2 ^ 31.
abbrev pub difference : ℕ → ℕ → ℤ
difference a b = if leb b a then pos (a - b) else negsuc (b - a - 1)

abbrev pub is_nonzero : ℤ → Bool
is_nonzero (pos n) = not (n == 0)
is_nonzero (negsuc n) = true

-- `change = (mflags & mask) - (omflags & mask); if( change ) send_event( eis, type, change );`
unfoldable pub send_change : ℕ → ℕ → ℕ → Eis → Eis
unfolding send_event
send_change mask type mflags eis =
    let change = difference (bit_and mflags mask) (bit_and eis.omflags mask) in
    if is_nonzero change then send_event type change eis else eis

unfoldable pub send_changes : ℕ → Eis → Eis
unfolding send_change
send_changes mflags eis =
    let e1 = send_change tiocm_cts spe_cts mflags eis in
    let e2 = send_change tiocm_dsr spe_dsr mflags e1 in
    let e3 = send_change tiocm_rng spe_ri mflags e2 in
    let e4 = send_change tiocm_cd spe_cd mflags e3 in record e4 { omflags = mflags }

-- `while( new != old ) { send_event( eis, type, 1 ); old++; }` on a counter of 32 bits.
unfoldable pub send_counts : ℕ → ℕ → ℕ → ℕ → Eis → Eis
unfolding send_event
send_counts zero type new old eis = eis
send_counts (suc fuel) type new old eis = elim (new == old) [
  | true ↦ eis
  | false ↦ send_counts fuel type new ((old + 1) % 2 ^ 32) (send_event type (pos 1) eis)
]

-- The four loops of `check_cgi_count`.
unfoldable pub send_all_counts : Counters → Eis → Eis
unfolding send_counts
send_all_counts sis eis =
    let e1 = send_counts (2 ^ 32) spe_fe sis.frame eis.osis.frame eis in
    let e2 = send_counts (2 ^ 32) spe_oe sis.overrun eis.osis.overrun e1 in
    let e3 = send_counts (2 ^ 32) spe_pe sis.parity eis.osis.parity e2 in
    let e4 = send_counts (2 ^ 32) spe_bi sis.brk eis.osis.brk e3 in record e4 { osis = sis }

module _ {W : Type 0} (calls : Calls W) where
  -- The result `true` is 0.
  unfoldable pub check_line_status_register : Eis → W → Bool × Eis × W
  check_line_status_register eis w =
      if eis.eventflags spe_output_buffer_empty == 0
      then (true, eis, w)
      else let (fine, w1) = calls.fstat w in
        if not fine
        then (false, eis, w1)
        else let (lsr, w2) = calls.tiocsergetlsr w1 in
          on_some lsr (false, eis, w2)
            λ change.
              let eis1 = record eis { change = change } in
              if change == 0
              then (true, eis1, w2)
              else (true, send_event spe_output_buffer_empty (pos 1) eis1, w2)

  unfoldable pub check_cgi_count : Eis → W → Eis × W
  unfolding send_all_counts
  check_cgi_count eis w =
      let (counts, w1) = calls.tiocgicount w in
      on_some counts (eis, w1) λ sis. (send_all_counts sis eis, w1)

  unfoldable pub check_tiocmget_changes : Eis → W → Eis × W
  unfolding send_changes
  check_tiocmget_changes eis w =
      let (flags, w1) = calls.tiocmget w in
      on_some flags (eis, w1) λ mflags. (send_changes mflags eis, w1)

  unfoldable pub port_has_changed_fionread : W → Bool × W
  port_has_changed_fionread w =
      let (waiting, w1) = calls.fionread w in
      (on_some waiting false (λ change. not (change == 0)), w1)

  unfoldable pub report_data : Eis → W → Eis × W
  unfolding port_has_changed_fionread
  report_data eis w =
      let (waiting, w1) = port_has_changed_fionread w in
      if not waiting
      then (eis, w1)
      else if eis.eventflags spe_data_available == 0
      then (eis, calls.usleep 20000 (calls.usleep 20000 w1))
      else (send_event spe_data_available (pos 1) eis, calls.usleep 20000 w1)

  unfoldable pub report_serial_events : Eis → W → Eis × W
  unfolding check_line_status_register check_cgi_count check_tiocmget_changes report_data
  report_serial_events eis w =
      let (fine, e1, w1) = check_line_status_register eis w in
      if not fine
      then (e1, w1)
      else let (e2, w2) = if e1.has_tiocgicount then check_cgi_count e1 w1 else (e1, w1) in
        let (e3, w3) = check_tiocmget_changes e2 w2 in report_data e3 w3
