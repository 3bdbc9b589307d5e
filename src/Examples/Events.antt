-- ===== src/Examples/Events.antt =====
-- A loop on a port whose CTS has just come on.
use cameratrack.Base.{
  ℕ, ◌≡◌, refl, true, false, none, some, ◌==◌, if◌then◌else◌, [], ◌∷◌, ◌++◌, arith,
}
use cameratrack.Termios.Comm.{Counters}
use cameratrack.Flags.{spe_fe, spe_oe, spe_pe, spe_bi}
use cameratrack.Serial.Events.{
  Calls, Eis, send_event, send_change, send_changes, send_counts, send_all_counts,
  check_line_status_register, check_cgi_count, check_tiocmget_changes, port_has_changed_fionread,
  report_data, report_serial_events,
}
use cameratrack.Serial.Events.Lines.{Tracks}
use cameratrack.Serial.Events.Heard.{lines_of}
use cameratrack.Serial.Events.Counts.{AreWords, replicate, moved, check_cgi_count-replicate}
use cameratrack.Serial.Events.Passes.{passes, passes-Tracks}

abbrev counted : Counters
counted = record { frame = 1; overrun = 0; parity = 0; brk = 2 }

abbrev pub calls : Calls ℕ
calls = record {
  fstat = λ w. (true, w);
  tiocsergetlsr = λ w. (some 1, w);
  tiocgicount = λ w. (some counted, w);
  tiocmget = λ w. (some 0x20, w);
  fionread = λ w. (some 3, w);
  usleep = λ us w. w;
}

abbrev pub eis : Eis
eis = record {
  eventflags = λ (i : ℕ). if i == 1 then 1 else 0;
  change = 0;
  omflags = 0x40;
  has_tiocgicount = true;
  eventloop_interrupted = 0;
  osis = record { frame = 0; overrun = 0; parity = 0; brk = 1 };
  sent = [];
}

-- Test: a frame error and a break, CTS on, CD off, data.
one_pass :
    (report_serial_events calls eis 0).0.sent
    ≡ (9, true) ∷ (10, true) ∷ (3, true) ∷ (6, false) ∷ (1, true) ∷ []
unfolding report_serial_events check_line_status_register check_cgi_count check_tiocmget_changes
    report_data port_has_changed_fionread send_all_counts send_counts send_changes send_change
    send_event
one_pass = refl

followed : Tracks (lines_of 0x40) eis
followed = record { runs = omega arith; follows = refl }

passes-Tracks_example : Tracks (lines_of 0x40) (passes calls 2 eis 0).0
passes-Tracks_example = passes-Tracks calls (lines_of 0x40) 2 eis 0 followed

words : (sis : Counters) → (calls.tiocgicount 0).0 ≡ some sis → AreWords sis
words sis e = (ground (arith, e), ground (arith, e), ground (arith, e), ground (arith, e))

check_cgi_count-replicate_example : check_cgi_count calls eis 0 ≡ (
  record eis {
    osis = counted;
    sent =
        (((eis.sent ++ replicate (moved 0 1) (spe_fe, true))
            ++ replicate (moved 0 0) (spe_oe, true))
          ++ replicate (moved 0 0) (spe_pe, true))
        ++ replicate (moved 1 2) (spe_bi, true);
  },
  0,
)
check_cgi_count-replicate_example =
    check_cgi_count-replicate calls eis 0 words (omega arith, omega arith, omega arith, omega arith)
      (omega arith)

-- Test: where TIOCGICOUNT fails, nothing is sent and the old counters stay.
uncounted : check_cgi_count (record calls { tiocgicount = λ w. (none, w) }) eis 0 ≡ (eis, 0)
unfolding check_cgi_count
uncounted = refl
