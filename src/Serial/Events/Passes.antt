-- ===== src/Serial/Events/Passes.antt =====
-- Passes of the event loop, one after the other.
use cameratrack.Base.{ℕ, zero, suc, refl, Bool-cases, inl, inr, ◌==◌, Option-cases}
use cameratrack.Flags.{spe_data_available, spe_output_buffer_empty}
use cameratrack.Serial.Events.{
  Calls, Eis, check_line_status_register, check_cgi_count, check_tiocmget_changes,
  port_has_changed_fionread, report_data, report_serial_events,
}
use cameratrack.Serial.Events.Lines.{
  Tracks, send_event-Tracks, send_changes-Tracks, send_all_counts-Tracks,
}
use cameratrack.Serial.Events.Heard.{Heard}

module _ {W : Type 0} (calls : Calls W) (h : Heard) where
  check_line_status_register-Tracks :
      (eis : Eis) (w : W) → Tracks h eis → Tracks h (check_line_status_register calls eis w).1
  unfolding check_line_status_register
  check_line_status_register-Tracks eis w tracks =
      elim (Bool-cases (eis.eventflags spe_output_buffer_empty == 0)) [
        | inl e ↦ rw e tracks
        | inr e ↦ elim (Bool-cases (calls.fstat w).0) [
          | inr f ↦ rw (e, f) tracks
          | inl f ↦ elim (Option-cases (calls.tiocsergetlsr (calls.fstat w).1).0) [
            | inl l ↦ rw (e, f, l) tracks
            | inr (change, l) ↦
                let changed : Tracks h (record eis { change = change }) = record {
                  runs = tracks.runs;
                  follows = tracks.follows;
                } in
                elim (Bool-cases (change == 0)) [
                  | inl z ↦ rw (e, f, l, z) changed
                  | inr z ↦
                      rw (e, f, l, z)
                        (send_event-Tracks h spe_output_buffer_empty
                          (record eis { change = change }) (λ v k. refl) changed)
                ]
          ]
        ]
      ]

  check_cgi_count-Tracks :
      (eis : Eis) (w : W) → Tracks h eis → Tracks h (check_cgi_count calls eis w).0
  unfolding check_cgi_count
  check_cgi_count-Tracks eis w tracks = elim (Option-cases (calls.tiocgicount w).0) [
    | inl e ↦ rw e tracks
    | inr (sis, e) ↦ rw e (send_all_counts-Tracks h sis eis tracks)
  ]

  check_tiocmget_changes-Tracks :
      (eis : Eis) (w : W) → Tracks h eis → Tracks h (check_tiocmget_changes calls eis w).0
  unfolding check_tiocmget_changes
  check_tiocmget_changes-Tracks eis w tracks = elim (Option-cases (calls.tiocmget w).0) [
    | inl e ↦ rw e tracks
    | inr (m, e) ↦ rw e (send_changes-Tracks h m eis tracks)
  ]

  report_data-Tracks : (eis : Eis) (w : W) → Tracks h eis → Tracks h (report_data calls eis w).0
  unfolding report_data
  report_data-Tracks eis w tracks = elim (Bool-cases (port_has_changed_fionread calls w).0) [
    | inr e ↦ rw e tracks
    | inl e ↦ elim (Bool-cases (eis.eventflags spe_data_available == 0)) [
      | inl z ↦ rw (e, z) tracks
      | inr z ↦ rw (e, z) (send_event-Tracks h spe_data_available eis (λ v k. refl) tracks)
    ]
  ]

  report_serial_events-Tracks :
      (eis : Eis) (w : W) → Tracks h eis → Tracks h (report_serial_events calls eis w).0
  unfolding report_serial_events
  report_serial_events-Tracks eis w tracks =
      let (fine, e1, w1) = check_line_status_register calls eis w in
      let t1 : Tracks h e1 = check_line_status_register-Tracks eis w tracks in
      let (e2, w2) = check_cgi_count calls e1 w1 in
      let t2 : Tracks h e2 = check_cgi_count-Tracks e1 w1 t1 in
      let (e3, w3) = check_tiocmget_changes calls e2 w2 in
      let (e3', w3') = check_tiocmget_changes calls e1 w1 in
      elim (Bool-cases fine) [
        | inr f ↦ rw f t1
        | inl f ↦ elim (Bool-cases e1.has_tiocgicount) [
          | inl c ↦ rw (f, c) (report_data-Tracks e3 w3 (check_tiocmget_changes-Tracks e2 w2 t2))
          | inr c ↦ rw (f, c) (report_data-Tracks e3' w3' (check_tiocmget_changes-Tracks e1 w1 t1))
        ]
      ]

-- So many passes.
abbrev pub passes : {W : Type 0} → Calls W → ℕ → Eis → W → Eis × W
passes calls zero eis w = (eis, w)
passes calls (suc n) eis w =
    let (eis1, w1) = report_serial_events calls eis w in passes calls n eis1 w1

-- However the calls on the port fare, a listener that knew the modem lines of the last reading at
-- first, and follows the events, knows those of the last reading after every number of passes of an
-- event loop that is not interrupted.
pub passes-Tracks :
    {W : Type 0} (calls : Calls W) (h : Heard) (n : ℕ) (eis : Eis) (w : W)
    → Tracks h eis
    → Tracks h (passes calls n eis w).0
passes-Tracks calls h zero eis w tracks = tracks
passes-Tracks calls h (suc n) eis w tracks =
    let (eis1, w1) = report_serial_events calls eis w in
    passes-Tracks calls h n eis1 w1 (report_serial_events-Tracks calls h eis w tracks)
