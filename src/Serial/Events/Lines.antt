-- ===== src/Serial/Events/Lines.antt =====
-- A listener that follows the line events knows the lines.
use cameratrack.Base.{
  ℕ, zero, suc, pos, ◌+◌, ◌≤◌, ◌^◌, ◌%◌, ◌≡◌, refl, ◌∙◌, ap, Bool, Bool-cases, true, false, ltb,
  ◌==◌, inl, inr, [], ◌∷◌, arith,
}
use cameratrack.Flags.{spe_fe, spe_oe, spe_pe, spe_bi}
use cameratrack.Termios.Comm.{Counters}
use cameratrack.Serial.Events.{Eis, send_event, send_changes, send_counts, send_all_counts}
use cameratrack.Serial.Events.Heard.{
  Heard, hear, hear_all, lines_of, changes_of, send_changes-changes_of, hear_all-append,
  changes_of-lines_of,
}

-- From the lines `h` on, the events sent so far tell the lines of the last reading.
pub record Tracks (h : Heard) (eis : Eis) : Type 0 where
  pub runs : eis.eventloop_interrupted ≤ 1
  pub follows : hear_all eis.sent h ≡ lines_of eis.omflags

module _ (h : Heard) where
  -- An event that is not about a line changes nothing.
  pub send_event-Tracks :
      (type : ℕ) (eis : Eis)
      → ((value : Bool) (k : Heard) → hear (type, value) k ≡ k)
      → Tracks h eis
      → Tracks h (send_event type (pos 1) eis)
  unfolding send_event
  send_event-Tracks type eis deaf tracks =
      let on : ltb 1 eis.eventloop_interrupted ≡ false = ground (arith, tracks.runs) in
      rw on (record {
        runs = tracks.runs;
        follows =
            hear_all-append eis.sent ((type, true) ∷ []) h
            ∙ deaf true (hear_all eis.sent h)
            ∙ tracks.follows;
      })

  pub send_changes-Tracks : (m : ℕ) (eis : Eis) → Tracks h eis → Tracks h (send_changes m eis)
  send_changes-Tracks m eis tracks = rw (send_changes-changes_of m eis tracks.runs) (record {
    runs = tracks.runs;
    follows =
        hear_all-append eis.sent (changes_of m eis.omflags) h
        ∙ ap (hear_all (changes_of m eis.omflags)) tracks.follows
        ∙ changes_of-lines_of m eis.omflags;
  })

  send_counts-Tracks :
      (fuel type new old : ℕ) (eis : Eis)
      → ((value : Bool) (k : Heard) → hear (type, value) k ≡ k)
      → Tracks h eis
      → Tracks h (send_counts fuel type new old eis)
  unfolding send_counts
  send_counts-Tracks zero type new old eis deaf tracks = tracks
  send_counts-Tracks (suc fuel) type new old eis deaf tracks = elim (Bool-cases (new == old)) [
    | inl e ↦ rw (send_counts, e) tracks
    | inr e ↦
        rw (send_counts, e)
          (send_counts-Tracks fuel type new ((old + 1) % 2 ^ 32) (send_event type (pos 1) eis) deaf
            (send_event-Tracks type eis deaf tracks))
  ]

  pub send_all_counts-Tracks :
      (sis : Counters) (eis : Eis) → Tracks h eis → Tracks h (send_all_counts sis eis)
  unfolding send_all_counts
  send_all_counts-Tracks sis eis tracks =
      let t1 =
        send_counts-Tracks (2 ^ 32) spe_fe sis.frame eis.osis.frame eis (λ v k. refl) tracks in
      let t2 = send_counts-Tracks (2 ^ 32) spe_oe sis.overrun eis.osis.overrun _ (λ v k. refl) t1 in
      let t3 = send_counts-Tracks (2 ^ 32) spe_pe sis.parity eis.osis.parity _ (λ v k. refl) t2 in
      let t4 = send_counts-Tracks (2 ^ 32) spe_bi sis.brk eis.osis.brk _ (λ v k. refl) t3 in
      record { runs = t4.runs; follows = t4.follows }
