-- ===== src/Serial/Events/Counts.antt =====
-- The error events of a pass are as many as the counters have counted.
use cameratrack.Base.{
  ℕ, zero, suc, ◌+◌, ◌-◌, ◌%◌, ◌^◌, ◌<◌, ◌≤◌, ◌≡◌, ◌∙◌, ap, true, false, ltb, ◌==◌, inl, inr, refl,
  Option-cases, some, on_some, List, [], ◌∷◌, ◌++◌, arith,
}
use cameratrack.Flags.{spe_fe, spe_oe, spe_pe, spe_bi}
use cameratrack.Termios.Comm.{Counters}
use cameratrack.Serial.Events.{
  Event, Eis, send_event, send_counts, send_all_counts, check_cgi_count, Calls,
}
use cameratrack.Serial.Events.Heard.{append-[], append_assoc, add_events}

abbrev pub replicate : ℕ → Event → List Event
replicate zero e = []
replicate (suc n) e = e ∷ replicate n e

-- How far a counter of 32 bits has moved.
abbrev pub moved : ℕ → ℕ → ℕ
moved old new = (new + 2 ^ 32 - old) % 2 ^ 32

send_counts-replicate :
    (d fuel type new old : ℕ) (eis : Eis)
    → d ≤ fuel
    → d < 2 ^ 32
    → old < 2 ^ 32
    → new ≡ (old + d) % 2 ^ 32
    → eis.eventloop_interrupted ≤ 1
    → send_counts fuel type new old eis ≡ add_events (replicate d (type, true)) eis
unfolding send_counts send_event
send_counts-replicate zero zero type new old eis enough short low there runs =
    rw (append-[] eis.sent)
send_counts-replicate zero (suc fuel) type new old eis enough short low there runs =
    let same : (new == old) ≡ true = ground arith in rw (send_counts, same, append-[] eis.sent)
send_counts-replicate (suc d) zero type new old eis enough short low there runs =
    absurd (omega arith)
send_counts-replicate (suc d) (suc fuel) type new old eis enough short low there runs =
    let other : (new == old) ≡ false = ground arith in
    let on : ltb 1 eis.eventloop_interrupted ≡ false = ground arith in
    let eis1 : Eis = add_events ((type, true) ∷ []) eis in
    rw (send_counts, other, on)
      (send_counts-replicate d fuel type new ((old + 1) % 2 ^ 32) eis1 (omega arith) (omega arith)
          (omega arith) (omega arith) runs
        ∙ ap (λ (t : List Event). record eis { sent = t })
            (append_assoc eis.sent ((type, true) ∷ []) (replicate d (type, true))))

counted :
    (type new old : ℕ) (eis : Eis)
    → new < 2 ^ 32
    → old < 2 ^ 32
    → eis.eventloop_interrupted ≤ 1
    → send_counts (2 ^ 32) type new old eis
      ≡ add_events (replicate (moved old new) (type, true)) eis
counted type new old eis high low runs =
    send_counts-replicate (moved old new) (2 ^ 32) type new old eis (omega arith) (omega arith) low
      (omega arith) runs

abbrev pub AreWords : Counters → Type 0
AreWords c = (c.frame < 2 ^ 32) × (c.overrun < 2 ^ 32) × (c.parity < 2 ^ 32) × (c.brk < 2 ^ 32)

-- Behind the call, with the counters that it gave.
send_all_counts-replicate :
    (sis : Counters) (eis : Eis)
    → AreWords sis
    → AreWords eis.osis
    → eis.eventloop_interrupted ≤ 1
    → send_all_counts sis eis ≡ record eis {
      osis = sis;
      sent =
          (((eis.sent ++ replicate (moved eis.osis.frame sis.frame) (spe_fe, true))
              ++ replicate (moved eis.osis.overrun sis.overrun) (spe_oe, true))
            ++ replicate (moved eis.osis.parity sis.parity) (spe_pe, true))
          ++ replicate (moved eis.osis.brk sis.brk) (spe_bi, true);
    }
unfolding send_all_counts
send_all_counts-replicate sis eis high low runs =
    let e1 : Eis = add_events (replicate (moved eis.osis.frame sis.frame) (spe_fe, true)) eis in
    let e2 : Eis = add_events (replicate (moved eis.osis.overrun sis.overrun) (spe_oe, true)) e1 in
    let e3 : Eis = add_events (replicate (moved eis.osis.parity sis.parity) (spe_pe, true)) e2 in
    let last =
      λ (e : Eis). record (send_counts (2 ^ 32) spe_bi sis.brk eis.osis.brk e) { osis = sis } in
    let third = λ (e : Eis). last (send_counts (2 ^ 32) spe_pe sis.parity eis.osis.parity e) in
    let second = λ (e : Eis). third (send_counts (2 ^ 32) spe_oe sis.overrun eis.osis.overrun e) in
    ap second (counted spe_fe sis.frame eis.osis.frame eis high.0 low.0 runs)
    ∙ ap third (counted spe_oe sis.overrun eis.osis.overrun e1 high.1 low.1 runs)
    ∙ ap last (counted spe_pe sis.parity eis.osis.parity e2 high.2 low.2 runs)
    ∙ ap (λ (e : Eis). record e { osis = sis })
        (counted spe_bi sis.brk eis.osis.brk e3 high.3 low.3 runs)

-- In an event loop that is not interrupted, whose remembered counters are of 32 bits as are those
-- that TIOCGICOUNT may give: where the call succeeds, check_cgi_count sends as many frame, overrun,
-- parity and break events as each counter has moved, in this order, and remembers the counters;
-- where it fails, nothing is sent and nothing changes but what the call does.
pub check_cgi_count-replicate :
    {W : Type 0} (calls : Calls W) (eis : Eis) (w : W)
    → ((sis : Counters) → (calls.tiocgicount w).0 ≡ some sis → AreWords sis)
    → AreWords eis.osis
    → eis.eventloop_interrupted ≤ 1
    → check_cgi_count calls eis w ≡ (
      on_some (calls.tiocgicount w).0 eis λ sis. record eis {
        osis = sis;
        sent =
            (((eis.sent ++ replicate (moved eis.osis.frame sis.frame) (spe_fe, true))
                ++ replicate (moved eis.osis.overrun sis.overrun) (spe_oe, true))
              ++ replicate (moved eis.osis.parity sis.parity) (spe_pe, true))
            ++ replicate (moved eis.osis.brk sis.brk) (spe_bi, true);
      },
      (calls.tiocgicount w).1,
    )
unfolding check_cgi_count
check_cgi_count-replicate calls eis w words low runs = elim (Option-cases (calls.tiocgicount w).0) [
  | inl e ↦ rw e refl
  | inr (sis, e) ↦ rw (e, send_all_counts-replicate sis eis (words sis e) low runs) refl
]
