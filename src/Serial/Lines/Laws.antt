-- ===== src/Serial/Lines/Laws.antt =====
-- What the modem line operations read, and what they leave.
use cameratrack.Base.{
  ℕ, ◌≡◌, ◌≢◌, ◌≤◌, refl, ◌∙◌, sym, Bool, not, ap, Option-cases, inl, inr, ◌==◌, ==_ne, ==_refl,
  arith,
}
use cameratrack.Flags.{tiocm_cd, tiocm_rng, tiocm_dsr, tiocm_cts, tiocm_dtr, tiocm_rts}
use cameratrack.Termios.{Termios}
use cameratrack.Termios.Comm.{CommApi, Sys}
use cameratrack.Termios.Convert.{has}
use cameratrack.Termios.Modem.{
  ioctl_port, put, status_or_off, read_lines, store_lines, tiocmget, tiocmset,
}
use cameratrack.Termios.Modem.Laws.{
  IsOpen, IsLive, tiocmget-IsOpen, ioctl_port-IsOpen, ioctl_port-live,
}
use cameratrack.Serial.Lines.{
  is_dsr, is_cd, is_cts, is_ri, is_rts, is_dtr, set_rts, set_dsr, set_dtr,
}
use cameratrack.Serial.Lines.Words.{
  put-other, put-same, read_lines-rts, read_lines-dtr, read_lines-cts, read_lines-dsr,
  read_lines-rng, read_lines-cd, store_lines-rts, store_lines-dtr, store_lines_self,
  store_lines-congr,
}

module _ {W : Type 0} (api : CommApi W) (fd : ℕ) (nonzero : fd ≢ 0) where
  -- TIOCMGET on a live port.
  tiocmget-live :
      (s : Sys W) (arg : ℕ) {h : ℕ} {t : Termios} {msr : ℕ}
      → IsOpen s fd h t msr
      → IsLive api fd h
      → (tiocmget api fd arg s).1
        ≡ read_lines (status_or_off (api.modem_status h (tiocmget api fd arg s).2.comm)) msr arg
  unfolding tiocmget
  tiocmget-live s arg o live = elim (Option-cases (ioctl_port api fd s)) [
    | inl e ↦ absurd (ground (arith, ioctl_port-live api fd s o live))
    | inr ((p, s'), e) ↦
        let (f, a, b, c) = ioctl_port-IsOpen api fd s s' p o e in rw (==_ne nonzero, e, a, c)
  ]

  pub tiocmset-live :
      (s : Sys W) (arg : ℕ) {h : ℕ} {t : Termios} {msr : ℕ}
      → IsOpen s fd h t msr
      → IsLive api fd h
      → IsOpen (tiocmset api fd arg s).1 fd h t (store_lines arg msr)
  unfolding tiocmset
  tiocmset-live s arg o live = elim (Option-cases (ioctl_port api fd s)) [
    | inl e ↦ absurd (ground (arith, ioctl_port-live api fd s o live))
    | inr ((p, s'), e) ↦
        let (f, a, b, c) = ioctl_port-IsOpen api fd s s' p o e in
        rw (==_ne nonzero, e)
          (record {
            port = record p { msr = store_lines arg p.msr };
            found = rw (==_refl fd);
            handle = a;
            settings = b;
            register = rw c refl;
          })
  ]

  -- DTR and RTS are answered from the register.
  pub is_rts-msr :
      (s : Sys W) {h : ℕ} {t : Termios} {msr : ℕ}
      → IsOpen s fd h t msr
      → IsLive api fd h
      → (is_rts api fd s).0 ≡ has msr tiocm_rts
  unfolding is_rts
  is_rts-msr s {msr} o live = rw (tiocmget-live s 0 o live) (read_lines-rts _ msr 0)

  is_dtr-msr :
      (s : Sys W) {h : ℕ} {t : Termios} {msr : ℕ}
      → IsOpen s fd h t msr
      → IsLive api fd h
      → (is_dtr api fd s).0 ≡ has msr tiocm_dtr
  unfolding is_dtr
  is_dtr-msr s {msr} o live = rw (tiocmget-live s 0 o live) (read_lines-dtr _ msr 0)

  -- After TIOCMGET, the argument of TIOCMSET is computed from what was read.
  module _ (s : Sys W) {h : ℕ} {t : Termios} {msr : ℕ} (o : IsOpen s fd h t msr)
      (live : IsLive api fd h) where
    read-rts : has (tiocmget api fd 0 s).1 tiocm_rts ≡ has msr tiocm_rts
    read-rts = rw (tiocmget-live s 0 o live) (read_lines-rts _ msr 0)

    read-dtr : has (tiocmget api fd 0 s).1 tiocm_dtr ≡ has msr tiocm_dtr
    read-dtr = rw (tiocmget-live s 0 o live) (read_lines-dtr _ msr 0)

    stored :
        (arg : ℕ)
        → IsOpen (tiocmset api fd arg (tiocmget api fd 0 s).2).1 fd h t (store_lines arg msr)
    stored arg =
        tiocmset-live (tiocmget api fd 0 s).2 arg (tiocmget-IsOpen api fd nonzero s 0 o) live

    sent-rts :
        (arg : ℕ)
        → (is_rts api fd (tiocmset api fd arg (tiocmget api fd 0 s).2).1).0 ≡ has arg tiocm_rts
    sent-rts arg =
        is_rts-msr (tiocmset api fd arg (tiocmget api fd 0 s).2).1 (stored arg) live
        ∙ store_lines-rts arg msr

    sent-dtr :
        (arg : ℕ)
        → (is_dtr api fd (tiocmset api fd arg (tiocmget api fd 0 s).2).1).0 ≡ has arg tiocm_dtr
    sent-dtr arg =
        is_dtr-msr (tiocmset api fd arg (tiocmget api fd 0 s).2).1 (stored arg) live
        ∙ store_lines-dtr arg msr

    set_rts-is_rts :
        (state : Bool)
        → ((is_rts api fd (set_rts api fd state s)).0 ≡ state)
          × ((is_dtr api fd (set_rts api fd state s)).0 ≡ (is_dtr api fd s).0)
    unfolding set_rts
    set_rts-is_rts state = (
      sent-rts _ ∙ put-same state _ tiocm_rts refl (omega arith),
      sent-dtr _
          ∙ ap (λ (x : ℕ). not (x == 0)) (put-other state _ tiocm_rts tiocm_dtr refl refl)
          ∙ read-dtr
          ∙ sym (is_dtr-msr s o live),
    )

    set_dtr-is_dtr :
        (state : Bool)
        → ((is_dtr api fd (set_dtr api fd state s)).0 ≡ state)
          × ((is_rts api fd (set_dtr api fd state s)).0 ≡ (is_rts api fd s).0)
    unfolding set_dtr
    set_dtr-is_dtr state = (
      sent-dtr _ ∙ put-same state _ tiocm_dtr refl (omega arith),
      sent-rts _
          ∙ ap (λ (x : ℕ). not (x == 0)) (put-other state _ tiocm_dtr tiocm_rts refl refl)
          ∙ read-rts
          ∙ sym (is_rts-msr s o live),
    )

    -- On an open port with a positive descriptor on which ClearCommError does not fail, setRTS sets
    -- what isRTS answers, and isDTR answers as before; setDTR sets what isDTR answers, and isRTS
    -- answers as before.
    pub set_rts-set_dtr :
        (state : Bool)
        → (((is_rts api fd (set_rts api fd state s)).0 ≡ state)
            × ((is_dtr api fd (set_rts api fd state s)).0 ≡ (is_dtr api fd s).0))
          × (((is_dtr api fd (set_dtr api fd state s)).0 ≡ state)
              × ((is_rts api fd (set_dtr api fd state s)).0 ≡ (is_rts api fd s).0))
    set_rts-set_dtr state = (set_rts-is_rts state, set_dtr-is_dtr state)

    -- On an open port with a positive descriptor and a register of 32 bits, on which ClearCommError
    -- does not fail, setDSR leaves the handle, the settings and the modem register of the port as
    -- they were, whichever state is asked for.
    pub set_dsr-IsOpen :
        (state : Bool) → msr ≤ 0xffff_ffff → IsOpen (set_dsr api fd state s) fd h t msr
    unfolding set_dsr
    set_dsr-IsOpen state p =
        let arg : ℕ = put state tiocm_dsr (tiocmget api fd 0 s).1 in
        let rts : has arg tiocm_rts ≡ has msr tiocm_rts =
          ap (λ (x : ℕ). not (x == 0)) (put-other state _ tiocm_dsr tiocm_rts refl refl)
          ∙ read-rts in
        let dtr : has arg tiocm_dtr ≡ has msr tiocm_dtr =
          ap (λ (x : ℕ). not (x == 0)) (put-other state _ tiocm_dsr tiocm_dtr refl refl)
          ∙ read-dtr in
        rw (store_lines-congr arg msr msr rts dtr, store_lines_self msr p) at (stored arg)

    -- On an open port with a positive descriptor on which ClearCommError does not fail, isCTS,
    -- isDSR, isRI and isCD answer the lines that the driver reports, and off when it reports
    -- nothing.
    pub lines-status_or_off :
        let status = λ (s' : Sys W). status_or_off (api.modem_status h s'.comm) in
        ((is_cts api fd s).0 ≡ (status (is_cts api fd s).1).cts_on)
        × ((is_dsr api fd s).0 ≡ (status (is_dsr api fd s).1).dsr_on)
        × ((is_ri api fd s).0 ≡ (status (is_ri api fd s).1).ring_on)
        × ((is_cd api fd s).0 ≡ (status (is_cd api fd s).1).rlsd_on)
    unfolding is_cts is_dsr is_ri is_cd
    lines-status_or_off = (
      ap (λ (x : ℕ). has x tiocm_cts) (tiocmget-live s 0 o live) ∙ read_lines-cts _ msr 0,
      ap (λ (x : ℕ). has x tiocm_dsr) (tiocmget-live s 0 o live) ∙ read_lines-dsr _ msr 0,
      ap (λ (x : ℕ). has x tiocm_rng) (tiocmget-live s 0 o live) ∙ read_lines-rng _ msr 0,
      ap (λ (x : ℕ). has x tiocm_cd) (tiocmget-live s 0 o live) ∙ read_lines-cd _ msr 0,
    )
