-- ===== src/Termios/Modem/Laws.antt =====
-- The ports after `ioctl`: what a request leaves of the port that it was made on.
use cameratrack.Base.{
  ℕ, ◌≡◌, ◌≢◌, refl, true, Option-cases, inl, inr, some, is_some, ==_ne, ==_refl, arith,
}
use cameratrack.Termios.{Termios}
use cameratrack.Termios.Comm.{CommApi, Port, Sys}
use cameratrack.Termios.Modem.{clear_errors, ioctl_port, tiocmget, tiocmset, store_lines}

-- A port with this handle, these settings and this register is open on the descriptor.
pub record IsOpen {W : Type 0} (s : Sys W) (fd h : ℕ) (t : Termios) (msr : ℕ) : Type 0 where
  pub port : Port
  pub found : s.find_port fd ≡ some port
  pub handle : port.h_comm ≡ h
  pub settings : port.ttyset ≡ t
  pub register : port.msr ≡ msr

module _ {W : Type 0} (api : CommApi W) (fd : ℕ) where
  -- Clearing the errors changes the counters alone.
  pub ioctl_port-IsOpen :
      (s s' : Sys W) (port' : Port) {h : ℕ} {t : Termios} {msr : ℕ}
      → IsOpen s fd h t msr
      → ioctl_port api fd s ≡ some (port', s')
      → (s'.find_port fd ≡ some port') × (port'.h_comm ≡ h) × (port'.ttyset ≡ t) × (port'.msr ≡ msr)
  unfolding ioctl_port clear_errors
  ioctl_port-IsOpen s s' port' o e = elim (Option-cases (api.clear_error o.port.h_comm s.comm)) [
    | inl c ↦ absurd (ground (arith, o.found))
    | inr (c, d) ↦ ground (arith, o.found)
  ]

  -- A live port: ClearCommError does not fail on it.
  abbrev pub IsLive : ℕ → Type 0
  IsLive h = (w : W) → is_some (api.clear_error h w) ≡ true

  pub ioctl_port-live :
      (s : Sys W) {h : ℕ} {t : Termios} {msr : ℕ}
      → IsOpen s fd h t msr
      → IsLive h
      → is_some (ioctl_port api fd s) ≡ true
  unfolding ioctl_port clear_errors
  ioctl_port-live s o live = ground (arith, o.found, live s.comm)

module _ {W : Type 0} (api : CommApi W) (fd : ℕ) (nonzero : fd ≢ 0) where
  -- TIOCMGET leaves the port as it was.
  pub tiocmget-IsOpen :
      (s : Sys W) (arg : ℕ) {h : ℕ} {t : Termios} {msr : ℕ}
      → IsOpen s fd h t msr
      → IsOpen (tiocmget api fd arg s).2 fd h t msr
  unfolding tiocmget
  tiocmget-IsOpen s arg o = elim (Option-cases (ioctl_port api fd s)) [
    | inl e ↦ rw (==_ne nonzero, e) o
    | inr ((p, s'), e) ↦
        let (f, a, b, c) = ioctl_port-IsOpen api fd s s' p o e in
        rw (==_ne nonzero, e)
          (record { port = p; found = f; handle = a; settings = b; register = c })
  ]

  -- TIOCMSET changes the register alone, and that only if the port's errors could be cleared.
  pub tiocmset-IsOpen :
      (s : Sys W) (arg : ℕ) {h : ℕ} {t : Termios} {msr : ℕ}
      → IsOpen s fd h t msr
      → (msr' : ℕ) × IsOpen (tiocmset api fd arg s).1 fd h t msr'
  unfolding tiocmset
  tiocmset-IsOpen s arg {msr} o = elim (Option-cases (ioctl_port api fd s)) [
    | inl e ↦ (msr, rw (==_ne nonzero, e) o)
    | inr ((p, s'), e) ↦
        let (f, a, b, c) = ioctl_port-IsOpen api fd s s' p o e in
        (
          store_lines arg p.msr,
          rw (==_ne nonzero, e)
              (record {
                port = record p { msr = store_lines arg p.msr };
                found = rw (==_refl fd);
                handle = a;
                settings = b;
                register = refl;
              }),
        )
  ]
