-- ===== src/Termios/Attr/Reliable.antt =====
-- When the Windows calls on a handle succeed, so do `tcgetattr` and `tcsetattr`.
use cameratrack.Base.{ℕ, ◌≡◌, ◌≢◌, refl, true, Option, none, some, is_some, ==_ne, arith}
use cameratrack.Termios.{Termios, Dcb, Timeouts}
use cameratrack.Termios.Comm.{CommApi, Port, Sys}
use cameratrack.Termios.Attr.{tcgetattr, tcsetattr, termios_of, control, dcb_of_modes, timeouts_of}
use cameratrack.Termios.Attr.Laws.{IsRaw}

abbrev pub IsReliable : {W : Type 0} → CommApi W → ℕ → Type 0
IsReliable {W} api h =
    ((w : W) → is_some (api.get_state h w) ≡ true)
    × ((w : W) → is_some (api.get_timeouts h w) ≡ true)
    × ((d : Dcb) (w : W) → is_some (api.set_state h d w) ≡ true)
    × ((t : Timeouts) (w : W) → is_some (api.set_timeouts h t w) ≡ true)

pub is_some-some : {A : Type 0} (o : Option A) → is_some o ≡ true → (a : A) × (o ≡ some a)
is_some-some none e = absurd (ground (arith, e))
is_some-some (some a) e = (a, refl)

module _ {W : Type 0} (api : CommApi W) (fd : ℕ) (nonzero : fd ≢ 0) (port : Port)
    (reliable : IsReliable api port.h_comm) (s : Sys W) (found : s.find_port fd ≡ some port) where
  pub tcgetattr-IsReliable : (local : Termios) → (t : Termios) × (tcgetattr api fd local s ≡ some t)
  unfolding tcgetattr
  tcgetattr-IsReliable local =
      let (d, a) = is_some-some (api.get_state port.h_comm s.comm) (reliable.0 s.comm) in
      let (o, b) = is_some-some (api.get_timeouts port.h_comm s.comm) (reliable.1 s.comm) in
      (termios_of port.ttyset d o, rw (==_ne nonzero, found, a, b))

  pub tcsetattr-IsReliable : (t : Termios) → IsRaw t → (tcsetattr api fd t s).0 ≡ true
  unfolding tcsetattr
  tcsetattr-IsReliable t raw =
      let (d, a) = is_some-some (api.get_state port.h_comm s.comm) (reliable.0 s.comm) in
      let (o, b) = is_some-some (api.get_timeouts port.h_comm s.comm) (reliable.1 s.comm) in
      let new = dcb_of_modes (control t d).0 (control t d).1 in
      let (w, c) = is_some-some (api.set_state port.h_comm new s.comm) (reliable.2 new s.comm) in
      let times = timeouts_of (control t d).0 in
      let (w', e) = is_some-some (api.set_timeouts port.h_comm times w) (reliable.3 times w) in
      rw (==_ne nonzero, found, raw.not_canonical, a, b, c, e)
