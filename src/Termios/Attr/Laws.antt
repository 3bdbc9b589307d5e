-- ===== src/Termios/Attr/Laws.antt =====
-- What `tcgetattr` keeps of the stored settings, and what `tcsetattr` leaves in the driver.
use cameratrack.Base.{
  ℕ, ◌≡◌, ◌≢◌, ◌∙◌, true, some, ==_ne, ==_refl, if◌then◌else◌, bit_and, bit_or, Option-cases, inl,
  inr, arith,
}
use cameratrack.Bits.{clear, mask_laws}
use cameratrack.Flags.{cignore, icanon, cbaud, cbaudex, crtscts, ixon, ixoff}
use cameratrack.Termios.{
  Termios, Dcb, Timeouts, Parity, no_parity, odd_parity, even_parity, mark_parity, space_parity,
  StopBits, one_stop_bit, one5_stop_bits, two_stop_bits, rts_handshake, rts_disable,
}
use cameratrack.Termios.Comm.{CommApi, CommLaws, Port, Sys, set_port}
use cameratrack.Termios.Convert.{
  has, termios_to_dcb, dcb_to_termios, framing_of_dcb, cflag_of_dcb, add_stop_bits, add_parity,
  bytesize_to_termios, termios_to_bytesize, parity_of_cflag, stop_bits_of_cflag,
}
use cameratrack.Termios.Speed.{b_to_cbr}
use cameratrack.Termios.Attr.{tcgetattr, tcsetattr, termios_of, control, dcb_of_modes, timeouts_of}

-- The port was set up by the library: no canonical mode, and CIGNORE is not asked for.
pub record IsRaw (t : Termios) : Type 0 where
  pub not_canonical : bit_and t.c_lflag icanon ≡ 0
  pub not_ignored : bit_and t.c_cflag cignore ≡ 0

stop_bits-cignore : (b : StopBits) (w : ℕ) → bit_and (add_stop_bits b w) cignore ≡ bit_and w cignore
unfolding add_stop_bits
stop_bits-cignore two_stop_bits w = simp mask_laws
stop_bits-cignore one5_stop_bits w = simp mask_laws
stop_bits-cignore one_stop_bit w = simp mask_laws

parity-cignore : (p : Parity) (w : ℕ) → bit_and (add_parity p w) cignore ≡ bit_and w cignore
unfolding add_parity
parity-cignore mark_parity w = simp mask_laws
parity-cignore space_parity w = simp mask_laws
parity-cignore odd_parity w = simp mask_laws
parity-cignore even_parity w = simp mask_laws
parity-cignore no_parity w = simp mask_laws

size-cignore : (n : ℕ) → bit_and (bytesize_to_termios n) cignore ≡ 0
unfolding bytesize_to_termios
size-cignore n = ground arith

framing-cignore : (dcb : Dcb) (w : ℕ) → bit_and (framing_of_dcb dcb w) cignore ≡ bit_and w cignore
unfolding framing_of_dcb
framing-cignore dcb w = simp (mask_laws, parity-cignore, stop_bits-cignore, size-cignore)

cflag_of_dcb-cignore :
    (dcb : Dcb) (w : ℕ) → bit_and (cflag_of_dcb dcb w) cignore ≡ bit_and w cignore
unfolding cflag_of_dcb
cflag_of_dcb-cignore dcb w =
    let f = framing_of_dcb dcb w in
    let set : bit_and (bit_or f crtscts) cignore ≡ bit_and f cignore = simp mask_laws in
    let cleared : bit_and (clear f crtscts) cignore ≡ bit_and f cignore = simp mask_laws in
    ground (arith, framing-cignore dcb w)

dcb_to_termios-cignore :
    (dcb : Dcb) (t : Termios)
    → bit_and (dcb_to_termios dcb t).c_cflag cignore ≡ bit_and t.c_cflag cignore
unfolding dcb_to_termios
dcb_to_termios-cignore dcb t = simp mask_laws

termios_of-IsRaw :
    (t : Termios) (dcb : Dcb) (timeouts : Timeouts) → IsRaw t → IsRaw (termios_of t dcb timeouts)
unfolding termios_of
termios_of-IsRaw t dcb timeouts raw = record {
  not_canonical = unfold dcb_to_termios in raw.not_canonical;
  not_ignored = dcb_to_termios-cignore dcb _ ∙ cflag_of_dcb-cignore dcb t.c_cflag ∙ raw.not_ignored;
}

module _ {W : Type 0} (api : CommApi W) (fd : ℕ) (nonzero : fd ≢ 0) (port : Port) where
  tcgetattr-termios_of :
      (local t : Termios) (s : Sys W)
      → s.find_port fd ≡ some port
      → tcgetattr api fd local s ≡ some t
      → (dcb : Dcb) × (timeouts : Timeouts) × (t ≡ termios_of port.ttyset dcb timeouts)
  unfolding tcgetattr
  tcgetattr-termios_of local t s found got =
      elim (Option-cases (api.get_state port.h_comm s.comm)) [
        | inl e ↦ ground arith
        | inr (d, e) ↦ elim (Option-cases (api.get_timeouts port.h_comm s.comm)) [
          | inl e' ↦ ground arith
          | inr (o, e') ↦ (d, o, ground arith)
        ]
      ]

  -- What `tcgetattr` returns is as raw as the stored settings.
  pub tcgetattr-IsRaw :
      (local t : Termios) (s : Sys W)
      → s.find_port fd ≡ some port
      → IsRaw port.ttyset
      → tcgetattr api fd local s ≡ some t
      → IsRaw t
  tcgetattr-IsRaw local t s found raw got =
      let (d, o, e) = tcgetattr-termios_of local t s found got in
      rw e (termios_of-IsRaw port.ttyset d o raw)

-- The DCB that a raw structure is turned into.
abbrev pub Carries : Termios → Dcb → Type 0
Carries t d =
    (d.baud_rate ≡ b_to_cbr (if has t.c_cflag cbaudex then t.c_ispeed else bit_and t.c_cflag cbaud))
    × (d.byte_size ≡ termios_to_bytesize t.c_cflag)
    × (d.parity ≡ parity_of_cflag t.c_cflag)
    × (d.stop_bits ≡ stop_bits_of_cflag t.c_cflag (termios_to_bytesize t.c_cflag))
    × (d.f_outx_cts_flow ≡ has t.c_cflag crtscts)
    × (d.f_rts_control ≡ (if has t.c_cflag crtscts then rts_handshake else rts_disable))
    × (d.f_out_x ≡ has t.c_iflag ixon)
    × (d.f_in_x ≡ has t.c_iflag ixoff)

control-Carries :
    (t : Termios) (d : Dcb) → IsRaw t → Carries t (dcb_of_modes (control t d).0 (control t d).1)
unfolding control dcb_of_modes termios_to_dcb
control-Carries t d raw = ground arith

module _ {W : Type 0} (api : CommApi W) (fd : ℕ) (nonzero : fd ≢ 0) (port : Port) where
  -- What a success did: the DCB and the timeouts were set, and the port keeps the settings.
  pub tcsetattr-steps :
      (t t' : Termios) (s s' : Sys W)
      → s.find_port fd ≡ some port
      → IsRaw t
      → tcsetattr api fd t s ≡ (true, t', s')
      → (d : Dcb) × (w : W) × (w' : W) × (api.set_state port.h_comm
            (dcb_of_modes (control t d).0 (control t d).1)
            s.comm
          ≡ some w)
        × (api.set_timeouts port.h_comm (timeouts_of (control t d).0) w ≡ some w')
        × (s' ≡ set_port fd (record port { ttyset = (control t d).0 }) (record s { comm = w' }))
  unfolding tcsetattr
  tcsetattr-steps t t' s s' found raw done =
      elim (Option-cases (api.get_state port.h_comm s.comm)) [
        | inl e ↦ absurd (ground arith)
        | inr (d, e) ↦ elim (Option-cases (api.get_timeouts port.h_comm s.comm)) [
          | inl e' ↦ absurd (ground arith)
          | inr (o, e') ↦
              let new = dcb_of_modes (control t d).0 (control t d).1 in
              elim (Option-cases (api.set_state port.h_comm new s.comm)) [
                | inl f ↦ absurd (ground arith)
                | inr (w, f) ↦
                    let times = timeouts_of (control t d).0 in
                    elim (Option-cases (api.set_timeouts port.h_comm times w)) [
                      | inl g ↦ absurd (ground arith)
                      | inr (w', g) ↦ (d, w, w', f, g, ground arith)
                    ]
              ]
        ]
      ]

module _ {W : Type 0} (api : CommApi W) (laws : CommLaws api) (fd : ℕ) (nonzero : fd ≢ 0)
    (port : Port) (t t' : Termios) (s s' : Sys W) where
  -- After a success the driver holds a DCB that carries the settings.
  pub tcsetattr-Carries :
      s.find_port fd ≡ some port
      → IsRaw t
      → tcsetattr api fd t s ≡ (true, t', s')
      → (d : Dcb) × (api.get_state port.h_comm s'.comm ≡ some d) × Carries t d
  tcsetattr-Carries found raw done =
      let (d, w, w', f, g, last) = tcsetattr-steps api fd nonzero port t t' s s' found raw done in
      let times = timeouts_of (control t d).0 in
      let new = dcb_of_modes (control t d).0 (control t d).1 in
      (
        new,
        rw last (
            laws.state-set_timeouts port.h_comm times w w' g
            ∙ laws.get-set_state port.h_comm new s.comm w f),
        control-Carries t d raw,
      )

  -- And `tcgetattr` then succeeds, and reads that DCB.
  pub tcsetattr-tcgetattr :
      (local : Termios)
      → s.find_port fd ≡ some port
      → IsRaw t
      → tcsetattr api fd t s ≡ (true, t', s')
      → (d : Dcb) × (stored : Termios) × (timeouts : Timeouts) × Carries t d
        × (tcgetattr api fd local s' ≡ some (termios_of stored d timeouts))
  unfolding tcgetattr
  tcsetattr-tcgetattr local found raw done =
      let (d, w, w', f, g, last) = tcsetattr-steps api fd nonzero port t t' s s' found raw done in
      let times = timeouts_of (control t d).0 in
      let new = dcb_of_modes (control t d).0 (control t d).1 in
      let got : api.get_state port.h_comm w' ≡ some new =
        laws.state-set_timeouts port.h_comm times w w' g
        ∙ laws.get-set_state port.h_comm new s.comm w f in
      (
        new,
        (control t d).0,
        times,
        control-Carries t d raw,
        rw (last, ==_ne nonzero, ==_refl fd, got, laws.get-set_timeouts port.h_comm times w w' g),
      )
