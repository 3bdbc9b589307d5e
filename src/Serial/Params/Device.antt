-- ===== src/Serial/Params/Device.antt =====
-- What `set_port_params` leaves in the driver, in the terms of gnu.io.SerialPort.
use cameratrack.Base.{
  ℕ, ℤ, pos, ◌is◌, ◌≤◌, ◌≡◌, ◌≢◌, refl, ◌∙◌, sym, Bool, Bool-cases, true, false, Option-cases, inl,
  inr, some, ◌==◌, if◌then◌else◌, bit_and, arith,
}
use cameratrack.Bits.{complement, clear}
use cameratrack.Flags.{csize, cstopb, stopbits_1, stopbits_1_5, b9600, cignore, cbaud, tiocm_dtr}
use cameratrack.Termios.{Termios, Dcb}
use cameratrack.Termios.Comm.{CommApi, CommLaws, Port, Sys}
use cameratrack.Termios.Speed.{b_to_cbr, cfsetospeed, cfsetispeed}
use cameratrack.Termios.Attr.{tcgetattr, tcsetattr}
use cameratrack.Termios.Attr.Laws.{IsRaw, tcgetattr-IsRaw, Carries, tcsetattr-Carries}
use cameratrack.Termios.Modem.{tiocmget}
use cameratrack.Termios.Modem.Laws.{IsOpen, tiocmget-IsOpen, tiocmset-IsOpen}
use cameratrack.Serial.Settings.{translate_settings, get_data_bits}
use cameratrack.Serial.Settings.Laws.{settings_mask, settings-read_back}
use cameratrack.Serial.Settings.Masks.{parity_mask}
use cameratrack.Serial.Params.{drop_dtr, set_port_params}
use cameratrack.Serial.Params.Speeds.{cfsetospeed-effective_speed, cfsetospeed-keep}
use cameratrack.Serial.Params.Readers.{
  jparity, jstop_bits, bytesize-get_data_bits, under, parity-get_parity_switch,
  stop_bits-java_stop_bits, accepted-pos, data_bits-congr, parity-congr, stop_bits-congr,
}

module _ {W : Type 0} (api : CommApi W) (fd : ℕ) (nonzero : fd ≢ 0) where
  -- Dropping DTR keeps the port's handle and settings.
  drop_dtr-IsOpen :
      (s : Sys W) {h : ℕ} {t : Termios} {msr : ℕ}
      → IsOpen s fd h t msr
      → (msr' : ℕ) × IsOpen (drop_dtr api fd s) fd h t msr'
  unfolding drop_dtr
  drop_dtr-IsOpen s o =
      tiocmset-IsOpen api fd nonzero _ (clear (tiocmget api fd 0 s).1 tiocm_dtr)
        (tiocmget-IsOpen api fd nonzero s 0 o)

  -- The state in which the settings are written.
  pub ready :
      (cspeed : ℕ) (s : Sys W) (port : Port)
      → s.find_port fd ≡ some port
      → (msr : ℕ) × IsOpen
          (if cspeed == 0 then drop_dtr api fd s else s)
          fd
          port.h_comm
          port.ttyset
          msr
  ready cspeed s port found =
      let o : IsOpen s fd port.h_comm port.ttyset port.msr = record {
        port = port;
        found = found;
        handle = refl;
        settings = refl;
        register = refl;
      } in
      elim (Bool-cases (cspeed == 0)) [
        | inl e ↦ rw e (drop_dtr-IsOpen s o)
        | inr e ↦ rw e (port.msr, o)
      ]

-- The structure that is written: `word` with the speed.
abbrev pub written : Termios → ℕ → ℕ → Termios
written t word cspeed = cfsetospeed (cfsetispeed (record t { c_cflag = word }) cspeed) cspeed

written-keep :
    (t : Termios) (word cspeed m : ℕ)
    → cspeed ≤ 0xffff_ffff
    → bit_and (complement cbaud) m ≡ m
    → bit_and cbaud m ≡ 0
    → bit_and (written t word cspeed).c_cflag m ≡ bit_and word m
unfolding cfsetispeed
written-keep t word cspeed m fits p q =
    cfsetospeed-keep (cfsetospeed (record t { c_cflag = word }) cspeed) cspeed m fits p q
    ∙ cfsetospeed-keep (record t { c_cflag = word }) cspeed m fits p q

-- The settings of a written structure, as the DCB has them.
abbrev pub HasSettings : Dcb → ℕ → ℤ → ℤ → ℤ → Type 0
HasSettings d cspeed data_bits stop_bits parity =
    (d.baud_rate ≡ b_to_cbr (if cspeed == 0 then b9600 else cspeed))
    × (pos d.byte_size ≡ (if stop_bits is stopbits_1_5 then pos 5 else data_bits))
    × (jstop_bits d.stop_bits ≡ (
        if stop_bits is stopbits_1 then pos 1 else if pos d.byte_size is 5 then pos 3 else pos 2))
    × (jparity d.parity ≡ parity)

written-HasSettings :
    (t : Termios) (c word cspeed : ℕ) (data_bits stop_bits parity : ℤ) (d : Dcb)
    → cspeed ≤ 0xffff_ffff
    → translate_settings c data_bits stop_bits parity ≡ some word
    → Carries (written t word cspeed) d
    → HasSettings d cspeed data_bits stop_bits parity
written-HasSettings t c word cspeed data_bits stop_bits parity d fits done carries =
    let w : ℕ = (written t word cspeed).c_cflag in
    let (n, known) = accepted-pos c data_bits stop_bits parity word done in
    let (bits, stop, par, keep) = settings-read_back c data_bits stop_bits parity word done in
    let same = λ (m : ℕ). written-keep t word cspeed m fits in
    let read_bits : pos d.byte_size ≡ get_data_bits word =
      rw (carries.1)
        (sym (bytesize-get_data_bits w) ∙ data_bits-congr w word (same csize refl refl)) in
    (
      carries.0
          ∙ rw (
              cfsetospeed-effective_speed (cfsetispeed (record t { c_cflag = word }) cspeed) cspeed
                fits),
      read_bits ∙ bits,
      rw (carries.3, read_bits)
          (stop_bits-java_stop_bits w
            ∙ stop_bits-congr w word (same csize refl refl) (same cstopb refl refl)
            ∙ stop),
      rw (carries.2, known)
          (parity-get_parity_switch w n
            (parity-congr w word (same parity_mask refl refl) ∙ par ∙ known)),
    )

pub written-IsRaw :
    (t : Termios) (word cspeed : ℕ)
    → cspeed ≤ 0xffff_ffff
    → IsRaw t
    → clear word settings_mask ≡ clear t.c_cflag settings_mask
    → IsRaw (written t word cspeed)
written-IsRaw t word cspeed fits raw keep = record {
  not_canonical = unfold cfsetispeed cfsetospeed in raw.not_canonical;
  not_ignored =
      written-keep t word cspeed cignore fits refl refl
      ∙ under word (complement settings_mask) cignore refl
      ∙ rw keep (sym (under t.c_cflag (complement settings_mask) cignore refl) ∙ raw.not_ignored);
}

-- The end of `set_port_params`.
result-zero :
    {W : Type 0} (r : Bool × Termios × Sys W) (s' : Sys W)
    → ◌≡◌ {A = ℕ × Sys W} (if r.0 then (0, r.2) else (1, r.2)) (0, s')
    → r ≡ (true, r.1, s')
result-zero (true, t, s) s' e = ground arith
result-zero (false, t, s) s' e = absurd (ground arith)

-- If set_port_params returns 0 for an open port with raw settings (no ICANON, no CIGNORE), a
-- positive descriptor and a speed of 32 bits, over Windows calls that keep to their documentation,
-- the driver holds exactly the frame asked for: the rate that the speed stands for (9600 for 0), the
-- data bits (5 with 1.5 stop bits), the stop bits (1.5 for 2 with 5 data bits) and the parity.
pub set_port_params-HasSettings :
    {W : Type 0} (api : CommApi W) (laws : CommLaws api) (fd cspeed : ℕ)
    (data_bits stop_bits parity : ℤ) (local : Termios) (port : Port) (s s' : Sys W)
    → fd ≢ 0
    → cspeed ≤ 0xffff_ffff
    → s.find_port fd ≡ some port
    → IsRaw port.ttyset
    → set_port_params api local fd cspeed data_bits stop_bits parity s ≡ (0, s')
    → (d : Dcb) × (api.get_state port.h_comm s'.comm ≡ some d)
      × HasSettings d cspeed data_bits stop_bits parity
unfolding set_port_params
set_port_params-HasSettings api laws fd cspeed data_bits stop_bits parity local port s s' nonzero
      fits found raw done =
    elim (Option-cases (tcgetattr api fd local s)) [
      | inl e ↦ absurd (ground arith)
      | inr (t, e) ↦ elim (Option-cases (translate_settings t.c_cflag data_bits stop_bits parity)) [
        | inl f ↦ absurd (ground arith)
        | inr (word, f) ↦
            let s1 = if cspeed == 0 then drop_dtr api fd s else s in
            let (msr, o) = ready api fd nonzero cspeed s port found in
            let raw1 = tcgetattr-IsRaw api fd nonzero port local t s found raw e in
            let (_, _, _, keep) = settings-read_back t.c_cflag data_bits stop_bits parity word f in
            let r = tcsetattr api fd (written t word cspeed) s1 in
            let last : r ≡ (true, r.1, s') = result-zero r s' (rw (e, f) at done) in
            let (d, got, carries) =
              tcsetattr-Carries api laws fd nonzero o.port (written t word cspeed) r.1 s1 s' o.found
                (written-IsRaw t word cspeed fits raw1 keep) last in
            (
              d,
              rw o.handle at got,
              written-HasSettings t t.c_cflag word cspeed data_bits stop_bits parity d fits f
                  carries,
            )
      ]
    ]
