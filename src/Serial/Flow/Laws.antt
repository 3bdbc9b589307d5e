-- ===== src/Serial/Flow/Laws.antt =====
-- Flow control through the driver and back.
use cameratrack.Base.{
  ℕ, ◌+◌, ◌≡◌, ◌≢◌, refl, ◌∙◌, ap, not, ◌||◌, Bool, true, Option-cases, inl, inr, some, ◌==◌,
  if◌then◌else◌, bit_and, arith,
}
use cameratrack.Bits.{mask_laws}
use cameratrack.Flags.{crtscts, ixon, ixoff, ixany, cignore}
use cameratrack.Termios.{Termios, Dcb, Timeouts}
use cameratrack.Termios.Comm.{CommApi, CommLaws, Port, Sys}
use cameratrack.Termios.Convert.{
  has, is_handshake, framing_of_dcb, cflag_of_dcb, iflag_of_dcb, dcb_to_termios,
}
use cameratrack.Termios.Attr.{tcgetattr, tcsetattr, termios_of}
use cameratrack.Termios.Attr.Laws.{IsRaw, tcgetattr-IsRaw, Carries, tcsetattr-tcgetattr}
use cameratrack.Serial.Settings.Masks.{clear_self, set_self}
use cameratrack.Serial.Lines.Words.{put-same, put-other}
use cameratrack.Serial.Flow.{flow_modes, flow_mode, setflowcontrol, native_get_flow_control_mode}

-- What the readers of a structure see of a DCB.
module _ (d : Dcb) where
  cflag-crtscts :
      (w : ℕ) → has (cflag_of_dcb d w) crtscts ≡ (d.f_outx_cts_flow || is_handshake d.f_rts_control)
  unfolding cflag_of_dcb
  cflag-crtscts w =
      let f = framing_of_dcb d w in ground (arith, set_self f crtscts, clear_self f crtscts refl)

  speed-crtscts :
      (t : Termios) → bit_and (dcb_to_termios d t).c_cflag crtscts ≡ bit_and t.c_cflag crtscts
  unfolding dcb_to_termios
  speed-crtscts t = simp mask_laws

  iflag-ixon : (w : ℕ) → has (iflag_of_dcb d w) ixon ≡ d.f_out_x
  unfolding iflag_of_dcb
  iflag-ixon w =
      ap (λ (x : ℕ). not (x == 0)) (put-other d.f_tx_continue_on_xoff _ ixany ixon refl refl)
      ∙ ap (λ (x : ℕ). not (x == 0)) (put-other d.f_in_x _ ixoff ixon refl refl)
      ∙ put-same d.f_out_x _ ixon refl (omega arith)

  iflag-ixoff : (w : ℕ) → has (iflag_of_dcb d w) ixoff ≡ d.f_in_x
  unfolding iflag_of_dcb
  iflag-ixoff w =
      ap (λ (x : ℕ). not (x == 0)) (put-other d.f_tx_continue_on_xoff _ ixany ixoff refl refl)
      ∙ put-same d.f_in_x _ ixoff refl (omega arith)

-- A mode with one hardware bit for both directions.
abbrev pub symmetric : ℕ → ℕ
symmetric flowmode =
    (if has flowmode 3 then 3 else 0)
    + (if has flowmode 4 then 4 else 0)
    + (if has flowmode 8 then 8 else 0)

flow_mode-of_lines :
    (t : Termios) (m : ℕ)
    → has t.c_cflag crtscts ≡ has m 3
    → has t.c_iflag ixoff ≡ has m 4
    → has t.c_iflag ixon ≡ has m 8
    → flow_mode t ≡ symmetric m
unfolding flow_mode
flow_mode-of_lines t m p q r = ground (arith, p, q, r)

module _ (m : ℕ) (t : Termios) where
  flow_modes-crtscts : has (flow_modes m t).c_cflag crtscts ≡ has m 3
  unfolding flow_modes
  flow_modes-crtscts = put-same (has m 3) t.c_cflag crtscts refl (omega arith)

  flow_modes-ixon : has (flow_modes m t).c_iflag ixon ≡ has m 8
  unfolding flow_modes
  flow_modes-ixon = put-same (has m 8) _ ixon refl (omega arith)

  flow_modes-ixoff : has (flow_modes m t).c_iflag ixoff ≡ has m 4
  unfolding flow_modes
  flow_modes-ixoff =
      ap (λ (x : ℕ). not (x == 0)) (put-other (has m 8) _ ixon ixoff refl refl)
      ∙ put-same (has m 4) _ ixoff refl (omega arith)

  flow_modes-IsRaw : IsRaw t → IsRaw (flow_modes m t)
  unfolding flow_modes
  flow_modes-IsRaw raw = record {
    not_canonical = raw.not_canonical;
    not_ignored = put-other (has m 3) t.c_cflag crtscts cignore refl refl ∙ raw.not_ignored;
  }

-- The DCB of the flow modes reads as the mode.
termios_of-symmetric :
    (m : ℕ) (t stored : Termios) (d : Dcb) (o : Timeouts)
    → Carries (flow_modes m t) d
    → flow_mode (termios_of stored d o) ≡ symmetric m
unfolding termios_of
termios_of-symmetric m t stored d o carries =
    flow_mode-of_lines _ m
      (ap (λ (x : ℕ). not (x == 0)) (speed-crtscts d _)
        ∙ cflag-crtscts d stored.c_cflag
        ∙ ground (arith, carries.4, carries.5, flow_modes-crtscts m t))
      (unfold dcb_to_termios in iflag-ixoff d stored.c_iflag ∙ carries.7 ∙ flow_modes-ixoff m t)
      (unfold dcb_to_termios in iflag-ixon d stored.c_iflag ∙ carries.6 ∙ flow_modes-ixon m t)

result-true :
    {W : Type 0} (r : Bool × Termios × Sys W) (s' : Sys W)
    → ◌≡◌ {A = Bool × Sys W} (r.0, r.2) (true, s')
    → r ≡ (true, r.1, s')
result-true r s' e = ground arith

-- If setflowcontrol succeeds on an open port with raw settings (no ICANON, no CIGNORE) and a
-- positive descriptor, over Windows calls that keep to their documentation, nativeGetFlowControlMode
-- then reads the mode back from the driver, but hardware flow control in one direction reads as
-- both.
pub setflowcontrol-native_get_flow_control_mode :
    {W : Type 0} (api : CommApi W) (laws : CommLaws api) (fd flowmode : ℕ) (local : Termios)
    (port : Port) (s s' : Sys W)
    → fd ≢ 0
    → s.find_port fd ≡ some port
    → IsRaw port.ttyset
    → setflowcontrol api local fd flowmode s ≡ (true, s')
    → (local' : Termios) → native_get_flow_control_mode api local' fd s' ≡ symmetric flowmode
unfolding setflowcontrol native_get_flow_control_mode
setflowcontrol-native_get_flow_control_mode api laws fd flowmode local port s s' nonzero found raw
      done local' =
    elim (Option-cases (tcgetattr api fd local s)) [
      | inl e ↦ absurd (ground arith)
      | inr (t, e) ↦
          let raw1 = tcgetattr-IsRaw api fd nonzero port local t s found raw e in
          let r = tcsetattr api fd (flow_modes flowmode t) s in
          let last : r ≡ (true, r.1, s') = result-true r s' (rw e at done) in
          let (d, stored, o, carries, got) =
            tcsetattr-tcgetattr api laws fd nonzero port (flow_modes flowmode t) r.1 s s' local'
              found (flow_modes-IsRaw flowmode t raw1) last in
          rw got (termios_of-symmetric flowmode t stored d o carries)
    ]
