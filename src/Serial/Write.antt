-- ===== src/Serial/Write.antt =====
-- `writeByte`, `writeArray` and `nativeDrain` of RXTXPort in rxtx-devel/src/SerialImp.c, where
-- TIOCSERGETLSR is defined, over the calls `write` and `tcdrain`.
pub mod Laws
use cameratrack.Base.{
  ℕ, zero, suc, ℤ, pos, negsuc, ◌+◌, ◌-◌, ◌%◌, Bool, true, false, not, ltb, ◌==◌, Option, none,
  some, on_some, if◌then◌else◌, List, [], ◌∷◌, length, drop,
}
use cameratrack.Flags.{spe_output_buffer_empty}
use cameratrack.Serial.Events.{Eis, send_event}

-- What `write` answers: a count, -1 with EINTR, or -1 with another error.
pub data Written : Type 0 where
  wrote : ℕ → Written
  interrupted failed : Written

-- What `tcdrain` answers: 0, or something else with EINTR or without.
pub data Drained : Type 0 where
  drained drain_interrupted drain_failed : Drained

-- The calls over the state `W` behind them.
pub record Output (W : Type 0) : Type 0 where
  pub write : List ℕ → W → Written × W
  pub tcdrain : W → Drained × W

-- `(unsigned char)`.
abbrev pub byte_of : ℤ → ℕ
byte_of (pos n) = n % 256
byte_of (negsuc n) = 255 - n % 256

abbrev pub is_failure : Written → Bool
is_failure (wrote n) = false
is_failure interrupted = true
is_failure failed = true

module _ {W : Type 0} (out : Output W) where
  -- The byte is written again after EINTR. Whether an exception is thrown.
  unfoldable pub write_byte : ℕ → ℤ → W → Option (Bool × W)
  write_byte zero ji w = none
  write_byte (suc fuel) ji w =
      let (result, w') = out.write (byte_of ji ∷ []) w in
      let rest = write_byte fuel ji w' in
      elim result [ wrote n ↦ some (false, w') | interrupted ↦ rest | failed ↦ some (true, w') ]

  -- The loop over the bytes from the offset on, of which `total` are written.
  unfoldable pub write_loop : ℕ → List ℕ → ℕ → W → Option (Written × ℕ × W)
  write_loop zero body total w = none
  write_loop (suc fuel) body total w =
      let (result, w') = out.write (drop total body) w in
      let rest = write_loop fuel body total w' in
      elim result [
        | wrote n ↦ some (wrote n, total + n, w')
        | interrupted ↦ if ltb total (length body) then rest else some (interrupted, total, w')
        | failed ↦ some (failed, total, w')
      ]

  unfoldable pub write_array : ℕ → List ℕ → W → Option (Bool × W)
  write_array fuel body w =
      on_some (write_loop fuel body 0 w) none λ (result, _, w'). some (is_failure result, w')

  -- At most as many calls as `tries`; whether the last one failed.
  unfoldable pub drain_loop : ℕ → W → Bool × W
  drain_loop zero w = (true, w)
  drain_loop (suc tries) w =
      let (result, w') = out.tcdrain w in
      let rest = drain_loop tries w' in
      elim result [
        | drained ↦ (false, w')
        | drain_interrupted ↦ if tries == 0 then (true, w') else rest
        | drain_failed ↦ (true, w')
      ]

  -- Whether an exception is thrown, and the event loop's structure, if there is one. The function goes
  -- on after the exception. What it returns is always false.
  unfoldable pub native_drain : Bool → Option Eis → W → Bool × Option Eis × W
  native_drain quiet eis w =
      let (thrown, w') = drain_loop 3 w in
      let told = on_some eis none λ e.
        if e.eventflags spe_output_buffer_empty == 0
        then some e
        else some (send_event spe_output_buffer_empty (pos 1) e) in
      (thrown, if quiet then eis else told, w')
