-- ===== src/Serial/Timeouts.antt =====
-- The receive timeouts of RXTXPort in rxtx-devel/src/SerialImp.c:
-- `NativeEnableReceiveTimeoutThreshold`, `NativegetReceiveTimeout` and `NativeisReceiveTimeoutEnabled`.
use cameratrack.Base.{
  ℕ, zero, suc, ℤ, pos, negsuc, ◌*◌, ◌/◌, Bool, false, ltb, on_some, Option, none, some,
}
use cameratrack.Flags.{vmin, vtime}
use cameratrack.Termios.{Termios, update}
use cameratrack.Termios.Comm.{CommApi, Sys}
use cameratrack.Termios.Attr.{tcgetattr, tcsetattr}
use cameratrack.Serial.Write.{byte_of}

-- Milliseconds: 0 is taken for 1, and a negative number for 0.
abbrev pub clamped : ℤ → ℕ
clamped (negsuc n) = 0
clamped (pos zero) = 1
clamped (pos (suc n)) = suc n

module _ {W : Type 0} (api : CommApi W) (local : Termios) (fd : ℕ) where
  -- `false` is an exception. The members of `c_cc` are unsigned characters.
  unfoldable pub native_enable_receive_timeout_threshold : ℤ → ℤ → Sys W → Bool × Sys W
  native_enable_receive_timeout_threshold time threshold s =
      on_some (tcgetattr api fd local s) (false, s)
        λ t.
          let modes : Termios = record t {
            c_cc =
                update (update t.c_cc vmin (byte_of threshold)) vtime
                  (byte_of (pos (clamped time / 100)));
          } in
          let (done, _, s') = tcsetattr api fd modes s in (done, s')

  -- `none` is an exception.
  unfoldable pub nativeget_receive_timeout : Sys W → Option ℕ
  nativeget_receive_timeout s =
      on_some (tcgetattr api fd local s) none (λ t. some (t.c_cc vtime * 100))

  unfoldable pub nativeis_receive_timeout_enabled : Sys W → Option Bool
  nativeis_receive_timeout_enabled s =
      on_some (tcgetattr api fd local s) none (λ t. some (ltb 0 (t.c_cc vtime)))
