-- ===== src/Serial/Flow.antt =====
-- `setflowcontrol` and `nativeGetFlowControlMode` of rxtx-devel/src/SerialImp.c.
pub mod Laws
use cameratrack.Base.{
  ℕ, Bool, true, false, Option, none, some, if◌then◌else◌, on_some, bit_and, bit_or,
}
use cameratrack.Bits.{clear}
use cameratrack.Flags.{
  crtscts, ixon, ixoff, ixany, flowcontrol_rtscts_in, flowcontrol_rtscts_out,
  flowcontrol_xonxoff_in, flowcontrol_xonxoff_out,
}
use cameratrack.Termios.{Termios}
use cameratrack.Termios.Comm.{CommApi, Sys}
use cameratrack.Termios.Convert.{has}
use cameratrack.Termios.Attr.{tcgetattr, tcsetattr}

-- What `setflowcontrol` writes into the structure. The bits of `flowmode` are those of its 32-bit
-- pattern.
unfoldable pub flow_modes : ℕ → Termios → Termios
flow_modes flowmode t =
    let c =
      if has flowmode (bit_or flowcontrol_rtscts_in flowcontrol_rtscts_out)
      then bit_or t.c_cflag crtscts
      else clear t.c_cflag crtscts in
    let i0 = clear t.c_iflag ixany in
    let i1 = if has flowmode flowcontrol_xonxoff_in then bit_or i0 ixoff else clear i0 ixoff in
    let i2 = if has flowmode flowcontrol_xonxoff_out then bit_or i1 ixon else clear i1 ixon in
    record t { c_cflag = c; c_iflag = i2 }

-- What `nativeGetFlowControlMode` reads from the structure.
unfoldable pub flow_mode : Termios → ℕ
flow_mode t =
    let r0 =
      if has t.c_cflag crtscts
      then bit_or 0 (bit_or flowcontrol_rtscts_in flowcontrol_rtscts_out)
      else 0 in
    let r1 = if has t.c_iflag ixoff then bit_or r0 flowcontrol_xonxoff_in else r0 in
    if has t.c_iflag ixon then bit_or r1 flowcontrol_xonxoff_out else r1

module _ {W : Type 0} (api : CommApi W) where
  -- The result `false` is the thrown UnsupportedCommOperationException.
  unfoldable pub setflowcontrol : Termios → ℕ → ℕ → Sys W → Bool × Sys W
  unfolding flow_modes
  setflowcontrol local fd flowmode s =
      on_some (tcgetattr api fd local s) (false, s)
        λ t. let (done, _, s') = tcsetattr api fd (flow_modes flowmode t) s in (done, s')

  -- The result of `tcgetattr` is not looked at: when it fails, the uninitialised `local` is read.
  unfoldable pub native_get_flow_control_mode : Termios → ℕ → Sys W → ℕ
  unfolding flow_mode
  native_get_flow_control_mode local fd s =
      on_some (tcgetattr api fd local s) (flow_mode local) λ t. flow_mode t
