-- ===== src/Locks/Uucp.antt =====
-- `uucp_lock` and `uucp_unlock` of rxtx-devel/src/SerialImp.c, whose lock file is named by the numbers
-- of the device. They are modelled beside the checks of Locks/Check, with the branches and the lock
-- directory of the FHS build. In a build where LOCK stands for `uucp_lock`, FHS is not defined, and
-- `is_device_locked` looks for a stale lock file in the name with the numbers instead, and answers 1 when
-- the device is not there: that branch is not modelled. The argument `pid` of `uucp_lock` is not used.
pub mod Laws
use cameratrack.Base.{ℕ, ℤ, ◌==◌, on_some, if◌then◌else◌, ◌++◌}
use cameratrack.Locks.Text.{Bytes, bytes, pid_line}
use cameratrack.Locks.System.{Device, Os, Locals, create_new, write_new, unlink}
use cameratrack.Locks.Check.{lockdir, uucp_name, check_lock_status, check_lock_pid}

abbrev pub uucp_file : Device → Bytes
uucp_file d = lockdir ++ (bytes "/LK." ++ uucp_name d)

-- `uucp_lock` once the checks are passed and the device is found.
unfoldable pub make_lock : Bytes → Os → ℕ × Os
make_lock file os =
    on_some (os.entry file)
      (on_some (create_new file os) (1, os)
        λ os1. on_some (write_new file (pid_line os.pid) os1) (1, os1) λ os2. (0, os2))
      λ f. (1, os)

unfoldable pub uucp_lock : Locals → Bytes → ℤ → Os → ℕ × Os
unfolding make_lock
uucp_lock locals filename pid os =
    let (status, os1) = check_lock_status locals filename os in
    if status == 0
    then (on_some (os1.entry lockdir) (1, os1)
        λ d. on_some (os1.entry filename) (1, os1) λ port. make_lock (uucp_file port.device) os1)
    else (1, os1)

unfoldable pub uucp_unlock : Locals → Bytes → ℤ → Os → Os
uucp_unlock locals filename openpid os = on_some (os.entry filename) os λ port.
    let file = uucp_file port.device in
    on_some (os.entry file) os λ f.
      if check_lock_pid locals file openpid os == 0
      then on_some (unlink file os) os (λ os'. os')
      else os
