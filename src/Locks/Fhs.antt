-- ===== src/Locks/Fhs.antt =====
-- `fhs_lock` and `fhs_unlock` of rxtx-devel/src/SerialImp.c, which LOCK and UNLOCK stand for. The
-- argument `pid` of `fhs_lock` is not used: the file gets the number of this process.
pub mod Laws
pub mod Free
use cameratrack.Base.{ℕ, ℤ, ◌==◌, Option, on_some, if◌then◌else◌}
use cameratrack.Locks.Text.{Bytes, pid_line}
use cameratrack.Locks.System.{Os, Locals, create_new, write_new, unlink}
use cameratrack.Locks.Check.{lock_file, check_lock_status, check_lock_pid}

-- When the number cannot be written, the empty lock file stays.
unfoldable pub fhs_lock : Locals → Bytes → ℤ → Os → ℕ × Os
fhs_lock locals filename pid os =
    let (status, os1) = check_lock_status locals filename os in
    let file = lock_file filename in
    if status == 0
    then (on_some (create_new file os1) (1, os1)
        λ os2. on_some (write_new file (pid_line os2.pid) os2) (1, os2) λ os3. (0, os3))
    else (1, os1)

unfoldable pub fhs_unlock : Locals → Bytes → ℤ → Os → Os
fhs_unlock locals filename openpid os =
    let file = lock_file filename in
    if check_lock_pid locals file openpid os == 0
    then on_some (unlink file os) os (λ os'. os')
    else os
