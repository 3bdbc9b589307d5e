-- ===== src/Examples/Status.antt =====
-- What the example port reports of its queues, after a flush.
use cameratrack.Base.{ℕ, Bool, ◌≡◌, refl}
use cameratrack.Termios.Comm.{Sys}
use cameratrack.Termios.Modem.{ioctl_port, clear_errors}
use cameratrack.Termios.Queues.{tcioflush, tcflush, purge}
use cameratrack.Termios.Status.{fionread, tiocsergetlsr}
use cameratrack.Serial.Close.{nativeavailable}
use cameratrack.Examples.Setup.{Driver, driver, sys}
use cameratrack.Examples.Close.{queues}

-- Test: the bytes that wait.
three : (nativeavailable driver 1 0 sys).1 ≡ 3
unfolding nativeavailable fionread ioctl_port clear_errors
three = refl

abbrev asked : Sys Driver → Bool × ℕ × Sys Driver
asked s = tiocsergetlsr driver queues 1 5 s

-- Test: an empty output is reported once.
once :
    ((asked (tcflush queues 1 tcioflush sys).1).1 ≡ 1)
    × ((asked (asked (tcflush queues 1 tcioflush sys).1).2).1 ≡ 0)
unfolding tiocsergetlsr tcflush purge ioctl_port clear_errors
once = (refl, refl)
