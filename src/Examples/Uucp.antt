-- ===== src/Examples/Uucp.antt =====
-- Process 42 and the lock file named by the numbers of a device.
use cameratrack.Base.{◌≡◌, ◌≢◌, refl, pos, true, false, none, some, if◌then◌else◌, [], arith}
use cameratrack.Locks.Text.{Bytes, bytes, same, base_name, back_to_slash, pid_line, three_digits}
use cameratrack.Locks.System.{File, Os}
use cameratrack.Locks.System.Laws.{same_refl}
use cameratrack.Locks.Check.{
  lockdir, lock_file, check_group_uucp, has_lock_in, is_other_dir, has_unexpected_lock,
  is_locked_elsewhere, drop_stale, is_device_locked, check_lock_status,
}
use cameratrack.Locks.Uucp.{uucp_file, make_lock, uucp_lock, uucp_unlock}
use cameratrack.Locks.Uucp.Laws.{WithinThree, uucp_lock-held, uucp_lock-uucp_unlock}
use cameratrack.Examples.Locks.{with_lock, locals, tty, plain}

abbrev there : Os
there = record (with_lock none) {
  entry = λ (q : Bytes).
      if same q lockdir then some (plain 2 []) else if same q tty then some (plain 3 []) else none;
}

abbrev file : Bytes
file = uucp_file (plain 3 []).device

file-bytes : file ≡ bytes "/var/lock/LK.000.004.064"
unfolding three_digits
file-bytes = refl

after : Os
after = (uucp_lock locals tty (pos 0) there).1

locked : uucp_lock locals tty (pos 0) there ≡ (0, after)
unfolding after uucp_lock make_lock check_lock_status check_group_uucp is_device_locked
    is_locked_elsewhere has_unexpected_lock is_other_dir has_lock_in drop_stale base_name
    back_to_slash three_digits
locked = refl

-- A second lock of the port fails.
locked_again : (uucp_lock locals tty (pos 0) after).0 ≡ 1
unfolding after uucp_lock make_lock check_lock_status check_group_uucp is_device_locked
    is_locked_elsewhere has_unexpected_lock is_other_dir has_lock_in drop_stale base_name
    back_to_slash three_digits
locked_again = refl

differ : (a b : Bytes) → same a b ≡ false → a ≢ b
differ a b f e = let t : same a b ≡ true = rw e (same_refl b) in absurd (ground (arith, f, t))

not_lock : tty ≢ lock_file tty
unfolding base_name back_to_slash
not_lock = differ tty (lock_file tty) refl

not_file : tty ≢ file
unfolding three_digits
not_file = differ tty file refl

uucp_lock-held_example :
    (f : File) × ((check_lock_status locals tty there).1.entry file ≡ none)
    × (after.entry file ≡ some f)
    × (f.content ≡ pid_line 42)
    × WithinThree file (lock_file tty) there.temp there after
uucp_lock-held_example =
    uucp_lock-held locals tty (pos 0) there after (plain 3 []) not_lock (differ tty there.temp refl)
      refl locked

uucp_lock-uucp_unlock_example :
    let os2 = uucp_unlock locals tty (pos 5) after in
    (os2.entry file ≡ none) × WithinThree file (lock_file tty) there.temp there os2
uucp_lock-uucp_unlock_example =
    uucp_lock-uucp_unlock locals locals tty (pos 0) (pos 5) there after (plain 3 []) (omega arith)
      refl not_lock (differ tty there.temp refl) not_file refl refl refl refl locked
