-- ===== src/Examples/Daemon.antt =====
-- Processes 7 and 8 ask the lock daemon for the same device.
use cameratrack.Base.{
  ℕ, zero, suc, ◌≡◌, ◌≢◌, refl, Option, none, some, on_some, if◌then◌else◌, [], ◌∷◌, arith,
}
use cameratrack.Locks.Text.{Bytes, bytes, same, base_name, back_to_slash, scan_int, three_digits}
use cameratrack.Locks.System.{Os}
use cameratrack.Locks.System.Laws.{Within}
use cameratrack.Locks.Check.{lock_file, has_lock_in}
use cameratrack.Locks.Daemon.{
  User, is_member, check_group_uucp, is_other_dir, has_unexpected_lock, found_pid, drop_stale,
  is_device_locked, check_lock_status, fhs_lock,
}
use cameratrack.Locks.Daemon.Requests.{
  Reply, m200, received, split_at, argument, command, process_requests, serve, connection, lfs_lock,
  lfs_unlock,
}
use cameratrack.Locks.Daemon.Clients.{lfs_lock-IsExclusive}
use cameratrack.Examples.Locks.{plain, tty, with_lock, locals}

abbrev os : Os
os = record (with_lock none) {
  entry = λ (q : Bytes). if same q tty then some (plain 5 []) else (with_lock none).entry q;
}

abbrev user : User
user = record { pw_gid = 100; groups = 1000 ∷ 14 ∷ 100 ∷ []; in_front = 0; lock_gid = 14 }

abbrev zeros : ℕ → Bytes
zeros zero = []
zeros (suc n) = 0 ∷ zeros n

abbrev held : Bytes
held = zeros 80

abbrev box : Bytes
box = bytes "box"

abbrev text_of : Option Reply → Bytes
text_of r = on_some r [] (λ reply. reply.text)

-- Test: a word and a number, in any case.
asks : text_of (process_requests user locals box held (bytes "LOCK /dev/ttyS0 7\n") os) ≡ m200
unfolding process_requests received command split_at argument scan_int fhs_lock check_lock_status
    check_group_uucp is_member is_device_locked has_unexpected_lock is_other_dir has_lock_in
    drop_stale found_pid base_name back_to_slash three_digits
asks = refl

-- Test: the answer has room for 48 bytes of the request; 49 are written past the array.
too_long :
    process_requests user locals box held
      (bytes "12345678901234567890123456789012345678901234567890\n")
      os
    ≡ none
unfolding process_requests received
too_long = refl

after : Os
after = on_some (lfs_lock user locals box held tty 7 os) os (λ (_, os'). os')

locked : lfs_lock user locals box held tty 7 os ≡ some (0, after)
unfolding after lfs_lock connection serve process_requests received command split_at argument
    scan_int fhs_lock check_lock_status check_group_uucp is_member is_device_locked
    has_unexpected_lock is_other_dir has_lock_in drop_stale found_pid base_name back_to_slash
    three_digits
locked = refl

apart : tty ≢ lock_file tty
unfolding base_name back_to_slash
apart e = absurd (ground (arith, e))

lfs_lock-IsExclusive_example :
    (lfs_lock user locals box held tty 8 after ≡ some (1, after))
    × (lfs_unlock user locals box held tty 8 after ≡ some (0, after))
    × ((os2 : Os) × (lfs_unlock user locals box held tty 7 after ≡ some (0, os2))
        × (os2.entry (lock_file tty) ≡ none)
        × Within (lock_file tty) (lock_file tty) os os2)
lfs_lock-IsExclusive_example =
    lfs_lock-IsExclusive user user locals locals box held held tty 7 8 os after (plain 5 []) refl
      (omega arith) (omega arith) (omega arith) (omega arith) (omega arith) refl refl apart refl
      refl refl refl refl locked
