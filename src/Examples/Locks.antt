-- ===== src/Examples/Locks.antt =====
-- Process 42 and the lock file of a device.
use cameratrack.Base.{
  ℕ, ℤ, pos, negsuc, same_int, ◌≡◌, ◌<◌, refl, true, false, Option, none, some, if◌then◌else◌, [],
  ◌∷◌, ◌++◌, arith,
}
use cameratrack.Locks.Text.{
  Bytes, bytes, slash, same, base_name, back_to_slash, pid_line, scan_int, three_digits,
}
use cameratrack.Locks.Text.Numbers.{scan_int-pid_line}
use cameratrack.Locks.Text.Names.{base_name-append}
use cameratrack.Locks.System.{Device, File, Os, Locals}
use cameratrack.Locks.System.Laws.{Within}
use cameratrack.Locks.Check.{
  lockdir, lock_file, check_group_uucp, has_lock_in, is_other_dir, has_unexpected_lock,
  is_locked_elsewhere, drop_stale, is_device_locked, check_lock_status,
}
use cameratrack.Locks.Check.Laws.{is_device_locked-alive}
use cameratrack.Locks.Check.Elsewhere.{is_device_locked-Holds}
use cameratrack.Locks.Fhs.Free.{fhs_lock-IsWritable}
use cameratrack.Locks.Fhs.{fhs_lock, fhs_unlock}
use cameratrack.Locks.Fhs.Laws.{
  fhs_lock-live, fhs_lock-held, fhs_unlock-is_ours, fhs_lock-fhs_unlock,
}

abbrev device : Device
device = record { dev_major = 0; rdev_major = 4; rdev_minor = 64 }

abbrev pub plain : ℕ → Bytes → File
plain inode content = record { inode = inode; device = device; content = content }

abbrev pub tty : Bytes
tty = bytes "/dev/ttyS0"

-- The lock directory is there, and the lock file holds what is given.
abbrev pub with_lock : Option File → Os
with_lock lock = record {
  entry = λ (q : Bytes).
      if same q lockdir
      then some (plain 2 [])
      else if same q (bytes "/var/lock/LCK..ttyS0")
      then lock
      else none;
  can_open = λ _. true;
  can_read = λ _. true;
  can_write = λ _. true;
  can_create = λ _. true;
  can_unlink = λ _. true;
  created = λ _. plain 9 [];
  temp = bytes "/var/lock/tmp123abc";
  alive = λ (p : ℤ). same_int p (pos 7);
  pid = 42;
  ppid = 41;
}

abbrev pub locals : Locals
locals = record {
  buffer = 1 ∷ 2 ∷ 3 ∷ 4 ∷ 5 ∷ 6 ∷ 7 ∷ 8 ∷ 9 ∷ 0 ∷ 0 ∷ [];
  beyond = 0 ∷ [];
  number = negsuc 0;
  lock_inode = 0;
  port_device = device;
}

tty_lock : lock_file tty ≡ bytes "/var/lock/LCK..ttyS0"
unfolding base_name back_to_slash
tty_lock = refl

fits : 7 < 2147483648
fits = omega arith

found : (lock : Option File) → (with_lock lock).entry (lock_file tty) ≡ lock
unfolding base_name back_to_slash
found lock = refl

-- Process 7 lives and holds the lock.
fhs_lock-live_example :
    let os = with_lock (some (plain 9 (pid_line 7))) in
    ((fhs_lock locals tty (pos 0) os).0 ≡ 1)
    × Within os.temp os.temp os (fhs_lock locals tty (pos 0) os).1
    × ((fhs_lock locals tty (pos 0) os).1.entry (lock_file tty) ≡ some (plain 9 (pid_line 7)))
fhs_lock-live_example =
    fhs_lock-live locals tty (pos 0) (with_lock (some (plain 9 (pid_line 7))))
      (plain 9 (pid_line 7)) 7 fits refl refl (found (some (plain 9 (pid_line 7)))) refl refl

-- Nobody holds it.
after : Os
after = (fhs_lock locals tty (pos 0) (with_lock none)).1

locked : fhs_lock locals tty (pos 0) (with_lock none) ≡ (0, after)
unfolding after fhs_lock check_lock_status check_group_uucp is_device_locked is_locked_elsewhere
    has_unexpected_lock is_other_dir has_lock_in drop_stale base_name back_to_slash three_digits
locked = refl

fhs_lock-held_example :
    (f : File) × (after.entry (lock_file tty) ≡ some f)
    × (f.content ≡ pid_line 42)
    × Within (lock_file tty) (with_lock none).temp (with_lock none) after
fhs_lock-held_example = fhs_lock-held locals tty (pos 0) (with_lock none) after locked

fhs_lock-fhs_unlock_example :
    ((fhs_unlock locals tty (pos 5) after).entry (lock_file tty) ≡ none)
    × Within
        (lock_file tty)
        (with_lock none).temp
        (with_lock none)
        (fhs_unlock locals tty (pos 5) after)
fhs_lock-fhs_unlock_example =
    fhs_lock-fhs_unlock locals locals tty (pos 0) (pos 5) (with_lock none) after (omega arith) refl
      refl refl refl locked

-- Process 8 held it and is gone.
elsewhere : is_locked_elsewhere locals tty (with_lock (some (plain 9 (pid_line 8)))) ≡ false
unfolding is_locked_elsewhere has_unexpected_lock is_other_dir has_lock_in base_name back_to_slash
    three_digits
elsewhere = refl

is_device_locked-alive_example :
    let os = with_lock (some (plain 9 (pid_line 8))) in
    ((is_device_locked locals tty os).0 ≡ 0)
    × ((is_device_locked locals tty os).1.entry (lock_file tty) ≡ none)
    × Within (lock_file tty) (lock_file tty) os (is_device_locked locals tty os).1
is_device_locked-alive_example =
    is_device_locked-alive locals tty (with_lock (some (plain 9 (pid_line 8))))
      (plain 9 (pid_line 8)) 8 (omega arith) refl (found (some (plain 9 (pid_line 8)))) refl
      elsewhere refl refl refl

fhs_unlock-is_ours_example :
    let os = with_lock (some (plain 9 (pid_line 8))) in
    ((fhs_unlock locals tty (pos 5) os).entry (lock_file tty) ≡ some (plain 9 (pid_line 8)))
    × Within (lock_file tty) (lock_file tty) os (fhs_unlock locals tty (pos 5) os)
fhs_unlock-is_ours_example =
    fhs_unlock-is_ours locals tty (pos 5) (with_lock (some (plain 9 (pid_line 8))))
      (plain 9 (pid_line 8)) 8 (omega arith) refl (found (some (plain 9 (pid_line 8)))) refl

scan_int-pid_line_example : scan_int (pid_line 1234 ++ (0 ∷ [])) ≡ some (pos 1234)
scan_int-pid_line_example = scan_int-pid_line 1234 (0 ∷ []) (omega arith)

base_name-append_example :
    (base_name (bytes "/dev" ++ (slash ∷ bytes "ttyS0")) ≡ bytes "ttyS0")
    × ((c : ℕ) → base_name (c ∷ bytes "ttyS0") ≡ bytes "ttyS0")
base_name-append_example = base_name-append (bytes "/dev") (bytes "ttyS0") refl

nowhere_else : is_locked_elsewhere locals tty (with_lock none) ≡ false
unfolding is_locked_elsewhere has_unexpected_lock is_other_dir has_lock_in base_name back_to_slash
    three_digits
nowhere_else = refl

fhs_lock-IsWritable_example : (fhs_lock locals tty (pos 0) (with_lock none)).0 ≡ 0
fhs_lock-IsWritable_example =
    fhs_lock-IsWritable locals tty (pos 0) (with_lock none) (plain 2 []) refl (refl, refl, refl)
      nowhere_else (found none) refl refl

-- The lock file of another program in /etc/locks.
abbrev held_elsewhere : Os
held_elsewhere = record (with_lock none) {
  entry = λ (q : Bytes).
      if same q lockdir
      then some (plain 2 [])
      else if same q tty
      then some (plain 3 [])
      else if same q (bytes "/etc/locks")
      then some (plain 5 [])
      else if same q (bytes "/etc/locks/LCK..ttyS0")
      then some (plain 6 (pid_line 7))
      else none;
}

held_elsewhere-is_other_dir : is_other_dir held_elsewhere 2 (bytes "/etc/locks") ≡ true
unfolding is_other_dir
held_elsewhere-is_other_dir = refl

held_elsewhere-entry :
    (held_elsewhere.entry (bytes "/etc/locks" ++ (slash ∷ (bytes "LCK.." ++ base_name tty))))
    ≡ some (plain 6 (pid_line 7))
unfolding base_name
held_elsewhere-entry = refl

-- The device is taken to be locked.
is_device_locked-Holds_example : is_device_locked locals tty held_elsewhere ≡ (1, held_elsewhere)
is_device_locked-Holds_example =
    is_device_locked-Holds locals tty held_elsewhere (plain 2 []) (plain 3 []) 0 0
      (bytes "/etc/locks") (bytes "LCK..") refl refl refl refl held_elsewhere-is_other_dir
      (rw held_elsewhere-entry)
