-- ===== src/Locks/Check.antt =====
-- The checks before a lock file is made or removed, in rxtx-devel/src/SerialImp.c:
-- `check_group_uucp`, `is_device_locked`, `check_lock_status` and `check_lock_pid`. Paths are taken to
-- fit the buffers of 80 bytes that they are put together in. This is the FHS build; the branch of
-- `is_device_locked` for other builds is not modelled.
pub mod Laws
pub mod Elsewhere
use cameratrack.Base.{
  ℕ, ℤ, pos, same_int, Bool, true, false, not, ◌&&◌, ◌||◌, ◌==◌, Option, none, some, is_some,
  on_some, if◌then◌else◌, List, [], ◌∷◌, ◌++◌,
}
use cameratrack.Locks.Text.{Bytes, bytes, slash, is_prefix, base_name, three_digits, scan_int, fill}
use cameratrack.Locks.System.{Device, File, Os, Locals, open_empty, unlink, open_read}

abbrev pub lockdir : Bytes
lockdir = bytes "/var/lock"

abbrev pub lock_file : Bytes → Bytes
lock_file filename = lockdir ++ (slash ∷ (bytes "LCK.." ++ base_name filename))

-- The test file is made and removed again; whether it can be removed is not looked at.
unfoldable pub check_group_uucp : Os → ℕ × Os
check_group_uucp os =
    on_some (open_empty os.temp os) (1, os)
      λ os1. on_some (unlink os1.temp os1) (0, os1) λ os2. (0, os2)

abbrev pub lockdirs : List Bytes
lockdirs =
    bytes "/etc/locks"
    ∷ bytes "/usr/spool/kermit"
    ∷ bytes "/usr/spool/locks"
    ∷ bytes "/usr/spool/uucp"
    ∷ bytes "/usr/spool/uucp/"
    ∷ bytes "/usr/spool/uucp/LCK"
    ∷ bytes "/var/lock"
    ∷ bytes "/var/lock/modem"
    ∷ bytes "/var/spool/lock"
    ∷ bytes "/var/spool/locks"
    ∷ bytes "/var/spool/uucp"
    ∷ lockdir
    ∷ []

abbrev pub lockprefixes : List Bytes
lockprefixes = bytes "LCK.." ∷ bytes "lk.." ∷ bytes "LK." ∷ []

abbrev pub uucp_name : Device → Bytes
uucp_name d =
    three_digits d.dev_major
    ++ (bytes "." ++ (three_digits d.rdev_major ++ (bytes "." ++ three_digits d.rdev_minor)))

-- A lock file of either style, with one of the prefixes.
unfoldable pub has_lock_in : Os → Bytes → Bytes → Device → List Bytes → Bool
has_lock_in os dir name device [] = false
has_lock_in os dir name device (prefix ∷ prefixes) =
    is_some (os.entry (dir ++ (slash ∷ (prefix ++ name))))
    || is_some (os.entry (dir ++ (slash ∷ (prefix ++ uucp_name device))))
    || has_lock_in os dir name device prefixes

-- Is the directory there, and not the lock directory?
unfoldable pub is_other_dir : Os → ℕ → Bytes → Bool
is_other_dir os lock_inode dir =
    on_some (os.entry dir) false λ f. not (f.inode == lock_inode) && not (is_prefix dir lockdir)

unfoldable pub has_unexpected_lock : Os → ℕ → Bytes → Device → List Bytes → Bool
unfolding has_lock_in is_other_dir
has_unexpected_lock os lock_inode name device [] = false
has_unexpected_lock os lock_inode name device (dir ∷ dirs) =
    (is_other_dir os lock_inode dir && has_lock_in os dir name device lockprefixes)
    || has_unexpected_lock os lock_inode name device dirs

abbrev pub or_else {ℓ} : {A : Type ℓ} → Option A → A → A
or_else none a = a
or_else (some b) a = b

-- The lock file is read and, if its process is gone, removed.
unfoldable pub drop_stale : Locals → Bytes → Os → ℕ × Os
drop_stale locals file os =
    on_some (os.entry file) (0, os)
      λ f.
        on_some (open_read file os) (1, os)
          λ content.
            if os.can_read file
            then (let pid =
                  or_else (scan_int (fill content locals.buffer ++ locals.beyond)) locals.number in
                if os.alive pid then (0, os) else on_some (unlink file os) (1, os) λ os'. (0, os'))
            else (1, os)

-- The search of the known directories, as `is_device_locked` makes it.
unfoldable pub is_locked_elsewhere : Locals → Bytes → Os → Bool
unfolding has_unexpected_lock
is_locked_elsewhere locals port_filename os =
    let lock_inode = on_some (os.entry lockdir) locals.lock_inode λ f. f.inode in
    let device = on_some (os.entry port_filename) locals.port_device λ f. f.device in
    has_unexpected_lock os lock_inode (base_name port_filename) device lockdirs

unfoldable pub is_device_locked : Locals → Bytes → Os → ℕ × Os
unfolding is_locked_elsewhere drop_stale
is_device_locked locals port_filename os =
    if is_locked_elsewhere locals port_filename os
    then (1, os)
    else drop_stale locals (lock_file port_filename) os

unfoldable pub check_lock_status : Locals → Bytes → Os → ℕ × Os
check_lock_status locals filename os =
    on_some (os.entry lockdir) (1, os)
      λ d.
        let (group, os1) = check_group_uucp os in
        let (locked, os2) = is_device_locked locals filename os1 in
        if group == 0 then (if locked == 0 then (0, os2) else (1, os2)) else (1, os1)

-- `atol` reads 0 where there is no number.
unfoldable pub check_lock_pid : Locals → Bytes → ℤ → Os → ℕ
check_lock_pid locals file openpid os = on_some (open_read file os) 1 λ content.
    if os.can_read file
    then (let lockpid = or_else (scan_int (fill content locals.buffer)) (pos 0) in
        if same_int lockpid (pos os.pid)
          || same_int lockpid (pos os.ppid)
          || same_int lockpid openpid
        then 0
        else 1)
    else 1
