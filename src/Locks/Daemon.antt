-- ===== src/Locks/Daemon.antt =====
-- The lock functions of the lock daemon, rxtx-devel/src/lfd/lockdaemon.c. They differ from those of
-- SerialImp.c of the same names: the number is the client's, and a live lock is an answer of its own.
-- Paths are taken to fit the buffers of 80 bytes that they are put together in.
pub mod Requests
pub mod Parse
pub mod Clients
pub mod Laws
use cameratrack.Base.{
  take, ℕ, zero, suc, ℤ, pos, negsuc, same_int, ◌+◌, ◌/◌, ◌%◌, Bool, true, false, not, ◌&&◌, ◌||◌,
  ◌==◌, Option, none, some, is_some, on_some, if◌then◌else◌, List, [], ◌∷◌, ◌++◌,
}
use cameratrack.Locks.Text.{Bytes, is_prefix, base_name, pad, pid_line, scan_int, fill}
use cameratrack.Locks.System.{Device, Os, Locals, create_new, write_new, unlink, open_read}
use cameratrack.Locks.Check.{lockdir, lock_file, lockdirs, lockprefixes, has_lock_in, or_else}

-- The user: the group of the password entry, the array that `getgroups` fills with the user's number
-- behind it, its last member first, the word in front of the array, and the group of the lock
-- directory.
pub record User : Type 0 where
  pub pw_gid : ℕ
  pub groups : List ℕ
  pub in_front : ℕ
  pub lock_gid : ℕ

-- The loop from the end of the array. If no member is found, the word in front of it is looked at.
unfoldable pub is_member : ℕ → List ℕ → ℕ → Bool
is_member gid [] in_front = gid == in_front
is_member gid (g ∷ groups) in_front = (gid == g) || is_member gid groups in_front

unfoldable pub check_group_uucp : User → Os → ℕ
unfolding is_member
check_group_uucp user os = on_some (os.entry lockdir) 1 λ d.
    if user.pw_gid == 0
    then 0
    else if is_member user.lock_gid user.groups user.in_front
    then 0
    else 1

unfoldable pub is_other_dir : Os → Bytes → Bool
is_other_dir os dir = on_some (os.entry dir) false λ f. not (is_prefix dir lockdir)

unfoldable pub has_unexpected_lock : Os → Bytes → Device → List Bytes → Bool
unfolding is_other_dir
has_unexpected_lock os name device [] = false
has_unexpected_lock os name device (dir ∷ dirs) =
    (is_other_dir os dir && has_lock_in os dir name device lockprefixes)
    || has_unexpected_lock os name device dirs

-- The number in the lock file. Whether the file can be opened and read is not looked at.
unfoldable pub found_pid : Locals → Bytes → Os → ℤ
found_pid locals file os =
    let text =
      on_some (open_read file os) locals.buffer
        λ content. if os.can_read file then fill content locals.buffer else locals.buffer in
    or_else (scan_int (text ++ locals.beyond)) locals.number

-- A stale lock that cannot be removed is no hindrance here.
unfoldable pub drop_stale : Locals → Bytes → Os → ℕ × Os
drop_stale locals file os =
    on_some (os.entry file) (0, os)
      λ f.
        if os.alive (found_pid locals file os)
        then (1, os)
        else on_some (unlink file os) (0, os) λ os'. (0, os')

unfoldable pub is_device_locked : Locals → Bytes → Os → ℕ × Os
unfolding has_unexpected_lock drop_stale
is_device_locked locals port_filename os =
    let device = on_some (os.entry port_filename) locals.port_device λ f. f.device in
    if has_unexpected_lock os (base_name port_filename) device lockdirs
    then (1, os)
    else drop_stale locals (lock_file port_filename) os

unfoldable pub check_lock_status : User → Locals → Bytes → Os → ℕ × Os
check_lock_status user locals filename os =
    on_some (os.entry lockdir) (1, os)
      λ d.
        if check_group_uucp user os == 0
        then (let (locked, os1) = is_device_locked locals filename os in
            if locked == 0 then (0, os1) else (1, os1))
        else (1, os)

unfoldable pub check_lock_pid : Locals → Bytes → ℤ → Os → ℕ
check_lock_pid locals file openpid os = on_some (open_read file os) 1 λ content.
    if os.can_read file
    then (let lockpid = or_else (scan_int (fill content locals.buffer)) (pos 0) in
        if same_int lockpid openpid then 0 else if os.alive lockpid then 1 else 0)
    else 1

-- `%10d` of a negative number that is one less than `-n`: the sign stands in front of the digits.
abbrev pub pad_minus : ℕ → ℕ → Bytes → Bytes
pad_minus zero n acc = 45 ∷ acc
pad_minus (suc w) n acc =
    let rest = pad_minus w (n / 10) ((48 + n % 10) ∷ acc) in
    if n == 0 then pad w 0 (45 ∷ acc) else rest

-- The eleven bytes that are written of `%10d` and a line end.
abbrev pub int_line : ℤ → Bytes
int_line (pos n) = pid_line n
int_line (negsuc n) = take 11 (pad_minus 9 ((n + 1) / 10) ((48 + (n + 1) % 10) ∷ 10 ∷ []))

-- Whether the number could be written is not looked at.
unfoldable pub fhs_lock : User → Locals → Bytes → ℤ → Os → ℕ × Os
fhs_lock user locals filename pid os =
    let (status, os1) = check_lock_status user locals filename os in
    let file = lock_file filename in
    if status == 0
    then (on_some (create_new file os1) (1, os1)
        λ os2. on_some (write_new file (int_line pid) os2) (0, os2) λ os3. (0, os3))
    else (1, os1)

-- Without the device nothing is done, and that is no error.
unfoldable pub fhs_unlock : Locals → Bytes → ℤ → Os → ℕ × Os
fhs_unlock locals filename openpid os =
    let file = lock_file filename in
    on_some (os.entry filename) (0, os)
      λ port.
        if check_lock_pid locals file openpid os == 0
        then on_some (unlink file os) (0, os) (λ os'. (0, os'))
        else (1, os)
