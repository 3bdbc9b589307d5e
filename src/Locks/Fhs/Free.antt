-- ===== src/Locks/Fhs/Free.antt =====
-- When `fhs_lock` takes a lock.
use cameratrack.Base.{ℤ, ◌≡◌, sym, ap, Bool-cases, inl, inr, true, false, Option, none, some, []}
use cameratrack.Locks.Text.{Bytes, same}
use cameratrack.Locks.System.{File, Os, Locals, set_entry}
use cameratrack.Locks.System.Laws.{same_iff, same_refl}
use cameratrack.Locks.Check.{
  lockdir, lock_file, check_group_uucp, is_locked_elsewhere, drop_stale, is_device_locked,
  check_lock_status,
}
use cameratrack.Locks.Fhs.{fhs_lock}

-- Making and removing a file that was not there changes nothing.
entry_back :
    (p : Bytes) (f : Option File) (os : Os) (q : Bytes)
    → os.entry p ≡ none
    → (set_entry p none (set_entry p f os)).entry q ≡ os.entry q
entry_back p f os q fresh = elim (Bool-cases (same q p)) [
  | inl e ↦ rw (e, same_iff q p e) (sym fresh)
  | inr e ↦ rw e
]

set_entry_back :
    (p : Bytes) (f : Option File) (os : Os)
    → os.entry p ≡ none
    → set_entry p none (set_entry p f os) ≡ os
set_entry_back p f os fresh =
    ap (λ (entry : Bytes → Option File). record os { entry = entry })
      (λ i q. entry_back p f os q fresh i)

-- A lock directory that files can be made in and removed from.
abbrev pub IsWritable : Os → Type 0
IsWritable os =
    (os.entry os.temp ≡ none) × (os.can_create os.temp ≡ true) × (os.can_unlink os.temp ≡ true)

check_group_uucp-IsWritable : (os : Os) → IsWritable os → check_group_uucp os ≡ (0, os)
unfolding check_group_uucp
check_group_uucp-IsWritable os (fresh, create, remove) =
    rw (fresh, create, same_refl os.temp, remove)
      (ap (λ (x : Os). (0, x))
        (set_entry_back os.temp (some (record (os.created os.temp) { content = [] })) os fresh))

check_lock_status-IsWritable :
    (locals : Locals) (filename : Bytes) (os : Os) (dir : File)
    → os.entry lockdir ≡ some dir
    → IsWritable os
    → is_locked_elsewhere locals filename os ≡ false
    → os.entry (lock_file filename) ≡ none
    → check_lock_status locals filename os ≡ (0, os)
unfolding check_lock_status is_device_locked drop_stale
check_lock_status-IsWritable locals filename os dir there writable elsewhere free =
    rw (there, check_group_uucp-IsWritable os writable, elsewhere, free)

-- With a lock directory in which the name that mktemp makes is not in use and can be made and
-- removed, no lock file of the device there or elsewhere, and a lock file that can be made and
-- written, fhs_lock succeeds.
pub fhs_lock-IsWritable :
    (locals : Locals) (filename : Bytes) (pid : ℤ) (os : Os) (dir : File)
    → os.entry lockdir ≡ some dir
    → IsWritable os
    → is_locked_elsewhere locals filename os ≡ false
    → os.entry (lock_file filename) ≡ none
    → os.can_create (lock_file filename) ≡ true
    → os.can_write (lock_file filename) ≡ true
    → (fhs_lock locals filename pid os).0 ≡ 0
unfolding fhs_lock
fhs_lock-IsWritable locals filename pid os dir there writable elsewhere free create write =
    let status =
      check_lock_status-IsWritable locals filename os dir there writable elsewhere free in
    rw (status, free, create) (rw write)
