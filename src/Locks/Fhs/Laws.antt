-- ===== src/Locks/Fhs/Laws.antt =====
-- Who holds a lock file, and what locking and unlocking do to the files.
use cameratrack.Base.{
  ℕ, ℤ, pos, same_int, ◌^◌, ◌<◌, ◌≡◌, inl, inr, refl, sym, ap, Bool, Bool-cases, true, ◌||◌, ◌&&◌,
  ◌==◌, Option-cases, none, some, if◌then◌else◌, [], length, arith,
}
use cameratrack.Locks.Text.{Bytes, pid_line, fill, scan_int}
use cameratrack.Locks.System.{File, Os, Locals, create_new, write_new}
use cameratrack.Locks.Check.{lock_file, check_lock_status, check_lock_pid}
use cameratrack.Locks.Check.Laws.{read_pid, check_lock_status-Within, check_lock_status-live}
use cameratrack.Locks.System.Laws.{
  Within, same_refl, Within-refl, Within-trans, Within-left, create_new-set, write_new-set,
}
use cameratrack.Locks.Text.Names.{append-[]}
use cameratrack.Locks.Fhs.{fhs_lock, fhs_unlock}

-- While the process whose number, below 2 ^ 31 and written by %10d, is in a device's lock file
-- lives, and the name that mktemp makes is not in use, fhs_lock fails on that device, and changes no
-- file but the test file; the lock file stays as it is.
pub fhs_lock-live :
    (locals : Locals) (filename : Bytes) (pid : ℤ) (os : Os) (f : File) (n : ℕ)
    → n < 2 ^ 31
    → length locals.buffer ≡ 11
    → os.entry os.temp ≡ none
    → os.entry (lock_file filename) ≡ some f
    → f.content ≡ pid_line n
    → os.alive (pos n) ≡ true
    → ((fhs_lock locals filename pid os).0 ≡ 1)
      × Within os.temp os.temp os (fhs_lock locals filename pid os).1
      × ((fhs_lock locals filename pid os).1.entry (lock_file filename) ≡ some f)
unfolding fhs_lock
fhs_lock-live locals filename pid os f n fits size fresh found text living =
    let (within, kept) =
      check_lock_status-live locals filename os f n fits size fresh found text living in
    elim (Bool-cases ((check_lock_status locals filename os).0 == 0)) [
      | inr e ↦ rw e (refl, within, kept)
      | inl e ↦ rw (e, kept) (refl, within, kept)
    ]

-- When fhs_lock succeeds, the lock file holds the number of this process as %10d, and no other file
-- but the test file has changed.
pub fhs_lock-held :
    (locals : Locals) (filename : Bytes) (pid : ℤ) (os os' : Os)
    → fhs_lock locals filename pid os ≡ (0, os')
    → (f : File) × (os'.entry (lock_file filename) ≡ some f)
      × (f.content ≡ pid_line os.pid)
      × Within (lock_file filename) os.temp os os'
unfolding fhs_lock
fhs_lock-held locals filename pid os os' done =
    let file = lock_file filename in
    let os1 = (check_lock_status locals filename os).1 in
    let within : Within file os.temp os os1 = check_lock_status-Within locals filename os in
    elim (Bool-cases ((check_lock_status locals filename os).0 == 0)) [
      | inr e ↦ absurd (ground (arith, rw e at done))
      | inl e ↦ elim (Option-cases (create_new file os1)) [
        | inl c ↦ absurd (ground (arith, rw (e, c) at done))
        | inr (os2, c) ↦ elim (Option-cases (write_new file (pid_line os2.pid) os2)) [
          | inl w ↦ absurd (ground (arith, rw (e, c, w) at done))
          | inr (os3, w) ↦
              let last : os3 ≡ os' = ap (λ (r : ℕ × Os). r.1) (rw (e, c, w) at done) in
              let made = (create_new-set file os1 os2 c).1 in
              let written = write_new-set file (pid_line os2.pid) os2 os3 w in
              let one : Within file os.temp os1 os2 = rw made (Within-left file os.temp os1 _) in
              let two : Within file os.temp os2 os3 = rw written (Within-left file os.temp os2 _) in
              let all : Within file os.temp os os3 =
                Within-trans file os.temp os os2 os3
                  (Within-trans file os.temp os os1 os2 within one) two in
              rw (sym last) (
                record (os2.created file) { content = pid_line os2.pid },
                rw (written, same_refl file),
                rw (one.0.4, within.0.4),
                all,
              )
        ]
      ]
    ]

-- `check_lock_pid` accepts the numbers of this process, its parent and the opener.
abbrev pub is_ours : ℕ → ℤ → Os → Bool
is_ours n openpid os =
    same_int (pos n) (pos os.pid) || same_int (pos n) (pos os.ppid) || same_int (pos n) openpid

pub check_lock_pid-is_ours :
    (locals : Locals) (file : Bytes) (openpid : ℤ) (os : Os) (f : File) (n : ℕ)
    → n < 2 ^ 31
    → length locals.buffer ≡ 11
    → os.entry file ≡ some f
    → f.content ≡ pid_line n
    → check_lock_pid locals file openpid os
      ≡ (if os.can_open file && os.can_read file && is_ours n openpid os then 0 else 1)
unfolding check_lock_pid
check_lock_pid-is_ours locals file openpid os f n fits size found text =
    let read : scan_int (fill (pid_line n) locals.buffer) ≡ some (pos n) =
      rw (append-[] (fill (pid_line n) locals.buffer)) at (read_pid n locals [] fits size) in
    elim (Bool-cases (os.can_open file)) [
      | inr o ↦ rw (found, o)
      | inl o ↦ elim (Bool-cases (os.can_read file)) [
        | inr r ↦ rw (found, o, r)
        | inl r ↦ rw (found, o, r, text, read)
      ]
    ]

-- fhs_unlock removes a lock file with the number of a process, below 2 ^ 31 and written by %10d,
-- exactly when the file can be read and removed and the number is that of this process, of its
-- parent or of the opener; no other file changes.
pub fhs_unlock-is_ours :
    (locals : Locals) (filename : Bytes) (openpid : ℤ) (os : Os) (f : File) (n : ℕ)
    → n < 2 ^ 31
    → length locals.buffer ≡ 11
    → os.entry (lock_file filename) ≡ some f
    → f.content ≡ pid_line n
    → ((fhs_unlock locals filename openpid os).entry (lock_file filename) ≡ (
        if (os.can_open (lock_file filename)
            && os.can_read (lock_file filename)
            && is_ours n openpid os)
          && os.can_unlink (lock_file filename)
        then none
        else some f))
      × Within (lock_file filename) (lock_file filename) os (fhs_unlock locals filename openpid os)
unfolding fhs_unlock
fhs_unlock-is_ours locals filename openpid os f n fits size found text =
    let file = lock_file filename in
    let status = check_lock_pid-is_ours locals file openpid os f n fits size found text in
    elim (Bool-cases (os.can_open file && os.can_read file && is_ours n openpid os)) [
      | inr a ↦ rw (status, a) (found, Within-refl file file os)
      | inl a ↦ elim (Bool-cases (os.can_unlink file)) [
        | inr u ↦ rw (status, a, found, u) (found, Within-refl file file os)
        | inl u ↦ rw (status, a, found, u) (rw (same_refl file), Within-left file file os none)
      ]
    ]

-- What fhs_lock took for a process with a number below 2 ^ 31, fhs_unlock gives back: if the lock
-- file can be read and removed it is gone, and no other file but the test file differs from before
-- the lock.
pub fhs_lock-fhs_unlock :
    (locals locals' : Locals) (filename : Bytes) (pid openpid : ℤ) (os os' : Os)
    → os.pid < 2 ^ 31
    → length locals'.buffer ≡ 11
    → os.can_open (lock_file filename) ≡ true
    → os.can_read (lock_file filename) ≡ true
    → os.can_unlink (lock_file filename) ≡ true
    → fhs_lock locals filename pid os ≡ (0, os')
    → ((fhs_unlock locals' filename openpid os').entry (lock_file filename) ≡ none)
      × Within (lock_file filename) os.temp os (fhs_unlock locals' filename openpid os')
fhs_lock-fhs_unlock locals locals' filename pid openpid os os' fits size can_open can_read
      can_unlink done =
    let file = lock_file filename in
    let (f, found, text, within) = fhs_lock-held locals filename pid os os' done in
    let (gone, only) =
      fhs_unlock-is_ours locals' filename openpid os' f os.pid fits size found text in
    let ours : is_ours os.pid openpid os' ≡ true = rw (within.0.4) (ground arith) in
    let opens : os'.can_open file ≡ true = rw (within.0.0) can_open in
    let reads : os'.can_read file ≡ true = rw (within.0.1) can_read in
    let unlinks : os'.can_unlink file ≡ true = rw (within.0.2) can_unlink in
    let after : Within file os.temp os' (fhs_unlock locals' filename openpid os') =
      (only.0, λ q n m. only.1 q n n) in
    (
      rw (opens, reads, unlinks, ours) at gone,
      Within-trans file os.temp os os' (fhs_unlock locals' filename openpid os') within after,
    )
