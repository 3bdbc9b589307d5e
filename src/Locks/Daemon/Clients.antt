-- ===== src/Locks/Daemon/Clients.antt =====
-- Clients of the daemon that want the same device.
use cameratrack.Base.{
  ℕ, pos, ◌^◌, ◌<◌, ◌≡◌, ◌≢◌, inl, inr, refl, sym, ap, ◌∙◌, Bool-cases, true, ◌==◌, Option, none,
  some, if◌then◌else◌, length, arith,
}
use cameratrack.Locks.Text.{Bytes, bytes}
use cameratrack.Locks.System.{File, Os, Locals, set_entry}
use cameratrack.Locks.System.Laws.{Within, same_refl, Within-trans, Within-left}
use cameratrack.Locks.Check.{lock_file}
use cameratrack.Locks.Daemon.{User, fhs_lock, fhs_unlock}
use cameratrack.Locks.Daemon.Laws.{
  fhs_lock-IsHeld, fhs_lock-taken, fhs_unlock-IsHeld, fhs_unlock-other,
}
use cameratrack.Locks.Daemon.Parse.{is_clean, process_requests-lock, process_requests-unlock}
use cameratrack.Locks.Daemon.Requests.{
  received, unlock_request, process_requests, m221, serve, connection, lfs_lock, lfs_unlock,
}

quits :
    (user : User) (locals : Locals) (hostname held : Bytes) (os : Os)
    → process_requests user locals hostname held (bytes "quit\n") os
      ≡ some (record { quits = true; text = m221 hostname; os = os })
unfolding process_requests received
quits user locals hostname held os = refl

module _ (user : User) (locals : Locals) (hostname held filename : Bytes) (n : ℕ) (os : Os)
    (clean : is_clean 32 filename ≡ true) (fits : n < 2 ^ 31)
    (short : length (unlock_request filename n) < 80) where
  -- The client learns what `fhs_lock` answered.
  lfs_lock-fhs_lock :
      let (status, os') = fhs_lock user locals filename (pos n) os in
      lfs_lock user locals hostname held filename n os ≡ some (if status == 0 then 0 else 1, os')
  unfolding lfs_lock connection serve
  lfs_lock-fhs_lock =
      let (status, os') = fhs_lock user locals filename (pos n) os in
      rw
        (
          process_requests-lock user locals hostname held filename n os clean fits
              (omega (arith, short)),
          quits user locals hostname held os',
        )
        (elim (Bool-cases (status == 0)) [ inl e ↦ rw e refl | inr e ↦ rw e refl ])

  -- The client does not learn what `fhs_unlock` answered.
  lfs_unlock-fhs_unlock :
      lfs_unlock user locals hostname held filename n os
      ≡ some (0, (fhs_unlock locals filename (pos n) os).1)
  unfolding lfs_unlock connection serve
  lfs_unlock-fhs_unlock =
      rw
        (
          process_requests-unlock user locals hostname held filename n os clean fits short,
          quits user locals hostname held (fhs_unlock locals filename (pos n) os).1,
        )
        refl

-- An unlock is always reported as done.
abbrev answered : ℕ × Os → Option (ℕ × Os)
answered r = some (0, r.1)

abbrev told : ℕ × Os → Option (ℕ × Os)
told r = some (if r.0 == 0 then 0 else 1, r.1)

lock_result : (r : ℕ × Os) (os' : Os) → told r ≡ some (0, os') → r ≡ (0, os')
lock_result (status, os) os' e = elim (Bool-cases (status == 0)) [
  | inl z ↦ ground (arith, z, e)
  | inr z ↦ absurd (ground (arith, z, e))
]

-- Let lfs_lock have succeeded through the lock daemon for a device that is there, with a name
-- without a blank or a NUL and other than its lock file, a number below 2 ^ 31 of a process that
-- lives, requests of less than 80 bytes, and a lock file that can be written, read and removed. Then
-- lfs_lock for another number fails, and changes no file; lfs_unlock for another number changes no
-- file, but reports success all the same; and after lfs_unlock for the number itself the lock file
-- is gone, and no other file differs from before the lock.
pub lfs_lock-IsExclusive :
    (user user' : User) (locals locals' : Locals) (hostname held held' filename : Bytes) (n m : ℕ)
    (os os' : Os) (port : File)
    → is_clean 32 filename ≡ true
    → n < 2 ^ 31
    → m < 2 ^ 31
    → n ≢ m
    → length (unlock_request filename n) < 80
    → length (unlock_request filename m) < 80
    → length locals'.buffer ≡ 11
    → os.entry filename ≡ some port
    → filename ≢ lock_file filename
    → os.can_write (lock_file filename) ≡ true
    → os.can_open (lock_file filename) ≡ true
    → os.can_read (lock_file filename) ≡ true
    → os.can_unlink (lock_file filename) ≡ true
    → os.alive (pos n) ≡ true
    → lfs_lock user locals hostname held filename n os ≡ some (0, os')
    → (lfs_lock user' locals' hostname held' filename m os' ≡ some (1, os'))
      × (lfs_unlock user' locals' hostname held' filename m os' ≡ some (0, os'))
      × ((os2 : Os) × (lfs_unlock user' locals' hostname held' filename n os' ≡ some (0, os2))
          × (os2.entry (lock_file filename) ≡ none)
          × Within (lock_file filename) (lock_file filename) os os2)
lfs_lock-IsExclusive user user' locals locals' hostname held held' filename n m os os' port clean
      fits fits' ne short short' size there apart writes opens reads unlinks living done =
    let file = lock_file filename in
    let taken =
      lock_result (fhs_lock user locals filename (pos n) os) os'
        (sym (lfs_lock-fhs_lock user locals hostname held filename n os clean fits short) ∙ done) in
    let (holds, within) = fhs_lock-taken user locals filename os os' n writes opens reads taken in
    let lives : os'.alive (pos n) ≡ true = rw (within.0.3) living in
    let stays : os'.entry filename ≡ some port = within.1 filename apart apart ∙ there in
    let frees : os'.can_unlink file ≡ true = rw (within.0.2) unlinks in
    let refused = fhs_lock-IsHeld user' locals' filename os' (pos m) n fits size holds lives in
    let kept = fhs_unlock-other user' locals' filename os' n m fits size holds lives ne in
    let removed = fhs_unlock-IsHeld user' locals' filename os' n port fits size holds stays frees in
    (
      lfs_lock-fhs_lock user' locals' hostname held' filename m os' clean fits' short'
          ∙ ap told refused,
      lfs_unlock-fhs_unlock user' locals' hostname held' filename m os' clean fits' short'
          ∙ ap answered kept,
      (
        set_entry file none os',
        lfs_unlock-fhs_unlock user' locals' hostname held' filename n os' clean fits short
            ∙ ap answered removed,
        rw (same_refl file) refl,
        Within-trans file file os os' (set_entry file none os') within
            (Within-left file file os' none),
      ),
    )
