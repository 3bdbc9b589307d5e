-- ===== src/Locks/Check/Laws.antt =====
-- What the checks leave of the files.
use cameratrack.Base.{
  ℕ, pos, ◌^◌, ◌<◌, ◌≡◌, ◌≢◌, inl, inr, refl, ◌∙◌, sym, ap, Bool-cases, true, false, ◌==◌,
  Option-cases, none, some, if◌then◌else◌, ◌++◌, length, arith,
}
use cameratrack.Locks.Text.{Bytes, pid_line, fill, scan_int}
use cameratrack.Locks.Text.Numbers.{scan_int-pid_line, length-pid_line, fill-full}
use cameratrack.Locks.System.{File, Os, Locals, open_empty, unlink}
use cameratrack.Locks.Check.{
  lockdir, lock_file, check_group_uucp, is_locked_elsewhere, drop_stale, is_device_locked,
  check_lock_status, or_else,
}
use cameratrack.Locks.System.Laws.{
  Within, same_refl, Within-refl, Within-trans, Within-at, Within-left, open_empty-set, unlink-set,
}

-- The test file is the only one that the group check touches.
pub check_group_uucp-Within : (a : Bytes) (os : Os) → Within a os.temp os (check_group_uucp os).1
unfolding check_group_uucp
check_group_uucp-Within a os = elim (Option-cases (open_empty os.temp os)) [
  | inl e ↦ rw e (Within-refl a os.temp os)
  | inr (os1, e) ↦
      let (f, made) = open_empty-set os.temp os os1 e in
      let opened : Within a os.temp os os1 =
        rw made (Within-at a os.temp os.temp os (some f) refl) in
      elim (Option-cases (unlink os1.temp os1)) [
        | inl e' ↦ rw (e, e') opened
        | inr (os2, e') ↦
            let removed : Within a os.temp os1 os2 =
              rw (unlink-set os1.temp os1 os2 e')
                (Within-at a os.temp os1.temp os1 none (opened.0.6)) in
            rw (e, e') (Within-trans a os.temp os os1 os2 opened removed)
      ]
]

-- What is read of a lock file with the number of a process is that number.
pub read_pid :
    (n : ℕ) (locals : Locals) (after : Bytes)
    → n < 2 ^ 31
    → length locals.buffer ≡ 11
    → scan_int (fill (pid_line n) locals.buffer ++ after) ≡ some (pos n)
read_pid n locals after fits size =
    rw (fill-full (pid_line n) locals.buffer (length-pid_line n ∙ sym size))
      (scan_int-pid_line n after fits)

-- Dropping a stale lock touches the lock file alone.
pub drop_stale-Within :
    (locals : Locals) (file b : Bytes) (os : Os) → Within file b os (drop_stale locals file os).1
unfolding drop_stale
drop_stale-Within locals file b os = elim (Option-cases (os.entry file)) [
  | inl e ↦ rw e (Within-refl file b os)
  | inr (f, e) ↦ elim (Bool-cases (os.can_open file)) [
    | inr o ↦ rw (e, o) (Within-refl file b os)
    | inl o ↦ elim (Bool-cases (os.can_read file)) [
      | inr r ↦ rw (e, o, r) (Within-refl file b os)
      | inl r ↦
          let n =
            or_else (scan_int (fill f.content locals.buffer ++ locals.beyond)) locals.number in
          elim (Bool-cases (os.alive n)) [
            | inl a ↦ rw (e, o, r, a) (Within-refl file b os)
            | inr a ↦ elim (Bool-cases (os.can_unlink file)) [
              | inr u ↦ rw (e, o, r, a, u) (Within-refl file b os)
              | inl u ↦ rw (e, o, r, a, u) (Within-left file b os none)
            ]
          ]
    ]
  ]
]

-- A lock file whose process lives is left alone, and is not an error.
pub drop_stale-live :
    (locals : Locals) (file : Bytes) (os : Os) (f : File) (n : ℕ)
    → n < 2 ^ 31
    → length locals.buffer ≡ 11
    → os.entry file ≡ some f
    → f.content ≡ pid_line n
    → os.alive (pos n) ≡ true
    → (drop_stale locals file os).1 ≡ os
unfolding drop_stale
drop_stale-live locals file os f n fits size found text living =
    elim (Bool-cases (os.can_open file)) [
      | inr o ↦ rw (found, o)
      | inl o ↦ elim (Bool-cases (os.can_read file)) [
        | inr r ↦ rw (found, o, r)
        | inl r ↦ rw (found, o, r, text, read_pid n locals locals.beyond fits size, living)
      ]
    ]

pub is_device_locked-Within :
    (locals : Locals) (filename b : Bytes) (os : Os)
    → Within (lock_file filename) b os (is_device_locked locals filename os).1
unfolding is_device_locked
is_device_locked-Within locals filename b os =
    elim (Bool-cases (is_locked_elsewhere locals filename os)) [
      | inl e ↦ rw e (Within-refl (lock_file filename) b os)
      | inr e ↦ rw e (drop_stale-Within locals (lock_file filename) b os)
    ]

pub is_device_locked-live :
    (locals : Locals) (filename : Bytes) (os : Os) (f : File) (n : ℕ)
    → n < 2 ^ 31
    → length locals.buffer ≡ 11
    → os.entry (lock_file filename) ≡ some f
    → f.content ≡ pid_line n
    → os.alive (pos n) ≡ true
    → (is_device_locked locals filename os).1 ≡ os
unfolding is_device_locked
is_device_locked-live locals filename os f n fits size found text living =
    elim (Bool-cases (is_locked_elsewhere locals filename os)) [
      | inl e ↦ rw e
      | inr e ↦
          rw e (drop_stale-live locals (lock_file filename) os f n fits size found text living)
    ]

-- The check touches the lock file and the test file alone.
pub check_lock_status-Within :
    (locals : Locals) (filename : Bytes) (os : Os)
    → Within (lock_file filename) os.temp os (check_lock_status locals filename os).1
unfolding check_lock_status
check_lock_status-Within locals filename os =
    let file = lock_file filename in
    let os1 = (check_group_uucp os).1 in
    let os2 = (is_device_locked locals filename os1).1 in
    let first : Within file os.temp os os1 = check_group_uucp-Within file os in
    let both : Within file os.temp os os2 =
      Within-trans file os.temp os os1 os2 first
        (is_device_locked-Within locals filename os.temp os1) in
    elim (Option-cases (os.entry lockdir)) [
      | inl e ↦ rw e (Within-refl file os.temp os)
      | inr (d, e) ↦ elim (Bool-cases ((check_group_uucp os).0 == 0)) [
        | inr g ↦ rw (e, g) first
        | inl g ↦ elim (Bool-cases ((is_device_locked locals filename os1).0 == 0)) [
          | inr l ↦ rw (e, g, l) both
          | inl l ↦ rw (e, g, l) both
        ]
      ]
    ]

-- With a live lock file the check leaves that file alone too.
pub check_lock_status-live :
    (locals : Locals) (filename : Bytes) (os : Os) (f : File) (n : ℕ)
    → n < 2 ^ 31
    → length locals.buffer ≡ 11
    → os.entry os.temp ≡ none
    → os.entry (lock_file filename) ≡ some f
    → f.content ≡ pid_line n
    → os.alive (pos n) ≡ true
    → Within os.temp os.temp os (check_lock_status locals filename os).1
      × ((check_lock_status locals filename os).1.entry (lock_file filename) ≡ some f)
unfolding check_lock_status
check_lock_status-live locals filename os f n fits size fresh found text living =
    let file = lock_file filename in
    let os1 = (check_group_uucp os).1 in
    let first : Within os.temp os.temp os os1 = check_group_uucp-Within os.temp os in
    let apart : file ≢ os.temp = λ e. absurd (ground (arith, ap os.entry e, fresh, found)) in
    let kept : os1.entry file ≡ some f = first.1 file apart apart ∙ found in
    let same_os : (is_device_locked locals filename os1).1 ≡ os1 =
      is_device_locked-live locals filename os1 f n fits size kept text (rw (first.0.3) living) in
    elim (Option-cases (os.entry lockdir)) [
      | inl e ↦ rw e (Within-refl os.temp os.temp os, found)
      | inr (d, e) ↦ elim (Bool-cases ((check_group_uucp os).0 == 0)) [
        | inr g ↦ rw (e, g) (first, kept)
        | inl g ↦ elim (Bool-cases ((is_device_locked locals filename os1).0 == 0)) [
          | inr l ↦ rw (e, g, l, same_os) (first, kept)
          | inl l ↦ rw (e, g, l, same_os) (first, kept)
        ]
      ]
    ]

-- Where no lock file lies elsewhere and the device's own holds a number below 2 ^ 31 written by %10d
-- and can be read and removed, is_device_locked answers 0 whether its process lives or not; the file
-- is removed exactly when it does not live, and no other file changes.
pub is_device_locked-alive :
    (locals : Locals) (filename : Bytes) (os : Os) (f : File) (n : ℕ)
    → n < 2 ^ 31
    → length locals.buffer ≡ 11
    → os.entry (lock_file filename) ≡ some f
    → f.content ≡ pid_line n
    → is_locked_elsewhere locals filename os ≡ false
    → os.can_open (lock_file filename) ≡ true
    → os.can_read (lock_file filename) ≡ true
    → os.can_unlink (lock_file filename) ≡ true
    → ((is_device_locked locals filename os).0 ≡ 0)
      × ((is_device_locked locals filename os).1.entry (lock_file filename)
          ≡ (if os.alive (pos n) then some f else none))
      × Within (lock_file filename) (lock_file filename) os (is_device_locked locals filename os).1
unfolding is_device_locked drop_stale
is_device_locked-alive locals filename os f n fits size found text elsewhere o r u =
    let file = lock_file filename in
    let read : scan_int (fill f.content locals.buffer ++ locals.beyond) ≡ some (pos n) =
      rw text (read_pid n locals locals.beyond fits size) in
    elim (Bool-cases (os.alive (pos n))) [
      | inl a ↦ rw (elsewhere, found, o, r, read, a) (refl, found, Within-refl file file os)
      | inr a ↦
          rw (elsewhere, found, o, r, read, a, u)
            (refl, rw (same_refl file), Within-left file file os none)
    ]
