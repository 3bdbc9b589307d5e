-- ===== src/Locks/Daemon/Laws.antt =====
-- What the lock functions of the daemon do to the lock file.
use cameratrack.Base.{
  ℕ, ℤ, pos, ◌^◌, ◌<◌, ◌≡◌, inl, inr, ◌⊎◌, ◌≢◌, refl, sym, ap, ◌∙◌, Bool, Bool-cases, true, ◌==◌,
  ==_refl, ==_ne, Option-cases, none, some, is_some, on_some, if◌then◌else◌, [], length, arith,
}
use cameratrack.Locks.Text.{Bytes, base_name, pid_line, scan_int, fill}
use cameratrack.Locks.Text.Names.{append-[]}
use cameratrack.Locks.System.{File, Os, Locals, set_entry, create_new}
use cameratrack.Locks.System.Laws.{
  Within, same_refl, Within-refl, Within-trans, Within-left, create_new-set,
}
use cameratrack.Locks.Check.{lockdir, lockdirs, lock_file}
use cameratrack.Locks.Check.Laws.{read_pid}
use cameratrack.Locks.Daemon.{
  User, has_unexpected_lock, check_group_uucp, found_pid, drop_stale, is_device_locked,
  check_lock_status, check_lock_pid, fhs_lock, fhs_unlock,
}

-- A lock file with the number of a process, that can be read.
pub record IsHeld (os : Os) (file : Bytes) (n : ℕ) : Type 0 where
  pub content : File
  pub found : os.entry file ≡ some content
  pub text : content.content ≡ pid_line n
  pub opens : os.can_open file ≡ true
  pub reads : os.can_read file ≡ true

-- The stale lock is left or removed.
abbrev IsSwept : Bytes → Os → Os → Type 0
IsSwept file os os' = (os' ≡ os) ⊎ (os' ≡ set_entry file none os)

IsSwept-Within : (file : Bytes) (os os' : Os) → IsSwept file os os' → Within file file os os'
IsSwept-Within file os os' (inl e) = rw e (Within-refl file file os)
IsSwept-Within file os os' (inr e) = rw e (Within-left file file os none)

IsSwept-can_write :
    (file : Bytes) (os os' : Os) → IsSwept file os os' → os'.can_write file ≡ os.can_write file
IsSwept-can_write file os os' (inl e) = rw e refl
IsSwept-can_write file os os' (inr e) = rw e refl

module _ (locals : Locals) where
  drop_stale-IsSwept : (file : Bytes) (os : Os) → IsSwept file os (drop_stale locals file os).1
  unfolding drop_stale
  drop_stale-IsSwept file os = elim (Option-cases (os.entry file)) [
    | inl e ↦ rw e (inl refl)
    | inr (f, e) ↦ elim (Bool-cases (os.alive (found_pid locals file os))) [
      | inl a ↦ rw (e, a) (inl refl)
      | inr a ↦ elim (Bool-cases (os.can_unlink file)) [
        | inr u ↦ rw (e, a, u) (inl refl)
        | inl u ↦ rw (e, a, u) (inr refl)
      ]
    ]
  ]

  drop_stale-IsHeld :
      (file : Bytes) (os : Os) (n : ℕ)
      → n < 2 ^ 31
      → length locals.buffer ≡ 11
      → IsHeld os file n
      → os.alive (pos n) ≡ true
      → drop_stale locals file os ≡ (1, os)
  unfolding drop_stale found_pid
  drop_stale-IsHeld file os n fits size held living =
      rw
        (
          held.found,
          held.opens,
          held.reads,
          held.text,
          read_pid n locals locals.beyond fits size,
          living,
        )
        refl

module _ (user : User) (locals : Locals) (filename : Bytes) where
  abbrev is_elsewhere : Os → Bool
  is_elsewhere os =
      has_unexpected_lock os (base_name filename)
        (on_some (os.entry filename) locals.port_device (λ f. f.device)) lockdirs

  is_device_locked-IsSwept :
      (os : Os) → IsSwept (lock_file filename) os (is_device_locked locals filename os).1
  unfolding is_device_locked
  is_device_locked-IsSwept os = elim (Bool-cases (is_elsewhere os)) [
    | inl e ↦ rw e (inl refl)
    | inr e ↦ rw e (drop_stale-IsSwept locals (lock_file filename) os)
  ]

  is_device_locked-IsHeld :
      (os : Os) (n : ℕ)
      → n < 2 ^ 31
      → length locals.buffer ≡ 11
      → IsHeld os (lock_file filename) n
      → os.alive (pos n) ≡ true
      → is_device_locked locals filename os ≡ (1, os)
  unfolding is_device_locked
  is_device_locked-IsHeld os n fits size held living = elim (Bool-cases (is_elsewhere os)) [
    | inl e ↦ rw e refl
    | inr e ↦ rw e (drop_stale-IsHeld locals (lock_file filename) os n fits size held living)
  ]

  check_lock_status-IsSwept :
      (os : Os) → IsSwept (lock_file filename) os (check_lock_status user locals filename os).1
  unfolding check_lock_status
  check_lock_status-IsSwept os = elim (Option-cases (os.entry lockdir)) [
    | inl e ↦ rw e (inl refl)
    | inr (d, e) ↦ elim (Bool-cases (check_group_uucp user os == 0)) [
      | inr g ↦ rw (e, g) (inl refl)
      | inl g ↦ elim (Bool-cases ((is_device_locked locals filename os).0 == 0)) [
        | inr l ↦ rw (e, g, l) (is_device_locked-IsSwept os)
        | inl l ↦ rw (e, g, l) (is_device_locked-IsSwept os)
      ]
    ]
  ]

  check_lock_status-IsHeld :
      (os : Os) (n : ℕ)
      → n < 2 ^ 31
      → length locals.buffer ≡ 11
      → IsHeld os (lock_file filename) n
      → os.alive (pos n) ≡ true
      → check_lock_status user locals filename os ≡ (1, os)
  unfolding check_lock_status
  check_lock_status-IsHeld os n fits size held living = elim (Option-cases (os.entry lockdir)) [
    | inl e ↦ rw e refl
    | inr (d, e) ↦ elim (Bool-cases (check_group_uucp user os == 0)) [
      | inr g ↦ rw (e, g) refl
      | inl g ↦ rw (e, g, is_device_locked-IsHeld os n fits size held living) refl
    ]
  ]

  -- A live lock is an answer of 1, and nothing changes.
  pub fhs_lock-IsHeld :
      (os : Os) (pid : ℤ) (n : ℕ)
      → n < 2 ^ 31
      → length locals.buffer ≡ 11
      → IsHeld os (lock_file filename) n
      → os.alive (pos n) ≡ true
      → fhs_lock user locals filename pid os ≡ (1, os)
  unfolding fhs_lock
  fhs_lock-IsHeld os pid n fits size held living =
      rw (check_lock_status-IsHeld os n fits size held living) refl

  -- When fhs_lock succeeds, the file holds the number.
  pub fhs_lock-taken :
      (os os' : Os) (n : ℕ)
      → os.can_write (lock_file filename) ≡ true
      → os.can_open (lock_file filename) ≡ true
      → os.can_read (lock_file filename) ≡ true
      → fhs_lock user locals filename (pos n) os ≡ (0, os')
      → IsHeld os' (lock_file filename) n × Within (lock_file filename) (lock_file filename) os os'
  unfolding fhs_lock
  fhs_lock-taken os os' n writes opens reads done =
      let file = lock_file filename in
      let (status, os1) = check_lock_status user locals filename os in
      let swept = check_lock_status-IsSwept os in
      elim (Bool-cases (status == 0)) [
        | inr e ↦ absurd (ground (arith, rw e at done))
        | inl e ↦ elim (Option-cases (create_new file os1)) [
          | inl c ↦ absurd (ground (arith, rw (e, c) at done))
          | inr (os2, c) ↦
              let made = (create_new-set file os1 os2 c).1 in
              let able : os2.can_write file ≡ true =
                ap (λ (o : Os). o.can_write file) made
                ∙ IsSwept-can_write file os os1 swept
                ∙ writes in
              let last = ap (λ (r : ℕ × Os). r.1) (rw (e, c, able) at done) in
              let written = record (os2.created file) { content = pid_line n } in
              let one : Within file file os1 os2 = rw made (Within-left file file os1 _) in
              let all : Within file file os os' = rw (sym last) (
                Within-trans file file os os2 (set_entry file (some written) os2)
                  (Within-trans file file os os1 os2 (IsSwept-Within file os os1 swept) one)
                  (Within-left file file os2 (some written))) in
              (
                record {
                  content = written;
                  found = rw (sym last, same_refl file) refl;
                  text = refl;
                  opens = rw (all.0.0) opens;
                  reads = rw (all.0.1) reads;
                },
                all,
              )
        ]
      ]

  -- An unlock with the number in the file removes it.
  pub fhs_unlock-IsHeld :
      (os : Os) (n : ℕ) (port : File)
      → n < 2 ^ 31
      → length locals.buffer ≡ 11
      → IsHeld os (lock_file filename) n
      → os.entry filename ≡ some port
      → os.can_unlink (lock_file filename) ≡ true
      → fhs_unlock locals filename (pos n) os ≡ (0, set_entry (lock_file filename) none os)
  unfolding fhs_unlock check_lock_pid
  fhs_unlock-IsHeld os n port fits size held there unlinks =
      let read : scan_int (fill (pid_line n) locals.buffer) ≡ some (pos n) =
        rw (append-[] (fill (pid_line n) locals.buffer)) at (read_pid n locals [] fits size) in
      rw (there, held.found, held.opens, held.reads, held.text, read, ==_refl n, unlinks) refl

  -- With another number it is left, while the process lives.
  pub fhs_unlock-other :
      (os : Os) (n m : ℕ)
      → n < 2 ^ 31
      → length locals.buffer ≡ 11
      → IsHeld os (lock_file filename) n
      → os.alive (pos n) ≡ true
      → n ≢ m
      → fhs_unlock locals filename (pos m) os ≡ (if is_some (os.entry filename) then 1 else 0, os)
  unfolding fhs_unlock check_lock_pid
  fhs_unlock-other os n m fits size held living ne =
      let read : scan_int (fill (pid_line n) locals.buffer) ≡ some (pos n) =
        rw (append-[] (fill (pid_line n) locals.buffer)) at (read_pid n locals [] fits size) in
      elim (Option-cases (os.entry filename)) [
        | inl e ↦ rw e refl
        | inr (p, e) ↦
            rw (e, held.found, held.opens, held.reads, held.text, read, ==_ne ne, living) refl
      ]
