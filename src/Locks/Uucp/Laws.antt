-- ===== src/Locks/Uucp/Laws.antt =====
-- What the locks of the other style do to the files.
use cameratrack.Base.{
  ℕ, ℤ, ◌^◌, ◌<◌, ◌≡◌, ◌∙◌, ◌≢◌, inl, inr, refl, sym, ap, Bool-cases, true, ◌==◌, Option-cases,
  none, some, length, arith,
}
use cameratrack.Locks.Text.{Bytes, pid_line}
use cameratrack.Locks.System.{File, Os, Locals, create_new, write_new}
use cameratrack.Locks.System.Laws.{
  SameSystem, Within, same_refl, Within-trans, Within-left, create_new-set, write_new-set,
}
use cameratrack.Locks.Check.Laws.{check_lock_status-Within}
use cameratrack.Locks.Check.{lockdir, lock_file, check_lock_status}
use cameratrack.Locks.Fhs.Laws.{is_ours, check_lock_pid-is_ours}
use cameratrack.Locks.Uucp.{uucp_file, make_lock, uucp_lock, uucp_unlock}

make_lock-held :
    (file : Bytes) (os os' : Os)
    → make_lock file os ≡ (0, os')
    → (f : File) × (os.entry file ≡ none)
      × (os'.entry file ≡ some f)
      × (f.content ≡ pid_line os.pid)
      × Within file file os os'
unfolding make_lock
make_lock-held file os os' done = elim (Option-cases (os.entry file)) [
  | inr (g, e) ↦ absurd (ground (arith, rw e at done))
  | inl e ↦ elim (Option-cases (create_new file os)) [
    | inl c ↦ absurd (ground (arith, rw (c, e) at done))
    | inr (os1, c) ↦ elim (Option-cases (write_new file (pid_line os.pid) os1)) [
      | inl w ↦ absurd (ground (arith, rw (c, e, w) at done))
      | inr (os2, w) ↦
          let last : os2 ≡ os' = ap (λ (r : ℕ × Os). r.1) (rw (c, e, w) at done) in
          let made = (create_new-set file os os1 c).1 in
          let written = write_new-set file (pid_line os.pid) os1 os2 w in
          let one : Within file file os os1 = rw made (Within-left file file os _) in
          let two : Within file file os1 os2 = rw written (Within-left file file os1 _) in
          rw (sym last) (
            record (os1.created file) { content = pid_line os.pid },
            e,
            rw (written, same_refl file),
            refl,
            Within-trans file file os os1 os2 one two,
          )
    ]
  ]
]

-- The system is as it was, and only the files at three paths may differ.
abbrev pub WithinThree : Bytes → Bytes → Bytes → Os → Os → Type 0
WithinThree a b c os os' =
    SameSystem os os' × ((q : Bytes) → q ≢ a → q ≢ b → q ≢ c → os'.entry q ≡ os.entry q)

-- First the checks may change two files, then the lock changes the third.
both : (a b c : Bytes) (x y z : Os) → Within b c x y → Within a a y z → WithinThree a b c x z
both a b c x y z (s, e) (s', e') = (
  (s'.0 ∙ s.0, s'.1 ∙ s.1, s'.2 ∙ s.2, s'.3 ∙ s.3, s'.4 ∙ s.4, s'.5 ∙ s.5, s'.6 ∙ s.6),
  λ q n m k. e' q n n ∙ e q m k,
)

-- When uucp_lock succeeds on a port that is there, at a path other than the lock file of the other
-- style and the test file, the file named by the numbers of the device was not there once the checks
-- were done and now holds the number of this process as %10d; no other file has changed but those
-- two.
pub uucp_lock-held :
    (locals : Locals) (filename : Bytes) (pid : ℤ) (os os' : Os) (port : File)
    → filename ≢ lock_file filename
    → filename ≢ os.temp
    → os.entry filename ≡ some port
    → uucp_lock locals filename pid os ≡ (0, os')
    → let file = uucp_file port.device in
      (f : File) × ((check_lock_status locals filename os).1.entry file ≡ none)
      × (os'.entry file ≡ some f)
      × (f.content ≡ pid_line os.pid)
      × WithinThree file (lock_file filename) os.temp os os'
unfolding uucp_lock
uucp_lock-held locals filename pid os os' port no_lock no_temp device done =
    let os1 = (check_lock_status locals filename os).1 in
    let checks : Within (lock_file filename) os.temp os os1 =
      check_lock_status-Within locals filename os in
    let p : os1.entry filename ≡ some port = checks.1 filename no_lock no_temp ∙ device in
    elim (Bool-cases ((check_lock_status locals filename os).0 == 0)) [
      | inr s ↦ absurd (ground (arith, rw s at done))
      | inl s ↦ elim (Option-cases (os1.entry lockdir)) [
        | inl d ↦ absurd (ground (arith, rw (s, d) at done))
        | inr (dir, d) ↦
            let file = uucp_file port.device in
            let made : make_lock file os1 ≡ (0, os') = rw (s, d, p) at done in
            let (f, free, found, text, within) = make_lock-held file os1 os' made in
            (
              f,
              free,
              found,
              text ∙ ap pid_line (checks.0.4),
              both file (lock_file filename) os.temp os os1 os' checks within,
            )
      ]
    ]

uucp_unlock-is_ours :
    (locals : Locals) (filename : Bytes) (openpid : ℤ) (os : Os) (port f : File) (n : ℕ)
    → n < 2 ^ 31
    → length locals.buffer ≡ 11
    → os.entry filename ≡ some port
    → os.entry (uucp_file port.device) ≡ some f
    → f.content ≡ pid_line n
    → os.can_open (uucp_file port.device) ≡ true
    → os.can_read (uucp_file port.device) ≡ true
    → os.can_unlink (uucp_file port.device) ≡ true
    → is_ours n openpid os ≡ true
    → let file = uucp_file port.device in
      ((uucp_unlock locals filename openpid os).entry file ≡ none)
      × Within file file os (uucp_unlock locals filename openpid os)
unfolding uucp_unlock
uucp_unlock-is_ours locals filename openpid os port f n fits size device found text opens reads
      unlinks ours =
    let file = uucp_file port.device in
    let status = check_lock_pid-is_ours locals file openpid os f n fits size found text in
    rw (device, found, status, opens, reads, ours, unlinks)
      (rw (same_refl file), Within-left file file os none)

-- What uucp_lock took for a process with a number below 2 ^ 31, uucp_unlock gives back: for a port
-- that is there, at a path other than its two lock files and the test file, and a file of the device
-- numbers that can be read and removed, this file is gone, and no other file but the lock file of
-- the other style and the test file differs from before the lock.
pub uucp_lock-uucp_unlock :
    (locals locals' : Locals) (filename : Bytes) (pid openpid : ℤ) (os os' : Os) (port : File)
    → os.pid < 2 ^ 31
    → length locals'.buffer ≡ 11
    → filename ≢ lock_file filename
    → filename ≢ os.temp
    → filename ≢ uucp_file port.device
    → os.entry filename ≡ some port
    → os.can_open (uucp_file port.device) ≡ true
    → os.can_read (uucp_file port.device) ≡ true
    → os.can_unlink (uucp_file port.device) ≡ true
    → uucp_lock locals filename pid os ≡ (0, os')
    → let file = uucp_file port.device in
      let os2 = uucp_unlock locals' filename openpid os' in
      (os2.entry file ≡ none) × WithinThree file (lock_file filename) os.temp os os2
uucp_lock-uucp_unlock locals locals' filename pid openpid os os' port fits size no_lock no_temp
      no_file device can_open can_read can_unlink done =
    let file = uucp_file port.device in
    let (f, free, found, text, (same, others)) =
      uucp_lock-held locals filename pid os os' port no_lock no_temp device done in
    let there : os'.entry filename ≡ some port = others filename no_file no_lock no_temp ∙ device in
    let ours : is_ours os.pid openpid os' ≡ true = rw (same.4) (ground arith) in
    let opens : os'.can_open file ≡ true = rw (same.0) can_open in
    let reads : os'.can_read file ≡ true = rw (same.1) can_read in
    let unlinks : os'.can_unlink file ≡ true = rw (same.2) can_unlink in
    let (gone, (kept, rest)) =
      uucp_unlock-is_ours locals' filename openpid os' port f os.pid fits size there found text
        opens reads unlinks ours in
    (
      gone,
      (
        (
          kept.0 ∙ same.0,
          kept.1 ∙ same.1,
          kept.2 ∙ same.2,
          kept.3 ∙ same.3,
          kept.4 ∙ same.4,
          kept.5 ∙ same.5,
          kept.6 ∙ same.6,
        ),
        λ q n m k. rest q n n ∙ others q n m k,
      ),
    )
