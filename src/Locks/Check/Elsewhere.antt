-- ===== src/Locks/Check/Elsewhere.antt =====
-- Lock files in the known directories other than the lock directory.
use cameratrack.Base.{
  ℕ, zero, suc, ◌≡◌, refl, ◌∙◌, ap, Bool, true, false, ◌||◌, ◌&&◌, some, is_some, on_some, List, [],
  ◌∷◌, ◌++◌, get_elem?, arith,
}
use cameratrack.Locks.Text.{Bytes, slash, base_name}
use cameratrack.Locks.System.{Device, File, Os, Locals}
use cameratrack.Locks.Check.{
  lockdir, lockdirs, lockprefixes, uucp_name, has_lock_in, is_other_dir, has_unexpected_lock,
  is_locked_elsewhere, is_device_locked,
}

-- A lock file of the device with this prefix, of either style, is in the directory.
abbrev pub Holds : Os → Bytes → Bytes → Device → Bytes → Type 0
Holds os dir name device prefix =
    (is_some (os.entry (dir ++ (slash ∷ (prefix ++ name))))
      || is_some (os.entry (dir ++ (slash ∷ (prefix ++ uucp_name device)))))
    ≡ true

has_lock_in-Holds :
    (os : Os) (dir name : Bytes) (device : Device) (prefixes : List Bytes) (k : ℕ) (prefix : Bytes)
    → get_elem? prefixes k ≡ some prefix
    → Holds os dir name device prefix
    → has_lock_in os dir name device prefixes ≡ true
unfolding has_lock_in
has_lock_in-Holds os dir name device [] k prefix at_k holds = absurd (ground (arith, at_k))
has_lock_in-Holds os dir name device (p ∷ prefixes) zero prefix at_k holds =
    let same : p ≡ prefix = ground (arith, at_k) in rw same (ground (arith, holds))
has_lock_in-Holds os dir name device (p ∷ prefixes) (suc k) prefix at_k holds =
    ground (arith, has_lock_in-Holds os dir name device prefixes k prefix at_k holds)

has_unexpected_lock-Holds :
    (os : Os) (inode : ℕ) (name : Bytes) (device : Device) (dirs : List Bytes) (i k : ℕ)
    (dir prefix : Bytes)
    → get_elem? dirs i ≡ some dir
    → get_elem? lockprefixes k ≡ some prefix
    → is_other_dir os inode dir ≡ true
    → Holds os dir name device prefix
    → has_unexpected_lock os inode name device dirs ≡ true
unfolding has_unexpected_lock
has_unexpected_lock-Holds os inode name device [] i k dir prefix at_i at_k other holds =
    absurd (ground (arith, at_i))
has_unexpected_lock-Holds os inode name device (d ∷ dirs) zero k dir prefix at_i at_k other holds =
    let same : d ≡ dir = ground (arith, at_i) in
    let found = has_lock_in-Holds os dir name device lockprefixes k prefix at_k holds in
    rw (same, other, found)
has_unexpected_lock-Holds os inode name device (d ∷ dirs) (suc i) k dir prefix at_i at_k other
      holds =
    let rest =
      has_unexpected_lock-Holds os inode name device dirs i k dir prefix at_i at_k other holds in
    rw rest (or_true (is_other_dir os inode d && has_lock_in os d name device lockprefixes))
  where
    or_true : (b : Bool) → (b || true) ≡ true
    or_true true = refl
    or_true false = refl

is_locked_elsewhere-Holds :
    (locals : Locals) (filename : Bytes) (os : Os) (lock_dir port : File) (i k : ℕ)
    (dir prefix : Bytes)
    → os.entry lockdir ≡ some lock_dir
    → os.entry filename ≡ some port
    → get_elem? lockdirs i ≡ some dir
    → get_elem? lockprefixes k ≡ some prefix
    → is_other_dir os lock_dir.inode dir ≡ true
    → Holds os dir (base_name filename) port.device prefix
    → is_locked_elsewhere locals filename os ≡ true
unfolding is_locked_elsewhere
is_locked_elsewhere-Holds locals filename os lock_dir port i k dir prefix there device at_i at_k
      other holds =
    let inode : on_some (os.entry lockdir) locals.lock_inode (λ f. f.inode) ≡ lock_dir.inode =
      rw there in
    let numbers : on_some (os.entry filename) locals.port_device (λ f. f.device) ≡ port.device =
      rw device in
    ap
      (λ (n : ℕ).
        has_unexpected_lock os n (base_name filename)
          (on_some (os.entry filename) locals.port_device (λ f. f.device)) lockdirs)
      inode
    ∙ ap (λ (d : Device). has_unexpected_lock os lock_dir.inode (base_name filename) d lockdirs)
        numbers
    ∙ has_unexpected_lock-Holds os lock_dir.inode (base_name filename) port.device lockdirs i k dir
        prefix at_i at_k other holds

-- Where the lock directory and the port are there and one of the known directories, one that is not
-- the lock directory, holds a lock file of the device, named with any of the known prefixes and
-- either by the port or by the device numbers, is_device_locked answers 1 and changes nothing.
pub is_device_locked-Holds :
    (locals : Locals) (filename : Bytes) (os : Os) (lock_dir port : File) (i k : ℕ)
    (dir prefix : Bytes)
    → os.entry lockdir ≡ some lock_dir
    → os.entry filename ≡ some port
    → get_elem? lockdirs i ≡ some dir
    → get_elem? lockprefixes k ≡ some prefix
    → is_other_dir os lock_dir.inode dir ≡ true
    → Holds os dir (base_name filename) port.device prefix
    → is_device_locked locals filename os ≡ (1, os)
unfolding is_device_locked
is_device_locked-Holds locals filename os lock_dir port i k dir prefix there device at_i at_k other
      holds =
    let elsewhere =
      is_locked_elsewhere-Holds locals filename os lock_dir port i k dir prefix there device at_i
        at_k other holds in
    rw elsewhere
