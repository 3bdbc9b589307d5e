-- ===== src/Locks/System.antt =====
-- What the lock functions use of the system: files by their path, processes, and what a call may
-- refuse. A failed call is `none`.
pub mod Laws
use cameratrack.Base.{ℕ, ℤ, Bool, true, false, Option, none, some, on_some, if◌then◌else◌, []}
use cameratrack.Locks.Text.{Bytes, same}

-- `st_dev` and `st_rdev` of `struct stat`, taken apart.
pub record Device : Type 0 where
  pub dev_major : ℕ
  pub rdev_major : ℕ
  pub rdev_minor : ℕ

pub record File : Type 0 where
  pub inode : ℕ
  pub device : Device
  pub content : Bytes

-- `created` is what the system gives a new file, `temp` the path that `mktemp` makes, and `alive` is
-- false for a process for which `kill` fails with ESRCH.
pub record Os : Type 0 where
  pub entry : Bytes → Option File
  pub can_open : Bytes → Bool
  pub can_read : Bytes → Bool
  pub can_write : Bytes → Bool
  pub can_create : Bytes → Bool
  pub can_unlink : Bytes → Bool
  pub created : Bytes → File
  pub temp : Bytes
  pub alive : ℤ → Bool
  pub pid : ℕ
  pub ppid : ℕ

-- What the locals of a call hold before they are written: the bytes of `pid_buffer` that `read` is
-- asked for and those after, `pid`, and the members of the `stat` buffers.
pub record Locals : Type 0 where
  pub buffer : Bytes
  pub beyond : Bytes
  pub number : ℤ
  pub lock_inode : ℕ
  pub port_device : Device

abbrev pub set_entry : Bytes → Option File → Os → Os
set_entry path file os = record os {
  entry = λ (q : Bytes). if same q path then file else os.entry q;
}

-- `open` with O_CREAT and O_EXCL.
abbrev pub create_new : Bytes → Os → Option Os
create_new path os =
    on_some (os.entry path)
      (if os.can_create path
        then some (set_entry path (some (record (os.created path) { content = [] })) os)
        else none)
      λ f. none

-- `write` of a text to the file just made.
abbrev pub write_new : Bytes → Bytes → Os → Option Os
write_new path text os =
    if os.can_write path
    then some (set_entry path (some (record (os.created path) { content = text })) os)
    else none

-- `fopen` with "w+".
abbrev pub open_empty : Bytes → Os → Option Os
open_empty path os = on_some (os.entry path) (create_new path os) λ f.
    if os.can_write path then some (set_entry path (some (record f { content = [] })) os) else none

abbrev pub unlink : Bytes → Os → Option Os
unlink path os =
    on_some (os.entry path) none
      λ f. if os.can_unlink path then some (set_entry path none os) else none

-- `open` for reading, and what the file holds.
abbrev pub open_read : Bytes → Os → Option Bytes
open_read path os =
    on_some (os.entry path) none λ f. if os.can_open path then some f.content else none
