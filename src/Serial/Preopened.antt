-- ===== src/Serial/Preopened.antt =====
-- The ports that were opened before the Java program opens them: the list at `preopened_port` of
-- rxtx-devel/src/SerialImp.c, with `find_preopened_ports` and `static_add_filename`.
pub mod Laws
use cameratrack.Base.{
  ℕ, Bool, true, false, ◌&&◌, ltb, ◌==◌, Option, none, some, on_some, if◌then◌else◌, length,
}
use cameratrack.Chain.{Node, Heap, node, write, set_next, walk, detach}
use cameratrack.Locks.Text.{Bytes, same}

-- `struct preopened`, less its pointers.
pub record Preopened : Type 0 where
  pub filename : Bytes
  pub fd : ℕ

pub record Opened : Type 0 where
  pub heap : Heap Preopened
  pub preopened_port : ℕ

abbrev pub is_named : Bytes → Preopened → Bool
is_named filename p = same p.filename filename

-- The descriptor, or 0. `none` is a read of memory that was given back.
unfoldable pub find_preopened_ports : ℕ → Bytes → Opened → Option (ℕ × Opened)
find_preopened_ports fuel filename s =
    if s.preopened_port == 0
    then some (0, s)
    else on_some (walk (is_named filename) fuel s.preopened_port s.heap) none λ (a, p).
      if is_named filename p.item
      then on_some (detach p s.heap) none (λ h. some (
        p.item.fd,
        record {
          heap = write a none h;
          preopened_port = if p.prev == 0 && p.next == 0 then 0 else s.preopened_port;
        },
      ))
      else some (0, s)

-- `newp` is what `malloc` gives. The name is copied into 40 bytes, with its end: `none` where it is too
-- long.
unfoldable pub static_add_filename : ℕ → ℕ → Bytes → ℕ → Opened → Option Opened
static_add_filename fuel newp filename fd s =
    if ltb (length filename) 40
    then (let new : Preopened = record { filename = filename; fd = fd } in
        let h = write newp (some (node new 0 0)) s.heap in
        if s.preopened_port == 0
        then some (record { heap = h; preopened_port = newp })
        else on_some (walk (is_named filename) fuel s.preopened_port h) none λ (a, p).
          if is_named filename p.item
          then some (record s { heap = h })
          else on_some (set_next a newp h) none (λ h'.
            some (record { heap = write newp (some (node new a 0)) h'; preopened_port = a })))
    else none
