-- ===== src/Chain.antt =====
-- Nodes of doubly linked lists at their addresses, where 0 is NULL: the lists at `master_index` and
-- `preopened_port` of rxtx-devel/src/SerialImp.c.
pub mod Seg
pub mod Change
pub mod Unlink
pub mod Find
use cameratrack.Base.{
  ℕ, zero, suc, Bool, not, ◌||◌, ◌&&◌, ◌==◌, Option, none, some, on_some, if◌then◌else◌,
}

pub record Node (A : Type 0) : Type 0 where
  pub item : A
  pub prev : ℕ
  pub next : ℕ

abbrev pub Heap : Type 0 → Type 0
Heap A = ℕ → Option (Node A)

module _ {A : Type 0} where
  abbrev pub node : A → ℕ → ℕ → Node A
  node x p q = record { item = x; prev = p; next = q }

  -- `none` gives the address back.
  unfoldable pub write : ℕ → Option (Node A) → Heap A → Heap A
  write p n h a = if a == p then n else h a

  -- `p->next = q` and `p->prev = q`: `none` where no node is at `p`.
  unfoldable pub set_next : ℕ → ℕ → Heap A → Option (Heap A)
  set_next p q h = on_some (h p) none λ n. some (write p (some (record n { next = q })) h)

  unfoldable pub set_prev : ℕ → ℕ → Heap A → Option (Heap A)
  set_prev p q h = on_some (h p) none λ n. some (write p (some (record n { prev = q })) h)

  -- `while( !stop( index ) && index->next ) index = index->next;` from the node at `p` on: where it
  -- ends, and the node there. `none` is a read where no node is, or the end of the fuel.
  unfoldable pub walk : (A → Bool) → ℕ → ℕ → Heap A → Option (ℕ × Node A)
  walk stop zero p h = none
  walk stop (suc fuel) p h = on_some (h p) none λ n.
      let rest = walk stop fuel n.next h in if stop n.item || n.next == 0 then some (p, n) else rest

  -- The neighbours of a node are joined to each other.
  unfoldable pub detach : Node A → Heap A → Option (Heap A)
  detach n h =
      if not (n.next == 0) && not (n.prev == 0)
      then on_some (set_next n.prev n.next h) none (λ h1. set_prev n.next n.prev h1)
      else if not (n.next == 0)
      then set_prev n.next 0 h
      else if not (n.prev == 0)
      then set_next n.prev 0 h
      else some h
