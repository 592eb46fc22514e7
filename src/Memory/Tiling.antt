-- ===== src/Memory/Tiling.antt =====
-- memory/allocator.rs: the free nodes and the slots cut up the used part of the arena.
pub mod Place
pub mod Refused
pub mod Allocate
pub mod Release
pub mod Joined
use rust_data_broker.Prelude.{
  ℕ, ◌+◌, ◌-◌, ◌*◌, ◌%◌, ◌^◌, ◌<◌, ◌≤◌, ◌≡◌, ◌≢◌, refl, sym, ap, ◌∙◌, List, [], ◌∷◌, arith, All,
}
use rust_data_broker.Memory.{Memory}
use rust_data_broker.Memory.Arena.{Layout, FreeNode, AllocHeader, Arena}
use rust_data_broker.Memory.Owners.{
  free_owners, slot_owners, slot_sizes, slot_start, inside, inside_within,
}

unfoldable pub free_sizes : List FreeNode → ℕ
free_sizes [] = 0
free_sizes (n ∷ nodes) = n.size + free_sizes nodes

pub record IsNode (n : FreeNode) : Type 0 where
  pub aligned : n.address % 8 ≡ 0
  pub whole : n.size % 8 ≡ 0
  pub roomy : 16 ≤ n.size

pub record IsSlot (h : AllocHeader) : Type 0 where
  pub aligned : slot_start h % 8 ≡ 0
  pub whole : h.slot_size % 8 ≡ 0
  pub roomy : 16 ≤ h.slot_size
  -- the header lies in the slot, before the user pointer
  pub room_before : 16 ≤ h.slot_offset
  pub reached : h.slot_offset ≤ h.user
  pub room_after : h.slot_offset < h.slot_size

pub record Tiled (a : Arena) : Type 0 where
  pub base_aligned : a.base % 8 ≡ 0
  pub base_fits : a.base + a.memory.allocated < 2 ^ 64
  pub offset_aligned : a.offset % 8 ≡ 0
  pub offset_fits : a.offset ≤ a.memory.allocated
  -- an address below `offset` is in one free node or one slot, and no other address is in any
  pub owned :
      (x : ℕ) → free_owners x a.free_list + slot_owners x a.headers ≡ inside x a.base a.offset
  pub sizes : free_sizes a.free_list + slot_sizes a.headers ≡ a.offset
  pub accounts : a.memory.used ≡ slot_sizes a.headers
  pub nodes : All IsNode a.free_list
  pub slots : All IsSlot a.headers

-- `Layout` guarantees a power of two, and a size that is an isize when rounded up to it.
pub record IsLayout (l : Layout) : Type 0 where
  pub exponent : ℕ
  pub power : l.align ≡ 2 ^ exponent
  pub bounded : l.size + l.align ≤ 2 ^ 63
  pub nonzero : 0 < l.size

-- What a user has of an allocation: the pointer is aligned, and its bytes and the header before it
-- lie in a slot that is in the list.
pub record Allocated (a b : Arena) (l : Layout) (ptr : ℕ) : Type 0 where
  pub same_arena : (b.base ≡ a.base) × (b.memory.allocated ≡ a.memory.allocated)
  pub header : AllocHeader
  pub recorded : b.headers ≡ header ∷ a.headers
  pub here : header.user ≡ ptr
  pub aligned : ptr % l.align ≡ 0
  pub header_fits : slot_start header + 16 ≤ ptr
  pub size_fits : ptr + l.size ≤ slot_start header + header.slot_size
