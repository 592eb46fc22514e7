-- ===== src/Memory/Arena.antt =====
-- memory/allocator.rs: the state of the allocator. The free list is the list of its nodes, in the
-- order of their `next` pointers; a header is kept with the user pointer behind it, and is there
-- from the allocation of its slot to the release, when the slot's bytes are given to a node.
use rust_data_broker.Prelude.{
  ℕ, ◌+◌, ◌-◌, Bool, false, Option, none, some, List, [], ltb, if◌then◌else◌,
}
use rust_data_broker.Memory.{Memory, usize_max}

-- `std::alloc::Layout`
pub record Layout : Type 0 where
  pub size : ℕ
  pub align : ℕ

pub record FreeNode : Type 0 where
  pub address : ℕ
  pub size : ℕ

-- `user` is the address behind the header.
pub record AllocHeader : Type 0 where
  pub user : ℕ
  pub slot_offset : ℕ
  pub slot_size : ℕ

-- `base` is ARENA_BASE, null before `init`; `notified` is the flag of DEFRAG_MUTEX.
pub record Arena : Type 0 where
  pub base : ℕ
  pub memory : Memory
  pub offset : ℕ
  pub free_list : List FreeNode
  pub headers : List AllocHeader
  pub dealloc_count : ℕ
  pub notified : Bool

-- `size_of` and `align_of` of FreeNode and AllocHeader on a 64-bit target.
abbrev pub header_size : ℕ
header_size = 16

abbrev pub min_slot_size : ℕ
min_slot_size = 16

abbrev pub slot_align : ℕ
slot_align = 8

abbrev pub checked_add : ℕ → ℕ → Option ℕ
checked_add a b = if ltb usize_max (a + b) then none else some (a + b)

abbrev pub checked_sub : ℕ → ℕ → Option ℕ
checked_sub a b = if ltb a b then none else some (a - b)

-- The statics before `init`.
unfoldable pub uninitialised : Arena
uninitialised = record {
  base = 0;
  memory = record { allocated = 0; used = 0; locked_size = 0 };
  offset = 0;
  free_list = [];
  headers = [];
  dealloc_count = 0;
  notified = false;
}
