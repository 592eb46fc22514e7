-- ===== src/Memory/Alloc.antt =====
-- memory/allocator.rs: `init`, `alloc` and `dealloc`. A loop around a compare-exchange is one step, at
-- the exchange that succeeds; the locks of the free list and of the flag are never poisoned.
use Prim.Native.Nat.{max, bit_and}
use rust_data_broker.Prelude.{
  ℕ, ◌+◌, ◌-◌, ◌%◌, ◌^◌, Bool, true, Option, none, some, List, [], ◌∷◌, ◌==◌, ◌||◌, ltb, leb,
  if◌then◌else◌, Outcome, ok, panic,
}
use rust_data_broker.Memory.{Memory}
use rust_data_broker.Memory.Align.{align_up}
use rust_data_broker.Memory.Arena.{
  Layout, FreeNode, AllocHeader, Arena, header_size, min_slot_size, slot_align, checked_add,
  checked_sub,
}

pub data Platform : Type 0 where
  unix : Platform
  windows : Platform

abbrev pub is_too_small : Platform → ℕ → Bool
is_too_small unix arena_size = ltb arena_size 8589934592
is_too_small windows arena_size = leb arena_size 1073741824

-- The two `init`, with the address that `mmap` or `VirtualAlloc` gives, or none where it fails. Only
-- the one of windows starts the thread that defragments.
unfoldable pub init : Platform → Arena → ℕ → Option ℕ → Outcome Bool Arena
init platform a arena_size mapped =
    if is_too_small platform arena_size
    then panic
    else if a.base == 0
    then elim mapped [
      | none ↦ panic
      | some ptr ↦ ok (record a { base = ptr; memory = record a.memory { allocated = arena_size } })
    ]
    else panic

infixl 5 ◌>>=◌
abbrev ◌>>=◌ : {A B : Type 0} → Option A → (A → Option B) → Option B
none >>= f = none
some a >>= f = f a

unfoldable pub required_slot_size : Layout → Option ℕ
required_slot_size layout = do
  padded ← checked_add header_size (layout.align - 1)
  worst ← checked_add padded layout.size
  some (align_up (max worst min_slot_size) slot_align)

-- The user pointer and the header before it.
unfoldable pub place_header : ℕ → ℕ → Layout → AllocHeader
place_header slot slot_size layout =
    let user = align_up (slot + header_size) layout.align in
    record { user = user; slot_offset = user - slot; slot_size = slot_size }

unfoldable pub reserve_used : Memory → ℕ → Option Memory
reserve_used m needed = do
  ceiling ← checked_sub m.allocated m.locked_size
  new_used ← checked_add m.used needed
  if leb new_used ceiling then some (record m { used = new_used }) else none

-- The part of a node behind the first `needed` bytes goes back into its place in the list, unless it
-- is too small for a node.
unfoldable pub split_node : ℕ → FreeNode → List FreeNode → List FreeNode
split_node needed node next =
    if leb min_slot_size (node.size - needed)
    then record { address = node.address + needed; size = node.size - needed } ∷ next
    else next

-- The first node that is large enough, and the list without it.
unfoldable pub find_node : ℕ → List FreeNode → Option (FreeNode × List FreeNode)
unfolding split_node
find_node needed [] = none
find_node needed (node ∷ next) =
    let later = find_node needed next in
    if leb needed node.size
    then some (node, split_node needed node next)
    else later >>= λ (n, l). some (n, node ∷ l)

-- How much of the node the slot takes.
unfoldable pub slot_of : ℕ → FreeNode → ℕ
slot_of needed node = if leb min_slot_size (node.size - needed) then needed else node.size

abbrev pub fetch_add : ℕ → ℕ → ℕ
fetch_add n k = (n + k) % 2 ^ 64

abbrev pub fetch_sub : ℕ → ℕ → ℕ
fetch_sub n k = (n + 2 ^ 64 - k) % 2 ^ 64

unfoldable pub alloc_from_free_list : Arena → ℕ → Layout → Option (Arena × ℕ)
unfolding find_node slot_of place_header
alloc_from_free_list a needed layout = do
  (node, free_list) ← find_node needed a.free_list
  let header = place_header node.address (slot_of needed node) layout
  some (
    record a {
      free_list = free_list;
      headers = header ∷ a.headers;
      memory = record a.memory { used = fetch_add a.memory.used (slot_of needed node - needed) };
    },
    header.user,
  )

unfoldable pub bump_slot : Arena → ℕ → ℕ → Layout → Arena × ℕ
unfolding place_header
bump_slot a slot_start needed layout =
    let header = place_header (a.base + slot_start) needed layout in
    (record a { offset = slot_start + needed; headers = header ∷ a.headers }, header.user)

unfoldable pub alloc_from_bump : Arena → ℕ → Layout → Option (Arena × ℕ)
unfolding bump_slot
alloc_from_bump a needed layout = do
  next ← checked_add (align_up a.offset slot_align) needed
  if ltb a.memory.allocated next
      then none
      else some (bump_slot a (align_up a.offset slot_align) needed layout)

-- What `alloc` answers: null, a pointer, or whatever the system allocator answers.
pub data Allocation : Type 0 where
  null : Allocation
  pointer : ℕ → Allocation
  from_system : Allocation

-- The places to take a slot from, in their order; where there is none the reservation is undone.
unfoldable pub alloc_reserved : Arena → ℕ → Layout → Arena × Allocation
unfolding alloc_from_free_list alloc_from_bump
alloc_reserved a needed layout = elim (alloc_from_free_list a needed layout) [
  | some (a', ptr) ↦ (a', pointer ptr)
  | none ↦ elim (alloc_from_bump a needed layout) [
    | some (a', ptr) ↦ (a', pointer ptr)
    | none ↦ (record a { memory = record a.memory { used = fetch_sub a.memory.used needed } }, null)
  ]
]

unfoldable pub alloc : Arena → Layout → Arena × Allocation
unfolding required_slot_size reserve_used alloc_reserved
alloc a layout = if a.base == 0 then (a, from_system) else elim (required_slot_size layout) [
  | none ↦ (a, null)
  | some needed ↦ elim (reserve_used a.memory needed) [
    | none ↦ (a, null)
    | some memory ↦ alloc_reserved (record a { memory = memory }) needed layout
  ]
]

-- What `dealloc` does: the slot goes to the free list, or its header points out of the arena and
-- nothing is done, or the system allocator is asked. To release a pointer that `alloc` did not give
-- is undefined.
pub data Release : Type 0 where
  freed : Release
  ignored : Release
  to_system : Release
  undefined : Release

-- The header before a user pointer, and the others.
unfoldable pub take_header : ℕ → List AllocHeader → Option (AllocHeader × List AllocHeader)
take_header ptr [] = none
take_header ptr (h ∷ headers) =
    let later = take_header ptr headers in
    if h.user == ptr then some (h, headers) else later >>= λ (g, l). some (g, h ∷ l)

-- `slot_start` is inside the arena and so is the end of the slot.
unfoldable pub is_outside : Arena → AllocHeader → Bool
is_outside a h =
    ltb (h.user - h.slot_offset) a.base
    || ltb (a.base + a.memory.allocated) (h.user - h.slot_offset + h.slot_size)

-- Every 32nd release wakes the thread that defragments.
unfoldable pub count_dealloc : Arena → Arena
count_dealloc a = record a {
  dealloc_count = fetch_add a.dealloc_count 1;
  notified = if bit_and a.dealloc_count 31 == 31 then true else a.notified;
}

unfoldable pub release_slot : Arena → AllocHeader → List AllocHeader → Arena
unfolding count_dealloc
release_slot a h headers = count_dealloc (record a {
  free_list = record { address = h.user - h.slot_offset; size = h.slot_size } ∷ a.free_list;
  headers = headers;
  memory = record a.memory { used = fetch_sub a.memory.used h.slot_size };
})

unfoldable pub dealloc : Arena → ℕ → Arena × Release
unfolding take_header is_outside release_slot
dealloc a ptr =
    if a.base == 0
    then (a, to_system)
    else if ltb ptr a.base || leb (a.base + a.memory.allocated) ptr
    then (a, to_system)
    else elim (take_header ptr a.headers) [
      | none ↦ (a, undefined)
      | some (h, headers) ↦
          if is_outside a h then (a, ignored) else (release_slot a h headers, freed)
    ]
