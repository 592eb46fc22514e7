-- ===== src/Tests/Arenas.antt =====
-- The allocator at concrete arenas.
use rust_data_broker.Prelude.{ℕ, ◌+◌, ◌≡◌, refl, List, [], ◌∷◌, arith}
use rust_data_broker.Memory.Align.{align_up}
use rust_data_broker.Memory.Arena.{Layout, FreeNode, Arena, uninitialised}
use rust_data_broker.Memory.Alloc.{
  init, unix, required_slot_size, place_header, reserve_used, find_node, alloc, alloc_reserved,
  alloc_from_free_list, alloc_from_bump, bump_slot, pointer, freed, dealloc,
}
use rust_data_broker.Memory.Owners.{free_owners, slot_owners, slot_sizes, inside}
use rust_data_broker.Memory.Defragment.{
  insert_sorted, sort_nodes, join_nodes, defragment_list, defragment,
}
use rust_data_broker.Memory.Defragment.Order.{Apart}
use rust_data_broker.Memory.Defragment.Canonical.{defragment_list_unique}
use rust_data_broker.Memory.Tiling.{Tiled, IsLayout, free_sizes}
use rust_data_broker.Memory.Tiling.Allocate.{Served, alloc-Served}
use rust_data_broker.Memory.Tiling.Release.{dealloc-alloc}
use rust_data_broker.Memory.Run.{
  Call, allocates, releases, defragments, reserves, run, run-Tiled, mapped_arena,
  mapped_arena-Tiled,
}
use rust_data_broker.Memory.Recover.{defragment-alloc}

abbrev node : ℕ → ℕ → FreeNode
node address size = record { address = address; size = size }

-- One piece of 64 bytes and three, out of order.
abbrev pieces : List FreeNode
pieces = node 4128 16 ∷ node 4096 32 ∷ node 4144 16 ∷ []

abbrev whole : List FreeNode
whole = node 4096 64 ∷ []

defragment_list_unique_example :
    (defragment_list pieces ≡ defragment_list whole) × Apart 0 (defragment_list pieces)
unfolding free_owners inside
defragment_list_unique_example =
    defragment_list_unique pieces whole (omega arith, (omega arith, (omega arith, tt)))
      (omega arith, tt) (λ x. ground arith) (λ x. ground arith)

pieces_joined : defragment_list pieces ≡ whole
unfolding defragment_list sort_nodes insert_sorted join_nodes
pieces_joined = refl

-- 8 GiB at an address of mmap, new and with calls.
abbrev base : ℕ
base = 139637976727552

abbrev size : ℕ
size = 8589934592

abbrev arena : Arena
arena = mapped_arena base size

abbrev small : Layout
small = record { size = 40; align = 8 }

abbrev page : Layout
page = record { size = 100; align = 4096 }

small-IsLayout : IsLayout small
small-IsLayout = record {
  exponent = 3;
  power = ground arith;
  bounded = ground arith;
  nonzero = ground arith;
}

page-IsLayout : IsLayout page
page-IsLayout = record {
  exponent = 12;
  power = ground arith;
  bounded = ground arith;
  nonzero = ground arith;
}

arena-Tiled : Tiled arena
arena-Tiled = mapped_arena-Tiled base size (ground arith) (ground arith)

alloc-Served_example : Served arena page (alloc arena page)
alloc-Served_example = alloc-Served arena page arena-Tiled page-IsLayout (ground arith)

dealloc-alloc_example :
    let r = dealloc (alloc arena small).0 (base + 16) in
    (r.1 ≡ freed) × (r.0.headers ≡ []) × (r.0.memory.used ≡ 0) × Tiled r.0
unfolding alloc required_slot_size reserve_used alloc_reserved alloc_from_free_list find_node
    alloc_from_bump bump_slot place_header align_up
dealloc-alloc_example =
    dealloc-alloc arena small (base + 16) arena-Tiled small-IsLayout (ground arith) refl

abbrev calls : List Call
calls =
    allocates small
    ∷ allocates page
    ∷ releases (base + 16)
    ∷ reserves 4096
    ∷ allocates small
    ∷ defragments
    ∷ []

run-Tiled_example : Tiled (run arena calls)
unfolding init uninitialised
run-Tiled_example =
    run-Tiled unix size base arena calls refl (ground arith) (ground arith)
      (small-IsLayout, (page-IsLayout, (tt, (tt, (small-IsLayout, (tt, tt))))))

-- Two slots that were released, the first last.
abbrev released : Arena
released = record arena { offset = 128; free_list = node base 64 ∷ node (base + 64) 64 ∷ [] }

released-Tiled : Tiled released
unfolding free_owners slot_owners slot_sizes free_sizes inside
released-Tiled = record {
  base_aligned = ground arith;
  base_fits = ground arith;
  offset_aligned = ground arith;
  offset_fits = ground arith;
  owned = λ x. ground arith;
  sizes = refl;
  accounts = refl;
  nodes = (
    record { aligned = ground arith; whole = ground arith; roomy = ground arith },
    (record { aligned = ground arith; whole = ground arith; roomy = ground arith }, tt),
  );
  slots = tt;
}

abbrev large : Layout
large = record { size = 100; align = 8 }

large-IsLayout : IsLayout large
large-IsLayout = record {
  exponent = 3;
  power = ground arith;
  bounded = ground arith;
  nonzero = ground arith;
}

defragment-alloc_example :
    ((defragment released).free_list ≡ node base 128 ∷ [])
    × ((ptr : ℕ) × ((alloc (defragment released) large).1 ≡ pointer ptr))
unfolding required_slot_size align_up
defragment-alloc_example =
    defragment-alloc released large 128 released-Tiled large-IsLayout refl (ground arith) refl
      (ground arith) (ground arith)
