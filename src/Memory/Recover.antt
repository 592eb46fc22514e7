-- ===== src/Memory/Recover.antt =====
-- memory/allocator.rs: an arena whose slots are all released is whole again after `defragment`.
use rust_data_broker.Prelude.{
  ℕ, ◌+◌, ◌-◌, ◌^◌, ◌<◌, ◌≤◌, ◌≡◌, ◌≢◌, ap, ◌∙◌, true, false, some, List, [], ◌∷◌, arith, All, ltb,
  leb, ◌==◌,
}
use rust_data_broker.Memory.{Memory}
use rust_data_broker.Memory.Arena.{Layout, FreeNode, Arena}
use rust_data_broker.Memory.Alloc.{
  required_slot_size, reserve_used, find_node, alloc, alloc_reserved, alloc_from_free_list, slot_of,
  pointer, place_header,
}
use rust_data_broker.Memory.Owners.{free_owners, slot_owners, slot_sizes, inside, inside-le}
use rust_data_broker.Memory.Defragment.{defragment_list, defragment}
use rust_data_broker.Memory.Defragment.Order.{defragment_list-owners, IsFull}
use rust_data_broker.Memory.Defragment.Canonical.{defragment_list-Apart, Apart-unique}
use rust_data_broker.Memory.Tiling.{IsNode, Tiled, IsLayout}
use rust_data_broker.Memory.Tiling.Place.{required_slot_size-some}

-- The arena below `offset` as one node.
abbrev pub whole_node : Arena → FreeNode
whole_node a = record { address = a.base; size = a.offset }

nodes-IsFull : (nodes : List FreeNode) → All IsNode nodes → All IsFull nodes
nodes-IsFull [] v = tt
nodes-IsFull (n ∷ nodes) v = (let r = v.0.roomy in omega arith, nodes-IsFull nodes v.1)

module _ (a : Arena) (t : Tiled a) (empty : a.headers ≡ []) where
  no_slots : (x : ℕ) → free_owners x a.free_list ≡ inside x a.base a.offset
  unfolding slot_owners
  no_slots x = omega (arith, t.owned x, ap (slot_owners x) empty)

  nothing_used : a.memory.used ≡ 0
  unfolding slot_sizes
  nothing_used = t.accounts ∙ ap slot_sizes empty

  defragment_list-whole : 0 < a.offset → defragment_list a.free_list ≡ whole_node a ∷ []
  unfolding free_owners
  defragment_list-whole h =
      Apart-unique 0 0 (defragment_list a.free_list) (whole_node a ∷ [])
        (defragment_list-Apart a.free_list (nodes-IsFull a.free_list t.nodes)
          (λ x. omega (arith, no_slots x, inside-le x a.base a.offset)))
        (omega arith, h, tt) (λ x. defragment_list-owners x a.free_list ∙ no_slots x ∙ omega arith)

reserve_used-some :
    (m : Memory) (needed : ℕ)
    → m.used ≡ 0
    → needed + m.locked_size ≤ m.allocated
    → m.allocated < 2 ^ 64
    → (m' : Memory) × (reserve_used m needed ≡ some m')
unfolding reserve_used
reserve_used-some m needed z h b =
    let first : ltb m.allocated m.locked_size ≡ false = ground arith in
    let second : ltb 18446744073709551615 (m.used + needed) ≡ false = ground arith in
    let third : leb (m.used + needed) (m.allocated - m.locked_size) ≡ true = ground arith in
    (record m { used = m.used + needed }, rw (first, second, third))

alloc_single :
    (a : Arena) (l : Layout) (needed : ℕ) (n : FreeNode) (m : Memory)
    → (a.base == 0) ≡ false
    → required_slot_size l ≡ some needed
    → reserve_used a.memory needed ≡ some m
    → a.free_list ≡ n ∷ []
    → leb needed n.size ≡ true
    → (ptr : ℕ) × ((alloc a l).1 ≡ pointer ptr)
unfolding alloc alloc_reserved alloc_from_free_list find_node
alloc_single a l needed n m e r s f g = (
  (place_header n.address (slot_of needed n) l).user,
  rw (e, r, s, f, find_node, alloc_from_free_list, alloc_reserved, g),
)

-- In an initialised arena that its free nodes cut up, without slots, where the slot of a layout is not
-- larger than the used part, and fits in the arena beside the locked size, the used part is one free
-- node after `defragment`, and `alloc` of the layout then gives a pointer.
pub defragment-alloc :
    (a : Arena) (l : Layout) (needed : ℕ)
    → Tiled a
    → IsLayout l
    → a.headers ≡ []
    → a.base ≢ 0
    → required_slot_size l ≡ some needed
    → needed ≤ a.offset
    → needed + a.memory.locked_size ≤ a.memory.allocated
    → ((defragment a).free_list ≡ whole_node a ∷ [])
      × ((ptr : ℕ) × ((alloc (defragment a) l).1 ≡ pointer ptr))
unfolding defragment
defragment-alloc a l needed t v empty live r fits room =
    let (least, e, enough) = required_slot_size-some l v in
    let same : least ≡ needed = ground arith in
    let roomy = enough.roomy in
    let (m, s) =
      reserve_used-some a.memory needed (nothing_used a t empty) room
        (let f = t.base_fits in omega arith) in
    let whole = defragment_list-whole a t empty (omega arith) in
    (
      whole,
      alloc_single (defragment a) l needed (whole_node a) m (ground arith) r s whole (ground arith),
    )
