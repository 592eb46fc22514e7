-- ===== src/Memory/Defragment.antt =====
-- memory/allocator.rs: `defragment`, which sorts the free list by address and joins neighbours, and a
-- round of the thread that calls it.
pub mod Order
pub mod Canonical
use rust_data_broker.Prelude.{ℕ, ◌+◌, Bool, false, List, [], ◌∷◌, ◌==◌, ltb, if◌then◌else◌}
use rust_data_broker.Memory.Arena.{FreeNode, Arena}

-- The inner loop: past the nodes with lower addresses.
unfoldable pub insert_sorted : FreeNode → List FreeNode → List FreeNode
insert_sorted current [] = current ∷ []
insert_sorted current (node ∷ sorted) =
    let later = insert_sorted current sorted in
    if ltb node.address current.address then node ∷ later else current ∷ node ∷ sorted

-- The outer loop.
unfoldable pub sort_nodes : List FreeNode → List FreeNode → List FreeNode
unfolding insert_sorted
sort_nodes sorted [] = sorted
sort_nodes sorted (current ∷ next) = sort_nodes (insert_sorted current sorted) next

-- The joining loop, at `node` with `next` behind it.
unfoldable pub join_nodes : FreeNode → List FreeNode → List FreeNode
join_nodes node [] = node ∷ []
join_nodes node (next ∷ nodes) =
    let joined = join_nodes (record node { size = node.size + next.size }) nodes in
    let apart = join_nodes next nodes in
    if node.address + node.size == next.address then joined else node ∷ apart

abbrev pub join_all : List FreeNode → List FreeNode
join_all [] = []
join_all (node ∷ nodes) = join_nodes node nodes

unfoldable pub defragment_list : List FreeNode → List FreeNode
unfolding sort_nodes join_nodes
defragment_list nodes = join_all (sort_nodes [] nodes)

unfoldable pub defragment : Arena → Arena
unfolding defragment_list
defragment a = record a { free_list = defragment_list a.free_list }

-- A round of `defrag_thread`, which waits until it is notified.
unfoldable pub defrag_round : Arena → Arena
unfolding defragment
defrag_round a = if a.notified then defragment (record a { notified = false }) else a
