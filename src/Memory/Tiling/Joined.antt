-- ===== src/Memory/Tiling/Joined.antt =====
-- memory/allocator.rs: `defragment` on an arena that is cut up by its free nodes and
-- slots.
use rust_data_broker.Prelude.{
  ◌+◌, ◌≡◌, refl, inl, inr, List, [], ◌∷◌, arith, All, ltb, ◌==◌, Bool-cases,
}
use rust_data_broker.Memory.Arena.{FreeNode, Arena}
use rust_data_broker.Memory.Defragment.{
  insert_sorted, sort_nodes, join_nodes, join_all, defragment_list, defragment,
}
use rust_data_broker.Memory.Defragment.Order.{defragment_list-owners}
use rust_data_broker.Memory.Tiling.{IsNode, Tiled, free_sizes}

join_nodes-IsNode :
    (n : FreeNode) (nodes : List FreeNode)
    → All IsNode (n ∷ nodes)
    → All IsNode (join_nodes n nodes)
unfolding join_nodes
join_nodes-IsNode n [] v = v
join_nodes-IsNode n (m ∷ nodes) v = elim (Bool-cases (n.address + n.size == m.address)) [
  | inl e ↦ rw e (
      join_nodes-IsNode (record n { size = n.size + m.size }) nodes
        (
          record {
            aligned = v.0.aligned;
            whole = omega (arith, v.0.whole, v.1.0.whole);
            roomy = omega (arith, v.0.roomy);
          },
          v.1.1,
        ))
  | inr e ↦ rw e (v.0, join_nodes-IsNode m nodes v.1)
]

insert_sorted-IsNode :
    (n : FreeNode) (nodes : List FreeNode)
    → All IsNode (n ∷ nodes)
    → All IsNode (insert_sorted n nodes)
unfolding insert_sorted
insert_sorted-IsNode n [] v = v
insert_sorted-IsNode n (m ∷ nodes) v = elim (Bool-cases (ltb m.address n.address)) [
  | inl e ↦ rw e (v.1.0, insert_sorted-IsNode n nodes (v.0, v.1.1))
  | inr e ↦ rw e v
]

sort_nodes-IsNode :
    (sorted nodes : List FreeNode)
    → All IsNode sorted
    → All IsNode nodes
    → All IsNode (sort_nodes sorted nodes)
unfolding sort_nodes
sort_nodes-IsNode sorted [] s v = s
sort_nodes-IsNode sorted (n ∷ nodes) s v =
    sort_nodes-IsNode (insert_sorted n sorted) nodes (insert_sorted-IsNode n sorted (v.0, s)) v.1

insert_sorted-free_sizes :
    (n : FreeNode) (nodes : List FreeNode)
    → free_sizes (insert_sorted n nodes) ≡ n.size + free_sizes nodes
unfolding insert_sorted free_sizes
insert_sorted-free_sizes n [] = refl
insert_sorted-free_sizes n (m ∷ nodes) = ground (arith, insert_sorted-free_sizes n nodes)

sort_nodes-free_sizes :
    (sorted nodes : List FreeNode)
    → free_sizes (sort_nodes sorted nodes) ≡ free_sizes sorted + free_sizes nodes
unfolding sort_nodes free_sizes
sort_nodes-free_sizes sorted [] = omega arith
sort_nodes-free_sizes sorted (n ∷ nodes) =
    omega (
      arith,
      sort_nodes-free_sizes (insert_sorted n sorted) nodes,
      insert_sorted-free_sizes n sorted,
    )

join_nodes-free_sizes :
    (n : FreeNode) (nodes : List FreeNode)
    → free_sizes (join_nodes n nodes) ≡ n.size + free_sizes nodes
unfolding join_nodes free_sizes
join_nodes-free_sizes n [] = refl
join_nodes-free_sizes n (m ∷ nodes) = elim (Bool-cases (n.address + n.size == m.address)) [
  | inl e ↦ rw e (omega (arith, join_nodes-free_sizes (record n { size = n.size + m.size }) nodes))
  | inr e ↦ rw e (omega (arith, join_nodes-free_sizes m nodes))
]

join_all-Tiled :
    (nodes : List FreeNode)
    → All IsNode nodes
    → All IsNode (join_all nodes) × (free_sizes (join_all nodes) ≡ free_sizes nodes)
unfolding free_sizes
join_all-Tiled [] v = (tt, refl)
join_all-Tiled (n ∷ nodes) v = (join_nodes-IsNode n nodes v, join_nodes-free_sizes n nodes)

pub defragment-Tiled : (a : Arena) → Tiled a → Tiled (defragment a)
unfolding defragment defragment_list free_sizes
defragment-Tiled a t =
    let sorted = sort_nodes-IsNode [] a.free_list tt t.nodes in
    let (nodes, sizes) = join_all-Tiled (sort_nodes [] a.free_list) sorted in
    record {
      base_aligned = t.base_aligned;
      base_fits = t.base_fits;
      offset_aligned = t.offset_aligned;
      offset_fits = t.offset_fits;
      owned = λ x. omega (arith, defragment_list-owners x a.free_list, t.owned x);
      sizes = omega (arith, sizes, sort_nodes-free_sizes [] a.free_list, t.sizes);
      accounts = t.accounts;
      nodes = nodes;
      slots = t.slots;
    }
