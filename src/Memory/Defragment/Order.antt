-- ===== src/Memory/Defragment/Order.antt =====
-- memory/allocator.rs: what the sorting and the joining of `defragment` do to the addresses.
use rust_data_broker.Prelude.{
  ℕ, ◌+◌, ◌<◌, ◌≤◌, ◌≡◌, refl, ap, subst, ◌∙◌, inl, inr, List, [], ◌∷◌, arith, All, ◌==◌, ltb,
  Bool-cases,
}
use rust_data_broker.Memory.Arena.{FreeNode}
use rust_data_broker.Memory.Owners.{free_owners, inside, inside-join}
use rust_data_broker.Memory.Defragment.{
  insert_sorted, sort_nodes, join_nodes, join_all, defragment_list,
}

insert_sorted-owners :
    (x : ℕ) (n : FreeNode) (nodes : List FreeNode)
    → free_owners x (insert_sorted n nodes) ≡ free_owners x (n ∷ nodes)
unfolding insert_sorted free_owners
insert_sorted-owners x n [] = refl
insert_sorted-owners x n (m ∷ nodes) = ground (arith, insert_sorted-owners x n nodes)

pub sort_nodes-owners :
    (x : ℕ) (sorted nodes : List FreeNode)
    → free_owners x (sort_nodes sorted nodes) ≡ free_owners x sorted + free_owners x nodes
unfolding sort_nodes free_owners
sort_nodes-owners x sorted [] = omega arith
sort_nodes-owners x sorted (n ∷ nodes) =
    omega
      (arith, sort_nodes-owners x (insert_sorted n sorted) nodes, insert_sorted-owners x n sorted)

join_nodes-owners :
    (x : ℕ) (n : FreeNode) (nodes : List FreeNode)
    → free_owners x (join_nodes n nodes) ≡ free_owners x (n ∷ nodes)
unfolding join_nodes free_owners
join_nodes-owners x n [] = refl
join_nodes-owners x n (m ∷ nodes) = elim (Bool-cases (n.address + n.size == m.address)) [
  | inl e ↦
      let touch : n.address + n.size ≡ m.address = ground arith in
      rw e (
        omega (
          arith,
          join_nodes-owners x (record n { size = n.size + m.size }) nodes,
          inside-join x n.address n.size m.size,
          ap (λ a. inside x a m.size) touch,
        ))
  | inr e ↦ rw e (omega (arith, join_nodes-owners x m nodes))
]

-- Every address is in as many nodes as before.
pub defragment_list-owners :
    (x : ℕ) (nodes : List FreeNode) → free_owners x (defragment_list nodes) ≡ free_owners x nodes
unfolding defragment_list free_owners
defragment_list-owners x nodes =
    joined (sort_nodes [] nodes) ∙ sort_nodes-owners x [] nodes ∙ omega arith
  where
    joined : (l : List FreeNode) → free_owners x (join_all l) ≡ free_owners x l
    joined [] = refl
    joined (n ∷ l) = join_nodes-owners x n l

-- Ascending from `b` on.
abbrev pub Ascends : ℕ → List FreeNode → Type 0
Ascends b [] = Unit {0}
Ascends b (n ∷ nodes) = (b ≤ n.address) × Ascends n.address nodes

-- Not empty, ascending and disjoint from `b` on.
abbrev pub Disjoint : ℕ → List FreeNode → Type 0
Disjoint b [] = Unit {0}
Disjoint b (n ∷ nodes) = (b ≤ n.address) × (0 < n.size) × Disjoint (n.address + n.size) nodes

-- And no two side by side.
abbrev pub Apart : ℕ → List FreeNode → Type 0
Apart b [] = Unit {0}
Apart b (n ∷ nodes) = (b ≤ n.address) × (0 < n.size) × Apart (n.address + n.size + 1) nodes

abbrev pub IsFull : FreeNode → Type 0
IsFull n = 0 < n.size

insert_sorted-Ascends :
    (b : ℕ) (n : FreeNode) (nodes : List FreeNode)
    → b ≤ n.address
    → Ascends b nodes
    → Ascends b (insert_sorted n nodes)
unfolding insert_sorted
insert_sorted-Ascends b n [] h s = (h, tt)
insert_sorted-Ascends b n (m ∷ nodes) h s = elim (Bool-cases (ltb m.address n.address)) [
  | inl e ↦ rw e (s.0, insert_sorted-Ascends m.address n nodes (ground arith) s.1)
  | inr e ↦ rw e (h, (ground arith, s.1))
]

insert_sorted-IsFull :
    (n : FreeNode) (nodes : List FreeNode)
    → IsFull n
    → All IsFull nodes
    → All IsFull (insert_sorted n nodes)
unfolding insert_sorted
insert_sorted-IsFull n [] h s = (h, tt)
insert_sorted-IsFull n (m ∷ nodes) h s = ground (arith, insert_sorted-IsFull n nodes)

pub sort_nodes-Ascends :
    (sorted nodes : List FreeNode) → Ascends 0 sorted → Ascends 0 (sort_nodes sorted nodes)
unfolding sort_nodes
sort_nodes-Ascends sorted [] s = s
sort_nodes-Ascends sorted (n ∷ nodes) s =
    sort_nodes-Ascends (insert_sorted n sorted) nodes
      (insert_sorted-Ascends 0 n sorted (omega arith) s)

pub sort_nodes-IsFull :
    (sorted nodes : List FreeNode)
    → All IsFull sorted
    → All IsFull nodes
    → All IsFull (sort_nodes sorted nodes)
unfolding sort_nodes
sort_nodes-IsFull sorted [] s h = s
sort_nodes-IsFull sorted (n ∷ nodes) s h =
    sort_nodes-IsFull (insert_sorted n sorted) nodes (insert_sorted-IsFull n sorted h.0 s) h.1

-- Where no address is in two nodes.
abbrev pub Once : List FreeNode → Type 0
Once nodes = (x : ℕ) → free_owners x nodes ≤ 1

Once-tail : (n : FreeNode) (nodes : List FreeNode) → Once (n ∷ nodes) → Once nodes
unfolding free_owners
Once-tail n nodes h = λ x. omega (arith, h x)

starts_behind :
    (n m : FreeNode) (nodes : List FreeNode)
    → n.address ≤ m.address
    → IsFull m
    → Once (n ∷ m ∷ nodes)
    → n.address + n.size ≤ m.address
unfolding free_owners inside
starts_behind n m nodes h f once = ground (arith, once m.address)

pub Ascends-Disjoint :
    (b : ℕ) (nodes : List FreeNode)
    → Ascends b nodes
    → All IsFull nodes
    → Once nodes
    → Disjoint b nodes
Ascends-Disjoint b [] s f h = tt
Ascends-Disjoint b (n ∷ []) s f h = (s.0, f.0, tt)
Ascends-Disjoint b (n ∷ m ∷ nodes) s f h =
    let rest = Ascends-Disjoint n.address (m ∷ nodes) s.1 f.1 (Once-tail n (m ∷ nodes) h) in
    (s.0, f.0, (starts_behind n m nodes s.1.0 f.1.0 h, rest.1, rest.2))

pub join_nodes-Apart :
    (b : ℕ) (n : FreeNode) (nodes : List FreeNode)
    → Disjoint b (n ∷ nodes)
    → Apart b (join_nodes n nodes)
unfolding join_nodes
join_nodes-Apart b n [] d = (d.0, d.1, tt)
join_nodes-Apart b n (m ∷ nodes) d = elim (Bool-cases (n.address + n.size == m.address)) [
  | inl e ↦ rw e (
      join_nodes-Apart b (record n { size = n.size + m.size }) nodes
        (d.0, omega arith, subst (λ k. Disjoint k nodes) (ground arith) d.2.2))
  | inr e ↦
      rw e
        (d.0, d.1, join_nodes-Apart (n.address + n.size + 1) m nodes (ground arith, d.2.1, d.2.2))
]
