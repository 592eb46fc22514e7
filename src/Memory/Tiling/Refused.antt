-- ===== src/Memory/Tiling/Refused.antt =====
-- memory/allocator.rs: where `alloc` answers with null.
use rust_data_broker.Prelude.{
  ℕ, ◌+◌, ◌-◌, ◌^◌, ◌<◌, ◌≤◌, ◌≡◌, ◌⊎◌, inl, inr, none, some, List, [], ◌∷◌, arith, All, ltb, leb,
  Bool-cases, Option-cases,
}
use rust_data_broker.Memory.{Memory}
use rust_data_broker.Memory.Arena.{Layout, FreeNode, Arena}
use rust_data_broker.Memory.Alloc.{required_slot_size, reserve_used, find_node}

pub reserve_used-cases :
    (m : Memory) (needed : ℕ)
    → m.allocated < 2 ^ 64
    → ((reserve_used m needed ≡ none) × (m.allocated < m.used + needed + m.locked_size))
      ⊎ ((reserve_used m needed ≡ some (record m { used = m.used + needed }))
          × (m.used + needed + m.locked_size ≤ m.allocated))
unfolding reserve_used
reserve_used-cases m needed word = elim (Bool-cases (ltb m.allocated m.locked_size)) [
  | inl e ↦ inl (rw e, ground arith)
  | inr e ↦ elim (Bool-cases (ltb 18446744073709551615 (m.used + needed))) [
    | inl f ↦ inl (rw (e, f), ground arith)
    | inr f ↦ elim (Bool-cases (leb (m.used + needed) (m.allocated - m.locked_size))) [
      | inl g ↦ inr (rw (e, f, g), ground arith)
      | inr g ↦ inl (rw (e, f, g), ground arith)
    ]
  ]
]

-- The slot would pass what is not locked, or no free node and not the rest of the arena can hold it.
abbrev pub IsRefused : Arena → Layout → Type 0
IsRefused a l =
    (needed : ℕ) × (required_slot_size l ≡ some needed)
    × ((a.memory.allocated < a.memory.used + needed + a.memory.locked_size)
        ⊎ (All (λ n. n.size < needed) a.free_list × (a.memory.allocated < a.offset + needed)))

pub find_node-none :
    (needed : ℕ) (nodes : List FreeNode)
    → find_node needed nodes ≡ none
    → All (λ n. n.size < needed) nodes
unfolding find_node
find_node-none needed [] e = tt
find_node-none needed (m ∷ nodes) e = elim (Bool-cases (leb needed m.size)) [
  | inl h ↦ absurd (let z = rw (h, find_node) at e in cc)
  | inr h ↦ elim (Option-cases (find_node needed nodes)) [
    | inl g ↦ (ground arith, find_node-none needed nodes g)
    | inr (_, g) ↦ absurd (let z = rw (h, find_node, g) at e in cc)
  ]
]
