-- ===== src/Memory/Defragment/Canonical.antt =====
-- memory/allocator.rs: `defragment` gives one list for each set of free addresses.
use rust_data_broker.Prelude.{
  ℕ, ◌+◌, ◌<◌, ◌≤◌, ◌≡◌, refl, sym, ap, ◌∙◌, inl, inr, List, [], ◌∷◌, arith, All, ltb, Bool-cases,
}
use rust_data_broker.Memory.Arena.{FreeNode}
use rust_data_broker.Memory.Owners.{free_owners, inside, inside_yes, inside_above, inside_below}
use rust_data_broker.Memory.Defragment.{sort_nodes, join_all, defragment_list}
use rust_data_broker.Memory.Defragment.Order.{
  defragment_list-owners, Disjoint, Apart, IsFull, Once, sort_nodes-owners, sort_nodes-Ascends,
  sort_nodes-IsFull, Ascends-Disjoint, join_nodes-Apart,
}

-- Sorted, without neighbours, and every address in as many nodes as before.
pub defragment_list-Apart :
    (nodes : List FreeNode) → All IsFull nodes → Once nodes → Apart 0 (defragment_list nodes)
unfolding defragment_list free_owners
defragment_list-Apart nodes full once = joined (sort_nodes [] nodes) disjoint
  where
    disjoint : Disjoint 0 (sort_nodes [] nodes)
    disjoint =
        Ascends-Disjoint 0 (sort_nodes [] nodes) (sort_nodes-Ascends [] nodes tt)
          (sort_nodes-IsFull [] nodes tt full)
          (λ x. omega (arith, sort_nodes-owners x [] nodes, once x))

    joined : (l : List FreeNode) → Disjoint 0 l → Apart 0 (join_all l)
    joined [] d = tt
    joined (n ∷ l) d = join_nodes-Apart 0 n l d

owners_below : (b x : ℕ) (nodes : List FreeNode) → Apart b nodes → x < b → free_owners x nodes ≡ 0
unfolding free_owners
owners_below b x [] a h = refl
owners_below b x (n ∷ nodes) a h = omega (
  arith,
  inside_below x n.address n.size (omega arith),
  owners_below (n.address + n.size + 1) x nodes a.2 (let l = a.0 in omega arith),
)

-- The first node begins at the least free address, and ends at the least address behind it that is
-- not free.
module _ (n m : FreeNode) (ns ms : List FreeNode) (b c : ℕ) (p : Apart b (n ∷ ns))
    (q : Apart c (m ∷ ms)) (same : (x : ℕ) → free_owners x (n ∷ ns) ≡ free_owners x (m ∷ ms)) where
  first_address : m.address ≤ n.address
  unfolding free_owners
  first_address = elim (Bool-cases (ltb n.address m.address)) [
    | inr e ↦ ground arith
    | inl e ↦ absurd (
        let low : n.address < m.address = ground arith in
        let full = p.1 in
        omega (
          arith,
          same n.address,
          inside_yes n.address n.address n.size (omega arith) (omega arith),
          inside_below n.address m.address m.size low,
          owners_below (m.address + m.size + 1) n.address ms q.2 (omega arith),
        ))
  ]

  first_end : m.address + m.size ≤ n.address + n.size
  unfolding free_owners
  first_end = elim (Bool-cases (ltb (n.address + n.size) (m.address + m.size))) [
    | inr e ↦ ground arith
    | inl e ↦ absurd (
        let short : n.address + n.size < m.address + m.size = ground arith in
        omega (
          arith,
          same (n.address + n.size),
          inside_above (n.address + n.size) n.address n.size (omega arith),
          owners_below (n.address + n.size + 1) (n.address + n.size) ns p.2 (omega arith),
          inside_yes (n.address + n.size) m.address m.size (omega (arith, first_address)) short,
        ))
  ]

heads : (n m : FreeNode) → n.address ≡ m.address → n.address + n.size ≡ m.address + m.size → n ≡ m
heads n m e f = ground arith

-- Two such lists that hold the same addresses are one.
pub Apart-unique :
    (b c : ℕ) (ns ms : List FreeNode)
    → Apart b ns
    → Apart c ms
    → ((x : ℕ) → free_owners x ns ≡ free_owners x ms)
    → ns ≡ ms
unfolding free_owners
Apart-unique b c [] [] p q same = refl
Apart-unique b c [] (m ∷ ms) p q same = absurd (
    let full = q.1 in
    omega
      (arith, same m.address, inside_yes m.address m.address m.size (omega arith) (omega arith)))
Apart-unique b c (n ∷ ns) [] p q same = absurd (
    let full = p.1 in
    omega
      (arith, same n.address, inside_yes n.address n.address n.size (omega arith) (omega arith)))
Apart-unique b c (n ∷ ns) (m ∷ ms) p q same =
    let back = λ (x : ℕ). sym (same x) in
    let start : n.address ≡ m.address =
      omega (arith, first_address n m ns ms b c p q same, first_address m n ms ns c b q p back) in
    let finish : n.address + n.size ≡ m.address + m.size =
      omega (arith, first_end n m ns ms b c p q same, first_end m n ms ns c b q p back) in
    let head = heads n m start finish in
    let tail : (x : ℕ) → free_owners x ns ≡ free_owners x ms =
      λ x. omega (arith, same x, ap (λ k. inside x k.address k.size) head) in
    ap (λ k. k ∷ ns) head
    ∙ ap (◌∷◌ m) (Apart-unique (n.address + n.size + 1) (m.address + m.size + 1) ns ms p.2 q.2 tail)

-- Two free lists without empty nodes, in which no address is in two nodes, and which hold the same
-- addresses, in whatever order and pieces, are the same list after `defragment`; it is sorted by
-- address, and no two of its nodes overlap or are side by side.
pub defragment_list_unique :
    (ns ms : List FreeNode)
    → All IsFull ns
    → All IsFull ms
    → Once ns
    → ((x : ℕ) → free_owners x ns ≡ free_owners x ms)
    → (defragment_list ns ≡ defragment_list ms) × Apart 0 (defragment_list ns)
defragment_list_unique ns ms full full' once same =
    let a = defragment_list-Apart ns full once in
    (
      Apart-unique 0 0 (defragment_list ns) (defragment_list ms) a
          (defragment_list-Apart ms full' (λ x. omega (arith, same x, once x)))
          (λ x. defragment_list-owners x ns ∙ same x ∙ sym (defragment_list-owners x ms)),
      a,
    )
