-- ===== src/Memory/Tiling/Place.antt =====
-- memory/allocator.rs: the sizes and the headers of new slots.
use Prim.Native.Nat.{max}
use native.Mathlib.Nat.{pow-le-pow_right}
use rust_data_broker.Prelude.{
  ℕ, ◌+◌, ◌-◌, ◌%◌, ◌^◌, ◌<◌, ◌≤◌, ◌≡◌, refl, ap, subst, ◌∙◌, inl, inr, true, false, Option, some,
  List, [], ◌∷◌, arith, All, ltb, leb, Bool-cases, Option-cases,
}
use rust_data_broker.Memory.Align.{pow_pos, align_up, IsAligned, align_up-IsAligned}
use rust_data_broker.Memory.Arena.{Layout, FreeNode, AllocHeader}
use rust_data_broker.Memory.Alloc.{required_slot_size, place_header, split_node, find_node, slot_of}
use rust_data_broker.Memory.Owners.{free_owners, inside, slot_start, inside-join}
use rust_data_broker.Memory.Tiling.{IsNode, IsSlot, IsLayout, free_sizes}

-- A slot size that `required_slot_size` gives for the layout.
pub record IsEnough (l : Layout) (needed : ℕ) : Type 0 where
  pub whole : needed % 8 ≡ 0
  pub roomy : 16 ≤ needed
  pub enough : 15 + l.align + l.size ≤ needed

align_pos : (l : Layout) → IsLayout l → 0 < l.align
align_pos l v = rw v.power (pow_pos v.exponent)

exponent_small : (l : Layout) (v : IsLayout l) → v.exponent < 64
exponent_small l v = elim (Bool-cases (ltb v.exponent 64)) [
  | inl e ↦ ground arith
  | inr e ↦ absurd (
      omega (
        arith,
        v.bounded,
        v.power,
        pow-le-pow_right {n = 2} (omega arith) {i = 64} {j = v.exponent} (ground arith),
      ))
]

IsAligned-to :
    (l : Layout) (v : IsLayout l) (value : ℕ)
    → value + l.align ≤ 2 ^ 64
    → IsAligned value l.align (align_up value l.align)
IsAligned-to l v value h =
    rw v.power (align_up-IsAligned value v.exponent (exponent_small l v) (rw v.power at h))

pub required_slot_size-some :
    (l : Layout)
    → IsLayout l
    → (needed : ℕ) × (required_slot_size l ≡ some needed) × IsEnough l needed
unfolding required_slot_size
required_slot_size-some l v =
    let positive = align_pos l v in
    let bounded = v.bounded in
    let first : ltb 18446744073709551615 (16 + (l.align - 1)) ≡ false = ground arith in
    let second : ltb 18446744073709551615 (16 + (l.align - 1) + l.size) ≡ false = ground arith in
    let up : IsAligned (max (16 + (l.align - 1) + l.size) 16) 8
        (align_up (max (16 + (l.align - 1) + l.size) 16) 8) =
      align_up-IsAligned (max (16 + (l.align - 1) + l.size) 16) 3 (omega arith) (omega arith) in
    (
      align_up (max (16 + (l.align - 1) + l.size) 16) 8,
      rw (first, second),
      record {
        whole = up.divides;
        roomy = let a = up.above in omega arith;
        enough = let a = up.above in omega arith;
      },
    )

-- The header of a slot that is large enough.
pub record IsPlaced (l : Layout) (slot size : ℕ) (h : AllocHeader) : Type 0 where
  pub start : slot_start h ≡ slot
  pub whole_size : h.slot_size ≡ size
  pub aligned : h.user % l.align ≡ 0
  pub header_fits : slot + 16 ≤ h.user
  pub size_fits : h.user + l.size ≤ slot + size
  pub slot_ok : IsSlot h

pub place_header-IsPlaced :
    (l : Layout) (slot size needed : ℕ)
    → IsLayout l
    → IsEnough l needed
    → needed ≤ size
    → slot + size < 2 ^ 64
    → slot % 8 ≡ 0
    → size % 8 ≡ 0
    → IsPlaced l slot size (place_header slot size l)
unfolding place_header
place_header-IsPlaced l slot size needed v e fits word s8 z8 =
    let above = user.above in
    let near = user.near in
    let enough = e.enough in
    let roomy = e.roomy in
    let start : align_up (slot + 16) l.align - (align_up (slot + 16) l.align - slot) ≡ slot =
      omega arith in
    record {
      start = start;
      whole_size = refl;
      aligned = user.divides;
      header_fits = above;
      size_fits = omega arith;
      slot_ok = record {
        aligned = rw start s8;
        whole = z8;
        roomy = omega arith;
        room_before = omega arith;
        reached = omega arith;
        room_after = let positive = v.nonzero in omega arith;
      };
    }
  where
    user : IsAligned (slot + 16) l.align (align_up (slot + 16) l.align)
    user = IsAligned-to l v (slot + 16) (omega (arith, e.enough, v.nonzero))

-- The node that `find_node` takes, and the list that it leaves.
pub record IsFound (needed : ℕ) (nodes : List FreeNode) (n : FreeNode) (rest : List FreeNode)
    : Type 0 where
  pub node : IsNode n
  pub others : All IsNode rest
  pub large : needed ≤ slot_of needed n
  pub close : slot_of needed n < needed + 16
  pub whole : slot_of needed n % 8 ≡ 0
  pub owners :
      (x : ℕ) → free_owners x rest + inside x n.address (slot_of needed n) ≡ free_owners x nodes
  pub sizes : free_sizes rest + slot_of needed n ≡ free_sizes nodes

slot_of_large :
    (needed : ℕ) (n : FreeNode) → leb 16 (n.size - needed) ≡ true → slot_of needed n ≡ needed
unfolding slot_of
slot_of_large needed n e = rw e

slot_of_small :
    (needed : ℕ) (n : FreeNode) → leb 16 (n.size - needed) ≡ false → slot_of needed n ≡ n.size
unfolding slot_of
slot_of_small needed n e = rw e

split_node-IsFound :
    (needed : ℕ) (n : FreeNode) (nodes : List FreeNode)
    → needed % 8 ≡ 0
    → needed ≤ n.size
    → All IsNode (n ∷ nodes)
    → IsFound needed (n ∷ nodes) n (split_node needed n nodes)
unfolding split_node free_owners free_sizes
split_node-IsFound needed n nodes w fits v = elim (Bool-cases (leb 16 (n.size - needed))) [
  | inl e ↦
      let taken : slot_of needed n ≡ needed = slot_of_large needed n e in
      rw e (record {
        node = v.0;
        others = (
          record {
            aligned = let a = v.0.aligned in omega arith;
            whole = let a = v.0.whole in omega arith;
            roomy = ground arith;
          },
          v.1,
        );
        large = omega (arith, taken);
        close = omega (arith, taken);
        whole = rw taken w;
        owners = λ x. omega (
          arith,
          inside-join x n.address needed (n.size - needed),
          ap (inside x n.address) back,
          ap (inside x n.address) taken,
        );
        sizes = omega (arith, taken);
      })
  | inr e ↦
      let taken : slot_of needed n ≡ n.size = slot_of_small needed n e in
      let near : n.size < needed + 16 = ground arith in
      rw e (record {
        node = v.0;
        others = v.1;
        large = omega (arith, taken);
        close = omega (arith, taken);
        whole = rw taken v.0.whole;
        owners = λ x. omega (arith, ap (inside x n.address) taken);
        sizes = omega (arith, taken);
      })
]
  where
    back : needed + (n.size - needed) ≡ n.size
    back = omega arith

keep-IsFound :
    (needed : ℕ) (m : FreeNode) (nodes : List FreeNode) (n : FreeNode) (rest : List FreeNode)
    → IsNode m
    → IsFound needed nodes n rest
    → IsFound needed (m ∷ nodes) n (m ∷ rest)
unfolding free_owners free_sizes
keep-IsFound needed m nodes n rest v f = record {
  node = f.node;
  others = (v, f.others);
  large = f.large;
  close = f.close;
  whole = f.whole;
  owners = λ x. omega (arith, f.owners x);
  sizes = omega (arith, f.sizes);
}

pairs :
    {A B : Type 0} (a c : A) (b d : B)
    → ◌≡◌ {A = Option (A × B)} (some (a, b)) (some (c, d))
    → (a ≡ c) × (b ≡ d)
pairs a c b d e = ground arith

pub find_node-IsFound :
    (needed : ℕ) (nodes : List FreeNode) (n : FreeNode) (rest : List FreeNode)
    → needed % 8 ≡ 0
    → All IsNode nodes
    → find_node needed nodes ≡ some (n, rest)
    → IsFound needed nodes n rest
unfolding find_node
find_node-IsFound needed [] n rest w v e = cc
find_node-IsFound needed (m ∷ nodes) n rest w v e = elim (Bool-cases (leb needed m.size)) [
  | inl h ↦
      let (same, left) = pairs m n (split_node needed m nodes) rest (rw (h, find_node) at e) in
      subst (IsFound needed (m ∷ nodes) n) left (
        subst (λ k. IsFound needed (m ∷ nodes) k (split_node needed m nodes)) same
          (split_node-IsFound needed m nodes w (ground arith) v))
  | inr h ↦ elim (Option-cases (find_node needed nodes)) [
    | inl g ↦ absurd (let z = rw (h, find_node, g) at e in cc)
    | inr ((k, l), g) ↦
        let (same, left) = pairs k n (m ∷ l) rest (rw (h, find_node, g) at e) in
        subst (IsFound needed (m ∷ nodes) n) left (
          keep-IsFound needed m nodes n l v.0
            (find_node-IsFound needed nodes n l w v.1 (g ∙ ap (λ z. some (z, l)) same)))
  ]
]
