-- ===== src/Memory/Owners.antt =====
-- memory/allocator.rs: how many free nodes and how many slots hold an address.
use rust_data_broker.Prelude.{
  ℕ, ◌+◌, ◌-◌, ◌<◌, ◌≤◌, ◌≡◌, List, [], ◌∷◌, arith, ltb, leb, if◌then◌else◌,
}
use rust_data_broker.Memory.Arena.{FreeNode, AllocHeader}

-- 1 where `x` is one of the `size` addresses from `start` on, else 0.
unfoldable pub inside : ℕ → ℕ → ℕ → ℕ
inside x start size = if leb start x then (if ltb x (start + size) then 1 else 0) else 0

unfoldable pub free_owners : ℕ → List FreeNode → ℕ
free_owners x [] = 0
free_owners x (n ∷ nodes) = inside x n.address n.size + free_owners x nodes

abbrev pub slot_start : AllocHeader → ℕ
slot_start h = h.user - h.slot_offset

unfoldable pub slot_owners : ℕ → List AllocHeader → ℕ
slot_owners x [] = 0
slot_owners x (h ∷ headers) = inside x (slot_start h) h.slot_size + slot_owners x headers

unfoldable pub slot_sizes : List AllocHeader → ℕ
slot_sizes [] = 0
slot_sizes (h ∷ headers) = h.slot_size + slot_sizes headers

pub inside_yes : (x a n : ℕ) → a ≤ x → x < a + n → inside x a n ≡ 1
unfolding inside
inside_yes x a n h k = ground arith

pub inside_below : (x a n : ℕ) → x < a → inside x a n ≡ 0
unfolding inside
inside_below x a n h = ground arith

pub inside_above : (x a n : ℕ) → a + n ≤ x → inside x a n ≡ 0
unfolding inside
inside_above x a n h = ground arith

pub inside-le : (x a n : ℕ) → inside x a n ≤ 1
unfolding inside
inside-le x a n = ground arith

pub inside_inv : (x a n : ℕ) → 0 < inside x a n → (a ≤ x) × (x < a + n)
unfolding inside
inside_inv x a n h = ground arith

-- Two pieces side by side are as good as one.
pub inside-join : (x a n m : ℕ) → inside x a n + inside x (a + n) m ≡ inside x a (n + m)
unfolding inside
inside-join x a n m = ground arith

-- A piece all of whose addresses lie in another one is within its bounds.
pub inside_within :
    (a n b m : ℕ) → 0 < n → ((x : ℕ) → inside x a n ≤ inside x b m) → (b ≤ a) × (a + n ≤ b + m)
inside_within a n b m p h =
    let low = inside_inv a b m (omega (arith, h a, inside_yes a a n (omega arith) (omega arith))) in
    let high =
      inside_inv (a + n - 1) b m
        (omega (arith, h (a + n - 1), inside_yes (a + n - 1) a n (omega arith) (omega arith))) in
    (low.0, omega arith)
