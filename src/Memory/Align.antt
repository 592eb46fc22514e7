-- ===== src/Memory/Align.antt =====
-- memory/allocator.rs: `align_up`, and the arithmetic that its mask stands for.
use Prim.Native.Nat.{min, bit_and, digits, bit_and-bitwise}
use native.Mathlib.Nat.{
  pow-suc, div-add-mod', mod-lt, one-le-pow, div-div-eq-div-mul, pow-succ', mul_assoc, mul-mod_left,
  add-zero, add-suc,
}
use rust_data_broker.Prelude.{
  ℕ, zero, suc, ◌+◌, ◌-◌, ◌*◌, ◌/◌, ◌%◌, ◌^◌, ◌≤◌, ◌<◌, ◌≡◌, refl, sym, ap, ◌∙◌, arith,
}
use rust_data_broker.Memory.{usize_max}

-- `(value + align - 1) & !(align - 1)` on 64 bits, wrapping as a release build does.
unfoldable pub align_up : ℕ → ℕ → ℕ
align_up value align = bit_and ((value + align + usize_max) % 2 ^ 64) (usize_max - (align - 1))

-- The recursion on the digits, with any number of rounds from `a` on.
abbrev and_rounds : ℕ → ℕ → ℕ → ℕ
and_rounds = digits (λ _. zero) min

more_rounds : (k l a b : ℕ) → a ≤ k → a ≤ l → and_rounds k a b ≡ and_rounds l a b
more_rounds zero zero zero b p q = refl
more_rounds zero (suc l) zero b p q = refl
more_rounds (suc k) zero zero b p q = refl
more_rounds (suc k) (suc l) zero b p q = refl
more_rounds zero l (suc a) b p q = absurd (omega arith)
more_rounds (suc k) zero (suc a) b p q = absurd (omega arith)
more_rounds (suc k) (suc l) (suc a) b p q =
    ap (λ x. x * 2 + min (suc a % 2) (b % 2))
      (more_rounds k l (suc a / 2) (b / 2) (omega arith) (omega arith))

-- One digit of `&`.
and_digit : (a b : ℕ) → bit_and a b ≡ bit_and (a / 2) (b / 2) * 2 + min (a % 2) (b % 2)
and_digit zero b = omega (arith, bit_and-bitwise 0 b, bit_and-bitwise 0 (b / 2))
and_digit (suc a) b =
    bit_and-bitwise (suc a) b
    ∙ ap (λ x. x * 2 + min (suc a % 2) (b % 2))
        (more_rounds a (suc a / 2) (suc a / 2) (b / 2) (omega arith) (omega arith)
          ∙ sym (bit_and-bitwise (suc a / 2) (b / 2)))

and_odd : (a c : ℕ) → bit_and a (c * 2 + 1) ≡ bit_and (a / 2) c * 2 + a % 2
and_odd a c =
    let half : (c * 2 + 1) / 2 ≡ c = omega arith in and_digit a (c * 2 + 1) ∙ rw half (omega arith)

and_even : (a c : ℕ) → bit_and a (c * 2) ≡ bit_and (a / 2) c * 2
and_even a c = let half : c * 2 / 2 ≡ c = omega arith in and_digit a (c * 2) ∙ rw half (omega arith)

pub pow_pos : (k : ℕ) → 0 < 2 ^ k
pow_pos k = one-le-pow k 2 (omega arith)

-- The mask of `j` ones keeps a number of `j` digits.
and_ones : (j a : ℕ) → a < 2 ^ j → bit_and a (2 ^ j - 1) ≡ a
and_ones zero a h = let z : a ≡ 0 = omega arith in rw z
and_ones (suc j) a h =
    let mask : 2 ^ suc j - 1 ≡ (2 ^ j - 1) * 2 + 1 = omega (arith, pow-suc 2 j, pow_pos j) in
    let below : a / 2 < 2 ^ j = omega (arith, pow-suc 2 j) in
    ap (bit_and a) mask ∙ and_odd a (2 ^ j - 1) ∙ omega (arith, and_ones j (a / 2) below)

-- The mask of `j` ones before `k` zeroes takes `k` digits off.
and_high : (k j a : ℕ) → a < 2 ^ j * 2 ^ k → bit_and a (2 ^ j * 2 ^ k - 2 ^ k) ≡ a / 2 ^ k * 2 ^ k
and_high zero j a h =
    let mask : 2 ^ j * 2 ^ 0 - 2 ^ 0 ≡ 2 ^ j - 1 = omega arith in
    ap (bit_and a) mask ∙ and_ones j a (omega arith) ∙ omega arith
and_high (suc k) j a h =
    let double : 2 ^ j * 2 ^ suc k ≡ 2 ^ j * 2 ^ k * 2 = grind (arith, pow-suc 2 k) in
    let mask : 2 ^ j * 2 ^ suc k - 2 ^ suc k ≡ (2 ^ j * 2 ^ k - 2 ^ k) * 2 =
      omega (arith, pow-suc 2 k, double) in
    let below : a / 2 < 2 ^ j * 2 ^ k = omega (arith, double) in
    ap (bit_and a) mask
    ∙ and_even a (2 ^ j * 2 ^ k - 2 ^ k)
    ∙ ap (λ x. x * 2) (and_high k j (a / 2) below)
    ∙ shift (a / 2 / 2 ^ k) (a / 2 ^ suc k) quotient
  where
    quotient : a / 2 / 2 ^ k ≡ a / 2 ^ suc k
    quotient = div-div-eq-div-mul a 2 (2 ^ k) ∙ ap (λ x. a / x) (sym (pow-succ' 2 k))

    shift : (x y : ℕ) → x ≡ y → x * 2 ^ k * 2 ≡ y * 2 ^ suc k
    shift x y e = rw e (mul_assoc y (2 ^ k) 2 ∙ ap (λ z. y * z) (sym (pow-suc 2 k)))

pow_split : (j k : ℕ) → 2 ^ (j + k) ≡ 2 ^ j * 2 ^ k
pow_split j zero = rw add-zero (omega arith)
pow_split j (suc k) =
    rw (add-suc, pow-suc 2 (j + k), pow-suc 2 k, pow_split j k) (mul_assoc (2 ^ j) (2 ^ k) 2)

word_split : (k : ℕ) → k < 64 → 2 ^ (64 - k) * 2 ^ k ≡ 2 ^ 64
word_split k h =
    let whole : 64 - k + k ≡ 64 = omega arith in sym (pow_split (64 - k) k) ∙ ap (λ n. 2 ^ n) whole

-- For an alignment that is a power of two, and a value whose next multiple fits 64 bits, the mask
-- gives the least multiple of the alignment that is not below the value, by division.
pub align_up-div :
    (value k : ℕ)
    → k < 64
    → value + 2 ^ k ≤ 2 ^ 64
    → align_up value (2 ^ k) ≡ (value + 2 ^ k - 1) / 2 ^ k * 2 ^ k
unfolding align_up
align_up-div value k h fits =
    let split = word_split k h in
    let positive = pow_pos k in
    let sum : (value + 2 ^ k + usize_max) % 2 ^ 64 ≡ value + 2 ^ k - 1 = omega arith in
    let mask : usize_max - (2 ^ k - 1) ≡ 2 ^ (64 - k) * 2 ^ k - 2 ^ k = omega (arith, split) in
    ap (λ x. bit_and x (usize_max - (2 ^ k - 1))) sum
    ∙ ap (bit_and (value + 2 ^ k - 1)) mask
    ∙ and_high k (64 - k) (value + 2 ^ k - 1) (omega (arith, split))

-- What the slots need of it.
pub record IsAligned (value step r : ℕ) : Type 0 where
  pub above : value ≤ r
  pub near : r < value + step
  pub divides : r % step ≡ 0

pub align_up-IsAligned :
    (value k : ℕ)
    → k < 64
    → value + 2 ^ k ≤ 2 ^ 64
    → IsAligned value (2 ^ k) (align_up value (2 ^ k))
align_up-IsAligned value k h fits = rw (align_up-div value k h fits) (record {
  above = omega (
    arith,
    div-add-mod' (value + 2 ^ k - 1) (2 ^ k),
    mod-lt (value + 2 ^ k - 1) (pow_pos k),
    pow_pos k,
  );
  near = omega (arith, div-add-mod' (value + 2 ^ k - 1) (2 ^ k), pow_pos k);
  divides = mul-mod_left ((value + 2 ^ k - 1) / 2 ^ k) (2 ^ k);
})
