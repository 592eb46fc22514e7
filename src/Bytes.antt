-- ===== src/Bytes.antt =====
-- Big-endian bytes of the unsigned integers: `to_be_bytes` and `from_be_bytes` of the standard
-- library, at any width.
use native.Mathlib.Nat.{pow-suc}
use rust_data_broker.Prelude.{
  ℕ, zero, suc, ◌+◌, ◌*◌, ◌/◌, ◌%◌, ◌^◌, ◌<◌, ◌≡◌, refl, ◌∙◌, List, [], ◌∷◌, ◌++◌, arith, length,
  length-append, All,
}

abbrev pub IsByte : ℕ → Type 0
IsByte b = b < 256

-- The `w` bytes of `n`.
unfoldable pub to_be_bytes : ℕ → ℕ → List ℕ
to_be_bytes zero n = []
to_be_bytes (suc w) n = to_be_bytes w (n / 256) ++ (n % 256 ∷ [])

be_loop : ℕ → List ℕ → ℕ
be_loop acc [] = acc
be_loop acc (b ∷ bs) = be_loop (acc * 256 + b) bs

unfoldable pub from_be_bytes : List ℕ → ℕ
unfolding be_loop
from_be_bytes bs = be_loop 0 bs

be_loop-append :
    (acc : ℕ) (bs : List ℕ) (b : ℕ) → be_loop acc (bs ++ b ∷ []) ≡ be_loop acc bs * 256 + b
unfolding be_loop
be_loop-append acc [] b = refl
be_loop-append acc (c ∷ bs) b = be_loop-append (acc * 256 + c) bs b

pub length-to_be_bytes : (w n : ℕ) → length (to_be_bytes w n) ≡ w
unfolding to_be_bytes
length-to_be_bytes zero n = refl
length-to_be_bytes (suc w) n =
    length-append (to_be_bytes w (n / 256)) (n % 256 ∷ [])
    ∙ omega (arith, length-to_be_bytes w (n / 256))

pub All-append {ℓ κ} :
    {A : Type ℓ} (P : A → Type κ) (xs ys : List A) → All P xs → All P ys → All P (xs ++ ys)
All-append P [] ys hx hy = hy
All-append P (x ∷ xs) ys hx hy = (hx.0, All-append P xs ys hx.1 hy)

pub to_be_bytes-IsByte : (w n : ℕ) → All IsByte (to_be_bytes w n)
unfolding to_be_bytes
to_be_bytes-IsByte zero n = tt
to_be_bytes-IsByte (suc w) n =
    All-append IsByte (to_be_bytes w (n / 256)) _ (to_be_bytes-IsByte w (n / 256)) (omega arith, tt)

div-lt-pow : (w n : ℕ) → n < 256 ^ suc w → n / 256 < 256 ^ w
div-lt-pow w n h = omega (arith, pow-suc 256 w)

-- A number below 256 ^ w is read back from its `w` bytes.
pub from_be_bytes-to_be_bytes : (w n : ℕ) → n < 256 ^ w → from_be_bytes (to_be_bytes w n) ≡ n
unfolding from_be_bytes to_be_bytes
from_be_bytes-to_be_bytes zero n h = omega arith
from_be_bytes-to_be_bytes (suc w) n h =
    be_loop-append 0 (to_be_bytes w (n / 256)) (n % 256)
    ∙ omega (arith, from_be_bytes-to_be_bytes w (n / 256) (div-lt-pow w n h))
