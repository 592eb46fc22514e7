-- ===== src/Config/Numerals.antt =====
-- config.rs: the numbers that `parse::<u64>` reads.
use rust_data_broker.Prelude.{
  ℕ, ◌+◌, ◌-◌, ◌*◌, ◌^◌, ◌<◌, ◌≤◌, ◌≡◌, ◌≢◌, refl, ap, ◌∙◌, inl, inr, true, false, List, [], ◌∷◌,
  arith, All, ltb, ◌==◌, Bool-cases, ok, panic,
}
use rust_data_broker.Config.{is_digit, parse_digits, parse_u64}

-- The number that the digits stand for, behind the digits of `acc`.
unfoldable pub numeral : ℕ → List ℕ → ℕ
numeral acc [] = acc
numeral acc (c ∷ cs) = numeral (acc * 10 + (c - 48)) cs

abbrev pub IsDigit : ℕ → Type 0
IsDigit c = is_digit c ≡ true

numeral-ge : (acc : ℕ) (cs : List ℕ) → acc ≤ numeral acc cs
unfolding numeral
numeral-ge acc [] = omega arith
numeral-ge acc (c ∷ cs) = omega (arith, numeral-ge (acc * 10 + (c - 48)) cs)

parse_digits-numeral :
    (acc : ℕ) (cs : List ℕ)
    → numeral acc cs < 2 ^ 64
    → All IsDigit cs
    → parse_digits acc cs ≡ ok (numeral acc cs)
unfolding parse_digits numeral
parse_digits-numeral acc [] h d = refl
parse_digits-numeral acc (c ∷ cs) h d =
    let small : ltb 18446744073709551615 (acc * 10 + (c - 48)) ≡ false =
      let up = numeral-ge (acc * 10 + (c - 48)) cs in ground arith in
    rw (d.0, small) (parse_digits-numeral (acc * 10 + (c - 48)) cs h d.1)

digit_not_sign : (c : ℕ) → is_digit c ≡ true → (c == 43) ≡ false
digit_not_sign c d = ground arith

pub record IsNumeral (cs : List ℕ) (n : ℕ) : Type 0 where
  pub nonempty : cs ≢ []
  pub digits : All IsDigit cs
  pub stands : numeral 0 cs ≡ n
  pub fits : n < 2 ^ 64

pub parse_u64-numeral : (cs : List ℕ) (n : ℕ) → IsNumeral cs n → parse_u64 cs ≡ ok n
unfolding parse_u64
parse_u64-numeral [] n i = absurd (i.nonempty refl)
parse_u64-numeral (c ∷ []) n i =
    parse_digits-numeral 0 (c ∷ []) (omega (arith, i.stands, i.fits)) i.digits ∙ ap ok i.stands
parse_u64-numeral (c ∷ d ∷ cs) n i = rw (digit_not_sign c i.digits.0) (
    parse_digits-numeral 0 (c ∷ d ∷ cs) (omega (arith, i.stands, i.fits)) i.digits ∙ ap ok i.stands)

parse_digits_total : (acc : ℕ) (cs : List ℕ) → parse_digits acc cs ≢ panic
unfolding parse_digits
parse_digits_total acc [] = λ e. cc
parse_digits_total acc (c ∷ cs) = λ e. elim (Bool-cases (is_digit c)) [
  | inr d ↦ let z = rw (d, parse_digits) at e in cc
  | inl d ↦ elim (Bool-cases (ltb 18446744073709551615 (acc * 10 + (c - 48)))) [
    | inl o ↦ let z = rw (d, o, parse_digits) at e in cc
    | inr o ↦ parse_digits_total (acc * 10 + (c - 48)) cs (rw (d, o, parse_digits) at e)
  ]
]

pub parse_u64_total : (cs : List ℕ) → parse_u64 cs ≢ panic
unfolding parse_u64
parse_u64_total [] = λ e. cc
parse_u64_total (c ∷ []) = parse_digits_total 0 (c ∷ [])
parse_u64_total (c ∷ d ∷ cs) = λ e. elim (Bool-cases (c == 43)) [
  | inl s ↦ parse_digits_total 0 (d ∷ cs) (rw (s, parse_u64) at e)
  | inr s ↦ parse_digits_total 0 (c ∷ d ∷ cs) (rw (s, parse_u64) at e)
]
