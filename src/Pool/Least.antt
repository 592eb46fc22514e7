-- ===== src/Pool/Least.antt =====
-- net/server.rs: the counters of the workers, and the first that is least.
use rust_data_broker.Prelude.{
  ℕ, zero, suc, ◌+◌, ◌*◌, ◌<◌, ◌≤◌, ◌≡◌, ◌≢◌, refl, ap, subst, inl, inr, some, List, [], ◌∷◌, ◌++◌,
  arith, All, leb, Bool-cases, length, set,
}
use rust_data_broker.Pool.{min_by_key, get}

unfoldable pub sum : List ℕ → ℕ
sum [] = 0
sum (c ∷ cs) = c + sum cs

pub sum-append : (cs : List ℕ) (c : ℕ) → sum (cs ++ c ∷ []) ≡ sum cs + c
unfolding sum
sum-append [] c = omega arith
sum-append (d ∷ cs) c = omega (arith, sum-append cs c)

pub sum-set : (cs : List ℕ) (i c d : ℕ) → get cs i ≡ some c → sum (set cs i d) + c ≡ sum cs + d
unfolding sum
sum-set [] i c d e = cc
sum-set (b ∷ cs) zero c d e = let same : b ≡ c = ground arith in omega arith
sum-set (b ∷ cs) (suc i) c d e = omega (arith, sum-set cs i c d e)

pub get-le-sum : (cs : List ℕ) (i c : ℕ) → get cs i ≡ some c → c ≤ sum cs
unfolding sum
get-le-sum [] i c e = cc
get-le-sum (b ∷ cs) zero c e = let same : b ≡ c = ground arith in omega arith
get-le-sum (b ∷ cs) (suc i) c e = omega (arith, get-le-sum cs i c e)

pub get-lt : (cs : List ℕ) (i c : ℕ) → get cs i ≡ some c → i < length cs
get-lt [] i c e = cc
get-lt (b ∷ cs) zero c e = omega arith
get-lt (b ∷ cs) (suc i) c e = omega (arith, get-lt cs i c e)

pub get-All : (P : ℕ → Type 0) (cs : List ℕ) (i c : ℕ) → get cs i ≡ some c → All P cs → P c
get-All P [] i c e v = cc
get-All P (b ∷ cs) zero c e v = subst P (ground arith) v.0
get-All P (b ∷ cs) (suc i) c e v = get-All P cs i c e v.1

pub All-set : (P : ℕ → Type 0) (cs : List ℕ) (i d : ℕ) → P d → All P cs → All P (set cs i d)
All-set P [] i d h v = tt
All-set P (b ∷ cs) zero d h v = (h, v.1)
All-set P (b ∷ cs) (suc i) d h v = (v.0, All-set P cs i d h v.1)

pub All-both :
    {P Q R : ℕ → Type 0} (cs : List ℕ)
    → ((c : ℕ) → P c → Q c → R c)
    → All P cs
    → All Q cs
    → All R cs
All-both [] f v w = tt
All-both (c ∷ cs) f v w = (f c v.0 w.0, All-both cs f v.1 w.1)

pub get-set_self : (cs : List ℕ) (i c d : ℕ) → get cs i ≡ some c → get (set cs i d) i ≡ some d
get-set_self [] i c d e = cc
get-set_self (b ∷ cs) zero c d e = refl
get-set_self (b ∷ cs) (suc i) c d e = get-set_self cs i c d e

pub get-set_ne : (cs : List ℕ) (i k d : ℕ) → k ≢ i → get (set cs k d) i ≡ get cs i
get-set_ne [] i k d h = refl
get-set_ne (b ∷ cs) zero zero d h = absurd (h refl)
get-set_ne (b ∷ cs) zero (suc k) d h = refl
get-set_ne (b ∷ cs) (suc i) zero d h = refl
get-set_ne (b ∷ cs) (suc i) (suc k) d h = get-set_ne cs i k d (λ e. h (ap suc e))

pub get-append_last : (cs : List ℕ) (c : ℕ) → get (cs ++ c ∷ []) (length cs) ≡ some c
get-append_last [] c = refl
get-append_last (b ∷ cs) c = get-append_last cs c

pub get-append : (cs : List ℕ) (c i : ℕ) → i < length cs → get (cs ++ c ∷ []) i ≡ get cs i
get-append [] c i h = absurd (omega arith)
get-append (b ∷ cs) c zero h = refl
get-append (b ∷ cs) c (suc i) h = get-append cs c i (omega arith)

-- `n` times `k`.
unfoldable pub times : ℕ → ℕ → ℕ
times zero k = 0
times (suc n) k = k + times n k

pub times_mono : (n j k : ℕ) → j ≤ k → times n j ≤ times n k
unfolding times
times_mono zero j k h = omega arith
times_mono (suc n) j k h = omega (arith, times_mono n j k h)

pub times-product : (n k : ℕ) → times n k ≡ n * k
unfolding times
times-product zero k = omega arith
times-product (suc n) k = omega (arith, times-product n k)

-- The sum, where no counter is below the bound, or none above it and one below.
pub times-le-sum : (cs : List ℕ) (b : ℕ) → All (λ c. b ≤ c) cs → times (length cs) b ≤ sum cs
unfolding times sum
times-le-sum [] b h = omega arith
times-le-sum (c ∷ cs) b h = let low = h.0 in omega (arith, times-le-sum cs b h.1)

pub sum-le-times : (cs : List ℕ) (b : ℕ) → All (λ c. c ≤ b) cs → sum cs ≤ times (length cs) b
unfolding times sum
sum-le-times [] b h = omega arith
sum-le-times (c ∷ cs) b h = let low = h.0 in omega (arith, sum-le-times cs b h.1)

pub sum-lt-times :
    (cs : List ℕ) (b i k : ℕ)
    → All (λ c. c ≤ b) cs
    → get cs i ≡ some k
    → k < b
    → sum cs < times (length cs) b
unfolding times sum
sum-lt-times [] b i k h e l = cc
sum-lt-times (c ∷ cs) b zero k h e l =
    let same : c ≡ k = ground arith in omega (arith, sum-le-times cs b h.1)
sum-lt-times (c ∷ cs) b (suc i) k h e l =
    let low = h.0 in omega (arith, sum-lt-times cs b i k h.1 e l)

-- A counter that is least, with its number counted from `id`.
pub record IsLeast (id : ℕ) (cs : List ℕ) : Type 0 where
  pub place : ℕ
  pub count : ℕ
  pub found : min_by_key id cs ≡ some (id + place, count)
  pub there : get cs place ≡ some count
  pub least : All (λ d. count ≤ d) cs

pub min_by_key-IsLeast : (id c : ℕ) (cs : List ℕ) → IsLeast id (c ∷ cs)
unfolding min_by_key
min_by_key-IsLeast id c [] = record {
  place = 0;
  count = c;
  found = ap (λ k. some (k, c)) (omega arith);
  there = refl;
  least = (omega arith, tt);
}
min_by_key-IsLeast id c (d ∷ cs) =
    let later = min_by_key-IsLeast (id + 1) d cs in
    elim (Bool-cases (leb c later.count)) [
      | inl e ↦ record {
        place = 0;
        count = c;
        found = rw (later.found, e) (ap (λ k. some (k, c)) (omega arith));
        there = refl;
        least = (
          omega arith,
          All-both (d ∷ cs)
              (λ b low same. let small : c ≤ later.count = ground arith in omega arith) later.least
              later.least,
        );
      }
      | inr e ↦ record {
        place = suc later.place;
        count = later.count;
        found = rw (later.found, e) (ap (λ k. some (k, later.count)) (omega arith));
        there = later.there;
        least = (ground arith, later.least);
      }
    ]
