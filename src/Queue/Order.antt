-- ===== src/Queue/Order.antt =====
-- The laws of the searches, the writes and the drain on `order` and on a client's list of ids.
use rust_data_broker.Prelude.{
  ℕ, zero, suc, ◌≡◌, refl, ◌≢◌, inl, inr, true, false, none, some, List, [], ◌∷◌, ◌++◌, arith, ◌==◌,
  if◌then◌else◌, contains, position, set, remove_at, drop, All, Option-cases, Bool-cases,
}
use rust_data_broker.Queue.State.{find_nonzero, position_nonzero, drain_zeroes}
use rust_data_broker.Queue.Ops.{zero_out}

-- The write of a 0 over the first occurrence, and the removal of it, by recursion.
unfoldable pub clear : ℕ → List ℕ → List ℕ
clear m [] = []
clear m (x ∷ xs) = if x == m then 0 ∷ xs else x ∷ clear m xs

unfoldable pub erase : ℕ → List ℕ → List ℕ
erase m [] = []
erase m (x ∷ xs) = if x == m then xs else x ∷ erase m xs

pub set-clear : (m : ℕ) (xs : List ℕ) {i : ℕ} → position m xs ≡ some i → set xs i 0 ≡ clear m xs
unfolding clear
set-clear m [] h = cc
set-clear m (x ∷ xs) h = elim (Option-cases (position m xs)) [
  | inl e ↦ ground arith
  | inr (j, e) ↦ ground (arith, set-clear m xs e)
]

clear_absent : (m : ℕ) (xs : List ℕ) → position m xs ≡ none → clear m xs ≡ xs
unfolding clear
clear_absent m [] h = refl
clear_absent m (x ∷ xs) h = ground (arith, clear_absent m xs)

pub zero_out-clear : (m : ℕ) (xs : List ℕ) → zero_out m xs ≡ clear m xs
zero_out-clear m xs = elim (Option-cases (position m xs)) [
  | inl e ↦ ground (arith, clear_absent m xs e)
  | inr (i, e) ↦ ground (arith, set-clear m xs e)
]

pub remove_at-erase :
    (m : ℕ) (xs : List ℕ) {i : ℕ} → position m xs ≡ some i → remove_at i xs ≡ erase m xs
unfolding erase
remove_at-erase m [] h = cc
remove_at-erase m (x ∷ xs) h = elim (Option-cases (position m xs)) [
  | inl e ↦ ground arith
  | inr (j, e) ↦ ground (arith, remove_at-erase m xs e)
]

pub position_of_contains :
    (m : ℕ) (xs : List ℕ) → contains m xs ≡ true → (i : ℕ) × (position m xs ≡ some i)
position_of_contains m [] h = cc
position_of_contains m (x ∷ xs) h = elim (Bool-cases (x == m)) [
  | inl e ↦ (0, rw e)
  | inr e ↦ let (i, p) = position_of_contains m xs (rw e at h) in (suc i, rw (e, p))
]

pub contains_of_position :
    (m : ℕ) (xs : List ℕ) {i : ℕ} → position m xs ≡ some i → contains m xs ≡ true
contains_of_position m [] h = cc
contains_of_position m (x ∷ xs) h = elim (Option-cases (position m xs)) [
  | inl e ↦ ground arith
  | inr (j, e) ↦ ground (arith, contains_of_position m xs e)
]

pub contains-append_self : (m : ℕ) (xs : List ℕ) → contains m (xs ++ m ∷ []) ≡ true
contains-append_self m [] = ground arith
contains-append_self m (x ∷ xs) = ground (arith, contains-append_self m xs)

pub contains-append :
    (m a : ℕ) (xs : List ℕ) → contains m xs ≡ true → contains m (xs ++ a ∷ []) ≡ true
contains-append m a [] h = cc
contains-append m a (x ∷ xs) h = ground (arith, contains-append m a xs)

pub not-contains-append :
    (m a : ℕ) (xs : List ℕ) → contains m xs ≡ false → a ≢ m → contains m (xs ++ a ∷ []) ≡ false
not-contains-append m a [] h d = ground arith
not-contains-append m a (x ∷ xs) h d = ground (arith, not-contains-append m a xs)

pub contains-clear :
    (j m : ℕ) (xs : List ℕ) → m ≢ j → contains j xs ≡ true → contains j (clear m xs) ≡ true
unfolding clear
contains-clear j m [] d h = h
contains-clear j m (x ∷ xs) d h = ground (arith, contains-clear j m xs d)

pub contains-erase :
    (j m : ℕ) (xs : List ℕ) → m ≢ j → contains j xs ≡ true → contains j (erase m xs) ≡ true
unfolding erase
contains-erase j m [] d h = h
contains-erase j m (x ∷ xs) d h = ground (arith, contains-erase j m xs d)

pub not-contains-erase :
    (j m : ℕ) (xs : List ℕ) → contains j xs ≡ false → contains j (erase m xs) ≡ false
unfolding erase
not-contains-erase j m [] h = h
not-contains-erase j m (x ∷ xs) h = ground (arith, not-contains-erase j m xs)

pub find_nonzero-ne-zero : (xs : List ℕ) → find_nonzero xs ≢ some 0
unfolding find_nonzero
find_nonzero-ne-zero [] = λ e. cc
find_nonzero-ne-zero (x ∷ xs) = elim (Bool-cases (x == 0)) [
  | inl e ↦ rw e (find_nonzero-ne-zero xs)
  | inr e ↦ λ h. ground arith
]

contains_all_zero :
    (j : ℕ) (xs : List ℕ) → j ≢ 0 → position_nonzero xs ≡ none → contains j xs ≡ false
unfolding position_nonzero
contains_all_zero j [] d h = refl
contains_all_zero j (x ∷ xs) d h = elim (Option-cases (position_nonzero xs)) [
  | inl e ↦ ground (arith, contains_all_zero j xs d e)
  | inr (i, e) ↦ absurd (ground arith)
]

contains-drop_zeroes :
    (j : ℕ) (xs : List ℕ) {k : ℕ}
    → j ≢ 0
    → position_nonzero xs ≡ some k
    → contains j (drop k xs) ≡ contains j xs
unfolding position_nonzero
contains-drop_zeroes j [] d h = cc
contains-drop_zeroes j (x ∷ xs) d h = elim (Option-cases (position_nonzero xs)) [
  | inl e ↦ ground arith
  | inr (i, e) ↦ ground (arith, contains-drop_zeroes j xs d e)
]

-- The drain takes nothing but zeroes.
pub contains-drain_zeroes :
    (j : ℕ) (xs : List ℕ) → j ≢ 0 → contains j (drain_zeroes xs) ≡ contains j xs
unfolding drain_zeroes
contains-drain_zeroes j xs d = elim (Option-cases (position_nonzero xs)) [
  | inl e ↦ ground (arith, contains_all_zero j xs d e)
  | inr (i, e) ↦ ground (arith, contains-drop_zeroes j xs d e)
]

module _ (P : ℕ → Type 0) where
  pub All-append_one : (xs : List ℕ) (a : ℕ) → All P xs → P a → All P (xs ++ a ∷ [])
  All-append_one [] a h p = (p, tt)
  All-append_one (x ∷ xs) a h p = (h.0, All-append_one xs a h.1 p)

  pub All-clear : (m : ℕ) (xs : List ℕ) → P 0 → All P xs → All P (clear m xs)
  unfolding clear
  All-clear m [] z h = h
  All-clear m (x ∷ xs) z h = ground (arith, All-clear m xs z h.1)

  pub All-drop : (k : ℕ) (xs : List ℕ) → All P xs → All P (drop k xs)
  All-drop zero xs h = h
  All-drop (suc k) [] h = h
  All-drop (suc k) (x ∷ xs) h = All-drop k xs h.1

  pub All-drain_zeroes : (xs : List ℕ) → All P xs → All P (drain_zeroes xs)
  unfolding drain_zeroes
  All-drain_zeroes xs h = elim (Option-cases (position_nonzero xs)) [
    | inl e ↦ ground arith
    | inr (i, e) ↦ ground (arith, All-drop i xs h)
  ]
