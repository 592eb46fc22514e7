-- ===== src/Queue/Fifo/Rising.antt =====
-- Lists whose entries other than 0 rise, as `order` does until the ids wrap.
use mathlib.Core.List.{append-nil}
use rust_data_broker.Prelude.{
  ℕ, ◌-◌, leb, sym, ◌<◌, ◌≤◌, ◌≡◌, refl, ◌≢◌, ◌⊎◌, inl, inr, false, none, some, List, [], ◌∷◌, ◌++◌,
  arith, ◌==◌, contains, after, last, drop, All, length, Option-cases, Bool-cases,
}
use rust_data_broker.Queue.State.{position_nonzero, drain_zeroes, magic_drain_vec}

abbrev pub Ascends : ℕ → List ℕ → Type 0
Ascends b [] = Unit {0}
Ascends b (x ∷ xs) = ((x ≡ 0) × Ascends b xs) ⊎ ((b < x) × Ascends x xs)

-- All the entries from a place on lie above one that is not 0.
abbrev pub Positive : List ℕ → Type 0
Positive = All (λ x. 0 < x)

pub Ascends-mono : (a b : ℕ) (xs : List ℕ) → a ≤ b → Ascends b xs → Ascends a xs
Ascends-mono a b [] h s = tt
Ascends-mono a b (x ∷ xs) h (inl (z, s)) = inl (z, Ascends-mono a b xs h s)
Ascends-mono a b (x ∷ xs) h (inr (l, s)) = inr (omega arith, s)

pub Ascends-append :
    (b id : ℕ) (xs : List ℕ)
    → Ascends b xs
    → All (λ x. x < id) xs
    → b < id
    → Ascends b (xs ++ id ∷ [])
Ascends-append b id [] s h l = inr (l, tt)
Ascends-append b id (x ∷ xs) (inl (z, s)) h l = inl (z, Ascends-append b id xs s h.1 l)
Ascends-append b id (x ∷ xs) (inr (u, s)) h l = inr (u, Ascends-append x id xs s h.1 h.0)

-- The last entry is the greatest, unless it is 0.
pub All-le-last :
    (b l : ℕ) (xs : List ℕ)
    → Ascends b xs
    → last xs ≡ some l
    → l ≢ 0
    → All (λ x. x ≤ l) xs × (b < l)
All-le-last b l [] s e h = absurd (ground arith)
All-le-last b l (x ∷ []) (inl (z, s)) e h = absurd (ground arith)
All-le-last b l (x ∷ []) (inr (u, s)) e h = ((ground arith, tt), ground arith)
All-le-last b l (x ∷ y ∷ xs) (inl (z, s)) e h =
    let (all, up) = All-le-last b l (y ∷ xs) s e h in ((omega arith, all), up)
All-le-last b l (x ∷ y ∷ xs) (inr (u, s)) e h =
    let (all, up) = All-le-last x l (y ∷ xs) s e h in ((omega arith, all), omega arith)

pub not-contains_above : (id : ℕ) (xs : List ℕ) → All (λ x. x < id) xs → contains id xs ≡ false
not-contains_above id [] h = refl
not-contains_above id (x ∷ xs) h = ground (arith, not-contains_above id xs h.1)

-- An entry that is not 0 does not stand twice.
pub not-contains_before :
    (b n : ℕ) (xs ys : List ℕ)
    → Ascends b (xs ++ n ∷ ys)
    → 0 < n
    → (contains n xs ≡ false) × (b < n) × Ascends n ys
not-contains_before b n [] ys (inl (z, s)) h = absurd (omega arith)
not-contains_before b n [] ys (inr (u, s)) h = (refl, u, s)
not-contains_before b n (x ∷ xs) ys (inl (z, s)) h =
    let (fresh, up, rest) = not-contains_before b n xs ys s h in (ground arith, up, rest)
not-contains_before b n (x ∷ xs) ys (inr (u, s)) h =
    let (fresh, up, rest) = not-contains_before x n xs ys s h in (ground arith, omega arith, rest)

pub after-append : (n : ℕ) (xs ys : List ℕ) → contains n xs ≡ false → after n (xs ++ n ∷ ys) ≡ ys
after-append n [] ys h = ground arith
after-append n (x ∷ xs) ys h = ground (arith, after-append n xs ys)

pub All-above : (b : ℕ) (xs : List ℕ) → Ascends b xs → Positive xs → All (λ x. b < x) xs
All-above b [] s p = tt
All-above b (x ∷ xs) (inl (z, s)) p = absurd (omega arith)
All-above b (x ∷ xs) (inr (u, s)) p = (u, up x b xs u (All-above x xs s p.1))
  where
    up : (x b : ℕ) (xs : List ℕ) → b < x → All (λ y. x < y) xs → All (λ y. b < y) xs
    up x b [] h a = tt
    up x b (y ∷ ys) h a = (omega arith, up x b ys h a.1)

Ascends-drop :
    (b : ℕ) (xs : List ℕ) {k : ℕ}
    → position_nonzero xs ≡ some k
    → Ascends b xs
    → Ascends b (drop k xs)
unfolding position_nonzero
Ascends-drop b [] h s = absurd (ground arith)
Ascends-drop b (x ∷ xs) h s = elim (Option-cases (position_nonzero xs)) [
  | inl e ↦ ground arith
  | inr (i, e) ↦ ground (arith, Ascends-drop b xs e)
]

pub Ascends-drain_zeroes : (b : ℕ) (xs : List ℕ) → Ascends b xs → Ascends b (drain_zeroes xs)
unfolding drain_zeroes
Ascends-drain_zeroes b xs s = elim (Option-cases (position_nonzero xs)) [
  | inl e ↦ ground arith
  | inr (i, e) ↦ ground (arith, Ascends-drop b xs e)
]

-- The drain stops at the first entry that is not 0.
drop_zeroes-append :
    (xs ys : List ℕ) {k : ℕ}
    → Positive ys
    → ys ≢ []
    → position_nonzero (xs ++ ys) ≡ some k
    → (zs : List ℕ) × (drop k (xs ++ ys) ≡ zs ++ ys)
unfolding position_nonzero
drop_zeroes-append [] [] p h e = absurd (h refl)
drop_zeroes-append [] (y ∷ ys) p h e = ([], ground arith)
drop_zeroes-append (x ∷ xs) ys {k} p h e = elim (Bool-cases (x == 0)) [
  | inr d ↦ (x ∷ xs, ground arith)
  | inl z ↦ elim (Option-cases (position_nonzero (xs ++ ys))) [
    | inl f ↦ absurd (ground arith)
    | inr (i, f) ↦ let (zs, g) = drop_zeroes-append xs ys p h f in (zs, ground arith)
  ]
]

nonzero_found : (xs : List ℕ) (y : ℕ) (ys : List ℕ) → 0 < y → position_nonzero (xs ++ y ∷ ys) ≢ none
unfolding position_nonzero
nonzero_found [] y ys h = λ e. ground arith
nonzero_found (x ∷ xs) y ys h = λ e. elim (Option-cases (position_nonzero (xs ++ y ∷ ys))) [
  | inl f ↦ nonzero_found xs y ys h f
  | inr (i, f) ↦ ground arith
]

pub drain_zeroes-append :
    (xs ys : List ℕ) → Positive ys → (zs : List ℕ) × (drain_zeroes (xs ++ ys) ≡ zs ++ ys)
unfolding drain_zeroes
drain_zeroes-append xs [] p = (drain_zeroes (xs ++ []), sym (append-nil _))
drain_zeroes-append xs (y ∷ ys) p = elim (Option-cases (position_nonzero (xs ++ y ∷ ys))) [
  | inl e ↦ absurd (nonzero_found xs y ys p.0 e)
  | inr (k, e) ↦
      let (zs, f) = drop_zeroes-append xs (y ∷ ys) p (λ h. cc) e in
      elim (Bool-cases (leb magic_drain_vec (length (xs ++ y ∷ ys)))) [
        | inr small ↦ (xs, rw small)
        | inl big ↦ elim (Bool-cases (leb (magic_drain_vec - 1) k)) [
          | inr few ↦ (xs, rw (big, e, few))
          | inl many ↦ (zs, rw (big, e, many) f)
        ]
      ]
]
