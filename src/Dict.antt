-- ===== src/Dict.antt =====
-- `std::collections::HashMap` as an association list with keys of decidable equality. The list is in
-- some order of iteration: an insertion writes in place, or puts the new key last.
use mathlib.Core.Logic.{ite}
use rust_data_broker.Prelude.{
  length, ◌≡◌, refl, ◌≢◌, ◌⊎◌, inl, inr, Bool, Option, none, some, List, [], ◌∷◌, arith, is_some,
}

abbrev pub Dict {ℓ} : Type ℓ → Type ℓ → Type ℓ
Dict K V = List (K × V)

module _ {ℓ} {K V : Type ℓ} (dec : Discrete K) where
  unfoldable pub lookup : K → Dict K V → Option V
  lookup k [] = none
  lookup k ((j, v) ∷ m) = ite (dec j k) (some v) (lookup k m)

  unfoldable pub insert : K → V → Dict K V → Dict K V
  insert k v [] = (k, v) ∷ []
  insert k v ((j, w) ∷ m) = ite (dec j k) ((k, v) ∷ m) ((j, w) ∷ insert k v m)

  unfoldable pub remove : K → Dict K V → Dict K V
  remove k [] = []
  remove k ((j, w) ∷ m) = let rest = remove k m in ite (dec j k) rest ((j, w) ∷ rest)

  abbrev pub contains_key : K → Dict K V → Bool
  contains_key k m = is_some (lookup k m)

  pub lookup-insert_self : (k : K) (v : V) (m : Dict K V) → lookup k (insert k v m) ≡ some v
  unfolding lookup insert
  lookup-insert_self k v [] = ground arith
  lookup-insert_self k v ((j, w) ∷ m) = ground (arith, lookup-insert_self k v m)

  pub lookup-insert_ne :
      (k j : K) (v : V) (m : Dict K V) → k ≢ j → lookup j (insert k v m) ≡ lookup j m
  unfolding lookup insert
  lookup-insert_ne k j v [] h = ground arith
  lookup-insert_ne k j v ((i, w) ∷ m) h = ground (arith, lookup-insert_ne k j v m h)

  pub lookup-remove_self : (k : K) (m : Dict K V) → lookup k (remove k m) ≡ none
  unfolding lookup remove
  lookup-remove_self k [] = refl
  lookup-remove_self k ((j, w) ∷ m) = ground (arith, lookup-remove_self k m)

  pub lookup-remove_ne : (k j : K) (m : Dict K V) → k ≢ j → lookup j (remove k m) ≡ lookup j m
  unfolding lookup remove
  lookup-remove_ne k j [] h = refl
  lookup-remove_ne k j ((i, w) ∷ m) h = ground (arith, lookup-remove_ne k j m h)

  -- No key stands twice.
  abbrev pub IsUnique : Dict K V → Type ℓ
  IsUnique [] = Unit {ℓ}
  IsUnique ((k, v) ∷ m) = (lookup k m ≡ none) × IsUnique m

  remove-IsUnique_none : (k j : K) (m : Dict K V) → lookup j m ≡ none → lookup j (remove k m) ≡ none
  unfolding lookup remove
  remove-IsUnique_none k j [] h = refl
  remove-IsUnique_none k j ((i, w) ∷ m) h = ground (arith, remove-IsUnique_none k j m)

  pub remove-IsUnique : (k : K) (m : Dict K V) → IsUnique m → IsUnique (remove k m)
  unfolding remove
  remove-IsUnique k [] u = u
  remove-IsUnique k ((j, w) ∷ m) u =
      ground (arith, remove-IsUnique k m u.1, remove-IsUnique_none k j m u.0)

  pub insert-IsUnique : (k : K) (v : V) (m : Dict K V) → IsUnique m → IsUnique (insert k v m)
  unfolding insert lookup
  insert-IsUnique k v [] u = (refl, tt)
  insert-IsUnique k v ((j, w) ∷ m) u =
      ground (arith, insert-IsUnique k v m u.1, lookup-insert_ne k j v m)

  -- What a lookup in a changed map says of the map before.
  pub lookup-insert-some :
      (k j : K) (v : V) (m : Dict K V) {w : V}
      → lookup j (insert k v m) ≡ some w
      → ((k ≡ j) × (v ≡ w)) ⊎ ((k ≢ j) × (lookup j m ≡ some w))
  lookup-insert-some k j v m h = elim (dec k j) [
    | yes e ↦ inl (e, ground (arith, lookup-insert_self k v m))
    | no d ↦ inr (d, ground (arith, lookup-insert_ne k j v m d))
  ]

  pub lookup-remove-some :
      (k j : K) (m : Dict K V) {w : V}
      → lookup j (remove k m) ≡ some w
      → (k ≢ j) × (lookup j m ≡ some w)
  lookup-remove-some k j m h = elim (dec k j) [
    | yes e ↦ absurd (ground (arith, lookup-remove_self k m))
    | no d ↦ (d, ground (arith, lookup-remove_ne k j m d))
  ]

  -- An insertion under a key that is there adds no entry.
  pub length-insert_present :
      (k : K) (v : V) (m : Dict K V) (w : V)
      → lookup k m ≡ some w
      → length (insert k v m) ≡ length m
  unfolding lookup insert
  length-insert_present k v [] u h = cc
  length-insert_present k v ((j, w) ∷ m) u h = ground (arith, length-insert_present k v m u)

  -- The removal of a key undoes an insertion under it.
  pub remove-insert_self : (k : K) (v : V) (m : Dict K V) → remove k (insert k v m) ≡ remove k m
  unfolding remove insert
  remove-insert_self k v [] = ground arith
  remove-insert_self k v ((j, w) ∷ m) = ground (arith, remove-insert_self k v m)

  -- An insertion of what is there already changes nothing.
  pub insert_again : (k : K) (v : V) (m : Dict K V) → lookup k m ≡ some v → insert k v m ≡ m
  unfolding lookup insert
  insert_again k v [] e = cc
  insert_again k v ((j, w) ∷ m) e = ground (arith, insert_again k v m)
