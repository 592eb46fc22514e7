-- ===== src/Server/Locks/Progress.antt =====
-- net/server.rs: tasks that take the locks in order do not block each other for good.
use rust_data_broker.Prelude.{
  ℕ, suc, zero, ◌+◌, ◌<◌, ◌≤◌, ◌≡◌, refl, Bool, true, false, ◌&&◌, ◌||◌, not, List, [], ◌∷◌, inl,
  inr, arith, ◌≢◌, subst,
}
use rust_data_broker.Server.Locks.{Lock, Mode, shared, Action, take, give}
use rust_data_broker.Server.Locks.Order.{Hold, is_shared, Load, steady, rank, ordered, &&-left}
use rust_data_broker.Server.Locks.Running.{
  Tasks, holds, in_way, asks_alone, all_below-cases, all_below-intro, must_go,
}
use rust_data_broker.Server.Locks.Invariant.{
  is_map, reads_maps, IsInOrder, rank-below, above-holds, map-in_way, map-asks_alone, allowed-cases,
}

end-holds :
    (load : Load) (held : List Hold) (l : Lock) → ordered load held [] ≡ true → holds l held ≡ false
unfolding ordered holds
end-holds load [] l h = refl
end-holds load (hold ∷ held) l h = cc

or-left : (a b : Bool) → a ≡ true → (a || b) ≡ true
or-left a b h = ground arith

or-both : (a b c : Bool) → b ≡ true → c ≡ true → (a || b && c) ≡ true
or-both a b c h k = ground arith

-- Whoever is served first, one of the first `n` tasks goes on.
abbrev pub SomeGoes : ℕ → Tasks → Type 0
SomeGoes n f = (i : ℕ) × (i < n) × (must_go n f (f i).todo ≡ true)

module _ (load : Load) (n : ℕ) (f : Tasks) (k : (i : ℕ) → i < n → IsInOrder load (f i)) where
  goes-map :
      (l : Lock) (m : Mode) (todo : List Action)
      → load ≡ steady
      → is_map l ≡ true
      → is_shared m ≡ true
      → must_go n f (take l m ∷ todo) ≡ true
  unfolding must_go
  goes-map l m todo e map reads =
      let quiet =
        all_below-intro n (λ j. not (in_way l shared (f j).held) && not (asks_alone l (f j).todo))
          λ j below.
            let c = k j below in
            let away =
              map-in_way l (f j).held map
                (subst (λ x. reads_maps x (f j).held ≡ true) e c.reading) in
            let asks =
              map-asks_alone l (f j).held (f j).todo map
                (subst (λ x. ordered x (f j).held (f j).todo ≡ true) e c.in_order) in
            ground arith in
      or-both _ _ _ reads quiet

  -- The holder of a lock goes on, or asks for a lock of higher rank.
  holder :
      (j : ℕ) (l : Lock)
      → j < n
      → holds l (f j).held ≡ true
      → (todo : List Action) → (f j).todo ≡ todo
      → ((x : Lock) (m : Mode) (rest : List Action)
          → (f j).todo ≡ take x m ∷ rest
          → rank l < rank x
          → SomeGoes n f)
      → SomeGoes n f
  unfolding must_go ordered
  holder j l below h [] e up = absurd (
      ground (
        arith,
        end-holds load (f j).held l
            (subst (λ t. ordered load (f j).held t ≡ true) e (k j below).in_order),
      ))
  holder j l below h (give ∷ rest) e up = (j, below, rw e refl)
  holder j l below h (take x m ∷ rest) e up =
      let free =
        &&-left _ _ (subst (λ t. ordered load (f j).held t ≡ true) e (k j below).in_order) in
      elim (allowed-cases load (f j).held x m free) [
        | inl (quiet, map, reads) ↦ (j, below, rw e (goes-map x m rest quiet map reads))
        | inr higher ↦ up x m rest e (above-holds (f j).held l x higher h)
      ]

  -- From a task that waits, up through the holders.
  climb :
      (fuel i : ℕ) (l : Lock) (m : Mode) (rest : List Action)
      → i < n
      → (f i).todo ≡ take l m ∷ rest
      → 4 ≤ rank l + fuel
      → SomeGoes n f
  unfolding must_go
  climb zero i l m rest below e room = absurd (omega (arith, rank-below l))
  climb (suc fuel) i l m rest below e room =
      elim (all_below-cases n (λ j. not (holds l (f j).held))) [
        | inl free ↦ (i, below, rw e (or-left _ _ free))
        | inr (j, under, held) ↦
            holder j l under (ground arith) _ refl
              λ x y more ask higher. climb fuel j x y more under ask (omega arith)
      ]

  from_next :
      (i : ℕ) → i < n → (todo : List Action) → (f i).todo ≡ todo → (f i).todo ≢ [] → SomeGoes n f
  unfolding must_go
  from_next i below [] e h = absurd (h e)
  from_next i below (give ∷ rest) e h = (i, below, rw e refl)
  from_next i below (take l m ∷ rest) e h = climb 4 i l m rest below e (omega arith)

  pub unfinished-SomeGoes : (i : ℕ) → i < n → (f i).todo ≢ [] → SomeGoes n f
  unfinished-SomeGoes i below h = from_next i below _ refl h
