-- ===== src/Server/Locks/Finish.antt =====
-- net/server.rs: some request of a load can always go on.
use rust_data_broker.Prelude.{
  ℕ, zero, suc, ◌+◌, ◌<◌, ◌≤◌, ◌≡◌, ◌≢◌, refl, Bool, true, false, ◌&&◌, not, List, [], ◌∷◌, inl,
  inr, arith, Bool-cases, length,
}
use mathlib.Core.Logic.{if_pos, if_neg}
use native.Mathlib.Decide.{ℕ_discrete, dec_lt}
use rust_data_broker.Server.Locks.{Lock, Mode, shared, exclusive, Action, take, give, Job}
use rust_data_broker.Server.Locks.Order.{
  Hold, is_shared, Load, steady, naming, jobs_fit, program-ordered,
}
use rust_data_broker.Server.Locks.Running.{
  Task, Tasks, start, holds, in_way, asks_alone, all_below, all_below-cases, can_go, must_go,
  advance, update, Step, step, Reached, here, next,
}
use rust_data_broker.Server.Locks.Invariant.{reads_maps, IsInOrder, advance-IsInOrder}
use rust_data_broker.Server.Locks.Progress.{SomeGoes, unfinished-SomeGoes}

start-IsInOrder :
    (load : Load) (jobs : ℕ → List Job) (i : ℕ)
    → jobs_fit load (jobs i) ≡ true
    → IsInOrder load (start jobs i)
unfolding start reads_maps
start-IsInOrder steady jobs i h = record {
  in_order = program-ordered steady (jobs i) h;
  reading = refl;
}
start-IsInOrder naming jobs i h = record {
  in_order = program-ordered naming (jobs i) h;
  reading = refl;
}

Step-IsInOrder :
    (load : Load) (n : ℕ) (f g : Tasks)
    → Step n f g
    → ((i : ℕ) → i < n → IsInOrder load (f i))
    → (i : ℕ) → i < n
    → IsInOrder load (g i)
unfolding update
Step-IsInOrder load n f _ (step j below _) k i h = elim (ℕ_discrete j i) [
  | yes e ↦ rw (if_pos _ e) (advance-IsInOrder load (f j).held (f j).todo (k j below))
  | no e ↦ rw (if_neg _ e) (k i h)
]

module _ (load : Load) (n : ℕ) (jobs : ℕ → List Job)
    (fit : (i : ℕ) → i < n → jobs_fit load (jobs i) ≡ true) where
  Reached-IsInOrder :
      (f : Tasks) → Reached n (start jobs) f → (i : ℕ) → i < n → IsInOrder load (f i)
  Reached-IsInOrder _ here i below = start-IsInOrder load jobs i (fit i below)
  Reached-IsInOrder _ (next r s) i below =
      Step-IsInOrder load n _ _ s (Reached-IsInOrder _ r) i below

  -- The first n tasks send answers and run requests that fit one load: any but CreateQ and DeleteQ,
  -- or else only these two, ListM and NetStats. However their actions have followed each other, with
  -- a lock going to any task that no holder is in the way of, as long as a task is unfinished one
  -- of the tasks goes on whoever is served first: it gives a lock back, asks for a lock that nobody
  -- holds, or asks to read what nobody holds or asks for alone.
  pub no_deadlock :
      (f : Tasks) → Reached n (start jobs) f → (i : ℕ) → i < n → (f i).todo ≢ [] → SomeGoes n f
  no_deadlock f r = unfinished-SomeGoes load n f (Reached-IsInOrder f r)

-- What is left to do.
unfoldable pub work : ℕ → Tasks → ℕ
work zero f = 0
work (suc n) f = work n f + length (f n).todo

work-update_above :
    (n : ℕ) (f : Tasks) (i : ℕ) (t : Task) → n ≤ i → work n (update f i t) ≡ work n f
unfolding work update
work-update_above zero f i t h = refl
work-update_above (suc n) f i t h = ground (arith, work-update_above n f i t)

work-update :
    (n : ℕ) (f : Tasks) (i : ℕ) (t : Task)
    → i < n
    → work n (update f i t) + length (f i).todo ≡ work n f + length t.todo
unfolding work update
work-update zero f i t h = absurd (omega arith)
work-update (suc n) f i t h = elim (dec_lt i n) [
  | yes below ↦ ground (arith, work-update n f i t below)
  | no last ↦ ground (arith, work-update_above n f i t)
]

advance-length :
    (held : List Hold) (todo : List Action)
    → todo ≢ []
    → suc (length (advance held todo).todo) ≡ length todo
unfolding advance
advance-length held [] h = absurd (h refl)
advance-length held (take l m ∷ todo) h = refl
advance-length [] (give ∷ todo) h = refl
advance-length (hold ∷ held) (give ∷ todo) h = refl

in_way-free :
    (l : Lock) (m : Mode) (held : List Hold) → holds l held ≡ false → in_way l m held ≡ false
unfolding holds in_way
in_way-free l m [] h = refl
in_way-free l m (hold ∷ held) h = ground (arith, in_way-free l m held)

all_below-map :
    (n : ℕ) (a b : ℕ → Bool)
    → ((j : ℕ) → a j ≡ true → b j ≡ true)
    → all_below n a ≡ true
    → all_below n b ≡ true
unfolding all_below
all_below-map zero a b h k = refl
all_below-map (suc n) a b h k = ground (arith, h n, all_below-map n a b h)

quiet-can_go :
    (n : ℕ) (f : Tasks) (l : Lock) (m : Mode) (todo : List Action)
    → is_shared m ≡ true
    → all_below n (λ j. not (in_way l shared (f j).held) && not (asks_alone l (f j).todo)) ≡ true
    → can_go n f (take l m ∷ todo) ≡ true
unfolding can_go is_shared
quiet-can_go n f l shared todo h = all_below-map n _ _ λ j k. ground arith
quiet-can_go n f l exclusive todo h = cc

must_go-can_go :
    (n : ℕ) (f : Tasks) (todo : List Action) → must_go n f todo ≡ true → can_go n f todo ≡ true
unfolding must_go can_go
must_go-can_go n f [] h = h
must_go-can_go n f (give ∷ todo) h = refl
must_go-can_go n f (take l m ∷ todo) h =
    elim (Bool-cases (all_below n λ j. not (holds l (f j).held))) [
      | inl free ↦ all_below-map n _ _ (λ j k. ground (arith, in_way-free l m (f j).held)) free
      | inr taken ↦ quiet-can_go n f l m todo (ground arith) (ground arith)
    ]

unfoldable pub is_done : List Action → Bool
is_done [] = true
is_done (action ∷ todo) = false

not_done : (todo : List Action) → is_done todo ≡ false → todo ≢ []
unfolding is_done
not_done [] h = cc
not_done (action ∷ todo) h = λ e. cc

can_go-unfinished : (n : ℕ) (f : Tasks) (todo : List Action) → can_go n f todo ≡ true → todo ≢ []
unfolding can_go
can_go-unfinished n f [] h = cc
can_go-unfinished n f (action ∷ todo) h = λ e. cc

pub Step-work : (n : ℕ) (f g : Tasks) → Step n f g → suc (work n g) ≡ work n f
Step-work n f _ (step i below goes) = omega (
  arith,
  work-update n f i (advance (f i).held (f i).todo) below,
  advance-length (f i).held (f i).todo (can_go-unfinished n f (f i).todo goes),
)

module _ (load : Load) (n : ℕ) (jobs : ℕ → List Job)
    (fit : (i : ℕ) → i < n → jobs_fit load (jobs i) ≡ true) where
  run_on :
      (fuel : ℕ) (f : Tasks)
      → Reached n (start jobs) f
      → work n f ≤ fuel
      → (g : Tasks) × Reached n (start jobs) g × (all_below n (λ i. is_done (g i).todo) ≡ true)
  run_on zero f r enough = elim (all_below-cases n λ i. is_done (f i).todo) [
    | inl done ↦ (f, r, done)
    | inr (i, below, left) ↦
        let (j, under, goes) = no_deadlock load n jobs fit f r i below (not_done (f i).todo left) in
        let s = step j under (must_go-can_go n f (f j).todo goes) in
        absurd (omega (arith, Step-work n f _ s))
  ]
  run_on (suc fuel) f r enough = elim (all_below-cases n λ i. is_done (f i).todo) [
    | inl done ↦ (f, r, done)
    | inr (i, below, left) ↦
        let (j, under, goes) = no_deadlock load n jobs fit f r i below (not_done (f i).todo left) in
        let s = step j under (must_go-can_go n f (f j).todo goes) in
        run_on fuel _ (next r s) (omega (arith, Step-work n f _ s))
  ]

  -- From every state that can be reached, some run ends with no action left.
  run_to_end :
      (f : Tasks)
      → Reached n (start jobs) f
      → (g : Tasks) × Reached n (start jobs) g × (all_below n (λ i. is_done (g i).todo) ≡ true)
  run_to_end f r = run_on (work n f) f r (omega arith)
