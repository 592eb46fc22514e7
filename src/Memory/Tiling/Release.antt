-- ===== src/Memory/Tiling/Release.antt =====
-- memory/allocator.rs: `dealloc` on an arena that is cut up by its free nodes and
-- slots.
use rust_data_broker.Prelude.{
  ℕ, ◌+◌, ◌<◌, ◌≤◌, ◌≡◌, ◌≢◌, refl, sym, ap, subst, ◌∙◌, inl, inr, true, false, ◌||◌, Option, some,
  List, [], ◌∷◌, arith, All, ltb, leb, ◌==◌, Bool-cases, Option-cases,
}
use rust_data_broker.Memory.Arena.{Layout, AllocHeader, Arena}
use rust_data_broker.Memory.Alloc.{
  take_header, is_outside, count_dealloc, release_slot, dealloc, freed, alloc, pointer, null,
}
use rust_data_broker.Memory.Owners.{
  free_owners, slot_owners, slot_sizes, slot_start, inside, inside_within,
}
use rust_data_broker.Memory.Tiling.{IsSlot, Tiled, IsLayout, free_sizes}
use rust_data_broker.Memory.Tiling.Allocate.{alloc-Served}

-- The header of a pointer, and the others.
record IsTaken (ptr : ℕ) (headers : List AllocHeader) (h : AllocHeader) (rest : List AllocHeader)
    : Type 0 where
  here : h.user ≡ ptr
  slot : IsSlot h
  others : All IsSlot rest
  owners :
      (x : ℕ) → inside x (slot_start h) h.slot_size + slot_owners x rest ≡ slot_owners x headers
  sizes : h.slot_size + slot_sizes rest ≡ slot_sizes headers

keep-IsTaken :
    (ptr : ℕ) (g : AllocHeader) (headers : List AllocHeader) (h : AllocHeader)
    (rest : List AllocHeader)
    → IsSlot g
    → IsTaken ptr headers h rest
    → IsTaken ptr (g ∷ headers) h (g ∷ rest)
unfolding slot_owners slot_sizes
keep-IsTaken ptr g headers h rest v t = record {
  here = t.here;
  slot = t.slot;
  others = (v, t.others);
  owners = λ x. omega (arith, t.owners x);
  sizes = omega (arith, t.sizes);
}

pairs :
    {A B : Type 0} (a c : A) (b d : B)
    → ◌≡◌ {A = Option (A × B)} (some (a, b)) (some (c, d))
    → (a ≡ c) × (b ≡ d)
pairs a c b d e = ground arith

first-IsTaken :
    (ptr : ℕ) (g : AllocHeader) (headers : List AllocHeader)
    → g.user ≡ ptr
    → IsSlot g
    → All IsSlot headers
    → IsTaken ptr (g ∷ headers) g headers
unfolding slot_owners slot_sizes
first-IsTaken ptr g headers e v w = record {
  here = e;
  slot = v;
  others = w;
  owners = λ x. refl;
  sizes = refl;
}

take_header-IsTaken :
    (ptr : ℕ) (headers : List AllocHeader) (h : AllocHeader) (rest : List AllocHeader)
    → All IsSlot headers
    → take_header ptr headers ≡ some (h, rest)
    → IsTaken ptr headers h rest
unfolding take_header
take_header-IsTaken ptr [] h rest v e = cc
take_header-IsTaken ptr (g ∷ headers) h rest v e = elim (Bool-cases (g.user == ptr)) [
  | inl k ↦
      let (same, left) = pairs g h headers rest (rw (k, take_header) at e) in
      subst (IsTaken ptr (g ∷ headers) h) left (
        subst (λ z. IsTaken ptr (g ∷ headers) z headers) same
          (first-IsTaken ptr g headers (ground arith) v.0 v.1))
  | inr k ↦ elim (Option-cases (take_header ptr headers)) [
    | inl f ↦ absurd (let z = rw (k, take_header, f) at e in cc)
    | inr ((i, l), f) ↦
        let (same, left) = pairs i h (g ∷ l) rest (rw (k, take_header, f) at e) in
        subst (IsTaken ptr (g ∷ headers) h) left (
          keep-IsTaken ptr g headers h l v.0
            (take_header-IsTaken ptr headers h l v.1 (f ∙ ap (λ z. some (z, l)) same)))
  ]
]

count_dealloc-Tiled : (a : Arena) → Tiled a → Tiled (count_dealloc a)
unfolding count_dealloc
count_dealloc-Tiled a t = record {
  base_aligned = t.base_aligned;
  base_fits = t.base_fits;
  offset_aligned = t.offset_aligned;
  offset_fits = t.offset_fits;
  owned = t.owned;
  sizes = t.sizes;
  accounts = t.accounts;
  nodes = t.nodes;
  slots = t.slots;
}

is_outside_no :
    (a : Arena) (h : AllocHeader)
    → a.base ≤ slot_start h
    → slot_start h + h.slot_size ≤ a.base + a.memory.allocated
    → is_outside a h ≡ false
unfolding is_outside
is_outside_no a h low high = ground arith

module _ (a : Arena) (t : Tiled a) (ptr : ℕ) (h : AllocHeader) (rest : List AllocHeader)
    (found : take_header ptr a.headers ≡ some (h, rest)) where
  taken : IsTaken ptr a.headers h rest
  taken = take_header-IsTaken ptr a.headers h rest t.slots found

  within : (a.base ≤ slot_start h) × (slot_start h + h.slot_size ≤ a.base + a.offset)
  within =
      inside_within (slot_start h) h.slot_size a.base a.offset (omega (arith, taken.slot.roomy))
        (λ x. omega (arith, taken.owners x, t.owned x))

  release_slot-Tiled : Tiled (release_slot a h rest)
  unfolding release_slot free_owners free_sizes
  release_slot-Tiled = count_dealloc-Tiled _ (record {
    base_aligned = t.base_aligned;
    base_fits = t.base_fits;
    offset_aligned = t.offset_aligned;
    offset_fits = t.offset_fits;
    owned = λ x. omega (arith, taken.owners x, t.owned x);
    sizes = omega (arith, taken.sizes, t.sizes);
    accounts = omega (arith, taken.sizes, t.sizes, t.accounts, t.offset_fits, t.base_fits);
    nodes = (
      record { aligned = taken.slot.aligned; whole = taken.slot.whole; roomy = taken.slot.roomy },
      t.nodes,
    );
    slots = taken.others;
  })

  -- On an arena that its free nodes and slots cut up, `dealloc` of a pointer that `alloc` gave frees
  -- its slot: the slot becomes the first free node, its header is gone and no other, what is in use
  -- goes down by its size, and the arena is cut up again.
  pub dealloc-Tiled :
      a.base ≢ 0
      → let r = dealloc a ptr in
        (r.1 ≡ freed)
        × (r.0.free_list ≡ record { address = slot_start h; size = h.slot_size } ∷ a.free_list)
        × (r.0.headers ≡ rest)
        × (r.0.memory.used + h.slot_size ≡ a.memory.used)
        × Tiled r.0
  unfolding dealloc release_slot count_dealloc
  dealloc-Tiled live = rw opens (refl, refl, refl, spent, release_slot-Tiled)
    where
      opens : dealloc a ptr ≡ (release_slot a h rest, freed)
      opens = rw (started, mapped, found, inner, dealloc)
        where
          started : (a.base == 0) ≡ false
          started = ground arith

          mapped : (ltb ptr a.base || leb (a.base + a.memory.allocated) ptr) ≡ false
          mapped =
              let low : a.base ≤ ptr = omega (arith, within.0, taken.here, taken.slot.reached) in
              let high : ptr < a.base + a.memory.allocated = omega (
                arith, within.1, taken.here, taken.slot.reached, taken.slot.room_after,
                t.offset_fits,
              ) in
              ground arith

          inner : is_outside a h ≡ false
          inner = is_outside_no a h within.0 (omega (arith, within.1, t.offset_fits))

      spent : (release_slot a h rest).memory.used + h.slot_size ≡ a.memory.used
      spent = omega (arith, taken.sizes, t.accounts, t.sizes, t.offset_fits, t.base_fits)

pointer-injective : (q r : ℕ) → pointer q ≡ pointer r → q ≡ r
pointer-injective q r e = ground arith

take_header_first :
    (h : AllocHeader) (headers : List AllocHeader) (ptr : ℕ)
    → h.user ≡ ptr
    → take_header ptr (h ∷ headers) ≡ some (h, headers)
unfolding take_header
take_header_first h headers ptr e =
    let found : (h.user == ptr) ≡ true = ground arith in rw (found, take_header)

-- On an arena that its free nodes and slots cut up, the release of a pointer that `alloc` has just
-- given leaves the headers and what is in use as they were before, and the arena is cut up again.
pub dealloc-alloc :
    (a : Arena) (l : Layout) (ptr : ℕ)
    → Tiled a
    → IsLayout l
    → a.base ≢ 0
    → (alloc a l).1 ≡ pointer ptr
    → let r = dealloc (alloc a l).0 ptr in
      (r.1 ≡ freed) × (r.0.headers ≡ a.headers) × (r.0.memory.used ≡ a.memory.used) × Tiled r.0
dealloc-alloc a l ptr t v live e = elim (alloc-Served a l t v live) [
  | inl (f, _, _) ↦ absurd (let z : null ≡ pointer ptr = sym f ∙ e in cc)
  | inr (q, f, s, k) ↦
      let b : Arena = (alloc a l).0 in
      let same : q ≡ ptr = pointer-injective q ptr (sym f ∙ e) in
      let found : take_header ptr b.headers ≡ some (k.header, a.headers) =
        ap (take_header ptr) k.recorded
        ∙ take_header_first k.header a.headers ptr (k.here ∙ same) in
      let (done, _, headers, _, s') =
        dealloc-Tiled b s ptr k.header a.headers found (λ z. live (sym k.same_arena.0 ∙ z)) in
      (done, headers, s'.accounts ∙ ap slot_sizes headers ∙ sym t.accounts, s')
]
