-- ===== src/Memory/Run.antt =====
-- memory/allocator.rs: the calls of the allocator in any order, from `init` on.
use rust_data_broker.Prelude.{
  ℕ, ◌+◌, ◌%◌, ◌^◌, ◌<◌, ◌≡◌, refl, sym, subst, inl, inr, true, false, Bool, ◌||◌, some, List, [],
  ◌∷◌, arith, All, ltb, leb, ◌==◌, if◌then◌else◌, Bool-cases, Option-cases, ok,
}
use rust_data_broker.Memory.{set_locked_size}
use rust_data_broker.Memory.Arena.{Layout, Arena, uninitialised}
use rust_data_broker.Memory.Alloc.{Platform, is_too_small, init, alloc, take_header, dealloc}
use rust_data_broker.Memory.Owners.{free_owners, slot_owners, slot_sizes, inside}
use rust_data_broker.Memory.Defragment.{defrag_round}
use rust_data_broker.Memory.Tiling.{Tiled, IsLayout, free_sizes}
use rust_data_broker.Memory.Tiling.Allocate.{alloc-Served}
use rust_data_broker.Memory.Tiling.Release.{dealloc-Tiled}
use rust_data_broker.Memory.Tiling.Joined.{defragment-Tiled}

pub data Call : Type 0 where
  allocates : Layout → Call
  releases : (ptr : ℕ) → Call
  defragments : Call
  reserves : (size : ℕ) → Call

unfoldable pub step : Arena → Call → Arena
step a (allocates l) = (alloc a l).0
step a (releases ptr) = (dealloc a ptr).0
step a defragments = defrag_round a
step a (reserves size) = record a { memory = (set_locked_size a.memory size).0 }

unfoldable pub run : Arena → List Call → Arena
run a [] = a
run a (c ∷ calls) = run (step a c) calls

-- The layouts that are asked for are layouts.
abbrev pub IsCall : Call → Type 0
IsCall (allocates l) = IsLayout l
IsCall _ = Unit {0}

alloc-Tiled : (a : Arena) (l : Layout) → Tiled a → IsLayout l → Tiled (alloc a l).0
unfolding alloc
alloc-Tiled a l t v = elim (Bool-cases (a.base == 0)) [
  | inl e ↦ rw (e, alloc) t
  | inr e ↦ elim (alloc-Served a l t v (ground arith)) [
    | inl (_, same, _) ↦ subst Tiled (sym same) t
    | inr (_, _, s, _) ↦ s
  ]
]

releases-Tiled : (a : Arena) (ptr : ℕ) → Tiled a → Tiled (dealloc a ptr).0
unfolding dealloc
releases-Tiled a ptr t = elim (Bool-cases (a.base == 0)) [
  | inl e ↦ rw (e, dealloc) t
  | inr e ↦ elim (Option-cases (take_header ptr a.headers)) [
    | inr ((h, rest), f) ↦ (dealloc-Tiled a t ptr h rest f (ground arith)).4
    | inl f ↦ elim (Bool-cases (ltb ptr a.base || leb (a.base + a.memory.allocated) ptr)) [
      | inl g ↦ rw (e, g, dealloc) t
      | inr g ↦ rw (e, g, f, dealloc) t
    ]
  ]
]

-- A change of the flag and of the reservation.
other-Tiled :
    (a : Arena) (b : Bool) (locked : ℕ)
    → Tiled a
    → Tiled (record a { notified = b; memory = record a.memory { locked_size = locked } })
other-Tiled a b locked t = record {
  base_aligned = t.base_aligned;
  base_fits = t.base_fits;
  offset_aligned = t.offset_aligned;
  offset_fits = t.offset_fits;
  owned = t.owned;
  sizes = t.sizes;
  accounts = t.accounts;
  nodes = t.nodes;
  slots = t.slots;
}

reserves-Tiled :
    (a : Arena) (size : ℕ)
    → Tiled a
    → Tiled (record a { memory = (set_locked_size a.memory size).0 })
unfolding set_locked_size
reserves-Tiled a size t = elim (Bool-cases (ltb 18446744073709551615 (a.memory.used + size))) [
  | inl h ↦ rw h t
  | inr h ↦ elim (Bool-cases (ltb a.memory.allocated (a.memory.used + size))) [
    | inl g ↦ rw (h, g) t
    | inr g ↦ rw (h, g) (other-Tiled a a.notified size t)
  ]
]

if-Tiled : (b : Bool) {x y : Arena} → Tiled x → Tiled y → Tiled (if b then x else y)
if-Tiled true t u = t
if-Tiled false t u = u

defragments-Tiled : (a : Arena) → Tiled a → Tiled (defrag_round a)
unfolding defrag_round
defragments-Tiled a t =
    if-Tiled a.notified (defragment-Tiled _ (other-Tiled a false a.memory.locked_size t)) t

step-Tiled : (a : Arena) (c : Call) → Tiled a → IsCall c → Tiled (step a c)
unfolding step
step-Tiled a (allocates l) t v = alloc-Tiled a l t v
step-Tiled a (releases ptr) t v = releases-Tiled a ptr t
step-Tiled a defragments t v = defragments-Tiled a t
step-Tiled a (reserves size) t v = reserves-Tiled a size t

steps-Tiled : (a : Arena) (calls : List Call) → Tiled a → All IsCall calls → Tiled (run a calls)
unfolding run
steps-Tiled a [] t v = t
steps-Tiled a (c ∷ calls) t v = steps-Tiled (step a c) calls (step-Tiled a c t v.0) v.1

-- The arena after `init` with the mapped address and size.
abbrev pub mapped_arena : ℕ → ℕ → Arena
mapped_arena base size = record {
  base = base;
  memory = record { allocated = size; used = 0; locked_size = 0 };
  offset = 0;
  free_list = [];
  headers = [];
  dealloc_count = 0;
  notified = false;
}

pub mapped_arena-Tiled :
    (base size : ℕ) → base % 8 ≡ 0 → base + size < 2 ^ 64 → Tiled (mapped_arena base size)
unfolding free_owners slot_owners slot_sizes free_sizes inside
mapped_arena-Tiled base size aligned fits = record {
  base_aligned = aligned;
  base_fits = fits;
  offset_aligned = refl;
  offset_fits = omega arith;
  owned = λ x. ground arith;
  sizes = refl;
  accounts = refl;
  nodes = tt;
  slots = tt;
}

init-mapped :
    (platform : Platform) (size base : ℕ) (a : Arena)
    → init platform uninitialised size (some base) ≡ ok a
    → mapped_arena base size ≡ a
unfolding init uninitialised
init-mapped platform size base a e = elim (Bool-cases (is_too_small platform size)) [
  | inl h ↦ absurd (let z = rw (h, init) at e in cc)
  | inr h ↦ let z = rw (h, init) at e in cc
]

-- After `init` on either platform, at an address that is a multiple of 8 and from which the arena
-- fits 64 bits, and after any calls of `alloc` with layouts, of `dealloc`, of rounds of the
-- defragmentation and changes of the reservation, the free nodes and the slots cut up the used part
-- of the arena: every address of it is in exactly one, their sizes add up to it, `used` is the sum of
-- the slots, and nodes and slots are aligned, and large enough for their headers. A `dealloc` of a
-- pointer into the arena that is not one in use is undefined, and is a step that changes nothing.
pub run-Tiled :
    (platform : Platform) (size base : ℕ) (a : Arena) (calls : List Call)
    → init platform uninitialised size (some base) ≡ ok a
    → base % 8 ≡ 0
    → base + size < 2 ^ 64
    → All IsCall calls
    → Tiled (run a calls)
run-Tiled platform size base a calls e aligned fits v =
    steps-Tiled a calls
      (subst Tiled (init-mapped platform size base a e) (mapped_arena-Tiled base size aligned fits))
      v
