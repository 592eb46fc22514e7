-- ===== src/Memory/Tiling/Allocate.antt =====
-- memory/allocator.rs: `alloc` on an arena that is cut up by its free nodes and slots.
use rust_data_broker.Prelude.{
  ℕ, ◌+◌, ◌-◌, ◌%◌, ◌^◌, ◌<◌, ◌≤◌, ◌≡◌, ◌≢◌, ◌⊎◌, refl, sym, ap, subst, inl, inr, true, false, none,
  some, List, ◌∷◌, arith, All, ltb, leb, ◌==◌, Bool-cases, Option-cases,
}
use rust_data_broker.Memory.Align.{align_up, align_up-IsAligned}
use rust_data_broker.Memory.Arena.{Layout, FreeNode, AllocHeader, Arena}
use rust_data_broker.Memory.Alloc.{
  required_slot_size, place_header, reserve_used, find_node, slot_of, fetch_add, fetch_sub,
  alloc_from_free_list, bump_slot, alloc_from_bump, Allocation, null, pointer, alloc_reserved,
  alloc,
}
use rust_data_broker.Memory.Owners.{
  free_owners, slot_owners, slot_sizes, inside, inside_within, inside-join,
}
use rust_data_broker.Memory.Tiling.{IsNode, Tiled, IsLayout, Allocated, free_sizes}
use rust_data_broker.Memory.Tiling.Place.{
  IsEnough, required_slot_size-some, IsPlaced, place_header-IsPlaced, IsFound, find_node-IsFound,
}
use rust_data_broker.Memory.Tiling.Refused.{reserve_used-cases, IsRefused, find_node-none}

-- The arena with one more slot.
abbrev with_slot : Arena → AllocHeader → List FreeNode → (offset used : ℕ) → Arena
with_slot a h rest offset used = record a {
  free_list = rest;
  headers = h ∷ a.headers;
  offset = offset;
  memory = record a.memory { used = used };
}

module _ (a : Arena) (t : Tiled a) (l : Layout) (slot size : ℕ) (h : AllocHeader)
    (p : IsPlaced l slot size h) (rest : List FreeNode) (offset used : ℕ) where
  with_slot-Tiled :
      offset % 8 ≡ 0
      → offset ≤ a.memory.allocated
      → ((x : ℕ)
          → free_owners x rest + inside x slot size + slot_owners x a.headers
            ≡ inside x a.base offset)
      → free_sizes rest + size + slot_sizes a.headers ≡ offset
      → used ≡ size + slot_sizes a.headers
      → All IsNode rest
      → Tiled (with_slot a h rest offset used)
  unfolding slot_owners slot_sizes
  with_slot-Tiled aligned fits owned sizes accounts nodes = record {
    base_aligned = t.base_aligned;
    base_fits = t.base_fits;
    offset_aligned = aligned;
    offset_fits = fits;
    owned = λ x.
        omega (
          arith,
          owned x,
          ap (λ k. inside x k h.slot_size) p.start,
          ap (inside x slot) p.whole_size,
        );
    sizes = omega (arith, p.whole_size);
    accounts = omega (arith, p.whole_size);
    nodes = nodes;
    slots = (p.slot_ok, t.slots);
  }

  with_slot-Allocated : Allocated a (with_slot a h rest offset used) l h.user
  with_slot-Allocated = record {
    same_arena = (refl, refl);
    header = h;
    recorded = refl;
    here = refl;
    aligned = p.aligned;
    header_fits = omega (arith, p.start, p.header_fits);
    size_fits = omega (arith, p.start, p.whole_size, p.size_fits);
  }

abbrev reserved : Arena → ℕ → Arena
reserved a needed = record a { memory = record a.memory { used = a.memory.used + needed } }

abbrev pub Served : Arena → Layout → Arena × Allocation → Type 0
Served a l (b, r) =
    ((r ≡ null) × (b ≡ a) × IsRefused a l)
    ⊎ ((ptr : ℕ) × (r ≡ pointer ptr) × Tiled b × Allocated a b l ptr)

-- The three ways through `alloc_reserved`.
module _ (a : Arena) (needed : ℕ) (l : Layout) where
  taken_from_list :
      (n : FreeNode) (rest : List FreeNode)
      → find_node needed a.free_list ≡ some (n, rest)
      → let h = place_header n.address (slot_of needed n) l in
        alloc_reserved a needed l ≡ (
          with_slot a h rest a.offset (fetch_add a.memory.used (slot_of needed n - needed)),
          pointer h.user,
        )
  unfolding alloc_reserved alloc_from_free_list
  taken_from_list n rest e = rw (e, alloc_from_free_list, alloc_reserved)

  none_in_list : find_node needed a.free_list ≡ none → alloc_from_free_list a needed l ≡ none
  unfolding alloc_from_free_list
  none_in_list e = rw (e, alloc_from_free_list)

  taken_from_bump :
      find_node needed a.free_list ≡ none
      → align_up a.offset 8 ≡ a.offset
      → a.offset + needed < 2 ^ 64
      → a.offset + needed ≤ a.memory.allocated
      → let h = place_header (a.base + a.offset) needed l in
        alloc_reserved a needed l
        ≡ (with_slot a h a.free_list (a.offset + needed) a.memory.used, pointer h.user)
  unfolding alloc_reserved alloc_from_bump bump_slot
  taken_from_bump e same word fits =
      let first : ltb 18446744073709551615 (a.offset + needed) ≡ false = ground arith in
      let second : ltb a.memory.allocated (a.offset + needed) ≡ false = ground arith in
      rw (none_in_list e, alloc_reserved, same, first, second)

  out_of_room :
      find_node needed a.free_list ≡ none
      → align_up a.offset 8 ≡ a.offset
      → a.memory.allocated < a.offset + needed
      → alloc_reserved a needed l
        ≡ (record a { memory = record a.memory { used = fetch_sub a.memory.used needed } }, null)
  unfolding alloc_reserved alloc_from_bump
  out_of_room e same h =
      let second : ltb a.memory.allocated (a.offset + needed) ≡ true = ground arith in
      elim (Bool-cases (ltb 18446744073709551615 (a.offset + needed))) [
        | inl f ↦ rw (none_in_list e, alloc_reserved, same, f)
        | inr f ↦ rw (none_in_list e, alloc_reserved, same, f, second)
      ]

module _ (a : Arena) (t : Tiled a) (l : Layout) (v : IsLayout l) (needed : ℕ)
    (e : IsEnough l needed) (size_is : required_slot_size l ≡ some needed)
    (room : a.memory.used + needed ≤ a.memory.allocated) where
  from_list :
      (n : FreeNode) (rest : List FreeNode)
      → find_node needed a.free_list ≡ some (n, rest)
      → Served a l (alloc_reserved (reserved a needed) needed l)
  from_list n rest found = rw (taken_from_list (reserved a needed) needed l n rest found) (
      inr (
        header.user,
        refl,
        with_slot-Tiled a t l n.address (slot_of needed n) header placed rest a.offset used
            t.offset_aligned t.offset_fits (λ x. omega (arith, f.owners x, t.owned x))
            (omega (arith, f.sizes, t.sizes))
            (omega (arith, f.sizes, t.sizes, t.accounts, t.offset_fits, t.base_fits, f.large))
            f.others,
        with_slot-Allocated a t l n.address (slot_of needed n) header placed rest a.offset used,
      ))
    where
      used : ℕ
      used = fetch_add (a.memory.used + needed) (slot_of needed n - needed)

      f : IsFound needed a.free_list n rest
      f = find_node-IsFound needed a.free_list n rest e.whole t.nodes found

      within : (a.base ≤ n.address) × (n.address + slot_of needed n ≤ a.base + a.offset)
      within =
          inside_within n.address (slot_of needed n) a.base a.offset
            (omega (arith, f.large, e.roomy)) (λ x. omega (arith, f.owners x, t.owned x))

      header : AllocHeader
      header = place_header n.address (slot_of needed n) l

      placed : IsPlaced l n.address (slot_of needed n) header
      placed =
          place_header-IsPlaced l n.address (slot_of needed n) needed v e f.large
            (omega (arith, within.1, t.offset_fits, t.base_fits)) f.node.aligned f.whole

  -- The offset is a multiple of 8 already.
  offset_same : align_up a.offset 8 ≡ a.offset
  offset_same =
      let i =
        align_up-IsAligned a.offset 3 (omega arith)
          (omega (arith, t.offset_fits, t.base_fits, t.offset_aligned)) in
      omega (arith, i.above, i.near, i.divides, t.offset_aligned)

  from_bump :
      find_node needed a.free_list ≡ none → Served a l (alloc_reserved (reserved a needed) needed l)
  from_bump none_found = elim (Bool-cases (leb (a.offset + needed) a.memory.allocated)) [
    | inl h ↦
        let fits : a.offset + needed ≤ a.memory.allocated = ground arith in
        rw
          (taken_from_bump (reserved a needed) needed l none_found offset_same
            (omega (arith, t.base_fits)) fits)
          (inr (
            header.user,
            refl,
            with_slot-Tiled a t l (a.base + a.offset) needed header (placed fits) a.free_list
                (a.offset + needed) (a.memory.used + needed)
                (omega (arith, t.offset_aligned, e.whole)) fits
                (λ x. omega (arith, t.owned x, inside-join x a.base a.offset needed))
                (omega (arith, t.sizes)) (omega (arith, t.accounts)) t.nodes,
            with_slot-Allocated a t l (a.base + a.offset) needed header (placed fits) a.free_list
                (a.offset + needed) (a.memory.used + needed),
          ))
    | inr h ↦
        let full : a.memory.allocated < a.offset + needed = ground arith in
        rw (out_of_room (reserved a needed) needed l none_found offset_same full) (
          inl (
            refl,
            ap (λ u. record a { memory = record a.memory { used = u } }) undone,
            (needed, size_is, inr (find_node-none needed a.free_list none_found, full)),
          ))
  ]
    where
      undone : fetch_sub (a.memory.used + needed) needed ≡ a.memory.used
      undone = omega (arith, t.base_fits)

      header : AllocHeader
      header = place_header (a.base + a.offset) needed l

      placed : a.offset + needed ≤ a.memory.allocated → IsPlaced l (a.base + a.offset) needed header
      placed fits =
          place_header-IsPlaced l (a.base + a.offset) needed needed v e (omega arith)
            (omega (arith, t.base_fits)) (omega (arith, t.base_aligned, t.offset_aligned)) e.whole

  served : Served a l (alloc_reserved (reserved a needed) needed l)
  served = elim (Option-cases (find_node needed a.free_list)) [
    | inl f ↦ from_bump f
    | inr ((n, rest), f) ↦ from_list n rest f
  ]

-- On an arena that its free nodes and slots cut up, `alloc` of a layout answers with null only
-- where the slot would pass what is not locked, or neither a free node nor the rest of the arena can
-- hold it, and the arena is then as it was. Otherwise it answers with a pointer that has the layout's
-- alignment and its bytes, behind a header, in a new slot; the arena is cut up again, so the slot
-- overlaps no other slot and no free node.
pub alloc-Served :
    (a : Arena) (l : Layout) → Tiled a → IsLayout l → a.base ≢ 0 → Served a l (alloc a l)
unfolding alloc
alloc-Served a l t v live =
    let (needed, e, enough) = required_slot_size-some l v in
    elim (reserve_used-cases a.memory needed (omega (arith, t.base_fits))) [
      | inl (f, full) ↦
          subst (Served a l) (sym (none_reserved needed e f))
            (inl (refl, refl, (needed, e, inl full)))
      | inr (f, room) ↦
          subst (Served a l) (sym (some_reserved needed e f))
            (served a t l v needed enough e (omega arith))
    ]
  where
    started : (a.base == 0) ≡ false
    started = ground arith

    none_reserved :
        (needed : ℕ)
        → required_slot_size l ≡ some needed
        → reserve_used a.memory needed ≡ none
        → alloc a l ≡ (a, null)
    none_reserved needed e f = rw (started, e, f, alloc) refl

    some_reserved :
        (needed : ℕ)
        → required_slot_size l ≡ some needed
        → reserve_used a.memory needed ≡ some (record a.memory { used = a.memory.used + needed })
        → alloc a l ≡ alloc_reserved (reserved a needed) needed l
    some_reserved needed e f = rw (started, e, f, alloc) refl
