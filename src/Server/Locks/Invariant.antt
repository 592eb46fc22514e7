-- ===== src/Server/Locks/Invariant.antt =====
-- net/server.rs: what stays true of the locks of tasks that take them in order.
use rust_data_broker.Prelude.{
  ltb, ◌<◌, ◌≡◌, refl, Bool, true, false, ◌&&◌, ◌||◌, not, List, [], ◌∷◌, ◌⊎◌, inl, inr, arith,
  Bool-cases,
}
use rust_data_broker.Server.Locks.{
  Lock, names, queues, one_queue, writer, Mode, shared, Action, take, give,
}
use rust_data_broker.Server.Locks.Order.{
  Hold, is_shared, Load, steady, naming, rank, above, allowed, ordered, &&-left, &&-right,
}
use rust_data_broker.Server.Locks.Running.{Task, same, holds, in_way, asks_alone, advance}

unfoldable pub is_map : Lock → Bool
is_map l = ltb (rank l) 2

-- In a steady load the maps are held to be read only.
unfoldable pub reads_maps : Load → List Hold → Bool
reads_maps naming held = true
reads_maps steady [] = true
reads_maps steady (h ∷ held) = (not (is_map h.0) || is_shared h.1) && reads_maps steady held

pub record IsInOrder (load : Load) (t : Task) : Type 0 where
  pub in_order : ordered load t.held t.todo ≡ true
  pub reading : reads_maps load t.held ≡ true

reads_maps-take :
    (load : Load) (held : List Hold) (l : Lock) (m : Mode)
    → allowed load held l m ≡ true
    → reads_maps load held ≡ true
    → reads_maps load ((l, m) ∷ held) ≡ true
unfolding reads_maps allowed is_map rank
reads_maps-take naming held l m h k = refl
reads_maps-take steady held names m h k = ground (arith)
reads_maps-take steady held queues m h k = ground (arith)
reads_maps-take steady held (one_queue hash) m h k = k
reads_maps-take steady held (writer connection) m h k = k

reads_maps-give :
    (load : Load) (h : Hold) (held : List Hold)
    → reads_maps load (h ∷ held) ≡ true
    → reads_maps load held ≡ true
unfolding reads_maps
reads_maps-give naming h held k = refl
reads_maps-give steady h held k = &&-right _ _ k

pub advance-IsInOrder :
    (load : Load) (held : List Hold) (todo : List Action)
    → IsInOrder load (record { held = held; todo = todo })
    → IsInOrder load (advance held todo)
unfolding advance ordered
advance-IsInOrder load held [] k = k
advance-IsInOrder load held (take l m ∷ todo) k = record {
  in_order = &&-right (allowed load held l m) _ k.in_order;
  reading = reads_maps-take load held l m (&&-left _ _ k.in_order) k.reading;
}
advance-IsInOrder load [] (give ∷ todo) k = absurd (cc k.in_order)
advance-IsInOrder load (h ∷ held) (give ∷ todo) k = record {
  in_order = k.in_order;
  reading = reads_maps-give load h held k.reading;
}

pub rank-below : (l : Lock) → rank l < 4
unfolding rank
rank-below names = omega arith
rank-below queues = omega arith
rank-below (one_queue hash) = omega arith
rank-below (writer connection) = omega arith

same-rank : (a b : Lock) → same a b ≡ true → rank a ≡ rank b
unfolding same rank
same-rank names names h = refl
same-rank queues queues h = refl
same-rank (one_queue a) (one_queue b) h = refl
same-rank (writer a) (writer b) h = refl
same-rank names queues h = cc
same-rank names (one_queue b) h = cc
same-rank names (writer b) h = cc
same-rank queues names h = cc
same-rank queues (one_queue b) h = cc
same-rank queues (writer b) h = cc
same-rank (one_queue a) names h = cc
same-rank (one_queue a) queues h = cc
same-rank (one_queue a) (writer b) h = cc
same-rank (writer a) names h = cc
same-rank (writer a) queues h = cc
same-rank (writer a) (one_queue b) h = cc

-- A lock taken above those held ranks above each of them.
pub above-holds :
    (held : List Hold) (l x : Lock) → above held x ≡ true → holds l held ≡ true → rank l < rank x
unfolding above holds
above-holds [] l x h k = absurd (cc k)
above-holds (hold ∷ held) l x h k = elim (Bool-cases (same l hold.0)) [
  | inl alike ↦ ground (arith, same-rank l hold.0 alike)
  | inr other ↦ above-holds held l x (&&-right _ _ h) (ground arith)
]

-- What a take obeys: it reads a map in a steady load, or goes upwards.
pub allowed-cases :
    (load : Load) (held : List Hold) (l : Lock) (m : Mode)
    → allowed load held l m ≡ true
    → ((load ≡ steady) × (is_map l ≡ true) × (is_shared m ≡ true)) ⊎ (above held l ≡ true)
unfolding allowed is_map rank
allowed-cases steady held names m h = inl (refl, refl, h)
allowed-cases steady held queues m h = inl (refl, refl, h)
allowed-cases steady held (one_queue hash) m h = inr h
allowed-cases steady held (writer connection) m h = inr h
allowed-cases naming held l m h = inr h

-- Nobody is in the way of reading a map in a steady load.
same-map : (l x : Lock) → is_map l ≡ true → same l x ≡ true → is_map x ≡ true
unfolding is_map
same-map l x h k = ground (arith, same-rank l x k)

pub allowed-map :
    (held : List Hold) (l : Lock) (m : Mode)
    → is_map l ≡ true
    → allowed steady held l m ≡ true
    → is_shared m ≡ true
unfolding allowed is_map rank
allowed-map held names m map h = h
allowed-map held queues m map h = h
allowed-map held (one_queue hash) m map h = cc
allowed-map held (writer connection) m map h = cc

pub map-in_way :
    (l : Lock) (held : List Hold)
    → is_map l ≡ true
    → reads_maps steady held ≡ true
    → in_way l shared held ≡ false
unfolding reads_maps in_way is_shared
map-in_way l [] h k = refl
map-in_way l (hold ∷ held) h k = ground (arith, same-map l hold.0 h, map-in_way l held h)

pub map-asks_alone :
    (l : Lock) (held : List Hold) (todo : List Action)
    → is_map l ≡ true
    → ordered steady held todo ≡ true
    → asks_alone l todo ≡ false
unfolding ordered asks_alone
map-asks_alone l held [] h k = refl
map-asks_alone l held (give ∷ todo) h k = refl
map-asks_alone l held (take x m ∷ todo) h k = elim (Bool-cases (same l x)) [
  | inl alike ↦ ground (arith, allowed-map held x m (same-map l x h alike) (&&-left _ _ k))
  | inr other ↦ ground arith
]
