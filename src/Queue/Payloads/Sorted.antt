-- ===== src/Queue/Payloads/Sorted.antt =====
-- net/queue.rs: the order of the five sizes of `find_biggest_payloads`.
use Prim.Native.Nat.{max}
use rust_data_broker.Prelude.{
  refl, leb, drop, if◌then◌else◌, ℕ, ◌≤◌, ◌≡◌, ap, ◌∙◌, List, [], ◌∷◌, arith, get_or, length, ok,
}
use rust_data_broker.Dict.{Dict}
use rust_data_broker.Queue.Message.{QueueMessage}
use rust_data_broker.Queue.State.{Queue}
use rust_data_broker.Queue.Payloads.{place, shift_down, place_all, get_next_biggest_payload}

-- Five sizes in ascending order.
abbrev pub five_sizes : ℕ → ℕ → ℕ → ℕ → ℕ → List ℕ
five_sizes a b c d e = a ∷ b ∷ c ∷ d ∷ e ∷ []

abbrev pub Chain : List ℕ → Type 0
Chain [] = Unit {0}
Chain (x ∷ []) = Unit {0}
Chain (x ∷ y ∷ xs) = (x ≤ y) × Chain (y ∷ xs)

place-five :
    (a b c d e n : ℕ)
    → Chain (five_sizes a b c d e)
    → Chain (place 5 n (five_sizes a b c d e))
      × (length (place 5 n (five_sizes a b c d e)) ≡ 5)
      × (get_or (place 5 n (five_sizes a b c d e)) 4 0 ≡ max e n)
unfolding place shift_down
place-five a b c d e n h = ground arith

-- A size takes its place among ascending ones.
unfoldable pub insert_size : ℕ → List ℕ → List ℕ
insert_size n [] = n ∷ []
insert_size n (x ∷ sizes) = if leb n x then n ∷ x ∷ sizes else x ∷ insert_size n sizes

-- The sizes of the messages take their places one after the other, and the least goes each time.
unfoldable pub keep_biggest : Dict ℕ QueueMessage → List ℕ → List ℕ
keep_biggest [] sizes = sizes
keep_biggest ((id, m) ∷ queue) sizes =
    keep_biggest queue (drop 1 (insert_size (length m.payload) sizes))

place-insert_size :
    (a b c d e n : ℕ)
    → Chain (five_sizes a b c d e)
    → place 5 n (five_sizes a b c d e) ≡ drop 1 (insert_size n (five_sizes a b c d e))
unfolding place shift_down insert_size
place-insert_size a b c d e n h = ground arith

-- Five ascending sizes of which the last is `top`.
pub record IsRanked (sizes : List ℕ) (top : ℕ) : Type 0 where
  pub five : length sizes ≡ 5
  pub chain : Chain sizes
  pub greatest : get_or sizes 4 0 ≡ top

place-IsRanked :
    (sizes : List ℕ) (top n : ℕ) → IsRanked sizes top → IsRanked (place 5 n sizes) (max top n)
place-IsRanked (a ∷ b ∷ c ∷ d ∷ e ∷ []) top n r =
    let (chain, five, greatest) = place-five a b c d e n r.chain in
    record { five = five; chain = chain; greatest = greatest ∙ ap (λ k. max k n) r.greatest }
place-IsRanked sizes top n r = absurd (let h = r.five in omega arith)

-- The greatest payload size of the messages, or `top` if that is greater.
unfoldable pub max_size : Dict ℕ QueueMessage → ℕ → ℕ
max_size [] top = top
max_size ((id, m) ∷ queue) top = max_size queue (max top (length m.payload))

place_all-IsRanked :
    (queue : Dict ℕ QueueMessage) (sizes : List ℕ) (top : ℕ)
    → IsRanked sizes top
    → IsRanked (place_all queue sizes) (max_size queue top)
unfolding place_all max_size
place_all-IsRanked [] sizes top r = r
place_all-IsRanked ((id, m) ∷ queue) sizes top r =
    place_all-IsRanked queue (place 5 (length m.payload) sizes) (max top (length m.payload))
      (place-IsRanked sizes top (length m.payload) r)

place-insert_size_ranked :
    (sizes : List ℕ) (top n : ℕ)
    → IsRanked sizes top
    → place 5 n sizes ≡ drop 1 (insert_size n sizes)
place-insert_size_ranked (a ∷ b ∷ c ∷ d ∷ e ∷ []) top n r = place-insert_size a b c d e n r.chain
place-insert_size_ranked sizes top n r = absurd (let h = r.five in omega arith)

place_all-keep_biggest :
    (queue : Dict ℕ QueueMessage) (sizes : List ℕ) (top : ℕ)
    → IsRanked sizes top
    → place_all queue sizes ≡ keep_biggest queue sizes
unfolding place_all keep_biggest
place_all-keep_biggest [] sizes top r = refl
place_all-keep_biggest ((id, m) ∷ queue) sizes top r =
    place_all-keep_biggest queue (place 5 (length m.payload) sizes) (max top (length m.payload))
      (place-IsRanked sizes top (length m.payload) r)
    ∙ ap (keep_biggest queue) (place-insert_size_ranked sizes top (length m.payload) r)

-- On five stored sizes in ascending order, `get_next_biggest_payload` answers with the last of them,
-- and leaves five sizes in ascending order, of which the last is the greatest of that answer and of
-- the payloads in the queue; this one is what the next call answers with. The five sizes are those
-- that stay when the payloads take their places among them, one after the other, and the least goes
-- each time.
pub get_next_biggest_payload-IsRanked :
    (q : Queue) (top : ℕ)
    → IsRanked q.biggest_payloads top
    → let r = get_next_biggest_payload q in
      (r.1 ≡ ok top)
      × IsRanked r.0.biggest_payloads (max_size q.queue top)
      × ((get_next_biggest_payload r.0).1 ≡ ok (max_size q.queue top))
      × (r.0.biggest_payloads ≡ keep_biggest q.queue q.biggest_payloads)
unfolding get_next_biggest_payload
get_next_biggest_payload-IsRanked q top r =
    let after = place_all-IsRanked q.queue q.biggest_payloads top r in
    (
      ap ok r.greatest,
      after,
      ap ok after.greatest,
      place_all-keep_biggest q.queue q.biggest_payloads top r,
    )
