-- ===== src/Pool/Room.antt =====
-- net/server.rs: what one `spawn` does to the counters and the channels.
use native.Mathlib.Decide.{ℕ_discrete, dec_lt}
use rust_data_broker.Prelude.{
  ltb, if◌then◌else◌, ℕ, zero, suc, ◌+◌, ◌%◌, ◌^◌, ◌<◌, ◌≤◌, ◌≡◌, ◌≢◌, refl, sym, ap, subst, ◌∙◌,
  Bool, false, some, List, [], ◌∷◌, ◌++◌, arith, All, length, length-append, length-set, set, ok,
}
use rust_data_broker.Bytes.{All-append}
use rust_data_broker.Dict
use rust_data_broker.Pool.{
  Pool, Sent, sent, waits, get, add_workers, least_worker, send_job, spawn_to, spawn,
}
use rust_data_broker.Pool.Least.{
  sum, sum-append, sum-set, get-set_self, get-set_ne, get-append_last, get-append, times,
  times_mono, times-le-sum, sum-lt-times, get-le-sum, get-lt, get-All, All-set, All-both, IsLeast,
  min_by_key-IsLeast,
}

-- `n` workers with `total` jobs, each with `low` of them or one more, as its counter says.
pub record IsBalanced {Job : Type 0} (p : Pool Job) (n total low : ℕ) : Type 0 where
  pub sized : length p.pressure ≡ n
  pub connected :
      (i : ℕ)
      → i < n
      → (jobs : List Job) × (Dict.lookup ℕ_discrete i p.map ≡ some jobs)
        × (get p.pressure i ≡ some (length jobs))
  pub bounds : All (λ c. (low ≤ c) × (c ≤ low + 1)) p.pressure
  pub together : sum p.pressure ≡ total

-- The list of one worker and its counter are written.
pub IsFilled : {Job : Type 0} → List (ℕ × List Job) → List ℕ → ℕ → Type 0
IsFilled {Job} map pressure i =
    (jobs : List Job) × (Dict.lookup ℕ_discrete i map ≡ some jobs)
    × (get pressure i ≡ some (length jobs))

pub IsFilled-insert :
    {Job : Type 0} (map : List (ℕ × List Job)) (pressure pressure' : List ℕ) (i k : ℕ)
    (jobs : List Job)
    → get pressure' k ≡ some (length jobs)
    → (k ≢ i → get pressure' i ≡ get pressure i)
    → (k ≢ i → IsFilled map pressure i)
    → IsFilled (Dict.insert ℕ_discrete k jobs map) pressure' i
unfolding IsFilled
IsFilled-insert map pressure pressure' i k jobs own other h = elim (ℕ_discrete k i) [
  | yes e ↦ (
    jobs,
    ap (λ z. Dict.lookup ℕ_discrete z (Dict.insert ℕ_discrete k jobs map)) (sym e)
        ∙ Dict.lookup-insert_self ℕ_discrete k jobs map,
    ap (get pressure') (sym e) ∙ own,
  )
  | no d ↦
      let (js, e, c) = h d in (js, Dict.lookup-insert_ne ℕ_discrete k i jobs map d ∙ e, other d ∙ c)
]

pub add_workers-IsBalanced :
    {Job : Type 0} (id workers : ℕ) (p : Pool Job)
    → IsBalanced p id 0 0
    → IsBalanced (add_workers id workers p) (id + workers) 0 0
unfolding add_workers sum IsFilled
add_workers-IsBalanced id zero p b = subst (λ n. IsBalanced p n 0 0) (omega arith) b
add_workers-IsBalanced id (suc workers) p b =
    subst (λ n. IsBalanced (add_workers id (suc workers) p) n 0 0) (omega arith)
      (add_workers-IsBalanced (id + 1) workers _ (record {
        sized = length-append p.pressure (0 ∷ []) ∙ omega (arith, b.sized);
        connected = λ i h.
            IsFilled-insert p.map p.pressure (p.pressure ++ 0 ∷ []) i id []
              (subst (λ l. get (p.pressure ++ 0 ∷ []) l ≡ some 0) b.sized
                (get-append_last p.pressure 0))
              (λ d. get-append p.pressure 0 i (omega (arith, d, b.sized)))
              (λ d. b.connected i (omega (arith, d)));
        bounds = All-append _ p.pressure (0 ∷ []) b.bounds ((omega arith, omega arith), tt);
        together = sum-append p.pressure 0 ∙ omega (arith, b.together);
      }))

send_job-sent :
    {Job : Type 0} (is_gone : ℕ → Bool) (i : ℕ) (p : Pool Job) (job : Job) (jobs : List Job)
    → Dict.lookup ℕ_discrete i p.map ≡ some jobs
    → is_gone i ≡ false
    → send_job is_gone i p job ≡ (
      record p { map = Dict.insert ℕ_discrete i (jobs ++ job ∷ []) p.map },
      ok (if ltb (length jobs) p.capacity then sent else waits),
    )
unfolding send_job
send_job-sent is_gone i p job jobs e g = rw (send_job, e, g) refl

module _ {Job : Type 0} (is_gone : ℕ → Bool) (p : Pool Job) (n total low : ℕ)
    (b : IsBalanced p n total low) (job : Job) (present : (i : ℕ) → i < n → is_gone i ≡ false)
    (some_worker : 0 < n) (room : total + 1 < 2 ^ 64) where
  pub least : IsLeast 0 p.pressure
  least = nonempty p.pressure (omega (arith, b.sized))
    where
      nonempty : (cs : List ℕ) → 0 < length cs → IsLeast 0 cs
      nonempty [] h = absurd (omega arith)
      nonempty (c ∷ cs) h = min_by_key-IsLeast 0 c cs

  chosen : least_worker p.pressure ≡ least.place
  unfolding least_worker
  chosen = rw (least_worker, least.found) (omega arith)

  pub in_range : least.place < n
  in_range = omega (arith, get-lt p.pressure least.place least.count least.there, b.sized)

  counted : (least.count + 1) % 18446744073709551616 ≡ least.count + 1
  counted = omega (arith, get-le-sum p.pressure least.place least.count least.there, b.together)

  -- The pool after the spawn.
  pub fuller : List Job → Pool Job
  fuller jobs = record {
    map = Dict.insert ℕ_discrete least.place (jobs ++ job ∷ []) p.map;
    pressure = set p.pressure least.place (least.count + 1);
    capacity = p.capacity;
  }

  pub fuller-capacity : (jobs : List Job) → (fuller jobs).capacity ≡ p.capacity
  unfolding fuller
  fuller-capacity jobs = refl

  pub answer : List Job → Sent
  answer jobs = if ltb (length jobs) p.capacity then sent else waits

  pub spawned :
      (jobs : List Job)
      → Dict.lookup ℕ_discrete least.place p.map ≡ some jobs
      → spawn is_gone p job ≡ (fuller jobs, ok (answer jobs))
  unfolding spawn spawn_to fuller answer
  spawned jobs e =
      ap (λ j. spawn_to is_gone j p job) chosen
      ∙ rw (least.there, spawn_to)
          (send_job-sent is_gone least.place _ job jobs e (present least.place in_range)
            ∙ ap
                (λ c. (
                  record (fuller jobs) { pressure = set p.pressure least.place c },
                  ok (answer jobs),
                ))
                counted)

  pub fuller-IsBalanced :
      (jobs : List Job)
      → get p.pressure least.place ≡ some (length jobs)
      → (next_low : ℕ) × IsBalanced (fuller jobs) n (total + 1) next_low
  unfolding fuller IsFilled
  fuller-IsBalanced jobs filled =
      let (next_low, bounds) = next_bounds in
      let same : least.count ≡ length jobs = let there = least.there in ground arith in
      (
        next_low,
        record {
          sized = length-set p.pressure least.place (least.count + 1) ∙ b.sized;
          connected = λ i h.
              IsFilled-insert p.map p.pressure (set p.pressure least.place (least.count + 1)) i
                least.place (jobs ++ job ∷ [])
                (get-set_self p.pressure least.place least.count (least.count + 1) least.there
                  ∙ ap some (omega (arith, same, length-append jobs (job ∷ []))))
                (λ d. get-set_ne p.pressure i least.place (least.count + 1) d)
                (λ d. b.connected i h);
          bounds = bounds;
          together = omega (
            arith,
            sum-set p.pressure least.place least.count (least.count + 1) least.there,
            b.together,
          );
        },
      )
    where
      own : (low ≤ least.count) × (least.count ≤ low + 1)
      own =
          get-All (λ c. (low ≤ c) × (c ≤ low + 1)) p.pressure least.place least.count least.there
            b.bounds

      next_bounds :
          (k : ℕ) × All (λ c. (k ≤ c) × (c ≤ k + 1)) (set p.pressure least.place (least.count + 1))
      next_bounds = (
        least.count,
        All-set (λ c. (least.count ≤ c) × (c ≤ least.count + 1)) p.pressure least.place
            (least.count + 1) (omega arith, omega arith)
            (All-both p.pressure
              (λ c l h. (l, let at_most = h.1 in let from_low = own.0 in omega arith)) least.least
              b.bounds),
      )

  own_bounds : (low ≤ least.count) × (least.count ≤ low + 1)
  own_bounds =
      get-All (λ c. (low ≤ c) × (c ≤ low + 1)) p.pressure least.place least.count least.there
        b.bounds

  -- The least full channel has room as long as there is room at all.
  room_left : least.count < p.capacity → total < times n p.capacity
  room_left h =
      let from_low = own_bounds.0 in
      let upper =
        All-both {R = λ c. c ≤ least.count + 1} p.pressure (λ c l u. let most = l.1 in omega arith)
          b.bounds b.bounds in
      let below =
        sum-lt-times p.pressure (least.count + 1) least.place least.count upper least.there
          (omega arith) in
      let at = subst (λ k. sum p.pressure < times k (least.count + 1)) b.sized below in
      omega (arith, times_mono n (least.count + 1) p.capacity (omega arith), b.together)

  room_least : total < times n p.capacity → least.count < p.capacity
  room_least h = elim (dec_lt least.count p.capacity) [
    | yes l ↦ l
    | no l ↦
        let all = times-le-sum p.pressure least.count least.least in
        let at = subst (λ k. times k least.count ≤ sum p.pressure) b.sized all in
        absurd (omega (arith, times_mono n p.capacity least.count (omega arith), b.together))
  ]

  pub answer-first_sent :
      (jobs : List Job)
      → get p.pressure least.place ≡ some (length jobs)
      → answer jobs ≡ (if ltb total (times n p.capacity) then sent else waits)
  unfolding answer
  answer-first_sent jobs filled =
      let same : least.count ≡ length jobs = let there = least.there in ground arith in
      elim (dec_lt total (times n p.capacity)) [
        | yes l ↦ let r = room_least l in ground arith
        | no l ↦ elim (dec_lt least.count p.capacity) [
          | yes r ↦ absurd (l (room_left r))
          | no r ↦ ground arith
        ]
      ]
