-- ===== src/Pool.antt =====
-- net/server.rs: `Pool`. A channel holds as many jobs as its capacity, and a `send` to a full one
-- waits until the worker has received as many jobs as stand in its way. The list of a worker has the
-- jobs in its channel, the oldest first, and behind them those whose send waits, in their order. That
-- a worker is gone is an argument.
pub mod Least
pub mod Room
pub mod Balance
use native.Mathlib.Decide.{ℕ_discrete}
use rust_data_broker.Prelude.{
  ℕ, zero, suc, ◌+◌, Bool, Option, none, some, List, [], ◌∷◌, ◌++◌, leb, ltb, length, if◌then◌else◌,
  set, Outcome, ok, err, panic,
}
use rust_data_broker.Dict
use rust_data_broker.Dict.{Dict}
use rust_data_broker.Memory.Alloc.{fetch_add, fetch_sub}

pub record Pool (Job : Type 0) : Type 0 where
  pub map : Dict ℕ (List Job)
  pub pressure : List ℕ
  pub capacity : ℕ

-- Whether a send is done at once.
pub data Sent : Type 0 where
  sent : Sent
  waits : Sent

pub data SpawnError : Type 0 where
  broken_pipe : SpawnError
  other : SpawnError

-- The loop of `new`, from `worker_id` on, with `workers` more to come.
unfoldable pub add_workers : {Job : Type 0} → ℕ → ℕ → Pool Job → Pool Job
add_workers worker_id zero p = p
add_workers worker_id (suc workers) p =
    add_workers (worker_id + 1) workers (record p {
      map = Dict.insert ℕ_discrete worker_id [] p.map;
      pressure = p.pressure ++ 0 ∷ [];
    })

unfoldable pub new_pool : {Job : Type 0} → ℕ → ℕ → Pool Job
unfolding add_workers
new_pool workers queue_capacity =
    add_workers 0 workers (record { map = []; pressure = []; capacity = queue_capacity })

-- `min_by_key` of the counters, numbered from `id` on: the first that is least.
unfoldable pub min_by_key : ℕ → List ℕ → Option (ℕ × ℕ)
min_by_key id [] = none
min_by_key id (c ∷ counters) = elim (min_by_key (id + 1) counters) [
  | none ↦ some (id, c)
  | some (later, d) ↦ if leb c d then some (id, c) else some (later, d)
]

unfoldable pub least_worker : List ℕ → ℕ
unfolding min_by_key
least_worker pressure = elim (min_by_key 0 pressure) [ none ↦ 0 | some (id, c) ↦ id ]

abbrev pub get : List ℕ → ℕ → Option ℕ
get [] i = none
get (c ∷ cs) zero = some c
get (c ∷ cs) (suc i) = get cs i

-- The send of a job to a worker whose counter is up already.
unfoldable pub send_job :
    {Job : Type 0}
    → (is_gone : ℕ → Bool) (worker_id : ℕ) → Pool Job
    → Job
    → Pool Job × Outcome SpawnError Sent
send_job is_gone worker_id p job = elim (Dict.lookup ℕ_discrete worker_id p.map) [
  | none ↦ elim (get p.pressure worker_id) [
    | none ↦ (p, panic)
    | some c ↦ (record p { pressure = set p.pressure worker_id (fetch_sub c 1) }, err broken_pipe)
  ]
  | some jobs ↦ if is_gone worker_id then (p, err other) else (
    record p { map = Dict.insert ℕ_discrete worker_id (jobs ++ job ∷ []) p.map },
    ok (if ltb (length jobs) p.capacity then sent else waits),
  )
]

-- The counter of the worker goes up before the send.
unfoldable pub spawn_to :
    {Job : Type 0}
    → (is_gone : ℕ → Bool) (worker_id : ℕ) → Pool Job
    → Job
    → Pool Job × Outcome SpawnError Sent
unfolding send_job
spawn_to is_gone worker_id p job = elim (get p.pressure worker_id) [
  | none ↦ (p, panic)
  | some c ↦
      send_job is_gone worker_id (record p { pressure = set p.pressure worker_id (fetch_add c 1) })
        job
]

unfoldable pub spawn :
    {Job : Type 0} → (is_gone : ℕ → Bool) → Pool Job → Job → Pool Job × Outcome SpawnError Sent
unfolding least_worker spawn_to
spawn is_gone p job = spawn_to is_gone (least_worker p.pressure) p job

-- A worker takes a job from its channel; the first send that waits, if any, then has its room.
unfoldable pub receive : {Job : Type 0} → ℕ → Pool Job → Option (Pool Job × Job)
receive worker_id p = elim (Dict.lookup ℕ_discrete worker_id p.map) [
  | none ↦ none
  | some [] ↦ none
  | some (job ∷ jobs) ↦ some (record p { map = Dict.insert ℕ_discrete worker_id jobs p.map }, job)
]

-- And is done with it.
unfoldable pub finish_job : {Job : Type 0} → ℕ → Pool Job → Pool Job
finish_job worker_id p = elim (get p.pressure worker_id) [
  | none ↦ p
  | some c ↦ record p { pressure = set p.pressure worker_id (fetch_sub c 1) }
]
