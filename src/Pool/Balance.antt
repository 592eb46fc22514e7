-- ===== src/Pool/Balance.antt =====
-- net/server.rs: `spawn` spreads the jobs over the workers.
use rust_data_broker.Prelude.{ltb, if◌then◌else◌, ℕ, ◌+◌, Bool, List, [], ◌∷◌, Outcome, ok, ◌>>=◌}
use rust_data_broker.Pool.{Pool, SpawnError, Sent, sent, waits, spawn}

-- Every spawn of a list of jobs is without an error, and gives this pool, each with whether its send
-- is done at once.
unfoldable pub spawn_all :
    {Job : Type 0}
    → (is_gone : ℕ → Bool) → Pool Job
    → List Job
    → Outcome SpawnError (Pool Job × List Sent)
unfolding spawn
spawn_all is_gone p [] = ok (p, [])
spawn_all is_gone p (job ∷ jobs) = do
  answer ← (spawn is_gone p job).1
  rest ← spawn_all is_gone (spawn is_gone p job).0 jobs
  ok (rest.0, answer ∷ rest.1)

-- The description: with `total` jobs before these, the sends are done while there is room.
unfoldable pub first_sent : {Job : Type 0} → ℕ → ℕ → List Job → List Sent
first_sent room total [] = []
first_sent room total (job ∷ jobs) =
    (if ltb total room then sent else waits) ∷ first_sent room (total + 1) jobs
