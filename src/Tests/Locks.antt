-- ===== src/Tests/Locks.antt =====
-- Tasks that wait for each other's locks.
use rust_data_broker.Prelude.{
  ℕ, zero, suc, ◌<◌, ◌≡◌, ◌≢◌, refl, true, false, some, List, [], ◌∷◌, arith, Bool, ◌&&◌, ltb,
}
use native.Mathlib.Decide.{ℕ_discrete}
use rust_data_broker.Server.Wire.{Request}
use rust_data_broker.Server.Locks.{
  Plan, Job, request, program, job_actions, actions_of, on_queue, under_queues, send, write_both,
  guarded,
}
use rust_data_broker.Server.Locks.Order.{steady, jobs_fit, job_fits, fits, is_shared}
use rust_data_broker.Server.Locks.Running.{
  Tasks, start, update, advance, can_go, all_below, in_way, same, step, Reached, here, next,
}
use rust_data_broker.Server.Locks.Progress.{SomeGoes}
use rust_data_broker.Server.Locks.Finish.{no_deadlock}

abbrev plan : Request → ℕ → Plan
plan command connection = record {
  command = command;
  connection = connection;
  parsed = true;
  named = true;
  found = some 70;
  valid = true;
  is_read = true;
  is_written = true;
  timer = true;
  hashes = 70 ∷ [];
}

-- An Enqueue and a Requeue of one queue.
abbrev two_jobs : ℕ → List Job
two_jobs zero = request (plan Request.enqueue 1) ∷ []
two_jobs (suc i) = request (plan Request.requeue 2) ∷ []

abbrev run : Tasks → List ℕ → Tasks
run f [] = f
run f (i ∷ schedule) = run (update f i (advance (f i).held (f i).todo)) schedule

abbrev can_run : ℕ → Tasks → List ℕ → Bool
can_run n f [] = true
can_run n f (i ∷ schedule) =
    ltb i n
    && (can_go n f (f i).todo && can_run n (update f i (advance (f i).held (f i).todo)) schedule)

run-Reached :
    (n : ℕ) (first : Tasks) (schedule : List ℕ) (f : Tasks)
    → Reached n first f
    → can_run n f schedule ≡ true
    → Reached n first (run f schedule)
run-Reached n first [] f r h = r
run-Reached n first (i ∷ schedule) f r h =
    run-Reached n first schedule (update f i (advance (f i).held (f i).todo))
      (next r (step i (ground arith) (ground arith))) (ground arith)

-- Both have found the queue, and the first one has locked it.
abbrev schedule : List ℕ
schedule = 0 ∷ 1 ∷ 0 ∷ 0 ∷ 0 ∷ []

two_jobs-fit : (i : ℕ) → i < 2 → jobs_fit steady (two_jobs i) ≡ true
unfolding jobs_fit job_fits fits
two_jobs-fit zero below = refl
two_jobs-fit (suc i) below = refl

two_jobs-can_run : can_run 2 (start two_jobs) schedule ≡ true
unfolding start can_go advance update job_actions actions_of program on_queue guarded under_queues
    send all_below in_way same is_shared ℕ_discrete
two_jobs-can_run = refl

second_unfinished : (run (start two_jobs) schedule 1).todo ≢ []
unfolding start advance update job_actions actions_of program guarded on_queue under_queues send
    ℕ_discrete
second_unfinished = λ e. cc

no_deadlock_example : SomeGoes 2 (run (start two_jobs) schedule)
no_deadlock_example =
    no_deadlock steady 2 two_jobs two_jobs-fit (run (start two_jobs) schedule)
      (run-Reached 2 (start two_jobs) schedule (start two_jobs) here two_jobs-can_run) 1
      (omega arith) second_unfinished

-- An Enqueue and a CreateQ: the first has the lock of the queues and asks for that of the names, the
-- second has that of the names and asks for that of the queues.
abbrev mixed_jobs : ℕ → List Job
mixed_jobs zero = request (plan Request.enqueue 1) ∷ []
mixed_jobs (suc i) = request (plan Request.create_q 2) ∷ []

mixed_jobs-can_run : can_run 2 (start mixed_jobs) (0 ∷ 1 ∷ []) ≡ true
unfolding start can_go advance update job_actions actions_of program on_queue write_both
    under_queues send all_below in_way same is_shared ℕ_discrete
mixed_jobs-can_run = refl

mixed_jobs_wait :
    (can_go 2 (run (start mixed_jobs) (0 ∷ 1 ∷ [])) (run (start mixed_jobs) (0 ∷ 1 ∷ []) 0).todo
      ≡ false)
    × (can_go 2 (run (start mixed_jobs) (0 ∷ 1 ∷ [])) (run (start mixed_jobs) (0 ∷ 1 ∷ []) 1).todo
        ≡ false)
unfolding start can_go advance update job_actions actions_of program on_queue write_both
    under_queues send all_below in_way same is_shared ℕ_discrete
mixed_jobs_wait = (refl, refl)
