-- ===== src/Tests/Servers.antt =====
-- Requests at concrete servers.
use native.Mathlib.Decide.{ℕ_discrete}
use rust_data_broker.Prelude.{◌≡◌, refl, [], ◌∷◌, arith}
use rust_data_broker.Dict
use rust_data_broker.Server.Frame.{read_frames, size_factor}
use rust_data_broker.Server.Frame.RoundTrip.{frame_of}
use rust_data_broker.Server.State.{Server, new_server, create_queues, get_queue, Name-discrete}
use rust_data_broker.Server.Handlers.{auto_unlock, handle_enqueue}
use rust_data_broker.Server.Dispatch.{handle_frame, run_command}
use rust_data_broker.Server.Invariant.{IsConsistent}
use rust_data_broker.Server.Run.{Reach, here, next, request, timer, Reach-IsConsistent}
use rust_data_broker.Server.Frame.{Frame}
use rust_data_broker.Prelude.{ap, get_or}
use rust_data_broker.Server.Frame.{queue_name_of}
use rust_data_broker.Server.Isolation.{handle_frame-get_queue}
use rust_data_broker.Tests.Base.{
  publication, reading, memory, started, surroundings, after_publication, after_reading,
}

reached : Reach started (auto_unlock after_reading 70 5 1)
unfolding create_queues new_server Name-discrete ℕ_discrete Dict.lookup Dict.insert handle_frame
    run_command handle_enqueue get_queue rust_data_broker.Server.Frame.queue_name_of
reached =
    next
      (next (next here (request started (frame_of publication) surroundings refl))
        (request after_publication (frame_of reading) surroundings refl))
      (timer after_reading 70 5 1)

Reach-IsConsistent_example : IsConsistent (auto_unlock after_reading 70 5 1)
unfolding new_server Dict.lookup
Reach-IsConsistent_example =
    Reach-IsConsistent memory ((97 ∷ [], 70) ∷ []) (auto_unlock after_reading 70 5 1) (refl, tt)
      reached

-- A second queue, "b".
abbrev with_b : Server
with_b = create_queues (new_server memory) ((97 ∷ [], 70) ∷ (98 ∷ [], 72) ∷ [])

with_b-IsConsistent : IsConsistent with_b
unfolding new_server create_queues Dict.lookup Dict.insert ℕ_discrete
with_b-IsConsistent =
    Reach-IsConsistent memory ((97 ∷ [], 70) ∷ (98 ∷ [], 72) ∷ []) with_b (refl, (refl, tt)) here

handle_frame-get_queue_example :
    get_queue (handle_frame with_b (frame_of publication) surroundings).0 (98 ∷ [])
    ≡ get_queue with_b (98 ∷ [])
unfolding new_server create_queues Dict.lookup Dict.insert ℕ_discrete queue_name_of
handle_frame-get_queue_example =
    handle_frame-get_queue with_b with_b-IsConsistent (frame_of publication) surroundings (98 ∷ [])
      refl (λ e. let h : 97 ≡ 98 = ap (λ l. get_or l 0 0) e in omega arith)
