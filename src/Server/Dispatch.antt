-- ===== src/Server/Dispatch.antt =====
-- net/server.rs: the `match` on the command in `read_buffer`.
use rust_data_broker.Prelude.{ℕ, Bool}
use rust_data_broker.Queue.Sizes.{Capacities}
use rust_data_broker.Server.Wire.{
  Request, enqueue, dequeue, create_q, delete_q, list_m, delete_m, requeue, update_m, update_q,
  net_stats,
}
use rust_data_broker.Server.Frame.{Frame}
use rust_data_broker.Server.State.{Server}
use rust_data_broker.Server.Handlers.{
  Handled, handle_enqueue, handle_dequeue, handle_create_q, handle_delete_q, handle_list_m,
  handle_delete_m, handle_succeeded, handle_failed,
}
use rust_data_broker.Server.Updates.{
  handle_requeue, handle_update_m, handle_update_q, handle_net_stats,
}

-- What a task takes from its surroundings: the time of the clock, a new uuid, the capacities of the
-- collections of each queue, the counter of the memory in use, which all allocations in the arena
-- move, and whether the socket takes the answer of a Dequeue.
pub record Surroundings : Type 0 where
  pub now : ℕ
  pub new_hash : ℕ
  pub capacities : ℕ → Capacities
  pub used : ℕ
  pub is_written : Bool

-- The server with that counter.
abbrev pub observed : Server → Surroundings → Server
observed s e = record s { memory = record s.memory { used = e.used } }

unfoldable pub run_command : Request → Server → Frame → Surroundings → Handled
run_command enqueue s f e = handle_enqueue s f.queue_name f.client_id f.payload_size f.payload e.now
run_command dequeue s f e = handle_dequeue s f.queue_name f.client_id e.is_written
run_command create_q s f e = handle_create_q s f.queue_name e.new_hash
run_command delete_q s f e = handle_delete_q s f.queue_name
run_command list_m s f e = handle_list_m s f.queue_name
run_command delete_m s f e = handle_delete_m s f.queue_name f.client_id f.payload_size f.payload
run_command Request.succeeded s f e = handle_succeeded s f.queue_name f.client_id
run_command Request.failed s f e = handle_failed s f.queue_name f.client_id
run_command requeue s f e = handle_requeue s f.queue_name f.client_id f.payload_size f.payload e.now
run_command update_m s f e = handle_update_m s f.queue_name f.payload_size f.payload
run_command update_q s f e = handle_update_q s f.queue_name f.payload_size f.payload
run_command net_stats s f e = handle_net_stats s e.capacities

unfoldable pub handle_frame : Server → Frame → Surroundings → Handled
unfolding run_command
handle_frame s f e = run_command f.command (observed s e) f e
