-- ===== src/Server/Refusals/Requests.antt =====
-- net/server.rs: the failures of each request.
use rust_data_broker.Prelude.{◌⊎◌, true, ◌≡◌}
use rust_data_broker.Errors.{ErrorCode}
use rust_data_broker.Errors
use rust_data_broker.Queue.State.{Queue}
use rust_data_broker.Queue.Ops
use rust_data_broker.Server.Wire.{Request}
use rust_data_broker.Server.Frame.{Frame}
use rust_data_broker.Server.State.{Server}
use rust_data_broker.Server.Dispatch.{Surroundings, run_command}
use rust_data_broker.Server.Refusals.{Why, Unwritten}

-- What the theorem below says of one request.
abbrev Told : Request → Server → Frame → Surroundings → ErrorCode → Type 0
Told r s f e code =
    (((run_command r s f e).0 ≡ s) × Why r s f e code)
    ⊎ Unwritten f e code (run_command r s f e) (run_command r s f (record e { is_written = true }))
