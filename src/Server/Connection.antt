-- ===== src/Server/Connection.antt =====
-- net/server.rs: `read_buffer`, as what a connection reads, one event of its `select` after the
-- other, and the requests that it starts a task for.
pub mod Resume
pub mod Chunks
use rust_data_broker.Prelude.{ℕ, suc, Option, none, some, List, [], ◌∷◌, ◌++◌, length}
use rust_data_broker.Errors.{ErrorCode}
use rust_data_broker.Server.Frame.{Frame, Batch, read_frames}

-- Bytes, with what `get_free_mem_size` gives while they are split, none at the end of the stream; an
-- error of the socket; the notification of `stop_word`.
pub data Event : Type 0 where
  receives : (free : ℕ) (bytes : List ℕ) → Event
  fails : Event
  stops : Event

-- Whether the loop goes on, or how it ended.
pub data Ending : Type 0 where
  reading : Ending
  closed : Ending
  stopped : Ending
  broken : Ending
  given_up : ErrorCode → Ending

-- What comes behind a batch of requests.
unfoldable pub after_batch : Batch → List Frame × Ending → List Frame × Ending
after_batch batch later = elim batch.failure [
  | some code ↦ (batch.frames, given_up code)
  | none ↦ (batch.frames ++ later.0, later.1)
]

unfoldable pub read_buffer : List ℕ → List Event → List Frame × Ending
unfolding after_batch
read_buffer buffer [] = ([], reading)
read_buffer buffer (fails ∷ events) = ([], broken)
read_buffer buffer (stops ∷ events) = ([], stopped)
read_buffer buffer (receives free [] ∷ events) = ([], closed)
read_buffer buffer (receives free (b ∷ bytes) ∷ events) =
    let batch = read_frames (suc (length (buffer ++ b ∷ bytes))) free (buffer ++ b ∷ bytes) in
    after_batch batch (read_buffer batch.rest events)
