-- ===== src/Errors/Codes.antt =====
-- The numbers of the error codes, and their bytes in a response.
use rust_data_broker.Prelude.{ℕ, ◌<◌, ◌≡◌, refl, ap, ◌∙◌, some, length, arith}
use rust_data_broker.Bytes.{from_be_bytes, from_be_bytes-to_be_bytes, length-to_be_bytes}
use rust_data_broker.Errors.{ErrorCode, as_u16, from_u16, to_payload, unknown_request_type}

from_u16-as_u16 : (e : ErrorCode) → from_u16 (as_u16 e) ≡ some e
unfolding from_u16 as_u16
from_u16-as_u16 unknown_request_type = refl
from_u16-as_u16 _ = refl

as_u16-lt : (e : ErrorCode) → as_u16 e < 400
unfolding as_u16
as_u16-lt unknown_request_type = omega arith
as_u16-lt _ = omega arith

-- A client that reads the two bytes of a Failed response as a big-endian number gets the error code
-- that the server sent.
pub from_u16-to_payload :
    (e : ErrorCode)
    → (length (to_payload e) ≡ 2) × (from_u16 (from_be_bytes (to_payload e)) ≡ some e)
unfolding to_payload
from_u16-to_payload e = (
  length-to_be_bytes 2 (as_u16 e),
  ap from_u16 (from_be_bytes-to_be_bytes 2 (as_u16 e) (omega (arith, as_u16-lt e)))
      ∙ from_u16-as_u16 e,
)

as_u16-from_u16 : (v : ℕ) (e : ErrorCode) → from_u16 v ≡ some e → as_u16 e ≡ v
unfolding from_u16 as_u16
as_u16-from_u16 v e h = ground arith
