-- ===== src/Server/Wire/RoundTrip.antt =====
-- The bytes of a response, as a client reads them.
use rust_data_broker.Prelude.{ℕ, ◌<◌, ◌^◌, ◌≡◌, refl, some, List, length, drop, get_or}
use rust_data_broker.Queue.Message.Layout.{field, read_be, drop_be}
use rust_data_broker.Server.Wire.{
  Response, response_as_u8, response_from_u8, new_response, response_to_u8,
}

response_from_u8-as_u8 : (r : Response) → response_from_u8 (response_as_u8 r) ≡ some r
unfolding response_from_u8 response_as_u8
response_from_u8-as_u8 Response.succeeded = refl
response_from_u8-as_u8 Response.failed = refl

-- Of a response whose payload length is a u64, a client reads the status from the first byte and the
-- length from the eight bytes behind it, and the rest is the payload.
pub response_to_u8-new_response :
    (status : Response) (payload : List ℕ)
    → length payload < 256 ^ 8
    → let bytes = response_to_u8 (new_response status payload) in
      (response_from_u8 (get_or bytes 0 0) ≡ some status)
      × (field 1 8 bytes ≡ length payload)
      × (drop 9 bytes ≡ payload)
unfolding response_to_u8 new_response field
response_to_u8-new_response status payload h = (
  response_from_u8-as_u8 status,
  read_be 8 (length payload) payload h,
  drop_be 8 (length payload) payload,
)
