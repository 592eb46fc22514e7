-- ===== src/Server/Wire.antt =====
-- net/server.rs: `Request`, `Response` and `ResponseMessage`.
pub mod RoundTrip
use rust_data_broker.Prelude.{ℕ, Option, none, some, List, ◌∷◌, ◌++◌, ◌==◌, if◌then◌else◌, length}
use rust_data_broker.Bytes.{to_be_bytes}

pub data Request : Type 0 where
  enqueue : Request
  dequeue : Request
  create_q : Request
  delete_q : Request
  list_m : Request
  delete_m : Request
  succeeded : Request
  failed : Request
  requeue : Request
  update_m : Request
  update_q : Request
  net_stats : Request

pub data Response : Type 0 where
  succeeded : Response
  failed : Response

-- The discriminants of the two enums.
unfoldable pub request_as_u8 : Request → ℕ
request_as_u8 enqueue = 1
request_as_u8 dequeue = 2
request_as_u8 create_q = 3
request_as_u8 delete_q = 4
request_as_u8 list_m = 5
request_as_u8 delete_m = 6
request_as_u8 Request.succeeded = 7
request_as_u8 Request.failed = 8
request_as_u8 requeue = 9
request_as_u8 update_m = 10
request_as_u8 update_q = 11
request_as_u8 net_stats = 12

unfoldable pub request_from_u8 : ℕ → Option Request
request_from_u8 v =
    if v == 1
    then some enqueue
    else if v == 2
    then some dequeue
    else if v == 3
    then some create_q
    else if v == 4
    then some delete_q
    else if v == 5
    then some list_m
    else if v == 6
    then some delete_m
    else if v == 7
    then some Request.succeeded
    else if v == 8
    then some Request.failed
    else if v == 9
    then some requeue
    else if v == 10
    then some update_m
    else if v == 11
    then some update_q
    else if v == 12
    then some net_stats
    else none

unfoldable pub response_as_u8 : Response → ℕ
response_as_u8 Response.succeeded = 1
response_as_u8 Response.failed = 2

unfoldable pub response_from_u8 : ℕ → Option Response
response_from_u8 v =
    if v == 1 then some Response.succeeded else if v == 2 then some Response.failed else none

pub record ResponseMessage : Type 0 where
  pub status : Response
  pub payload_size : ℕ
  pub payload : List ℕ

unfoldable pub new_response : Response → List ℕ → ResponseMessage
new_response status payload = record {
  status = status;
  payload_size = length payload;
  payload = payload;
}

unfoldable pub response_to_u8 : ResponseMessage → List ℕ
unfolding response_as_u8
response_to_u8 r = response_as_u8 r.status ∷ (to_be_bytes 8 r.payload_size ++ r.payload)
