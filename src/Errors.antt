-- ===== src/Errors.antt =====
-- errors.rs: the codes of a Failed response.
pub mod Codes
use Prim.Native.String.{String}
use rust_data_broker.Prelude.{ℕ, Option, none, some, List, ◌==◌, if◌then◌else◌}
use rust_data_broker.Bytes.{to_be_bytes}

pub data ErrorCode : Type 0 where
  unknown_request_type : ErrorCode
  request_parse_error : ErrorCode
  response_failed_error : ErrorCode
  payload_too_large : ErrorCode
  queue_hash_not_found : ErrorCode
  queue_not_found : ErrorCode
  queue_already_exists : ErrorCode
  queue_does_not_exist : ErrorCode
  queue_is_empty : ErrorCode
  queue_stats_failed : ErrorCode
  payload_missing_message_id : ErrorCode
  no_such_message_id : ErrorCode
  message_already_locked : ErrorCode
  no_such_message_id_locked : ErrorCode
  message_not_locked_by_client : ErrorCode
  message_not_in_queue : ErrorCode
  invalid_config_payload_size : ErrorCode
  config_bytes_empty : ErrorCode
  config_invalid_auto_fail : ErrorCode
  config_invalid_fail_timeout : ErrorCode

unfoldable pub as_u16 : ErrorCode → ℕ
as_u16 unknown_request_type = 0
as_u16 request_parse_error = 1
as_u16 response_failed_error = 2
as_u16 payload_too_large = 3
as_u16 queue_hash_not_found = 100
as_u16 queue_not_found = 101
as_u16 queue_already_exists = 102
as_u16 queue_does_not_exist = 103
as_u16 queue_is_empty = 104
as_u16 queue_stats_failed = 105
as_u16 payload_missing_message_id = 200
as_u16 no_such_message_id = 201
as_u16 message_already_locked = 202
as_u16 no_such_message_id_locked = 203
as_u16 message_not_locked_by_client = 204
as_u16 message_not_in_queue = 205
as_u16 invalid_config_payload_size = 300
as_u16 config_bytes_empty = 301
as_u16 config_invalid_auto_fail = 302
as_u16 config_invalid_fail_timeout = 303

unfoldable pub to_payload : ErrorCode → List ℕ
to_payload e = to_be_bytes 2 (as_u16 e)

unfoldable pub from_u16 : ℕ → Option ErrorCode
from_u16 v =
    if v == 0
    then some unknown_request_type
    else if v == 1
    then some request_parse_error
    else if v == 2
    then some response_failed_error
    else if v == 3
    then some payload_too_large
    else if v == 100
    then some queue_hash_not_found
    else if v == 101
    then some queue_not_found
    else if v == 102
    then some queue_already_exists
    else if v == 103
    then some queue_does_not_exist
    else if v == 104
    then some queue_is_empty
    else if v == 105
    then some queue_stats_failed
    else if v == 200
    then some payload_missing_message_id
    else if v == 201
    then some no_such_message_id
    else if v == 202
    then some message_already_locked
    else if v == 203
    then some no_such_message_id_locked
    else if v == 204
    then some message_not_locked_by_client
    else if v == 205
    then some message_not_in_queue
    else if v == 300
    then some invalid_config_payload_size
    else if v == 301
    then some config_bytes_empty
    else if v == 302
    then some config_invalid_auto_fail
    else if v == 303
    then some config_invalid_fail_timeout
    else none

-- The text that `Display` writes.
unfoldable pub fmt : ErrorCode → String
fmt unknown_request_type = "Unknown request type"
fmt request_parse_error = "Failed to parse request message"
fmt response_failed_error = "Failed to send response"
fmt payload_too_large = "Payload exceeds maximum size"
fmt queue_hash_not_found = "Hash not found"
fmt queue_not_found = "Queue not found"
fmt queue_already_exists = "Queue already created"
fmt queue_does_not_exist = "Queue does not exist"
fmt queue_is_empty = "Queue is empty"
fmt queue_stats_failed = "Statistics failed"
fmt payload_missing_message_id = "Payload doesn't contain message_id"
fmt no_such_message_id = "No such message id"
fmt message_already_locked = "Queue message already locked"
fmt no_such_message_id_locked = "No such message id locked"
fmt message_not_locked_by_client = "Queue message is not locked by client"
fmt message_not_in_queue = "Message is not in queue"
fmt invalid_config_payload_size = "Invalid config payload size"
fmt config_bytes_empty = "Empty bytes"
fmt config_invalid_auto_fail = "Invalid bytes auto_success"
fmt config_invalid_fail_timeout = "Invalid bytes success_timeout"
