-- ===== src/Server/Frame.antt =====
-- net/server.rs: how `read_buffer` splits what a connection has sent into requests.
pub mod RoundTrip
pub mod Fuel
pub mod Names
use rust_data_broker.Prelude.{
  ℕ, zero, suc, ◌+◌, ◌*◌, ◌/◌, Bool, true, false, ◌&&◌, ◌||◌, Option, none, some, List, [], ◌∷◌,
  ◌==◌, leb, ltb, if◌then◌else◌, is_empty, get_or, take, drop, length,
}
use rust_data_broker.Bytes.{from_be_bytes}
use rust_data_broker.Errors.{ErrorCode, unknown_request_type, payload_too_large}
use rust_data_broker.Server.Wire.{Request, request_from_u8}

-- COMMAND_SIZE, CLIENT_ID_SIZE, PAYLOAD_SIZE and QUEUE_NAME_SIZE are 1, 16, 8 and 64.
abbrev pub header_size : ℕ
header_size = 25

abbrev pub frame_size : ℕ
frame_size = 89

abbrev pub max_payload_size : ℕ
max_payload_size = 4294967296

-- `(size as f64 * SIZE_FACTOR) as usize`, which is exact for the sizes up to MAX_PAYLOAD_SIZE.
unfoldable pub size_factor : ℕ → ℕ
size_factor size = size * 9 / 4

-- `String::from_utf8`: the continuation bytes that a first byte asks for, and the bounds of the next.
unfoldable pub utf8_lead : ℕ → Option (ℕ × ℕ × ℕ)
utf8_lead b =
    if ltb b 0x80
    then some (0, 0x80, 0xbf)
    else if ltb b 0xc2
    then none
    else if ltb b 0xe0
    then some (1, 0x80, 0xbf)
    else if b == 0xe0
    then some (2, 0xa0, 0xbf)
    else if b == 0xed
    then some (2, 0x80, 0x9f)
    else if ltb b 0xf0
    then some (2, 0x80, 0xbf)
    else if b == 0xf0
    then some (3, 0x90, 0xbf)
    else if ltb b 0xf4
    then some (3, 0x80, 0xbf)
    else if b == 0xf4
    then some (3, 0x80, 0x8f)
    else none

unfoldable pub utf8_from : ℕ → ℕ → ℕ → List ℕ → Bool
unfolding utf8_lead
utf8_from zero lo hi [] = true
utf8_from (suc k) lo hi [] = false
utf8_from zero lo hi (b ∷ bs) = elim (utf8_lead b) [
  | none ↦ false
  | some (k, lo', hi') ↦ utf8_from k lo' hi' bs
]
utf8_from (suc k) lo hi (b ∷ bs) = (leb lo b && leb b hi) && utf8_from k 0x80 0xbf bs

unfoldable pub is_utf8 : List ℕ → Bool
unfolding utf8_from
is_utf8 bytes = utf8_from 0 0x80 0xbf bytes

-- `trim_end_matches('\0')`
unfoldable pub trim_end : List ℕ → List ℕ
trim_end [] = []
trim_end (b ∷ bs) = let rest = trim_end bs in if is_empty rest && (b == 0) then [] else b ∷ rest

-- A name that is not UTF-8 is taken for the empty one.
unfoldable pub queue_name_of : List ℕ → List ℕ
unfolding is_utf8 trim_end
queue_name_of bytes = if is_utf8 bytes then trim_end bytes else []

pub record Frame : Type 0 where
  pub command : Request
  pub client_id : ℕ
  pub payload_size : ℕ
  pub queue_name : List ℕ
  pub payload : List ℕ

-- One round of the inner loop: the buffer is too short, the connection is given up with an error, or
-- a request is split off.
pub data Round : Type 0 where
  incomplete : Round
  rejected : ErrorCode → Round
  request : Frame → (rest : List ℕ) → Round

unfoldable pub split_frame : Request → ℕ → ℕ → List ℕ → Round
unfolding queue_name_of
split_frame command client_id payload_size buffer =
    if ltb (length buffer) (payload_size + frame_size)
    then incomplete
    else request
        (record {
          command = command;
          client_id = client_id;
          payload_size = payload_size;
          queue_name = queue_name_of (take 64 (drop header_size buffer));
          payload = take payload_size (drop frame_size buffer);
        })
        (drop (frame_size + payload_size) buffer)

unfoldable pub client_id_of : List ℕ → ℕ
client_id_of buffer = from_be_bytes (take 16 (drop 1 buffer))

unfoldable pub payload_size_of : List ℕ → ℕ
payload_size_of buffer = from_be_bytes (take 8 (drop 17 buffer))

-- `free` is what `get_free_mem_size` gives.
unfoldable pub is_too_large : ℕ → ℕ → Bool
unfolding size_factor
is_too_large free payload_size =
    ltb max_payload_size payload_size || leb free (size_factor payload_size)

unfoldable pub read_frame : ℕ → List ℕ → Round
unfolding client_id_of payload_size_of is_too_large split_frame
read_frame free buffer =
    if ltb (length buffer) header_size
    then incomplete
    else elim (request_from_u8 (get_or buffer 0 0)) [
      | none ↦ rejected unknown_request_type
      | some command ↦
          if is_too_large free (payload_size_of buffer)
          then rejected payload_too_large
          else split_frame command (client_id_of buffer) (payload_size_of buffer) buffer
    ]

-- What the inner loop leaves: the requests in their order, the bytes that stay in the buffer, and
-- the error with which the connection ends, if any.
pub record Batch : Type 0 where
  pub frames : List Frame
  pub rest : List ℕ
  pub failure : Option ErrorCode

unfoldable pub read_frames : ℕ → ℕ → List ℕ → Batch
read_frames zero free buffer = record { frames = []; rest = buffer; failure = none }
read_frames (suc fuel) free buffer = elim (read_frame free buffer) [
  | incomplete ↦ record { frames = []; rest = buffer; failure = none }
  | rejected code ↦ record { frames = []; rest = buffer; failure = some code }
  | request frame rest ↦
      let batch = read_frames fuel free rest in record batch { frames = frame ∷ batch.frames }
]
