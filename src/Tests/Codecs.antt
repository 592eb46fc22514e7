-- ===== src/Tests/Codecs.antt =====
-- Encodings at concrete values.
use rust_data_broker.Prelude.{◌≡◌, refl, true, none, some, [], ◌∷◌, ◌++◌, arith, ok, length}
use rust_data_broker.Errors.{ErrorCode, to_payload, from_u16}
use rust_data_broker.Errors.Codes.{from_u16-to_payload}
use rust_data_broker.Bytes.{from_be_bytes, to_be_bytes}
use rust_data_broker.Queue.Message.{MessageMeta, meta_to_be_bytes}
use rust_data_broker.Queue.Message.Layout.{field, field-meta_to_be_bytes}
use rust_data_broker.Queue.Config.{new_net_config, net_config_to_be_bytes, net_config_from_be_bytes}
use rust_data_broker.Queue.Config.RoundTrip.{from-to_be_bytes}
use rust_data_broker.Server.Frame.{read_frame, read_frames, size_factor}
use rust_data_broker.Server.Frame.RoundTrip.{encode, encode_all, frame_of, read_frames-encode_all}
use rust_data_broker.Prelude.{◌<◌, get_or, drop}
use rust_data_broker.Server.Wire.{
  request_as_u8, Response, response_from_u8, new_response, response_to_u8,
}
use rust_data_broker.Server.Wire.RoundTrip.{response_to_u8-new_response}
use rust_data_broker.NetStats.{StatMessage}
use rust_data_broker.Server.Frame.Fuel.{last_round, read_frames-last_round}
use rust_data_broker.Server.Frame.{queue_name_of, is_utf8, utf8_from, utf8_lead}
use rust_data_broker.Server.Frame.Names.{zeroes, queue_name_of-padded}
use rust_data_broker.Tests.Base.{publication, reading}

from-to_be_bytes_example :
    net_config_from_be_bytes
      (net_config_to_be_bytes (new_net_config (some true) (some 30)) ++ 1 ∷ [])
    ≡ ok (
      new_net_config (some true) (some 30),
      length (net_config_to_be_bytes (new_net_config (some true) (some 30))),
    )
from-to_be_bytes_example = from-to_be_bytes (some true) (some 30) (1 ∷ []) (omega arith)

abbrev meta : MessageMeta
meta = record { id = 1; publisher_id = 7; timestamp = 100; locked_by = none }

field-meta_to_be_bytes_example :
    (length (meta_to_be_bytes meta) ≡ 56)
    × (field 0 16 (meta_to_be_bytes meta) ≡ 1)
    × (field 16 16 (meta_to_be_bytes meta) ≡ 7)
    × (field 32 8 (meta_to_be_bytes meta) ≡ 100)
    × (field 40 16 (meta_to_be_bytes meta) ≡ 340282366920938463463374607431768211455)
field-meta_to_be_bytes_example =
    field-meta_to_be_bytes meta (omega arith) (omega arith) (omega arith) (omega arith)

from_u16-to_payload_example :
    (length (to_payload ErrorCode.queue_not_found) ≡ 2)
    × (from_u16 (from_be_bytes (to_payload ErrorCode.queue_not_found))
        ≡ some ErrorCode.queue_not_found)
from_u16-to_payload_example = from_u16-to_payload ErrorCode.queue_not_found

read_frames-encode_all_example :
    read_frames 3 1000 (encode_all (publication ∷ reading ∷ []) ++ 1 ∷ []) ≡ record {
      frames = frame_of publication ∷ frame_of reading ∷ [];
      rest = 1 ∷ [];
      failure = none;
    }
unfolding size_factor
read_frames-encode_all_example =
    read_frames-encode_all 1000 (publication ∷ reading ∷ []) (1 ∷ []) 3
      (
        record {
          id_fits = omega arith;
          name_fits = refl;
          payload_fits = omega arith;
          memory_fits = omega arith;
        },
        (
          record {
            id_fits = omega arith;
            name_fits = refl;
            payload_fits = omega arith;
            memory_fits = omega arith;
          },
          tt,
        ),
      )
      (omega arith) (omega arith)

response_to_u8-new_response_example :
    (response_from_u8 (get_or (response_to_u8 (new_response Response.succeeded (1 ∷ 2 ∷ []))) 0 0)
      ≡ some Response.succeeded)
    × (field 1 8 (response_to_u8 (new_response Response.succeeded (1 ∷ 2 ∷ []))) ≡ 2)
    × (drop 9 (response_to_u8 (new_response Response.succeeded (1 ∷ 2 ∷ []))) ≡ 1 ∷ 2 ∷ [])
response_to_u8-new_response_example =
    response_to_u8-new_response Response.succeeded (1 ∷ 2 ∷ []) (omega arith)

-- The statistics of a queue "a" with three messages, one of them locked.
abbrev statistics : StatMessage
statistics = record {
  queue_name = 97 ∷ [];
  total_messages = 3;
  total_bytes = 400;
  total_messages_locked = 1;
  total_bytes_locked = 120;
}

two_frames : length (encode_all (publication ∷ reading ∷ [])) < 300
unfolding encode to_be_bytes request_as_u8
two_frames = omega arith

read_frames-last_round_example :
    read_frame 1000 (read_frames 300 1000 (encode_all (publication ∷ reading ∷ []))).rest
    ≡ last_round (read_frames 300 1000 (encode_all (publication ∷ reading ∷ []))).failure
read_frames-last_round_example =
    read_frames-last_round 300 1000 (encode_all (publication ∷ reading ∷ [])) two_frames

-- The name is "né", whose second letter takes two bytes.
queue_name_of-padded_example :
    queue_name_of ((110 ∷ 195 ∷ 169 ∷ []) ++ zeroes 61) ≡ 110 ∷ 195 ∷ 169 ∷ []
unfolding is_utf8 utf8_from utf8_lead
queue_name_of-padded_example = queue_name_of-padded (110 ∷ 195 ∷ 169 ∷ []) 61 refl (λ e. cc)
