-- ===== src/Alphaess/Runs.antt =====
-- Runs of the decoder, and its theorems at concrete inputs. Here every text parses, as itself.
use passive_solar_mqtt_bridg.Prelude.{
  ℕ, ◌<◌, ◌≡◌, ◌≢◌, refl, Option, some, List, [], ◌∷◌, ◌++◌, Bytes, length, concat, arith,
}
use passive_solar_mqtt_bridg.Alphaess.Checksum.{crc_bit, crc_bits, crc_bytes, crc16_modbus}
use passive_solar_mqtt_bridg.Alphaess.Checksum.Detect.{crc16_modbus_detects}
use passive_solar_mqtt_bridg.Alphaess.Scan.{
  index_byte, index_frame_start, scan_byte, closes, scan, find_json_object_end,
}
use passive_solar_mqtt_bridg.Alphaess.{
  Message, again, new_decoder, payload_length, expected_checksum, discard_oversized_garbage,
  align_at, align_to_next_record_start, starts_with_frame, decoded, open_frame, consume_frame,
  take_object, round, rounds, decode, push,
}
use passive_solar_mqtt_bridg.Alphaess.Progress.{round-shrinks}
use passive_solar_mqtt_bridg.Alphaess.Stable.{push-append}
use passive_solar_mqtt_bridg.Alphaess.Frames.{body, seal, encode_frame}
use passive_solar_mqtt_bridg.Alphaess.Streams.{
  encode_frames, stream_messages, push_chunks, round_damaged, push_chunks-encode_frames,
}

abbrev itself : Bytes → Option Bytes
itself raw = some raw

abbrev message : Bytes → Message Bytes
message raw = record { raw_json = raw; fields = raw }

-- `{}`, and `{"a"}`.
abbrev empty_object : Bytes
empty_object = b'{' ∷ b'}' ∷ []

abbrev object : Bytes
object = b'{' ∷ b'"' ∷ b'a' ∷ b'"' ∷ b'}' ∷ []

-- The check value of CRC-16/MODBUS, over the digits 1 to 9.
check_value :
    crc16_modbus (b'1' ∷ b'2' ∷ b'3' ∷ b'4' ∷ b'5' ∷ b'6' ∷ b'7' ∷ b'8' ∷ b'9' ∷ []) ≡ 0x4b37
unfolding crc16_modbus crc_bytes crc_bits crc_bit
check_value = refl

-- Garbage, an object with a brace in a text, then one that is cut off.
objects :
    push itself new_decoder (7 ∷ 1 ∷ b'{' ∷ b'"' ∷ b'}' ∷ b'"' ∷ b'}' ∷ b'{' ∷ [])
    ≡ (message (b'{' ∷ b'"' ∷ b'}' ∷ b'"' ∷ b'}' ∷ []) ∷ [], b'{' ∷ [])
unfolding push decode rounds round starts_with_frame align_to_next_record_start align_at
    index_frame_start index_byte take_object find_json_object_end scan scan_byte closes decoded
    discard_oversized_garbage
objects = refl

-- A frame, then the start of another.
framed :
    push itself new_decoder (encode_frame 9 empty_object ++ 1 ∷ 1 ∷ [])
    ≡ (message empty_object ∷ [], 1 ∷ 1 ∷ [])
unfolding push decode rounds round starts_with_frame consume_frame open_frame payload_length
    expected_checksum encode_frame crc16_modbus crc_bytes crc_bits crc_bit decoded
framed = refl

crc16_modbus_detects_example : crc16_modbus (1 ∷ 5 ∷ 2 ∷ []) ≢ crc16_modbus (1 ∷ 6 ∷ 2 ∷ [])
crc16_modbus_detects_example =
    crc16_modbus_detects (1 ∷ []) (2 ∷ []) 5 6 (omega arith) (omega arith) (omega arith)
      (omega arith) (omega arith)

object_taken : round itself object ≡ again (message object ∷ []) []
unfolding round starts_with_frame align_to_next_record_start align_at index_frame_start index_byte
    take_object find_json_object_end scan scan_byte closes decoded
object_taken = refl

round-shrinks_example : 0 < length object
round-shrinks_example = round-shrinks itself object [] (message object ∷ []) object_taken

push-append_example : push itself (1 ∷ []) (object ++ object) ≡ (
  (push itself (1 ∷ []) object).0 ++ (push itself (push itself (1 ∷ []) object).1 object).0,
  (push itself (push itself (1 ∷ []) object).1 object).1,
)
push-append_example = push-append itself (1 ∷ []) object object (omega arith)

abbrev two_frames : List (ℕ × Bytes)
two_frames = (9, empty_object) ∷ (3, object) ∷ []

-- The stream of both frames, cut inside the first header and inside the second payload.
abbrev cut_frames : List Bytes
cut_frames =
    (1 ∷ 1 ∷ 9 ∷ [])
    ∷ (0 ∷ 0 ∷ 0 ∷ 2 ∷ b'{' ∷ b'}' ∷ 0xbd ∷ 0x1c ∷ 1 ∷ 1 ∷ 3 ∷ 0 ∷ 0 ∷ 0 ∷ 5 ∷ b'{' ∷ b'"' ∷ [])
    ∷ (b'a' ∷ b'"' ∷ b'}' ∷ 0x4a ∷ 0x0a ∷ [])
    ∷ []

cut_frames_whole : concat cut_frames ≡ encode_frames two_frames
unfolding encode_frames encode_frame crc16_modbus crc_bytes crc_bits crc_bit
cut_frames_whole = refl

push_chunks-encode_frames_example :
    push_chunks itself new_decoder cut_frames ≡ (stream_messages itself two_frames, [])
push_chunks-encode_frames_example =
    push_chunks-encode_frames itself two_frames cut_frames (omega arith) cut_frames_whole
      (unfold encode_frames encode_frame crc16_modbus crc_bytes crc_bits crc_bit in omega arith)

round_damaged_example :
    round itself (seal (body 9 (b'[' ∷ b'}' ∷ [])) (crc16_modbus (body 9 empty_object)) ++ [])
    ≡ again [] []
round_damaged_example =
    round_damaged itself 9 [] (b'}' ∷ []) [] b'{' b'[' (omega arith) (omega arith) (omega arith)
      (omega arith)
