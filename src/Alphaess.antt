-- ===== src/Alphaess.antt =====
-- internal/alphaess/decoder.go: frames and JSON objects out of a byte stream.
-- `json.Unmarshal` into a `map[string]any` is the parameter `unmarshal`, which is `none` where it
-- returns an error. A `*Decoder` is its only field, `buffer`.
pub mod Checksum
pub mod Scan
pub mod Progress
pub mod Align
pub mod Stable
pub mod Frames
pub mod Streams
pub mod Oversized
mod Runs
use passive_solar_mqtt_bridg.Prelude.{
  ℕ, zero, suc, ◌+◌, ◌-◌, ◌*◌, ◌^◌, Bool, true, false, ◌&&◌, ◌||◌, Option, none, some, List, [],
  ◌∷◌, ◌++◌, Bytes, ltb, leb, ◌==◌, if◌then◌else◌, length, take, drop, get_or,
}
use Checksum.{crc16_modbus}
use Scan.{index_byte, last_index_byte, index_frame_start, find_json_object_end}

abbrev pub max_buffered_bytes : ℕ
max_buffered_bytes = 2 ^ 20

abbrev pub frame_header_bytes : ℕ
frame_header_bytes = 7

abbrev pub frame_checksum_bytes : ℕ
frame_checksum_bytes = 2

abbrev pub max_frame_payload_bytes : ℕ
max_frame_payload_bytes = 2 ^ 16

abbrev pub Decoder : Type 0
Decoder = Bytes

abbrev pub new_decoder : Decoder
new_decoder = []

pub record Message (F : Type 0) : Type 0 where
  pub raw_json : Bytes
  pub fields : F

-- A round of the loop in `Push` either goes on with `continue`, or returns.
pub data Round (F : Type 0) : Type 0 where
  again stop : List (Message F) → Decoder → Round F

-- The four length bytes of the header; shifted bytes do not overlap, so `|` is a sum. The `int` is
-- 64 bits wide, so it is never negative.
unfoldable pub payload_length : Bytes → ℕ
payload_length b =
    get_or b 3 0 * 2 ^ 24 + get_or b 4 0 * 2 ^ 16 + get_or b 5 0 * 2 ^ 8 + get_or b 6 0

-- The checksum at the end of a frame of `frame_len` bytes, high byte first.
unfoldable pub expected_checksum : ℕ → Bytes → ℕ
expected_checksum frame_len frame =
    get_or frame (frame_len - 2) 0 * 2 ^ 8 + get_or frame (frame_len - 1) 0

unfoldable pub discard_oversized_garbage : Decoder → Decoder
discard_oversized_garbage d =
    if leb (length d) max_buffered_bytes
    then d
    else (elim (last_index_byte b'{' d) [ some start ↦ drop start d | none ↦ [] ])

-- The switch of `alignToNextRecordStart`: where the next frame and the next object start, if at all.
unfoldable pub align_at : Option ℕ → Option ℕ → Decoder → Bool × Decoder
align_at none none d = (false, discard_oversized_garbage d)
align_at (some frame_start) none d =
    if frame_start == 0 then (false, d) else (true, drop frame_start d)
align_at none (some json_start) d =
    if json_start == 0 then (false, d) else (true, drop json_start d)
align_at (some frame_start) (some json_start) d =
    if frame_start == 0 || json_start == 0
    then (false, d)
    else if ltb frame_start json_start
    then (true, drop frame_start d)
    else (true, drop json_start d)

unfoldable pub align_to_next_record_start : Decoder → Bool × Decoder
align_to_next_record_start d = align_at (index_frame_start d) (index_byte b'{' d) d

unfoldable pub starts_with_frame : Decoder → Bool
starts_with_frame d = leb 2 (length d) && get_or d 0 0 == 0x01 && get_or d 1 0 == 0x01

module _ {F : Type 0} (unmarshal : Bytes → Option F) where
  -- What `json.Unmarshal` makes of a text: one message, or none if it fails.
  unfoldable pub decoded : Bytes → List (Message F)
  decoded raw = elim (unmarshal raw) [
    | none ↦ []
    | some fields ↦ record { raw_json = raw; fields = fields } ∷ []
  ]

  -- A frame that is there whole: checksum, then payload.
  unfoldable pub open_frame : ℕ → Bytes → List (Message F)
  open_frame payload_len frame =
      let frame_len = frame_header_bytes + payload_len + frame_checksum_bytes in
      if crc16_modbus (take (frame_len - 2) frame) == expected_checksum frame_len frame
      then (let payload = take payload_len (drop frame_header_bytes frame) in
          if length payload == 0 then [] else decoded payload)
      else []

  -- The messages, whether a frame was complete, and what is left.
  unfoldable pub consume_frame : Decoder → List (Message F) × Bool × Decoder
  consume_frame d =
      if ltb (length d) frame_header_bytes
      then ([], false, d)
      else (let payload_len = payload_length d in
          if ltb max_frame_payload_bytes payload_len
          then ([], true, drop 1 d)
          else (let frame_len = frame_header_bytes + payload_len + frame_checksum_bytes in
              if ltb (length d) frame_len
              then ([], false, d)
              else (open_frame payload_len (take frame_len d), true, drop frame_len d)))

  -- The end of a round that found no frame and nothing to skip.
  unfoldable pub take_object : Decoder → Round F
  take_object [] = stop [] []
  take_object (b ∷ bs) =
      if b == b'{'
      then (elim (find_json_object_end (b ∷ bs)) [
        | none ↦ stop [] (discard_oversized_garbage (b ∷ bs))
        | some end ↦ again (decoded (take end (b ∷ bs))) (drop end (b ∷ bs))
      ])
      else stop [] (discard_oversized_garbage (b ∷ bs))

  unfoldable pub round : Decoder → Round F
  round d =
      if starts_with_frame d
      then (let (messages, complete, d') = consume_frame d in
          if complete then again messages d' else stop messages d')
      else (let (aligned, d') = align_to_next_record_start d in
          if aligned then again [] d' else take_object d')

  -- The loop of `Push`. A round that goes on takes a byte at least, so one round more than there
  -- are bytes is enough.
  unfoldable pub rounds : ℕ → Decoder → List (Message F) × Decoder
  rounds zero d = ([], d)
  rounds (suc fuel) d = elim (round d) [
    | stop messages d' ↦ (messages, d')
    | again messages d' ↦ let (more, d'') = rounds fuel d' in (messages ++ more, d'')
  ]

  unfoldable pub decode : Decoder → List (Message F) × Decoder
  decode d = rounds (suc (length d)) d

  -- `Decoder.Push`; its error is always `nil`.
  unfoldable pub push : Decoder → Bytes → List (Message F) × Decoder
  push d bytes = decode (d ++ bytes)
