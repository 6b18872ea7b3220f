-- ===== src/Alphaess/Streams.antt =====
-- Whole streams of frames: every message comes out, in order, however the stream is cut into calls
-- of `Push`, and a frame with a damaged byte yields nothing.
use passive_solar_mqtt_bridg.Prelude.{
  ℕ, zero, suc, ◌+◌, ◌≤◌, ◌<◌, ◌≡◌, ◌≢◌, refl, sym, ap, ◌∙◌, Option, List, [], ◌∷◌, ◌++◌,
  append_assoc, append-nil, Bytes, length, length-append, concat, All, All-append, arith, inl, inr,
}
use passive_solar_mqtt_bridg.Alphaess.Checksum.{crc16_modbus}
use passive_solar_mqtt_bridg.Alphaess.Checksum.Detect.{IsByte, crc16_modbus_detects}
use passive_solar_mqtt_bridg.Alphaess.{
  Decoder, Message, again, new_decoder, max_frame_payload_bytes, max_buffered_bytes, round, rounds,
  decode, push, starts_with_frame, align_to_next_record_start, align_at, discard_oversized_garbage,
  take_object,
}
use passive_solar_mqtt_bridg.Alphaess.Scan.{index_frame_start, index_byte}
use passive_solar_mqtt_bridg.Alphaess.Progress.{Round-cases, round-shrinks, decode_lem}
use passive_solar_mqtt_bridg.Alphaess.Stable.{round_stops, push-append}
use passive_solar_mqtt_bridg.Alphaess.Frames.{
  header, body, seal, encode_frame, frame_messages, checked, round-seal, round-encode_frame,
}

unfoldable pub encode_frames : List (ℕ × Bytes) → Bytes
encode_frames [] = []
encode_frames ((kind, payload) ∷ fs) = encode_frame kind payload ++ encode_frames fs

abbrev pub Fits : ℕ × Bytes → Type 0
Fits f = length f.1 ≤ max_frame_payload_bytes

-- `b` stands at one place of a payload, with bytes around it.
abbrev pub AreBytes : ℕ → Bytes → Bytes → ℕ → Type 0
AreBytes kind front back b = IsByte kind × All IsByte front × All IsByte back × IsByte b

header-AreBytes : (kind n : ℕ) → IsByte kind → All IsByte (header kind n)
unfolding header
header-AreBytes kind n k = omega arith

module _ {F : Type 0} (unmarshal : Bytes → Option F) where
  unfoldable pub stream_messages : List (ℕ × Bytes) → List (Message F)
  stream_messages [] = []
  stream_messages ((kind, payload) ∷ fs) = frame_messages unmarshal payload ++ stream_messages fs

  pub decode-encode_frames :
      (fs : List (ℕ × Bytes)) (rest : Bytes)
      → All Fits fs
      → decode unmarshal (encode_frames fs ++ rest)
        ≡ (stream_messages fs ++ (decode unmarshal rest).0, (decode unmarshal rest).1)
  unfolding encode_frames stream_messages
  decode-encode_frames [] rest h = refl
  decode-encode_frames ((kind, payload) ∷ fs) rest (h, hs) = rw (
    append_assoc (encode_frame kind payload) (encode_frames fs) rest,
    decode_lem unmarshal (encode_frame kind payload ++ (encode_frames fs ++ rest)),
    round-encode_frame unmarshal kind payload (encode_frames fs ++ rest) h,
    decode-encode_frames fs rest hs,
    append_assoc,
  )

  body-split :
      (kind : ℕ) (front back : Bytes) (b b' : ℕ)
      → body kind (front ++ b' ∷ back)
        ≡ (header kind (length (front ++ b ∷ back)) ++ front) ++ b' ∷ back
  unfolding body
  body-split kind front back b b' =
      ap (λ (n : ℕ). header kind n ++ (front ++ b' ∷ back)) same_length
      ∙ sym (append_assoc (header kind (length (front ++ b ∷ back))) front (b' ∷ back))
    where
      same_length : length (front ++ b' ∷ back) ≡ length (front ++ b ∷ back)
      same_length = omega (arith, length-append front (b' ∷ back), length-append front (b ∷ back))

  -- If one byte of a frame's payload is changed on the way, the decoder takes the whole frame out
  -- of the buffer and makes no message of it.
  pub round_damaged :
      (kind : ℕ) (front back rest : Bytes) (b b' : ℕ)
      → AreBytes kind front back b
      → IsByte b'
      → b ≢ b'
      → length (front ++ b ∷ back) ≤ max_frame_payload_bytes
      → round unmarshal (
          seal (body kind (front ++ b' ∷ back)) (crc16_modbus (body kind (front ++ b ∷ back)))
          ++ rest)
        ≡ again [] rest
  round_damaged kind front back rest b b' (k, fs, bs, byte) byte' apart le =
      round-seal unmarshal kind (front ++ b' ∷ back) rest
        (crc16_modbus (body kind (front ++ b ∷ back)))
        (omega (arith, length-append front (b' ∷ back), length-append front (b ∷ back)))
      ∙ ap (λ (m : List (Message F)). again m rest) rejected
    where
      sums_differ :
          crc16_modbus (body kind (front ++ b' ∷ back))
          ≢ crc16_modbus (body kind (front ++ b ∷ back))
      sums_differ =
          rw (body-split kind front back b b', body-split kind front back b b)
            (crc16_modbus_detects (header kind (length (front ++ b ∷ back)) ++ front) back b' b
              (All-append IsByte (header kind (length (front ++ b ∷ back))) front
                (header-AreBytes kind _ k) fs)
              bs byte' byte (λ e. apart (sym e)))

      rejected :
          checked unmarshal kind (front ++ b' ∷ back) (crc16_modbus (body kind (front ++ b ∷ back)))
          ≡ []
      rejected = ground (arith, sums_differ)

  -- A buffer in which `Push` would find nothing more.
  abbrev pub IsSettled : Decoder → Type 0
  IsSettled d = decode unmarshal d ≡ ([], d)

  decode_le_below :
      (n : ℕ) (d : Decoder)
      → length d < n
      → length d ≤ max_buffered_bytes
      → (length (decode unmarshal d).1 ≤ length d) × IsSettled (decode unmarshal d).1
  decode_le_below zero d h le = absurd (omega arith)
  decode_le_below (suc n) d h le = elim (Round-cases (round unmarshal d)) [
    | inl (messages, d', e) ↦
        let shorter = round-shrinks unmarshal d d' messages e in
        let (less, settled) = decode_le_below n d' (omega arith) (omega arith) in
        rw (decode_lem unmarshal d, e) (omega arith, settled)
    | inr (messages, d', e) ↦
        let (nothing, same) = round_stops unmarshal d d' messages e le in
        rw (decode_lem unmarshal d, e, same)
          (omega arith, decode_lem unmarshal d ∙ rw (e, nothing, same))
  ]

  push_le :
      (d : Decoder) (c : Bytes)
      → length (d ++ c) ≤ max_buffered_bytes
      → (length (push unmarshal d c).1 ≤ length (d ++ c)) × IsSettled (push unmarshal d c).1
  unfolding push
  push_le d c le = decode_le_below (suc (length (d ++ c))) (d ++ c) (omega arith) le

  new_decoder-IsSettled : IsSettled new_decoder
  unfolding decode rounds round starts_with_frame align_to_next_record_start align_at
      index_frame_start index_byte discard_oversized_garbage take_object
  new_decoder-IsSettled = refl

  -- One call of `Push` for each chunk, on one decoder.
  unfoldable pub push_chunks : Decoder → List Bytes → List (Message F) × Decoder
  push_chunks d [] = ([], d)
  push_chunks d (c ∷ cs) =
      let (now, d') = push unmarshal d c in
      let (later, d'') = push_chunks d' cs in (now ++ later, d'')

  -- As many calls as there are chunks do what one call with all of them does.
  pub push_chunks-eq-push :
      (d : Decoder) (cs : List Bytes)
      → IsSettled d
      → length (d ++ concat cs) ≤ max_buffered_bytes
      → push_chunks d cs ≡ push unmarshal d (concat cs)
  unfolding push_chunks
  push_chunks-eq-push d [] settled le = unfold push in sym (rw append-nil settled)
  push_chunks-eq-push d (c ∷ cs) settled le =
      let (less, settled') = push_le d c (omega (arith, parts)) in
      rw
        (push_chunks-eq-push (push unmarshal d c).1 cs settled'
          (omega (arith, less, parts, length-append (push unmarshal d c).1 (concat cs))))
        (sym (push-append unmarshal d c (concat cs) (omega (arith, parts))))
    where
      parts : length (d ++ (c ++ concat cs)) ≡ length (d ++ c) + length (concat cs)
      parts = rw (← append_assoc d c (concat cs)) (length-append (d ++ c) (concat cs))

  -- A stream of frames, cut into chunks at any places and pushed chunk by chunk into a new
  -- decoder, yields the messages of all frames in their order and leaves nothing behind, where
  -- the payloads are no longer than the format allows and the stream is at most
  -- `max_buffered_bytes` long.
  pub push_chunks-encode_frames :
      (fs : List (ℕ × Bytes)) (chunks : List Bytes)
      → All Fits fs
      → concat chunks ≡ encode_frames fs
      → length (encode_frames fs) ≤ max_buffered_bytes
      → push_chunks new_decoder chunks ≡ (stream_messages fs, [])
  push_chunks-encode_frames fs chunks fits e le =
      push_chunks-eq-push [] chunks new_decoder-IsSettled (omega (arith, ap length e))
      ∙ ap (push unmarshal []) e
      ∙ all
    where
      all : push unmarshal [] (encode_frames fs) ≡ (stream_messages fs, [])
      all =
          unfold push in
          rw (
            ← append-nil (encode_frames fs),
            decode-encode_frames fs [] fits,
            new_decoder-IsSettled,
            append-nil,
          )
