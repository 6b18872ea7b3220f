-- ===== src/Alphaess/Frames.antt =====
-- The frame format of docs/ARCHITECTURE.md, written out as an encoder, and what the decoder makes
-- of a frame: the header is 01 01, a third byte and the payload's length, and the checksum over
-- header and payload stands at the end, both with the high byte first.
use passive_solar_mqtt_bridg.Prelude.{
  ℕ, suc, ◌+◌, ◌-◌, ◌/◌, ◌%◌, ◌^◌, ◌≤◌, ◌≡◌, refl, ap, ◌∙◌, true, Option, List, [], ◌∷◌, ◌++◌,
  Bytes, length, length-append, take, drop, get_or, take-length-append, drop-length-append, arith,
  ◌==◌, ==_iff, if◌then◌else◌,
}
use passive_solar_mqtt_bridg.Alphaess.Checksum.{crc16_modbus}
use passive_solar_mqtt_bridg.Alphaess.{
  Message, again, payload_length, expected_checksum, frame_header_bytes, frame_checksum_bytes,
  max_frame_payload_bytes, starts_with_frame, decoded, open_frame, consume_frame, round,
}

unfoldable pub header : ℕ → ℕ → Bytes
header kind n =
    0x01
    ∷ 0x01
    ∷ kind
    ∷ (n / 2 ^ 24 % 256)
    ∷ (n / 2 ^ 16 % 256)
    ∷ (n / 2 ^ 8 % 256)
    ∷ (n % 256)
    ∷ []

-- Header and payload, which the checksum covers.
unfoldable pub body : ℕ → Bytes → Bytes
unfolding header
body kind payload = header kind (length payload) ++ payload

-- A body with the two bytes of some checksum.
unfoldable pub seal : Bytes → ℕ → Bytes
seal b crc = b ++ (crc / 256) ∷ (crc % 256) ∷ []

unfoldable pub encode_frame : ℕ → Bytes → Bytes
unfolding body seal
encode_frame kind payload = seal (body kind payload) (crc16_modbus (body kind payload))

module _ {ℓ} {A : Type ℓ} where
  take_exact : (k : ℕ) (xs ys : List A) → k ≡ length xs → take k (xs ++ ys) ≡ xs
  take_exact k xs ys e = ap (λ (n : ℕ). take n (xs ++ ys)) e ∙ take-length-append xs ys

  drop_exact : (k : ℕ) (xs ys : List A) → k ≡ length xs → drop k (xs ++ ys) ≡ ys
  drop_exact k xs ys e = ap (λ (n : ℕ). drop n (xs ++ ys)) e ∙ drop-length-append xs ys

  get_exact : (xs ys : List A) (y d : A) → get_or (xs ++ y ∷ ys) (length xs) d ≡ y
  get_exact [] ys y d = refl
  get_exact (x ∷ xs) ys y d = get_exact xs ys y d

  get_exact_next : (xs ys : List A) (y z d : A) → get_or (xs ++ y ∷ z ∷ ys) (suc (length xs)) d ≡ z
  get_exact_next [] ys y z d = refl
  get_exact_next (x ∷ xs) ys y z d = get_exact_next xs ys y z d

expected-seal : (b : Bytes) (crc n : ℕ) → n ≡ length b + 2 → expected_checksum n (seal b crc) ≡ crc
unfolding expected_checksum seal
expected-seal b crc n e =
    rw
      (
        e,
        two b,
        one b,
        get_exact b ((crc % 256) ∷ []) (crc / 256) 0,
        get_exact_next b [] (crc / 256) (crc % 256) 0,
      )
      (omega arith)
  where
    two : (b : Bytes) → length b + 2 - 2 ≡ length b
    two b = omega arith

    one : (b : Bytes) → length b + 2 - 1 ≡ suc (length b)
    one b = omega arith

length-body : (kind : ℕ) (payload : Bytes) → length (body kind payload) ≡ 7 + length payload
unfolding body header
length-body kind payload = omega arith

-- The payload is what stands behind the header.
payload-seal :
    (kind : ℕ) (payload : Bytes) (crc : ℕ)
    → take (length payload) (drop 7 (seal (body kind payload) crc)) ≡ payload
unfolding seal body header
payload-seal kind payload crc = take-length-append payload _

body-seal :
    (kind : ℕ) (payload : Bytes) (crc : ℕ)
    → take (7 + length payload + 2 - 2) (seal (body kind payload) crc) ≡ body kind payload
unfolding seal
body-seal kind payload crc =
    take_exact _ (body kind payload) _ (omega (arith, length-body kind payload))

payload_length-seal :
    (kind : ℕ) (payload rest : Bytes) (crc : ℕ)
    → length payload ≤ max_frame_payload_bytes
    → payload_length (seal (body kind payload) crc ++ rest) ≡ length payload
unfolding payload_length seal body header
payload_length-seal kind payload rest crc le = omega arith

length-seal : (b : Bytes) (crc : ℕ) → length (seal b crc) ≡ length b + 2
unfolding seal
length-seal b crc = omega (arith, length-append b ((crc / 256) ∷ (crc % 256) ∷ []))

starts-seal :
    (kind : ℕ) (payload rest : Bytes) (crc : ℕ)
    → starts_with_frame (seal (body kind payload) crc ++ rest) ≡ true
unfolding starts_with_frame seal body header
starts-seal kind payload rest crc = ground arith

module _ {F : Type 0} (unmarshal : Bytes → Option F) where
  whole_frame :
      (frame rest : Bytes) (n : ℕ)
      → payload_length (frame ++ rest) ≡ n
      → n ≤ max_frame_payload_bytes
      → length frame ≡ frame_header_bytes + n + frame_checksum_bytes
      → consume_frame unmarshal (frame ++ rest) ≡ (open_frame unmarshal n frame, true, rest)
  unfolding consume_frame
  whole_frame frame rest n len le size = ground (
    arith,
    length-append frame rest,
    take_exact (7 + n + 2) frame rest,
    drop_exact (7 + n + 2) frame rest,
  )

  -- What the bytes of a body and a checksum decode to.
  abbrev pub checked : ℕ → Bytes → ℕ → List (Message F)
  checked kind payload crc =
      if crc16_modbus (body kind payload) == crc
      then (if length payload == 0 then [] else decoded unmarshal payload)
      else []

  open-seal :
      (kind : ℕ) (payload : Bytes) (crc : ℕ)
      → open_frame unmarshal (length payload) (seal (body kind payload) crc)
        ≡ checked kind payload crc
  unfolding open_frame
  open-seal kind payload crc = rw (
    body-seal kind payload crc,
    payload-seal kind payload crc,
    expected-seal (body kind payload) crc (7 + length payload + 2)
        (omega (arith, length-body kind payload)),
  )

  -- A frame in front of other bytes, under any checksum: one round takes exactly the frame.
  pub round-seal :
      (kind : ℕ) (payload rest : Bytes) (crc : ℕ)
      → length payload ≤ max_frame_payload_bytes
      → round unmarshal (seal (body kind payload) crc ++ rest)
        ≡ again (checked kind payload crc) rest
  unfolding round
  round-seal kind payload rest crc le = rw (
    starts-seal kind payload rest crc,
    whole_frame (seal (body kind payload) crc) rest (length payload)
        (payload_length-seal kind payload rest crc le) le
        (omega (arith, length-seal (body kind payload) crc, length-body kind payload)),
    open-seal kind payload crc,
  )

  -- The messages of a frame: that of its payload, if it has one that parses.
  unfoldable pub frame_messages : Bytes → List (Message F)
  frame_messages payload = if length payload == 0 then [] else decoded unmarshal payload

  pub round-encode_frame :
      (kind : ℕ) (payload rest : Bytes)
      → length payload ≤ max_frame_payload_bytes
      → round unmarshal (encode_frame kind payload ++ rest) ≡ again (frame_messages payload) rest
  unfolding encode_frame frame_messages
  round-encode_frame kind payload rest le =
      round-seal kind payload rest (crc16_modbus (body kind payload)) le ∙ rw ((==_iff _ _).1 refl)
