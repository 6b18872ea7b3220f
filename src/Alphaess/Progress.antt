-- ===== src/Alphaess/Progress.antt =====
-- Every round of `Push` that goes on takes bytes out of the buffer, so the loop ends.
use passive_solar_mqtt_bridg.Prelude.{
  ℕ, zero, suc, ◌+◌, ◌≤◌, ◌<◌, ◌≡◌, refl, ◌⊎◌, inl, inr, true, Option, none, some, List, [], ◌∷◌,
  ◌++◌, Bytes, length, length-drop, arith, Bool-cases, Option-cases,
}
use passive_solar_mqtt_bridg.Alphaess.Scan.{
  index_byte, last_index_byte, index_frame_start, find_json_object_end,
}
use passive_solar_mqtt_bridg.Alphaess.Scan.Positions.{
  index_byte-lt, index_frame_start-lt, find_json_object_end-bounds,
}
use passive_solar_mqtt_bridg.Alphaess.{
  Decoder, Message, Round, again, stop, payload_length, frame_header_bytes, frame_checksum_bytes,
  discard_oversized_garbage, align_at, align_to_next_record_start, starts_with_frame, consume_frame,
  take_object, round, rounds, decode,
}

align_at-shrinks :
    (o p : Option ℕ) (d : Decoder)
    → ((i : ℕ) → o ≡ some i → i < length d)
    → ((i : ℕ) → p ≡ some i → i < length d)
    → (align_at o p d).0 ≡ true
    → length (align_at o p d).1 < length d
unfolding align_at
align_at-shrinks none none d fo fp h = cc
align_at-shrinks (some i) none d fo fp h = ground (arith, fo i refl, length-drop i d)
align_at-shrinks none (some j) d fo fp h = ground (arith, fp j refl, length-drop j d)
align_at-shrinks (some i) (some j) d fo fp h =
    ground (arith, fo i refl, fp j refl, length-drop i d, length-drop j d)

-- A search position that skips something skips part of what is there.
pub align-shrinks :
    (d : Decoder)
    → (align_to_next_record_start d).0 ≡ true
    → length (align_to_next_record_start d).1 < length d
unfolding align_to_next_record_start
align-shrinks d h =
    align_at-shrinks (index_frame_start d) (index_byte b'{' d) d
      (λ i e. omega (arith, index_frame_start-lt d i e)) (λ i e. index_byte-lt b'{' d i e) h

discard-le : (d : Decoder) → length (discard_oversized_garbage d) ≤ length d
unfolding discard_oversized_garbage
discard-le d = elim (Option-cases (last_index_byte b'{' d)) [
  | inl e ↦ ground arith
  | inr (i, e) ↦ ground (arith, length-drop i d)
]

align_at-le : (o p : Option ℕ) (d : Decoder) → length (align_at o p d).1 ≤ length d
unfolding align_at
align_at-le none none d = discard-le d
align_at-le (some i) none d = ground (arith, length-drop i d)
align_at-le none (some j) d = ground (arith, length-drop j d)
align_at-le (some i) (some j) d = ground (arith, length-drop i d, length-drop j d)

align-le : (d : Decoder) → length (align_to_next_record_start d).1 ≤ length d
unfolding align_to_next_record_start
align-le d = align_at-le (index_frame_start d) (index_byte b'{' d) d

pub Round-cases :
    {F : Type 0} (r : Round F)
    → ((messages : List (Message F)) × (d : Decoder) × (r ≡ again messages d))
      ⊎ ((messages : List (Message F)) × (d : Decoder) × (r ≡ stop messages d))
Round-cases (again messages d) = inl (messages, d, refl)
Round-cases (stop messages d) = inr (messages, d, refl)

module _ {F : Type 0} (unmarshal : Bytes → Option F) where
  consume_frame-shrinks :
      (d : Decoder)
      → (consume_frame unmarshal d).1 ≡ true
      → length (consume_frame unmarshal d).2 < length d
  unfolding consume_frame
  consume_frame-shrinks d h = ground (
    arith,
    length-drop 1 d,
    length-drop (frame_header_bytes + payload_length d + frame_checksum_bytes) d,
  )

  take_object-shrinks :
      (d d' : Decoder) (messages : List (Message F))
      → take_object unmarshal d ≡ again messages d'
      → length d' < length d
  unfolding take_object
  take_object-shrinks [] d' messages h = cc
  take_object-shrinks (b ∷ bs) d' messages h = elim (Option-cases (find_json_object_end (b ∷ bs))) [
    | inl e ↦ ground arith
    | inr (end, e) ↦
        ground (arith, length-drop end (b ∷ bs), find_json_object_end-bounds (b ∷ bs) end e)
  ]

  -- A round that goes on leaves fewer bytes than it found.
  pub round-shrinks :
      (d d' : Decoder) (messages : List (Message F))
      → round unmarshal d ≡ again messages d'
      → length d' < length d
  unfolding round
  round-shrinks d d' messages h = elim (Bool-cases (starts_with_frame d)) [
    | inl framed ↦ ground (arith, consume_frame-shrinks d)
    | inr other ↦ elim (Bool-cases (align_to_next_record_start d).0) [
      | inl skipped ↦ ground (arith, align-shrinks d)
      | inr still ↦
          let left =
            take_object-shrinks (align_to_next_record_start d).1 d' messages (ground arith) in
          omega (arith, left, align-le d)
    ]
  ]

  -- The same round, whatever the fuel.
  rounds_enough :
      (fuel more : ℕ) (d : Decoder)
      → length d < fuel
      → length d < more
      → rounds unmarshal fuel d ≡ rounds unmarshal more d
  unfolding rounds
  rounds_enough zero more d h k = absurd (omega arith)
  rounds_enough (suc fuel) zero d h k = absurd (omega arith)
  rounds_enough (suc fuel) (suc more) d h k = elim (Round-cases (round unmarshal d)) [
    | inl (messages, d', e) ↦
        let shorter = round-shrinks d d' messages e in
        let same = rounds_enough fuel more d' (omega arith) (omega arith) in rw (e, rounds, same)
    | inr (messages, d', e) ↦ rw (e, rounds)
  ]

  -- What the loop does after one round: it returns, or goes on with what is left.
  abbrev pub after_round :
      (Decoder → List (Message F) × Decoder) → Round F → List (Message F) × Decoder
  after_round loop (stop messages d) = (messages, d)
  after_round loop (again messages d) = (messages ++ (loop d).0, (loop d).1)

  -- `decode` is the loop of `Push` itself: one round, and again as long as the round says so, with
  -- no bound on the number of rounds.
  pub decode_lem :
      (d : Decoder) → decode unmarshal d ≡ after_round (decode unmarshal) (round unmarshal d)
  unfolding decode rounds
  decode_lem d = elim (Round-cases (round unmarshal d)) [
    | inl (messages, d', e) ↦
        let shorter = round-shrinks d d' messages e in
        let same = rounds_enough (length d) (suc (length d')) d' (omega arith) (omega arith) in
        rw (e, rounds, same)
    | inr (messages, d', e) ↦ rw (e, rounds)
  ]
