-- ===== src/Alphaess/Stable.antt =====
-- Bytes that come later do not change what the rounds before made of the bytes that were there, so
-- it does not matter how the stream is cut into calls of `Push`.
use passive_solar_mqtt_bridg.Prelude.{
  ℕ, zero, suc, ◌+◌, ◌≤◌, ◌<◌, ◌≡◌, ◌≢◌, inl, inr, true, false, Option, none, some, List, [], ◌∷◌,
  ◌++◌, Bytes, length, length-append, take-append_le, drop-append_le, arith, Bool-cases,
  Option-cases, le→leb, append_assoc,
}
use passive_solar_mqtt_bridg.Alphaess.Scan.{index_byte, index_frame_start, find_json_object_end}
use passive_solar_mqtt_bridg.Alphaess.Scan.Positions.{
  find_json_object_end-bounds, index_byte-append_some, find_json_object_end-append,
}
use passive_solar_mqtt_bridg.Alphaess.{
  Message, again, stop, payload_length, frame_header_bytes, frame_checksum_bytes,
  max_buffered_bytes, discard_oversized_garbage, align_at, align_to_next_record_start,
  starts_with_frame, consume_frame, take_object, round, decode, push,
}
use passive_solar_mqtt_bridg.Alphaess.Progress.{Round-cases, round-shrinks, decode_lem}
use passive_solar_mqtt_bridg.Alphaess.Align.{
  payload_length-append, starts-append, starts-long, align-append, align-object, frame_first,
  object_first, last-none,
}

module _ {F : Type 0} (unmarshal : Bytes → Option F) where
  no_object :
      (d d' : Bytes) (messages : List (Message F))
      → index_byte b'{' d ≡ none
      → take_object unmarshal (discard_oversized_garbage d) ≢ again messages d'
  unfolding take_object discard_oversized_garbage index_byte
  no_object [] d' messages e = λ h. cc
  no_object (b ∷ bs) d' messages e = elim (Option-cases (index_byte b'{' bs)) [
    | inl n ↦ λ h. ground (arith, last-none b'{' (b ∷ bs) e)
    | inr (j, n) ↦ absurd (ground arith)
  ]

  -- A round that takes an object finds it at the start.
  object_at_start :
      (d d' : Bytes) (messages : List (Message F))
      → starts_with_frame d ≡ false
      → (align_to_next_record_start d).0 ≡ false
      → take_object unmarshal (align_to_next_record_start d).1 ≡ again messages d'
      → index_byte b'{' d ≡ some 0
  unfolding align_to_next_record_start align_at
  object_at_start d d' messages s a h = elim (Option-cases (index_byte b'{' d)) [
    | inl n ↦ elim (Option-cases (index_frame_start d)) [
      | inl m ↦ absurd (no_object d d' messages n (rw (n, m) at h))
      | inr (i, m) ↦ ground (arith, frame_first d)
    ]
    | inr (j, n) ↦ elim (Option-cases (index_frame_start d)) [
      | inl m ↦ ground arith
      | inr (i, m) ↦ ground (arith, frame_first d)
    ]
  ]

  consume_frame-append :
      (d x : Bytes)
      → (consume_frame unmarshal d).1 ≡ true
      → consume_frame unmarshal (d ++ x)
        ≡ ((consume_frame unmarshal d).0, true, (consume_frame unmarshal d).2 ++ x)
  unfolding consume_frame
  consume_frame-append d x h =
      let frame_len = frame_header_bytes + payload_length d + frame_checksum_bytes in
      ground (
        arith,
        payload_length-append d x,
        length-append d x,
        drop-append_le 1 d x,
        drop-append_le frame_len d x,
        take-append_le frame_len d x,
      )

  take_object-append :
      (d x d' : Bytes) (messages : List (Message F))
      → take_object unmarshal d ≡ again messages d'
      → take_object unmarshal (d ++ x) ≡ again messages (d' ++ x)
  unfolding take_object
  take_object-append [] x d' messages h = cc
  take_object-append (b ∷ bs) x d' messages h =
      elim (Option-cases (find_json_object_end (b ∷ bs))) [
        | inl e ↦ absurd (ground arith)
        | inr (end, e) ↦ ground (
          arith,
          find_json_object_end-append (b ∷ bs) x end e,
          find_json_object_end-bounds (b ∷ bs) end e,
          take-append_le end (b ∷ bs) x,
          drop-append_le end (b ∷ bs) x,
        )
      ]

  -- A round that goes on does so with more bytes behind, and leaves them behind the rest.
  pub round-append :
      (d x d' : Bytes) (messages : List (Message F))
      → round unmarshal d ≡ again messages d'
      → round unmarshal (d ++ x) ≡ again messages (d' ++ x)
  unfolding round
  round-append d x d' messages h = elim (Bool-cases (starts_with_frame d)) [
    | inl framed ↦
        ground (arith, starts-append d x (starts-long d framed), consume_frame-append d x)
    | inr other ↦ elim (Bool-cases (align_to_next_record_start d).0) [
      | inl skipped ↦
          let (same, long) = align-append d x skipped in
          ground (arith, starts-append d x long, same)
      | inr still ↦
          let here = object_at_start d d' messages other still (ground arith) in
          let here' = index_byte-append_some b'{' d x 0 here in
          rw (object_first (d ++ x) here', align-object (d ++ x) here')
            (take_object-append d x d' messages (ground (arith, align-object d here)))
    ]
  ]

  discard-small : (d : Bytes) → length d ≤ max_buffered_bytes → discard_oversized_garbage d ≡ d
  unfolding discard_oversized_garbage
  discard-small d le = rw (le→leb (length d) max_buffered_bytes le)

  align-still :
      (d : Bytes)
      → length d ≤ max_buffered_bytes
      → (align_to_next_record_start d).0 ≡ false
      → (align_to_next_record_start d).1 ≡ d
  unfolding align_to_next_record_start align_at
  align-still d le h = elim (Option-cases (index_frame_start d)) [
    | inl m ↦ elim (Option-cases (index_byte b'{' d)) [
      | inl n ↦ rw (m, n) (discard-small d le)
      | inr (j, n) ↦ ground arith
    ]
    | inr (i, m) ↦ elim (Option-cases (index_byte b'{' d)) [
      | inl n ↦ ground arith
      | inr (j, n) ↦ ground arith
    ]
  ]

  consume_frame_incomplete :
      (d : Bytes)
      → (consume_frame unmarshal d).1 ≡ false
      → ((consume_frame unmarshal d).0 ≡ []) × ((consume_frame unmarshal d).2 ≡ d)
  unfolding consume_frame
  consume_frame_incomplete d h = ground arith

  take_object_stops :
      (d d' : Bytes) (messages : List (Message F))
      → length d ≤ max_buffered_bytes
      → take_object unmarshal d ≡ stop messages d'
      → (messages ≡ []) × (d' ≡ d)
  unfolding take_object
  take_object_stops [] d' messages le h = ground arith
  take_object_stops (b ∷ bs) d' messages le h =
      elim (Option-cases (find_json_object_end (b ∷ bs))) [
        | inl e ↦ ground (arith, discard-small (b ∷ bs) le)
        | inr (end, e) ↦ ground (arith, discard-small (b ∷ bs) le)
      ]

  -- A round that returns has found no message, and keeps all bytes of a buffer within the limit.
  pub round_stops :
      (d d' : Bytes) (messages : List (Message F))
      → round unmarshal d ≡ stop messages d'
      → length d ≤ max_buffered_bytes
      → (messages ≡ []) × (d' ≡ d)
  unfolding round
  round_stops d d' messages h le = elim (Bool-cases (starts_with_frame d)) [
    | inl framed ↦ ground (arith, consume_frame_incomplete d)
    | inr other ↦ elim (Bool-cases (align_to_next_record_start d).0) [
      | inl skipped ↦ absurd (ground arith)
      | inr still ↦
          let same = align-still d le still in
          take_object_stops d d' messages le (ground (arith, same))
    ]
  ]

  Splits : Bytes → Bytes → Type 0
  Splits d x =
      let (messages, d') = decode unmarshal d in
      let (more, d'') = decode unmarshal (d' ++ x) in
      decode unmarshal (d ++ x) ≡ (messages ++ more, d'')

  decode-append_below :
      (n : ℕ) (d x : Bytes) → length d < n → length d ≤ max_buffered_bytes → Splits d x
  unfolding Splits
  decode-append_below zero d x h le = absurd (omega arith)
  decode-append_below (suc n) d x h le = elim (Round-cases (round unmarshal d)) [
    | inl (messages, d', e) ↦
        let shorter = round-shrinks unmarshal d d' messages e in
        let rest = decode-append_below n d' x (omega arith) (omega arith) in
        let before = rw e at (decode_lem unmarshal d) in
        let whole = rw (round-append d x d' messages e) at (decode_lem unmarshal (d ++ x)) in
        rw (before, whole, rest, append_assoc)
    | inr (messages, d', e) ↦
        let (nothing, same) = round_stops d d' messages e le in
        let before : decode unmarshal d ≡ ([], d) =
          rw (e, nothing, same) at (decode_lem unmarshal d) in
        rw before
  ]

  -- `Push` does not depend on how the stream is cut: with at most `max_buffered_bytes` in the
  -- buffer after the first part, two calls with two parts of a stream find the messages, and leave
  -- the buffer, of one call with both.
  pub push-append :
      (d x y : Bytes)
      → length (d ++ x) ≤ max_buffered_bytes
      → push unmarshal d (x ++ y) ≡ (
        (push unmarshal d x).0 ++ (push unmarshal (push unmarshal d x).1 y).0,
        (push unmarshal (push unmarshal d x).1 y).1,
      )
  unfolding push Splits
  push-append d x y le =
      rw (← append_assoc d x y)
        (decode-append_below (suc (length (d ++ x))) (d ++ x) y (omega arith) le)
