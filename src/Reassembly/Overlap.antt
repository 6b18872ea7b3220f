-- ===== src/Reassembly/Overlap.antt =====
-- A run that was held back and that the next segment overlaps in part.
use passive_solar_mqtt_bridg.Prelude.{
  ℕ, ◌+◌, ◌%◌, ◌^◌, ◌<◌, ◌≡◌, ap, none, [], ◌∷◌, Bytes, length, arith,
}
use passive_solar_mqtt_bridg.Prelude.Equality.{nat_eq}
use passive_solar_mqtt_bridg.Dict.{Dict, lookup}
use passive_solar_mqtt_bridg.Reassembly.{
  Segment, FlowState, u32_size, seq_before, advance, drain, accept, push,
}

-- The flow holds back one run, `ahead` bytes in front. A segment in order that reaches into that
-- run, and not to its end, is delivered alone: the run stays in the buffer under a number that the
-- flow has passed, so its bytes behind the segment are received and not delivered.
pub push_overlap :
    (s : FlowState) (segment : Segment) (ahead : ℕ) (run : Bytes)
    → s.next_seq < u32_size
    → segment.seq ≡ s.next_seq
    → s.buffered ≡ ((s.next_seq + ahead) % u32_size, run) ∷ []
    → 0 < ahead
    → ahead < length segment.bytes
    → length segment.bytes < ahead + length run
    → ahead + length run < 2 ^ 31
    → ((push s segment).0 ≡ segment.bytes ∷ [])
      × ((push s segment).1.buffered ≡ s.buffered)
      × ((push s segment).1.next_seq ≡ (s.next_seq + length segment.bytes) % u32_size)
unfolding push seq_before accept advance drain lookup
push_overlap s segment ahead run small now held pos reach part short =
    let next : ℕ = (s.next_seq + length segment.bytes % u32_size) % u32_size in
    let missed : lookup next s.buffered ≡ none = rw held (ground arith) in
    ground (arith, missed, ap (λ (m : Dict ℕ Bytes). length m) held)
