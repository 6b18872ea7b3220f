-- ===== src/Reassembly.antt =====
-- internal/reassembly/reassembly.go: TCP segments in, runs of the byte stream out.
-- A byte is a number below 256, a `uint32` a number below 2 ^ 32 whose arithmetic is written with
-- its wrap-around, and a method on `*flowState` or `*Assembler` returns the new state.
pub mod Stream
pub mod Flows
pub mod Complete
pub mod Overlap
mod Runs
pub use passive_solar_mqtt_bridg.Prelude.{Bytes}
use passive_solar_mqtt_bridg.Prelude.{
  ℕ, zero, suc, ◌+◌, ◌-◌, ◌%◌, ◌^◌, String, Bool, true, false, not, none, some, List, [], ◌∷◌, ◌++◌,
  map, ltb, leb, ◌==◌, if◌then◌else◌, length, drop,
}
use passive_solar_mqtt_bridg.Prelude.Equality.{nat_eq, string_eq}
use passive_solar_mqtt_bridg.Dict.{Dict, lookup, insert, delete}

abbrev pub u32_size : ℕ
u32_size = 2 ^ 32

pub record Segment : Type 0 where
  pub flow_id : String
  pub seq : ℕ
  pub bytes : Bytes

pub record StreamChunk : Type 0 where
  pub flow_id : String
  pub bytes : Bytes

pub record FlowState : Type 0 where
  pub next_seq : ℕ
  pub started : Bool
  pub buffered : Dict ℕ Bytes
  pub bytes_read : ℕ

pub record Assembler : Type 0 where
  pub flows : Dict String FlowState

abbrev pub new_assembler : Assembler
new_assembler = record { flows = [] }

abbrev pub new_flow : FlowState
new_flow = record { next_seq = 0; started = false; buffered = []; bytes_read = 0 }

-- `int32(a-b) < 0`: the difference modulo 2 ^ 32 has its top bit set.
unfoldable pub seq_before : ℕ → ℕ → Bool
seq_before a b = not (ltb ((a + u32_size - b) % u32_size) (2 ^ 31))

unfoldable pub seq_distance : ℕ → ℕ → ℕ
seq_distance from to = (to + u32_size - from) % u32_size

-- The argument is `uint32(len(data))`, so it is reduced first.
unfoldable pub advance : FlowState → ℕ → FlowState
advance s len =
    let n = len % u32_size in
    record s { next_seq = (s.next_seq + n) % u32_size; bytes_read = s.bytes_read + n }

-- The loop that appends buffered runs for as long as one starts at `next_seq`. Each round takes an
-- entry out of `buffered`, so as many rounds as there are entries are enough.
unfoldable pub drain : ℕ → FlowState → List Bytes × FlowState
drain zero s = ([], s)
drain (suc fuel) s = elim (lookup s.next_seq s.buffered) [
  | none ↦ ([], s)
  | some next ↦
      let (chunks, s') =
        drain fuel (advance (record s { buffered = delete s.next_seq s.buffered }) (length next)) in
      (next ∷ chunks, s')
]

-- From `seq != s.nextSeq` to the end of `push`, for a segment that is already trimmed.
unfoldable pub accept : FlowState → ℕ → Bytes → List Bytes × FlowState
accept s seq bytes =
    if seq == s.next_seq
    then (let ahead = advance s (length bytes) in
        let (chunks, s') = drain (length ahead.buffered) ahead in (bytes ∷ chunks, s'))
    else (elim (lookup seq s.buffered) [
      | none ↦ ([], record s { buffered = insert seq bytes s.buffered })
      | some _ ↦ ([], s)
    ])

-- `flowState.push`: drop what was read before, then deliver or buffer the rest.
unfoldable pub push : FlowState → Segment → List Bytes × FlowState
push s segment =
    if seq_before segment.seq s.next_seq
    then (let already_read = seq_distance segment.seq s.next_seq in
        if leb (length segment.bytes % u32_size) already_read
        then ([], s)
        else accept s s.next_seq (drop already_read segment.bytes))
    else accept s segment.seq segment.bytes

-- The first segment that is seen starts the flow at its own sequence number.
unfoldable pub start : FlowState → ℕ → FlowState
start s seq = if s.started then s else record s { started = true; next_seq = seq }

unfoldable pub flow : Assembler → String → FlowState
flow a flow_id = elim (lookup flow_id a.flows) [ none ↦ new_flow | some s ↦ s ]

-- One chunk of the flow for each run; a Go `nil` is the empty list.
unfoldable pub chunks_of : String → List Bytes → List StreamChunk
chunks_of flow_id = map (λ bytes. record { flow_id = flow_id; bytes = bytes })

-- `Assembler.Push`.
unfoldable pub push_segment : Assembler → Segment → List StreamChunk × Assembler
push_segment a segment =
    if length segment.bytes == 0
    then ([], a)
    else (let (chunks, s) = push (start (flow a segment.flow_id) segment.seq) segment in
        (chunks_of segment.flow_id chunks, record { flows = insert segment.flow_id s a.flows }))

-- A capture: all segments in the order in which they were seen.
unfoldable pub push_all : Assembler → List Segment → List StreamChunk × Assembler
push_all a [] = ([], a)
push_all a (x ∷ xs) =
    let (now, a') = push_segment a x in let (later, a'') = push_all a' xs in (now ++ later, a'')
