-- ===== src/Reassembly/Runs.antt =====
-- Runs of the reassembler, and its theorems at a small capture.
use passive_solar_mqtt_bridg.Prelude.{
  ℕ, ◌≡◌, refl, String, inl, true, List, [], ◌∷◌, Bytes, concat, arith,
}
use passive_solar_mqtt_bridg.Prelude.Equality.{nat_eq, string_eq}
use passive_solar_mqtt_bridg.Prelude.Slice.{slice}
use passive_solar_mqtt_bridg.Dict.{lookup, insert, delete}
use passive_solar_mqtt_bridg.Reassembly.{
  Segment, FlowState, new_assembler, seq_before, seq_distance, advance, drain, accept, push, start,
  flow, chunks_of, push_segment, push_all,
}
use passive_solar_mqtt_bridg.Reassembly.Stream.{Carries}
use passive_solar_mqtt_bridg.Reassembly.Flows.{
  output, of_flow, run_flow, IsRun, Sender, push_all-run_flow, push_all-IsRun,
}
use passive_solar_mqtt_bridg.Reassembly.Complete.{IsPiece}
use passive_solar_mqtt_bridg.Reassembly.Overlap.{push_overlap}

-- A stream of flow "a" in three pieces; its sequence numbers pass 2 ^ 32.
abbrev isn : ℕ
isn = 4294967294

abbrev cuts : List Bytes
cuts = (10 ∷ 11 ∷ []) ∷ (12 ∷ []) ∷ (13 ∷ 14 ∷ 15 ∷ []) ∷ []

abbrev segment : String → ℕ → Bytes → Segment
segment f seq bytes = record { flow_id = f; seq = seq; bytes = bytes }

abbrev first : Segment
first = segment "a" isn (10 ∷ 11 ∷ [])

abbrev second : Segment
second = segment "a" 0 (12 ∷ [])

abbrev third : Segment
third = segment "a" 1 (13 ∷ 14 ∷ 15 ∷ [])

abbrev noise : Segment
noise = segment "b" 7 (1 ∷ [])

abbrev capture : List Segment
capture = first ∷ noise ∷ third ∷ third ∷ second ∷ first ∷ []

capture_chunks :
    (push_all new_assembler capture).0
    ≡ record { flow_id = "a"; bytes = 10 ∷ 11 ∷ [] }
      ∷ record { flow_id = "b"; bytes = 1 ∷ [] }
      ∷ record { flow_id = "a"; bytes = 12 ∷ [] }
      ∷ record { flow_id = "a"; bytes = 13 ∷ 14 ∷ 15 ∷ [] }
      ∷ []
unfolding push_all push_segment push start flow chunks_of seq_before seq_distance accept drain
    advance lookup insert delete
capture_chunks = refl

-- A segment that repeats two bytes delivers what is new in it.
trimmed :
    (push_all new_assembler (first ∷ segment "a" isn (10 ∷ 11 ∷ 12 ∷ []) ∷ [])).0
    ≡ record { flow_id = "a"; bytes = 10 ∷ 11 ∷ [] }
      ∷ record { flow_id = "a"; bytes = 12 ∷ [] }
      ∷ []
unfolding push_all push_segment push start flow chunks_of seq_before seq_distance accept drain
    advance lookup insert delete
trimmed = refl

abbrev first-IsPiece : IsPiece isn cuts first
first-IsPiece = record { place = 0; at_place = refl; is_piece = inl (refl, refl) }

abbrev others : List Segment
others = third ∷ third ∷ second ∷ first ∷ []

push_all-run_flow_example :
    (output "b" (push_all new_assembler capture).0
      ≡ concat (run_flow (flow new_assembler "b") (of_flow "b" capture)).0)
    × (flow (push_all new_assembler capture).1 "b"
        ≡ (run_flow (flow new_assembler "b") (of_flow "b" capture)).1)
push_all-run_flow_example = push_all-run_flow new_assembler capture "b"

-- Both flows have the sender of "a" here, so that the noise is its second byte.
abbrev senders : String → Sender
senders f = record { isn = isn; sent = concat cuts; is_short = omega arith }

first-Carries : Carries isn (concat cuts) isn (10 ∷ 11 ∷ [])
unfolding slice
first-Carries = record { offset = 0; at_offset = refl; within = omega arith; is_run = refl }

third-Carries : Carries isn (concat cuts) 1 (13 ∷ 14 ∷ 15 ∷ [])
unfolding slice
third-Carries = record { offset = 3; at_offset = refl; within = omega arith; is_run = refl }

push_all-IsRun_example :
    IsRun (output "a" (push_all new_assembler (first ∷ third ∷ first ∷ [])).0) (concat cuts)
push_all-IsRun_example =
    push_all-IsRun senders (first ∷ third ∷ first ∷ []) "a"
      (first-Carries, (third-Carries, (first-Carries, tt)))

abbrev waiting : FlowState
waiting = record { next_seq = isn; started = true; buffered = []; bytes_read = 0 }

abbrev holding : FlowState
holding = record {
  next_seq = 100;
  started = true;
  buffered = (102, 3 ∷ 4 ∷ 5 ∷ []) ∷ [];
  bytes_read = 0;
}

push_overlap_example :
    ((push holding (segment "a" 100 (1 ∷ 2 ∷ 3 ∷ []))).0 ≡ (1 ∷ 2 ∷ 3 ∷ []) ∷ [])
    × ((push holding (segment "a" 100 (1 ∷ 2 ∷ 3 ∷ []))).1.buffered ≡ holding.buffered)
    × ((push holding (segment "a" 100 (1 ∷ 2 ∷ 3 ∷ []))).1.next_seq ≡ 103)
push_overlap_example =
    push_overlap holding (segment "a" 100 (1 ∷ 2 ∷ 3 ∷ [])) 2 (3 ∷ 4 ∷ 5 ∷ []) (omega arith) refl
      refl (omega arith) (omega arith) (omega arith) (omega arith)
