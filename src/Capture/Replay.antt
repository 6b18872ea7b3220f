-- ===== src/Capture/Replay.antt =====
-- A capture file from its records to the published states, with other traffic in between.
use passive_solar_mqtt_bridg.Prelude.{
  ℕ, ◌≡◌, Bool, not, ◌&&◌, List, [], ◌∷◌, ◌++◌, String, length, ◌==◌, if◌then◌else◌,
}
use passive_solar_mqtt_bridg.Prelude.Equality.{Eq}
use passive_solar_mqtt_bridg.Reassembly.{Segment}
use passive_solar_mqtt_bridg.Capture.{Packet, is_alphaess_outbound}
use passive_solar_mqtt_bridg.Capture.File.{
  Layers, no_ipv4, no_tcp, tcp, Record, frame, unreadable, process_frame,
}
use passive_solar_mqtt_bridg.Capture.Processor.{Calls, Processor, ok, segment_of}
use passive_solar_mqtt_bridg.Capture.Follows.{FollowsAll}

abbrev pub IsFrame : {Ip : Type 0} → Record Ip → Type 0
IsFrame (frame timestamp layers) = Unit {0}
IsFrame unreadable = ⊥

module _ {Ip N O : Type 0} ⦃same : Eq Ip⦄ (calls : Calls Ip N O) where
  -- A packet that goes to the reassembly.
  abbrev is_read : Ip → Ip → ℕ → Packet Ip → Bool
  is_read source_ip cloud_ip cloud_port x =
      not (length x.payload == 0) && is_alphaess_outbound x source_ip cloud_ip cloud_port

  unfoldable pub layers_segments : Ip → Ip → ℕ → Layers Ip → List Segment
  layers_segments source_ip cloud_ip cloud_port no_ipv4 = []
  layers_segments source_ip cloud_ip cloud_port no_tcp = []
  layers_segments source_ip cloud_ip cloud_port (tcp x) =
      if is_read source_ip cloud_ip cloud_port x then segment_of calls x ∷ [] else []

  -- The segments of a file that go to the reassembly.
  unfoldable pub file_segments : Ip → Ip → ℕ → List (Record Ip) → List Segment
  file_segments source_ip cloud_ip cloud_port [] = []
  file_segments source_ip cloud_ip cloud_port (unreadable ∷ rs) = []
  file_segments source_ip cloud_ip cloud_port (frame timestamp layers ∷ rs) =
      layers_segments source_ip cloud_ip cloud_port layers
      ++ file_segments source_ip cloud_ip cloud_port rs

  abbrev Stepped : String → Processor Ip N O → ℕ → Layers Ip → Type 0
  Stepped f p timestamp layers =
      (q : Processor Ip N O) × (process_frame calls p timestamp layers ≡ (q, ok))
      × FollowsAll calls f p q (layers_segments p.source_ip p.cloud_ip p.opts.cloud_port layers)
