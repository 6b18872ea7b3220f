-- ===== src/Capture.antt =====
-- internal/capture: which packets count, and what the processor does with them. The parts of
-- pcap_file.go and processor.go that take no part in reading a capture device or file.
pub mod Processor
pub mod Effects
pub mod File
pub mod Summary
pub mod Follows
pub mod Pipeline
pub mod Replay
pub mod Live
pub mod Accepted
mod Runs
use passive_solar_mqtt_bridg.Prelude.{
  ℕ, ◌%◌, ◌^◌, Bool, ◌&&◌, ◌||◌, none, some, String, Bytes, ◌==◌,
}
use passive_solar_mqtt_bridg.Prelude.Equality.{Eq, string_eq}
use passive_solar_mqtt_bridg.Dict.{Dict, lookup}
use passive_solar_mqtt_bridg.Alphaess.{Decoder, new_decoder}

-- What the program reads of a `layers.IPv4` and the `layers.TCP` inside it.
pub record Packet (Ip : Type 0) : Type 0 where
  pub src_ip : Ip
  pub dst_ip : Ip
  pub src_port : ℕ
  pub dst_port : ℕ
  pub seq : ℕ
  pub payload : Bytes

-- A `time.Time` is a number, of which 0 is the zero time. The counters are 64 bits wide and count
-- packets and bytes of one run, so they are taken not to wrap.
pub record FileSummary : Type 0 where
  pub packets_total : ℕ
  pub ipv4_packets : ℕ
  pub tcp_packets : ℕ
  pub matched_packets : ℕ
  pub payload_packets : ℕ
  pub payload_bytes : ℕ
  pub stream_chunks : ℕ
  pub stream_bytes : ℕ
  pub json_messages : ℕ
  pub json_bytes : ℕ
  pub mqtt_publishes : ℕ
  pub mqtt_payload_bytes : ℕ
  pub status_publishes : ℕ
  pub status_payload_bytes : ℕ
  pub discovery_publishes : ℕ
  pub discovery_payload_bytes : ℕ
  pub first_packet_time : ℕ
  pub last_packet_time : ℕ

-- `Equal` on addresses is the test of `same`.
module _ {Ip : Type 0} ⦃same : Eq Ip⦄ where
  unfoldable pub is_alphaess_outbound : Packet Ip → Ip → Ip → ℕ → Bool
  is_alphaess_outbound x source_ip cloud_ip cloud_port =
      same.beq x.src_ip source_ip && same.beq x.dst_ip cloud_ip && x.dst_port == cloud_port

  unfoldable pub matches_alphaess_flow : Packet Ip → Ip → Ip → ℕ → Bool
  matches_alphaess_flow x source_ip cloud_ip cloud_port =
      is_alphaess_outbound x source_ip cloud_ip cloud_port
      || same.beq x.src_ip cloud_ip && same.beq x.dst_ip source_ip && x.src_port == cloud_port

-- The decoder of a flow, a new one if it has none yet; the caller writes it back.
unfoldable pub decoder_for_flow : Dict String Decoder → String → Decoder
decoder_for_flow decoders flow_id = elim (lookup flow_id decoders) [
  | none ↦ new_decoder
  | some decoder ↦ decoder
]
