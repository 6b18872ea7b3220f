-- ===== src/Capture/Processor.antt =====
-- internal/capture/processor.go: the pipeline from a packet to the messages that are published.
-- A method returns the new processor and how it ended, so that what an error leaves behind is
-- seen. Verbose output is left out. What the program calls is in `Calls`: `net.ParseIP`, the format
-- of `tcpFlowID`, floating point, and the two ways of the package json.
use passive_solar_mqtt_bridg.Prelude.{
  ℕ, ◌+◌, Bool, not, ◌&&◌, Option, none, some, List, [], ◌∷◌, ◌++◌, String, Bytes, length, ◌==◌,
  if◌then◌else◌,
}
use passive_solar_mqtt_bridg.Prelude.Equality.{Eq, string_eq}
use passive_solar_mqtt_bridg.Dict.{Dict, insert}
use passive_solar_mqtt_bridg.Reassembly.{
  Segment, StreamChunk, Assembler, new_assembler, push_segment,
}
use passive_solar_mqtt_bridg.Alphaess
use passive_solar_mqtt_bridg.Alphaess.{Decoder}
use passive_solar_mqtt_bridg.Mqtt.{Message, raw_state_message, status_message}
use passive_solar_mqtt_bridg.Prelude.Text.{bytes_eq}
use passive_solar_mqtt_bridg.State.{Value, Floats, Payload, marshal}
use passive_solar_mqtt_bridg.HomeAssistant.{
  Device, Sensor, DiscoveryPayload, base_sensors, discovery_messages,
}
use passive_solar_mqtt_bridg.Capture.{
  Packet, FileSummary, is_alphaess_outbound, matches_alphaess_flow, decoder_for_flow,
}

-- How a call ends: without an error, or with that of the step that failed.
pub data Outcome : Type 0 where
  ok marshal_failed publish_failed discovery_failed : Outcome

-- The code that the program calls, and the types it hands over: an address, a `float64`, and a
-- value of another type.
pub record Calls (Ip N O : Type 0) : Type 0 where
  pub parse_ip : Bytes → Option Ip
  pub flow_name : Ip → ℕ → Ip → ℕ → String
  pub unmarshal : Bytes → Option (Dict Bytes (Value N O))
  pub floats : Floats N O
  pub marshal_state : Payload N O → Option Bytes
  pub marshal_discovery : DiscoveryPayload → Option Bytes

-- A publisher says whether a message is accepted after those it accepted before.
pub record ProcessorOptions : Type 0 where
  pub source_ip : Bytes
  pub cloud_ip : Bytes
  pub cloud_port : ℕ
  pub topic_base : Bytes
  pub device_id : Bytes
  pub device_name : Bytes
  pub discovery_prefix : Bytes
  pub sensors : List Sensor
  pub publisher : Option (List Message → Message → Bool)

-- `published` is what the publisher accepted, oldest first; the program keeps no record of it.
pub record Processor (Ip N O : Type 0) : Type 0 where
  pub opts : ProcessorOptions
  pub source_ip : Ip
  pub cloud_ip : Ip
  pub assembler : Assembler
  pub decoders : Dict String Decoder
  pub fields : Dict Bytes (Value N O)
  pub summary : FileSummary
  pub published : List Message

abbrev pub no_summary : FileSummary
no_summary = record {
  packets_total = 0;
  ipv4_packets = 0;
  tcp_packets = 0;
  matched_packets = 0;
  payload_packets = 0;
  payload_bytes = 0;
  stream_chunks = 0;
  stream_bytes = 0;
  json_messages = 0;
  json_bytes = 0;
  mqtt_publishes = 0;
  mqtt_payload_bytes = 0;
  status_publishes = 0;
  status_payload_bytes = 0;
  discovery_publishes = 0;
  discovery_payload_bytes = 0;
  first_packet_time = 0;
  last_packet_time = 0;
}

-- "online"
abbrev pub online : Bytes
online = b'o' ∷ b'n' ∷ b'l' ∷ b'i' ∷ b'n' ∷ b'e' ∷ []

module _ {V : Type 0} where
  -- `range` visits the entries of a map in any order; here it is that of the list.
  unfoldable pub merge_fields : Dict Bytes V → Dict Bytes V → Dict Bytes V
  merge_fields fields [] = fields
  merge_fields fields ((key, value) ∷ more) = merge_fields (insert key value fields) more

module _ {Ip N O : Type 0} where
  -- `if err := …; err != nil { return err }`, and then the rest.
  infixl 5 ◌>>=◌
  abbrev pub ◌>>=◌ :
      Processor Ip N O × Outcome
      → (Processor Ip N O → Processor Ip N O × Outcome)
      → Processor Ip N O × Outcome
  (p, ok) >>= next = next p
  (p, marshal_failed) >>= next = (p, marshal_failed)
  (p, publish_failed) >>= next = (p, publish_failed)
  (p, discovery_failed) >>= next = (p, discovery_failed)

  -- `Publisher.PublishJSON`, if there is a publisher.
  unfoldable pub publish : Processor Ip N O → Message → Processor Ip N O × Outcome
  publish p message = elim p.opts.publisher [
    | none ↦ (p, ok)
    | some accepts ↦
        if accepts p.published message
        then (record p { published = p.published ++ message ∷ [] }, ok)
        else (p, publish_failed)
  ]

  unfoldable pub add_packet : Processor Ip N O → ℕ → Processor Ip N O
  add_packet p timestamp =
      let s = p.summary in
      record p {
        summary = record s {
          packets_total = s.packets_total + 1;
          first_packet_time = if s.first_packet_time == 0 then timestamp else s.first_packet_time;
          last_packet_time = timestamp;
        };
      }

  unfoldable pub add_ipv4_packet : Processor Ip N O → Processor Ip N O
  add_ipv4_packet p = record p {
    summary = record p.summary { ipv4_packets = p.summary.ipv4_packets + 1 };
  }

  unfoldable pub add_tcp_packet : Processor Ip N O → Processor Ip N O
  add_tcp_packet p = record p {
    summary = record p.summary { tcp_packets = p.summary.tcp_packets + 1 };
  }

  unfoldable pub plan_availability : Processor Ip N O → Processor Ip N O × Outcome
  plan_availability p =
      let message = status_message p.opts.topic_base online in
      let s = p.summary in
      publish
        (record p {
          summary = record s {
            status_publishes = s.status_publishes + 1;
            status_payload_bytes = s.status_payload_bytes + length message.payload;
          };
        })
        message

  -- The loop of `planDiscovery`.
  unfoldable pub publish_discovery : Processor Ip N O → List Message → Processor Ip N O × Outcome
  publish_discovery p [] = (p, ok)
  publish_discovery p (message ∷ messages) =
      let s = p.summary in
      publish
        (record p {
          summary = record s {
            discovery_publishes = s.discovery_publishes + 1;
            discovery_payload_bytes = s.discovery_payload_bytes + length message.payload;
          };
        })
        message
      >>= λ p'. publish_discovery p' messages

module _ {Ip N O : Type 0} ⦃same : Eq Ip⦄ (calls : Calls Ip N O) where
  unfoldable pub plan_discovery : Processor Ip N O → Processor Ip N O × Outcome
  plan_discovery p =
      let sensors = if length p.opts.sensors == 0 then base_sensors else p.opts.sensors in
      let device : Device = record {
        id = p.opts.device_id;
        name = p.opts.device_name;
        manufacturer = [];
        model = [];
      } in
      elim (discovery_messages calls.marshal_discovery p.opts.discovery_prefix p.opts.topic_base
        device sensors) [
          | none ↦ (p, discovery_failed)
          | some messages ↦ publish_discovery p messages
        ]

  -- `NewProcessor`: no processor, and no message, if an address does not parse. What was published
  -- before a failure is in the processor that comes with it, which the program drops.
  unfoldable pub new_processor : ProcessorOptions → Option (Processor Ip N O × Outcome)
  new_processor opts = elim (calls.parse_ip opts.source_ip) [
    | none ↦ none
    | some source_ip ↦ elim (calls.parse_ip opts.cloud_ip) [
      | none ↦ none
      | some cloud_ip ↦ some (
          plan_availability (record {
            opts = opts;
            source_ip = source_ip;
            cloud_ip = cloud_ip;
            assembler = new_assembler;
            decoders = [];
            fields = [];
            summary = no_summary;
            published = [];
          })
          >>= plan_discovery)
    ]
  ]

  unfoldable pub process_message :
      Processor Ip N O → Alphaess.Message (Dict Bytes (Value N O)) → Processor Ip N O × Outcome
  process_message p message =
      let s = p.summary in
      let counted = record s {
        json_messages = s.json_messages + 1;
        json_bytes = s.json_bytes + length message.raw_json;
      } in
      let fields = merge_fields p.fields message.fields in
      elim (marshal calls.floats calls.marshal_state fields p.opts.device_id p.opts.device_name) [
        | none ↦ (record p { summary = counted; fields = fields }, marshal_failed)
        | some payload ↦
            publish
              (record p {
                fields = fields;
                summary = record counted {
                  mqtt_publishes = s.mqtt_publishes + 1;
                  mqtt_payload_bytes = s.mqtt_payload_bytes + length payload;
                };
              })
              (raw_state_message p.opts.topic_base payload)
      ]

  unfoldable pub process_messages :
      Processor Ip N O
      → List (Alphaess.Message (Dict Bytes (Value N O)))
      → Processor Ip N O × Outcome
  process_messages p [] = (p, ok)
  process_messages p (m ∷ ms) = process_message p m >>= λ p'. process_messages p' ms

  -- A chunk: count it, and let the decoder of its flow read it.
  unfoldable pub process_chunk : Processor Ip N O → StreamChunk → Processor Ip N O × Outcome
  process_chunk p chunk =
      let s = p.summary in
      let (messages, decoder) =
        Alphaess.push calls.unmarshal (decoder_for_flow p.decoders chunk.flow_id) chunk.bytes in
      process_messages
        (record p {
          decoders = insert chunk.flow_id decoder p.decoders;
          summary = record s {
            stream_chunks = s.stream_chunks + 1;
            stream_bytes = s.stream_bytes + length chunk.bytes;
          };
        })
        messages

  unfoldable pub process_chunks : Processor Ip N O → List StreamChunk → Processor Ip N O × Outcome
  process_chunks p [] = (p, ok)
  process_chunks p (c ∷ cs) = process_chunk p c >>= λ p'. process_chunks p' cs

  unfoldable pub segment_of : Packet Ip → Segment
  segment_of x = record {
    flow_id = calls.flow_name x.src_ip x.src_port x.dst_ip x.dst_port;
    seq = x.seq;
    bytes = x.payload;
  }

  unfoldable pub process_outbound_payload :
      Processor Ip N O → Packet Ip → Processor Ip N O × Outcome
  process_outbound_payload p x =
      let (chunks, assembler) = push_segment p.assembler (segment_of x) in
      process_chunks (record p { assembler = assembler }) chunks

  -- The counters of a packet that matches.
  unfoldable pub count_matched : FileSummary → ℕ → FileSummary
  count_matched s payload_len =
      if payload_len == 0 then record s { matched_packets = s.matched_packets + 1 } else record s {
        matched_packets = s.matched_packets + 1;
        payload_packets = s.payload_packets + 1;
        payload_bytes = s.payload_bytes + payload_len;
      }

  unfoldable pub process_decoded_tcp : Processor Ip N O → Packet Ip → Processor Ip N O × Outcome
  process_decoded_tcp p x =
      if not (matches_alphaess_flow x p.source_ip p.cloud_ip p.opts.cloud_port)
      then (p, ok)
      else (let counted = record p { summary = count_matched p.summary (length x.payload) } in
          if not (length x.payload == 0)
            && is_alphaess_outbound x p.source_ip p.cloud_ip p.opts.cloud_port
          then process_outbound_payload counted x
          else (counted, ok))

  -- The packets of a capture, up to the first error, which ends the run.
  unfoldable pub process_all : Processor Ip N O → List (Packet Ip) → Processor Ip N O × Outcome
  process_all p [] = (p, ok)
  process_all p (x ∷ xs) = process_decoded_tcp p x >>= λ p'. process_all p' xs
