-- ===== src/Capture/Summary.antt =====
-- The counters of a run: each is at most the one above it, whatever is read and wherever it stops.
pub mod Whole
use passive_solar_mqtt_bridg.Prelude.{
  ℕ, ◌+◌, ◌≤◌, ◌<◌, ◌≡◌, Bool, not, ◌&&◌, inl, inr, List, [], ◌∷◌, Bytes, arith, Bool-cases,
  Option-cases, ◌==◌, length, length-append,
}
use passive_solar_mqtt_bridg.Prelude.Equality.{Eq, string_eq}
use passive_solar_mqtt_bridg.Prelude.Text.{bytes_eq}
use passive_solar_mqtt_bridg.Alphaess
use passive_solar_mqtt_bridg.Dict.{Dict, insert}
use passive_solar_mqtt_bridg.Mqtt.{Message, raw_state_message}
use passive_solar_mqtt_bridg.State.{Value, marshal}
use passive_solar_mqtt_bridg.Reassembly.{StreamChunk, push_segment}
use passive_solar_mqtt_bridg.Capture.File.{
  Layers, no_ipv4, no_tcp, tcp, Record, frame, unreadable, wait_for_replay_time, count_layers,
  process_layers, process_frame, read_frames, stop_on, ReadEnd,
}
use passive_solar_mqtt_bridg.Capture.{
  FileSummary, Packet, decoder_for_flow, is_alphaess_outbound, matches_alphaess_flow,
}
use passive_solar_mqtt_bridg.Capture.Processor.{
  Calls, Processor, Outcome, ok, marshal_failed, publish_failed, discovery_failed, ◌>>=◌, publish,
  add_packet, add_ipv4_packet, add_tcp_packet, process_message, process_messages, process_chunk,
  process_chunks, segment_of, process_outbound_payload, count_matched, process_decoded_tcp,
  merge_fields,
}

-- The messages that were to be published.
abbrev pub planned : FileSummary → ℕ
planned s = s.mqtt_publishes + s.status_publishes + s.discovery_publishes

-- Of the packets, those with an IPv4 layer; of these those with TCP; of these those that match; of
-- these those with a payload. Every state that is published was made for a message, and no message
-- is published that is not counted.
pub record IsSound {Ip N O : Type 0} (p : Processor Ip N O) : Type 0 where
  pub ipv4 : p.summary.ipv4_packets ≤ p.summary.packets_total
  pub tcp : p.summary.tcp_packets ≤ p.summary.ipv4_packets
  pub matched : p.summary.matched_packets ≤ p.summary.tcp_packets
  pub payload : p.summary.payload_packets ≤ p.summary.matched_packets
  pub states : p.summary.mqtt_publishes ≤ p.summary.json_messages
  pub accepted : length p.published ≤ planned p.summary

module _ {Ip N O : Type 0} where
  -- What messages do to the counters: those of packets stay, and the others keep their relation.
  pub record Keeps (p q : Processor Ip N O) : Type 0 where
    pub total : q.summary.packets_total ≡ p.summary.packets_total
    pub ipv4 : q.summary.ipv4_packets ≡ p.summary.ipv4_packets
    pub tcp : q.summary.tcp_packets ≡ p.summary.tcp_packets
    pub matched : q.summary.matched_packets ≡ p.summary.matched_packets
    pub payload : q.summary.payload_packets ≡ p.summary.payload_packets
    pub states :
        q.summary.mqtt_publishes + p.summary.json_messages
        ≤ p.summary.mqtt_publishes + q.summary.json_messages
    pub paid : length q.published + planned p.summary ≤ length p.published + planned q.summary

  pub Keeps-refl : (p : Processor Ip N O) → Keeps p p
  Keeps-refl p = ground arith

  pub Keeps-trans : (p q r : Processor Ip N O) → Keeps p q → Keeps q r → Keeps p r
  Keeps-trans p q r h k = ground arith

  pub Keeps-bind :
      (p : Processor Ip N O) (r : Processor Ip N O × Outcome)
      (f : Processor Ip N O → Processor Ip N O × Outcome)
      → Keeps p r.0
      → ((q : Processor Ip N O) → Keeps q (f q).0)
      → Keeps p (r >>= f).0
  Keeps-bind p (q, ok) f h k = Keeps-trans p q (f q).0 h (k q)
  Keeps-bind p (q, marshal_failed) f h k = h
  Keeps-bind p (q, publish_failed) f h k = h
  Keeps-bind p (q, discovery_failed) f h k = h

  -- Publishing counts nothing, and adds one message at most.
  pub publish_one :
      (p : Processor Ip N O) (m : Message)
      → ((publish p m).0.summary ≡ p.summary)
        × (length (publish p m).0.published ≤ length p.published + 1)
  unfolding publish
  publish_one p m = ground (arith, length-append p.published (m ∷ []))

module _ {Ip N O : Type 0} ⦃same : Eq Ip⦄ (calls : Calls Ip N O) where
  process_message-Keeps :
      (p : Processor Ip N O) (m : Alphaess.Message (Dict Bytes (Value N O)))
      → Keeps p (process_message calls p m).0
  unfolding process_message
  process_message-Keeps p m =
      elim (Option-cases (
        marshal calls.floats calls.marshal_state (merge_fields p.fields m.fields) p.opts.device_id
          p.opts.device_name)) [
            | inl e ↦ rw (process_message, e) (ground arith)
            | inr (payload, e) ↦
                let q : Processor Ip N O = record p {
                  fields = merge_fields p.fields m.fields;
                  summary = record p.summary {
                    json_messages = p.summary.json_messages + 1;
                    json_bytes = p.summary.json_bytes + length m.raw_json;
                    mqtt_publishes = p.summary.mqtt_publishes + 1;
                    mqtt_payload_bytes = p.summary.mqtt_payload_bytes + length payload;
                  };
                } in
                rw (process_message, e)
                  (ground (arith, publish_one q (raw_state_message p.opts.topic_base payload)))
          ]

  process_messages-Keeps :
      (p : Processor Ip N O) (ms : List (Alphaess.Message (Dict Bytes (Value N O))))
      → Keeps p (process_messages calls p ms).0
  unfolding process_messages
  process_messages-Keeps p [] = Keeps-refl p
  process_messages-Keeps p (m ∷ ms) =
      Keeps-bind p (process_message calls p m) (λ q. process_messages calls q ms)
        (process_message-Keeps p m) (λ q. process_messages-Keeps q ms)

  process_chunk-Keeps :
      (p : Processor Ip N O) (c : StreamChunk) → Keeps p (process_chunk calls p c).0
  unfolding process_chunk
  process_chunk-Keeps p c =
      let (messages, decoder) =
        Alphaess.push calls.unmarshal (decoder_for_flow p.decoders c.flow_id) c.bytes in
      let q : Processor Ip N O = record p {
        decoders = insert c.flow_id decoder p.decoders;
        summary = record p.summary {
          stream_chunks = p.summary.stream_chunks + 1;
          stream_bytes = p.summary.stream_bytes + length c.bytes;
        };
      } in
      Keeps-trans p q (process_messages calls q messages).0 (ground arith)
        (process_messages-Keeps q messages)

  process_chunks-Keeps :
      (p : Processor Ip N O) (cs : List StreamChunk) → Keeps p (process_chunks calls p cs).0
  unfolding process_chunks
  process_chunks-Keeps p [] = Keeps-refl p
  process_chunks-Keeps p (c ∷ cs) =
      Keeps-bind p (process_chunk calls p c) (λ q. process_chunks calls q cs)
        (process_chunk-Keeps p c) (λ q. process_chunks-Keeps q cs)

  process_outbound_payload-Keeps :
      (p : Processor Ip N O) (x : Packet Ip) → Keeps p (process_outbound_payload calls p x).0
  unfolding process_outbound_payload
  process_outbound_payload-Keeps p x =
      let (chunks, assembler) = push_segment p.assembler (segment_of calls x) in
      let q : Processor Ip N O = record p { assembler = assembler } in
      Keeps-trans p q (process_chunks calls q chunks).0 (ground arith)
        (process_chunks-Keeps q chunks)

  pub IsSound-Keeps : (p q : Processor Ip N O) → IsSound p → Keeps p q → IsSound q
  IsSound-Keeps p q s k = ground arith

  count_matched-IsSound :
      (p : Processor Ip N O) (n : ℕ)
      → IsSound p
      → p.summary.matched_packets < p.summary.tcp_packets
      → IsSound (record p { summary = count_matched calls p.summary n })
  unfolding count_matched
  count_matched-IsSound p n s lt = ground arith

  -- A packet is counted as matching once at most.
  process_decoded_tcp-IsSound :
      (p : Processor Ip N O) (x : Packet Ip)
      → IsSound p
      → p.summary.matched_packets < p.summary.tcp_packets
      → IsSound (process_decoded_tcp calls p x).0
  unfolding process_decoded_tcp
  process_decoded_tcp-IsSound p x s lt =
      let q : Processor Ip N O = record p {
        summary = count_matched calls p.summary (length x.payload);
      } in
      let sound = count_matched-IsSound p (length x.payload) s lt in
      elim (Bool-cases (not (matches_alphaess_flow x p.source_ip p.cloud_ip p.opts.cloud_port))) [
        | inl e ↦ rw e s
        | inr e ↦
            elim (Bool-cases (
              not (length x.payload == 0)
              && is_alphaess_outbound x p.source_ip p.cloud_ip p.opts.cloud_port)) [
                | inl f ↦
                    rw (e, f)
                      (IsSound-Keeps q (process_outbound_payload calls q x).0 sound
                        (process_outbound_payload-Keeps q x))
                | inr f ↦ rw (e, f) sound
              ]
      ]

  process_frame-IsSound :
      (p : Processor Ip N O) (timestamp : ℕ) (layers : Layers Ip)
      → IsSound p
      → IsSound (process_frame calls p timestamp layers).0
  unfolding process_frame count_layers process_layers add_packet add_ipv4_packet add_tcp_packet
  process_frame-IsSound p timestamp no_ipv4 s = ground arith
  process_frame-IsSound p timestamp no_tcp s = ground arith
  process_frame-IsSound p timestamp (tcp x) s =
      let q = count_layers calls (tcp x) (add_packet p timestamp) in
      elim (Bool-cases (matches_alphaess_flow x p.source_ip p.cloud_ip p.opts.cloud_port)) [
        | inl e ↦ rw e (process_decoded_tcp-IsSound q x (ground arith) (ground arith))
        | inr e ↦ rw e (ground arith)
      ]

  stop_on-IsSound :
      (o : Outcome) (p : Processor Ip N O) (r : Processor Ip N O × ReadEnd)
      → IsSound p
      → IsSound r.0
      → IsSound (stop_on calls o p r).0
  unfolding stop_on
  stop_on-IsSound ok p r s t = t
  stop_on-IsSound marshal_failed p r s t = s
  stop_on-IsSound publish_failed p r s t = s
  stop_on-IsSound discovery_failed p r s t = s

  -- Reading frames keeps the counters sound.
  pub read_frames-IsSound :
      (done_before : ℕ → Bool) (realtime : Bool) (p : Processor Ip N O) (previous : ℕ)
      (records : List (Record Ip))
      → IsSound p
      → IsSound (read_frames calls done_before realtime p previous records).0
  unfolding read_frames
  read_frames-IsSound done_before realtime p previous [] s = s
  read_frames-IsSound done_before realtime p previous (unreadable ∷ rs) s = s
  read_frames-IsSound done_before realtime p previous (frame timestamp layers ∷ rs) s =
      let now = process_frame-IsSound p timestamp layers s in
      elim (Bool-cases (wait_for_replay_time done_before realtime previous timestamp)) [
        | inr e ↦ rw e s
        | inl e ↦ rw e (
            stop_on-IsSound (process_frame calls p timestamp layers).1 _ _ now (
              read_frames-IsSound done_before realtime (process_frame calls p timestamp layers).0
                timestamp rs now))
      ]
