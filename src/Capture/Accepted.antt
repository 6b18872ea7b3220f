-- ===== src/Capture/Accepted.antt =====
-- What the publisher accepted: a property of the messages that every accepted message keeps holds
-- of all that a processor published, whatever is read and wherever it stops.
pub mod Live
use passive_solar_mqtt_bridg.Prelude.{
  ℕ, ◌≡◌, Bool, true, not, ◌&&◌, inl, inr, Option, none, some, List, [], ◌∷◌, ◌++◌, Bytes, length,
  Bool-cases, Option-cases, ◌==◌, if◌then◌else◌,
}
use passive_solar_mqtt_bridg.Prelude.Equality.{Eq, string_eq}
use mathlib.Core.Path.{subst}
use passive_solar_mqtt_bridg.Prelude.Text.{bytes_eq, is_empty}
use passive_solar_mqtt_bridg.Alphaess
use passive_solar_mqtt_bridg.Dict.{Dict, insert}
use passive_solar_mqtt_bridg.Mqtt.{Message, raw_state_message, status_message}
use passive_solar_mqtt_bridg.State.{Value, marshal}
use passive_solar_mqtt_bridg.HomeAssistant.{Device, base_sensors, discovery_messages}
use passive_solar_mqtt_bridg.Reassembly.{StreamChunk, push_segment}
use passive_solar_mqtt_bridg.Capture.{
  Packet, decoder_for_flow, is_alphaess_outbound, matches_alphaess_flow,
}
use passive_solar_mqtt_bridg.Capture.File.{
  Layers, no_ipv4, no_tcp, tcp, Record, frame, unreadable, wait_for_replay_time, count_layers,
  process_layers, process_frame, read_frames, stop_on, ReadEnd, FileResult, path_required,
  open_failed, invalid_address, start_failed, read, read_file,
}
use passive_solar_mqtt_bridg.Capture.Processor.{
  Calls, ProcessorOptions, Processor, Outcome, ok, marshal_failed, publish_failed, discovery_failed,
  ◌>>=◌, publish, add_packet, add_ipv4_packet, add_tcp_packet, plan_availability, publish_discovery,
  plan_discovery, new_processor, process_message, process_messages, process_chunk, process_chunks,
  segment_of, process_outbound_payload, count_matched, process_decoded_tcp, merge_fields, online,
}

module _ {Ip N O : Type 0} ⦃same : Eq Ip⦄ (calls : Calls Ip N O)
    (accepts : List Message → Message → Bool) (P : List Message → Type 0)
    (keeps : (sent : List Message) (m : Message)
      → accepts sent m ≡ true
      → P sent
      → P (sent ++ m ∷ [])) where
  -- The processor publishes to this publisher, and what it published has the property.
  abbrev pub IsFed : Processor Ip N O → Type 0
  IsFed p = (p.opts.publisher ≡ some accepts) × P p.published

  publish-IsFed : (p : Processor Ip N O) (m : Message) → IsFed p → IsFed (publish p m).0
  unfolding publish
  publish-IsFed p m (fed, h) = elim (Bool-cases (accepts p.published m)) [
    | inl e ↦ rw (publish, fed, e) (fed, keeps p.published m e h)
    | inr e ↦ rw (publish, fed, e) (fed, h)
  ]

  bind-IsFed :
      (r : Processor Ip N O × Outcome) (f : Processor Ip N O → Processor Ip N O × Outcome)
      → IsFed r.0
      → ((q : Processor Ip N O) → IsFed q → IsFed (f q).0)
      → IsFed (r >>= f).0
  bind-IsFed (q, ok) f h k = k q h
  bind-IsFed (q, marshal_failed) f h k = h
  bind-IsFed (q, publish_failed) f h k = h
  bind-IsFed (q, discovery_failed) f h k = h

  plan_availability-IsFed : (p : Processor Ip N O) → IsFed p → IsFed (plan_availability p).0
  unfolding plan_availability
  plan_availability-IsFed p h = publish-IsFed _ (status_message p.opts.topic_base online) h

  publish_discovery-IsFed :
      (p : Processor Ip N O) (ms : List Message) → IsFed p → IsFed (publish_discovery p ms).0
  unfolding publish_discovery
  publish_discovery-IsFed p [] h = h
  publish_discovery-IsFed p (m ∷ ms) h =
      bind-IsFed _ (λ q. publish_discovery q ms) (publish-IsFed _ m h)
        (λ q k. publish_discovery-IsFed q ms k)

  plan_discovery-IsFed : (p : Processor Ip N O) → IsFed p → IsFed (plan_discovery calls p).0
  unfolding plan_discovery
  plan_discovery-IsFed p h =
      let sensors = if length p.opts.sensors == 0 then base_sensors else p.opts.sensors in
      let device : Device = record {
        id = p.opts.device_id;
        name = p.opts.device_name;
        manufacturer = [];
        model = [];
      } in
      elim (Option-cases (
        discovery_messages calls.marshal_discovery p.opts.discovery_prefix p.opts.topic_base device
          sensors)) [
            | inl e ↦ rw (plan_discovery, e) h
            | inr (ms, e) ↦ rw (plan_discovery, e) (publish_discovery-IsFed p ms h)
          ]

  process_message-IsFed :
      (p : Processor Ip N O) (m : Alphaess.Message (Dict Bytes (Value N O)))
      → IsFed p
      → IsFed (process_message calls p m).0
  unfolding process_message
  process_message-IsFed p m h =
      elim (Option-cases (
        marshal calls.floats calls.marshal_state (merge_fields p.fields m.fields) p.opts.device_id
          p.opts.device_name)) [
            | inl e ↦ rw (process_message, e) h
            | inr (payload, e) ↦
                rw (process_message, e)
                  (publish-IsFed _ (raw_state_message p.opts.topic_base payload) h)
          ]

  process_messages-IsFed :
      (p : Processor Ip N O) (ms : List (Alphaess.Message (Dict Bytes (Value N O))))
      → IsFed p
      → IsFed (process_messages calls p ms).0
  unfolding process_messages
  process_messages-IsFed p [] h = h
  process_messages-IsFed p (m ∷ ms) h =
      bind-IsFed (process_message calls p m) (λ q. process_messages calls q ms)
        (process_message-IsFed p m h) (λ q k. process_messages-IsFed q ms k)

  process_chunks-IsFed :
      (p : Processor Ip N O) (cs : List StreamChunk) → IsFed p → IsFed (process_chunks calls p cs).0
  unfolding process_chunks process_chunk
  process_chunks-IsFed p [] h = h
  process_chunks-IsFed p (c ∷ cs) h =
      bind-IsFed (process_chunk calls p c) (λ q. process_chunks calls q cs)
        (process_messages-IsFed _ _ h) (λ q k. process_chunks-IsFed q cs k)

  process_decoded_tcp-IsFed :
      (p : Processor Ip N O) (x : Packet Ip) → IsFed p → IsFed (process_decoded_tcp calls p x).0
  unfolding process_decoded_tcp process_outbound_payload
  process_decoded_tcp-IsFed p x h =
      elim (Bool-cases (not (matches_alphaess_flow x p.source_ip p.cloud_ip p.opts.cloud_port))) [
        | inl e ↦ rw e h
        | inr e ↦
            elim (Bool-cases (
              not (length x.payload == 0)
              && is_alphaess_outbound x p.source_ip p.cloud_ip p.opts.cloud_port)) [
                | inl f ↦ rw (e, f) (process_chunks-IsFed _ _ h)
                | inr f ↦ rw (e, f) h
              ]
      ]

  process_frame-IsFed :
      (p : Processor Ip N O) (timestamp : ℕ) (layers : Layers Ip)
      → IsFed p
      → IsFed (process_frame calls p timestamp layers).0
  unfolding process_frame count_layers process_layers add_packet add_ipv4_packet add_tcp_packet
  process_frame-IsFed p timestamp no_ipv4 h = h
  process_frame-IsFed p timestamp no_tcp h = h
  process_frame-IsFed p timestamp (tcp x) h =
      elim (Bool-cases (matches_alphaess_flow x p.source_ip p.cloud_ip p.opts.cloud_port)) [
        | inl e ↦ rw e (process_decoded_tcp-IsFed _ x h)
        | inr e ↦ rw e h
      ]

  stop_on-IsFed :
      (o : Outcome) (p : Processor Ip N O) (r : Processor Ip N O × ReadEnd)
      → IsFed p
      → IsFed r.0
      → IsFed (stop_on calls o p r).0
  unfolding stop_on
  stop_on-IsFed ok p r s t = t
  stop_on-IsFed marshal_failed p r s t = s
  stop_on-IsFed publish_failed p r s t = s
  stop_on-IsFed discovery_failed p r s t = s

  pub read_frames-IsFed :
      (done_before : ℕ → Bool) (realtime : Bool) (p : Processor Ip N O) (previous : ℕ)
      (records : List (Record Ip))
      → IsFed p
      → IsFed (read_frames calls done_before realtime p previous records).0
  unfolding read_frames
  read_frames-IsFed done_before realtime p previous [] h = h
  read_frames-IsFed done_before realtime p previous (unreadable ∷ rs) h = h
  read_frames-IsFed done_before realtime p previous (frame timestamp layers ∷ rs) h =
      let now = process_frame-IsFed p timestamp layers h in
      elim (Bool-cases (wait_for_replay_time done_before realtime previous timestamp)) [
        | inr e ↦ rw e h
        | inl e ↦ rw e (
            stop_on-IsFed (process_frame calls p timestamp layers).1 _ _ now (
              read_frames-IsFed done_before realtime (process_frame calls p timestamp layers).0
                timestamp rs now))
      ]

  abbrev pub IsBegun : Option (Processor Ip N O × Outcome) → Type 0
  IsBegun none = Unit
  IsBegun (some (p, o)) = IsFed p

  pub new_processor-IsBegun :
      (opts : ProcessorOptions)
      → opts.publisher ≡ some accepts
      → P []
      → IsBegun (new_processor calls opts)
  unfolding new_processor
  new_processor-IsBegun opts fed h = elim (Option-cases (calls.parse_ip opts.source_ip)) [
    | inl a ↦ rw (IsBegun, new_processor, a) tt
    | inr (source_ip, a) ↦ elim (Option-cases (calls.parse_ip opts.cloud_ip)) [
      | inl b ↦ rw (IsBegun, new_processor, a, b) tt
      | inr (cloud_ip, b) ↦
          rw (IsBegun, new_processor, a, b)
            (bind-IsFed _ (plan_discovery calls) (plan_availability-IsFed _ (fed, h))
              plan_discovery-IsFed)
    ]
  ]

  abbrev pub IsFileFed : FileResult Ip N O → Type 0
  IsFileFed path_required = Unit
  IsFileFed open_failed = Unit
  IsFileFed invalid_address = Unit
  IsFileFed (start_failed o) = Unit
  IsFileFed (read q end) = IsFed q

  pub read_file-IsFileFed :
      (done_before : ℕ → Bool) (realtime : Bool) (opts : ProcessorOptions) (path : Bytes)
      (opened : Option (List (Record Ip)))
      → opts.publisher ≡ some accepts
      → P []
      → IsFileFed (read_file calls done_before realtime opts path opened)
  unfolding read_file
  read_file-IsFileFed done_before realtime opts path opened fed h =
      elim (Bool-cases (is_empty path)) [
        | inl e ↦ rw (IsFileFed, read_file, e) tt
        | inr e ↦ elim (Option-cases opened) [
          | inl a ↦ rw (IsFileFed, read_file, e, a) tt
          | inr (records, a) ↦
              let begun = new_processor-IsBegun opts fed h in
              elim (Option-cases (new_processor calls opts)) [
                | inl b ↦ rw (IsFileFed, read_file, e, a, b) tt
                | inr ((p, ok), b) ↦
                    let k = subst IsBegun b begun in
                    rw (IsFileFed, read_file, e, a, b)
                      (read_frames-IsFed done_before realtime p 0 records k)
                | inr ((p, marshal_failed), b) ↦ rw (IsFileFed, read_file, e, a, b) tt
                | inr ((p, publish_failed), b) ↦ rw (IsFileFed, read_file, e, a, b) tt
                | inr ((p, discovery_failed), b) ↦ rw (IsFileFed, read_file, e, a, b) tt
              ]
        ]
      ]
